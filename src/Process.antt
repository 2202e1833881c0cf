-- ===== src/Process.antt =====
-- kernel/src/process.rs: the memory map of a process, its address-space generation with the pins that
-- hold it, and the process table.
pub mod Memory
pub mod AddressSpace
pub mod Table
mod Tests
