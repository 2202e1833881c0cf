-- ===== src/Syscall.antt =====
-- kernel/src/syscall.rs, the syscall ABI and its mediation.
pub mod Status
pub mod Abi
pub mod Number
pub mod Rules
pub mod Policy
pub mod UserRange
pub mod Authorize
pub mod Kernel
pub mod Handlers
pub mod Dispatch
mod Tests
