-- ===== src/Ipc.antt =====
-- kernel/src/ipc.rs, message passing between tasks: messages, the ring of pending messages of each
-- task, and the manager that routes a message to its receiver's ring.
pub mod Message
pub mod Queue
pub mod Manager
mod Tests
