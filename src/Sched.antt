-- ===== src/Sched.antt =====
-- kernel/src/sched.rs: the run queue of one CPU, and the scheduler over all of them.
pub mod RunQueue
pub mod MultiCore
mod Tests
