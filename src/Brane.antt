-- ===== src/Brane.antt =====
-- The brane protocol: the packets of kernel/src/brane_session.rs, the session that runs over them,
-- and the manager of kernel/src/brane.rs.
pub mod Wire
pub mod Session
pub mod Manager
pub mod Discovery
mod Tests
