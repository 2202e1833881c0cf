-- ===== src/Memory.antt =====
-- Physical memory: the frame allocator of kernel/src/memory/frame_allocator.rs.
pub mod Frames
mod Tests
