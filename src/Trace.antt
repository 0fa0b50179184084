-- ===== src/Trace.antt =====
-- Tracing of ioctls, libdrm_trace.c: what is printed for a command before and after it runs. The
-- memory behind the ioctl's argument is a partial map of bytes, so that a read past the end of a
-- struct is a fault.
pub mod Output
pub mod Flags
pub mod Post
pub mod Reads
pub mod Answer
pub mod Chunks
pub mod Commands
pub mod Drm
mod Tests
