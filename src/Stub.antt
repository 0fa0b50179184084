-- ===== src/Stub.antt =====
-- The driver of stub/: buffers and their mappings (stub/memory.cpp), the table of descriptors
-- (stub/fdMapper.cpp), and the ioctls that it answers (stub/libdrmStub.cpp). libdrm.cpp sends each
-- ioctl of the library to it.
pub mod Buffers
pub mod Fds
pub mod Ioctl
pub mod Info
pub mod Amdgpu
pub mod Laws
pub mod Session
pub mod Driver
pub mod Regs
pub mod Dump
pub mod Mapped
pub mod Translate
mod Tests
