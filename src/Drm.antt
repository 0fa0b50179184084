-- ===== src/Drm.antt =====
-- The calls of libdrm_common.c, each of which fills in the argument of one ioctl and reads the answer
-- from it, and the drmCommand functions.
pub mod Args
pub mod Syncobj
pub mod Device
pub mod Command
pub mod Utils
