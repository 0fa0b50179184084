-- ===== src/Device.antt =====
-- The device, amdgpu/amdgpu_device.c: the address managers that it starts with, and the list of open
-- devices, one for each accelerant, with their reference counts.
pub mod Ranges
pub mod Open
pub mod Undo
pub mod Vm
mod Tests
