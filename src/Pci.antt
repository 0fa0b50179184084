-- ===== src/Pci.antt =====
-- The enumeration of graphics devices, libdrm_device.cpp: the entries of /dev/graphics with the bus and
-- device numbers in their names, and the PCI devices that the poke driver tells one by one.
pub mod Lookup
pub mod Devices
pub mod Find
pub mod Poke
pub mod Nodes
pub mod Free
pub mod Collect
mod Tests
