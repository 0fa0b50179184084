-- ===== src/AsicId.antt =====
-- The marketing name of a GPU, amdgpu/amdgpu_asic_id.c: the table amdgpu.ids, which is looked through
-- line by line. A text is the list of its bytes, without the terminator.
pub mod Text
pub mod Parse
pub mod Table
pub mod Lookup
mod Tests
