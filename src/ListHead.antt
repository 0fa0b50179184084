-- ===== src/ListHead.antt =====
-- The doubly linked rings of amdgpu/util_double_list.h, which hold the address holes and the waiting
-- semaphores.
pub mod Ring
pub mod Refine
mod Tests
