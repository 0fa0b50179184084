-- ===== src/Gpu.antt =====
-- What the driver tells about the GPU, amdgpu/amdgpu_gpu_info.c: the queries with the types of their
-- answers, the calls that make one query, and amdgpu_query_gpu_info_init.
pub mod Query
pub mod Calls
pub mod Init
pub mod Plan
mod Tests
