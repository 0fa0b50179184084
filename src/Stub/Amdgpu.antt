-- ===== src/Stub/Amdgpu.antt =====
-- The commands of the amdgpu driver other than queries: `HandleAmdgpuIoctl` of stub/libdrmStub.cpp.
use libdrm.Base.{ℕ, ◌==◌, Option, if◌then◌else◌, add32, add64, Ret, ok, err, failure}
use libdrm.Cs.Context.{CtxArgs, op_alloc_ctx, op_free_ctx, op_query_state, op_query_state2}
use libdrm.Stub.Buffers.{Buffers, create_gpu_buffer, map_gpu_buffer, unmap_gpu_buffer}

-- The two counters, which are static variables that start at 1.
pub record Counters : Type 0 where
  pub new_ctx : ℕ
  pub handle : ℕ

-- `in` of `union drm_amdgpu_gem_create`, and `struct drm_amdgpu_gem_va`.
pub record GemCreate : Type 0 where
  pub bo_size : ℕ
  pub alignment : ℕ
  pub domains : ℕ
  pub domain_flags : ℕ

pub record GemVa : Type 0 where
  pub handle : ℕ
  pub operation : ℕ
  pub flags : ℕ
  pub va_address : ℕ
  pub offset_in_bo : ℕ
  pub map_size : ℕ

-- AMDGPU_VA_OP_MAP and AMDGPU_VA_OP_UNMAP.
abbrev pub va_op_map : ℕ
va_op_map = 1

abbrev pub va_op_unmap : ℕ
va_op_unmap = 2

-- The two queries leave the words as the caller filled them.
unfoldable pub ctx_stub : Counters → CtxArgs → Ret × CtxArgs × Counters
ctx_stub s a =
    if a.op == op_alloc_ctx
    then (ok, record a { op = s.new_ctx }, record s { new_ctx = add32 s.new_ctx 1 })
    else if a.op == op_free_ctx
    then (ok, a, s)
    else if a.op == op_query_state
    then (ok, a, s)
    else if a.op == op_query_state2
    then (ok, a, s)
    else (err failure, a, s)

unfoldable pub gem_create_stub : Buffers → (area : Option ℕ) → GemCreate → Ret × Option ℕ × Buffers
unfolding create_gpu_buffer
gem_create_stub s area a = create_gpu_buffer s area a.bo_size a.alignment a.domains a.domain_flags

unfoldable pub gem_va_stub : Buffers → GemVa → Ret × Buffers
unfolding map_gpu_buffer unmap_gpu_buffer
gem_va_stub s a =
    if a.operation == va_op_map
    then map_gpu_buffer s a.handle a.flags a.va_address a.offset_in_bo a.map_size
    else if a.operation == va_op_unmap
    then unmap_gpu_buffer s a.handle a.flags a.va_address a.offset_in_bo a.map_size
    else (err failure, s)

-- The result is `out.addr_ptr`.
unfoldable pub gem_mmap_stub : (handle : ℕ) → Ret × ℕ
gem_mmap_stub handle = (ok, handle)

-- The loop over the chunks reads them only; the result is `out.handle`.
unfoldable pub cs_stub : Counters → Ret × ℕ × Counters
cs_stub s = (ok, s.handle, record s { handle = add64 s.handle 1 })

-- The result is `out.status`, which is 0 for a fence that has passed.
unfoldable pub wait_cs_stub : Counters → Ret × ℕ
wait_cs_stub s = (ok, 0)
