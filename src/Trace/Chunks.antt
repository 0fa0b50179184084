-- ===== src/Trace/Chunks.antt =====
-- The chunks of a submission as they are printed: the case of AMDGPU_CS in `drmAmdgpuWriteCmd`.
use libdrm.Base.{ℕ, zero, suc, ◌+◌, ◌-◌, ◌*◌, ◌/◌, ◌==◌, [], ◌∷◌, if◌then◌else◌}
use libdrm.Trace.Output.{M, ◌>>=◌, ◌>>◌, nothing, say, print, load, u32, u64, show}
use libdrm.Trace.Post.{commas}

-- `struct drm_amdgpu_cs_chunk_ib` and `struct drm_amdgpu_cs_chunk_fence`.
unfoldable pub write_ib_chunk : ℕ → M (Unit {0})
unfolding show
write_ib_chunk ib = do
  say "IB"
  show ib
      "(flags: %#PRIx32, va_start: %#PRIx64, ib_bytes: %u, ip_type: %u, ip_instance: %u, ring: %u)"
      ((4, 4) ∷ (8, 8) ∷ (16, 4) ∷ (20, 4) ∷ (24, 4) ∷ (28, 4) ∷ [])

unfoldable pub write_fence_chunk : ℕ → M (Unit {0})
unfolding show
write_fence_chunk fence = do
  say "FENCE"
  show fence "(handle: %u, offset: %u)" ((0, 4) ∷ (4, 4) ∷ [])

-- `for (j = 0; j < length_dw; j += sizeof(…) / 4)`: the rounds, for entries of `dwords` words.
unfoldable pub entries : (dwords length_dw : ℕ) → ℕ
entries dwords length_dw = (length_dw + dwords - 1) / dwords

-- `struct drm_amdgpu_cs_chunk_dep`, of 24 bytes.
unfoldable pub write_dep : ℕ → M (Unit {0})
unfolding show
write_dep dep = do
  show dep "(ip_type: %PRIu32" ((0, 4) ∷ [])
  show dep ", ip_instance: %PRIu32" ((4, 4) ∷ [])
  show dep ", ring: %PRIu32" ((8, 4) ∷ [])
  show dep ", ctx_id: %PRIu32" ((12, 4) ∷ [])
  show dep ", handle: %PRIu64)" ((16, 8) ∷ [])

unfoldable pub write_deps_chunk : (deps length_dw : ℕ) → M (Unit {0})
unfolding entries write_dep commas
write_deps_chunk deps length_dw = do
  say "DEPENDENCIES"
  say "("
  commas (entries 6 length_dw) 0 (λ i. write_dep (deps + i * 24))
  say ")"

-- `struct drm_amdgpu_bo_list_in`; the handles are read as the first word of each entry.
unfoldable pub write_bo_handles_chunk : ℕ → M (Unit {0})
unfolding show commas load
write_bo_handles_chunk list = do
  say "BO_HANDLES"
  show list "(operation: %d, list_handle: %d, bo_number: %u, bo_info_size: %u, bo_info_ptr: %#lx("
      ((0, 4) ∷ (4, 4) ∷ (8, 4) ∷ (12, 4) ∷ (16, 8) ∷ [])
  number ← u32 (list + 8)
  size ← u32 (list + 12)
  infos ← u64 (list + 16)
  commas number 0 (λ i. do v ← u32 (infos + i * size); print "%d" (v ∷ []))
  say "))"

-- `struct drm_amdgpu_cs_chunk_syncobj`, of 16 bytes.
unfoldable pub write_syncobjs_chunk : (syncobjs length_dw : ℕ) → M (Unit {0})
unfolding show commas entries
write_syncobjs_chunk syncobjs length_dw = do
  say "("
  commas (entries 4 length_dw) 0 (λ i.
      show (syncobjs + i * 16) "(handle: %u, flags: %#x, point: %#lx)"
        ((0, 4) ∷ (4, 4) ∷ (8, 8) ∷ []))
  say ")"

-- The switch on `chunk_id`.
unfoldable pub write_chunk_body : (id length_dw chunk_data : ℕ) → M (Unit {0})
unfolding write_ib_chunk write_fence_chunk write_deps_chunk write_bo_handles_chunk
    write_syncobjs_chunk
write_chunk_body id length_dw chunk_data =
    if id == 1
    then write_ib_chunk chunk_data
    else if id == 2
    then write_fence_chunk chunk_data
    else if id == 3
    then write_deps_chunk chunk_data length_dw
    else if id == 4
    then say "SYNCOBJ_IN"
    else if id == 5
    then say "SYNCOBJ_OUT"
    else if id == 6
    then write_bo_handles_chunk chunk_data
    else if id == 7
    then say "SCHEDULED_DEPENDENCIES"
    else if id == 8
    then (do say "SYNCOBJ_TIMELINE_WAIT"; write_syncobjs_chunk chunk_data length_dw)
    else if id == 9
    then (do say "SYNCOBJ_TIMELINE_SIGNAL"; write_syncobjs_chunk chunk_data length_dw)
    else print "?(%u)" (id ∷ [])

unfoldable pub write_chunk : ℕ → M (Unit {0})
unfolding write_chunk_body load
write_chunk chunk = do
  id ← u32 chunk
  length_dw ← u32 (chunk + 4)
  chunk_data ← u64 (chunk + 8)
  say "  (id: "
  write_chunk_body id length_dw chunk_data
  print ", length: %u, data: %#PRIx64)\n" (length_dw ∷ chunk_data ∷ [])

-- The chunks are led to by an array of pointers.
unfoldable pub write_chunks : (number i chunks : ℕ) → M (Unit {0})
unfolding write_chunk load
write_chunks zero i chunks = nothing
write_chunks (suc n) i chunks = do
  chunk ← u64 (chunks + i * 8)
  write_chunk chunk
  write_chunks n (i + 1) chunks

-- `arg` is a `union drm_amdgpu_cs`.
unfoldable pub write_cs : ℕ → M (Unit {0})
unfolding show write_chunks load
write_cs arg = do
  show arg "(ctx_id: %PRIu32" ((0, 4) ∷ [])
  show arg ", bo_list_handle: %PRIu32" ((4, 4) ∷ [])
  show arg ", num_chunks: %PRIu32" ((8, 4) ∷ [])
  say ", chunks: (\n"
  number ← u32 (arg + 8)
  chunks ← u64 (arg + 16)
  write_chunks number 0 chunks
  say ")"
