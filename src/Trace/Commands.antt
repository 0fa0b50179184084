-- ===== src/Trace/Commands.antt =====
-- The commands of the amdgpu driver as they are printed before and after they run:
-- `drmAmdgpuWriteCmd`. `arg` is the address of the command's argument.
use Prim.Native.String.{String}
use libdrm.Base.{ℕ, ◌+◌, ◌==◌, List, [], ◌∷◌, if◌then◌else◌}
use libdrm.Trace.Output.{M, ◌>>=◌, ◌>>◌, nothing, say, print, load, u32, u64, choose, show}
use libdrm.Trace.Flags.{domains, domain_flags, write_flags}
use libdrm.Trace.Post.{write_info_answer}
use libdrm.Trace.Chunks.{write_cs}

-- After DRM_AMDGPU_GEM_CREATE, GEM_MMAP, INFO, CTX, CS, WAIT_CS and GEM_USERPTR. The case of WAIT_CS
-- runs on into that of GEM_USERPTR.
unfoldable pub write_amdgpu_answer : (cmd arg : ℕ) → M (Unit {0})
unfolding show write_info_answer load
write_amdgpu_answer cmd arg =
    if cmd == 0x00
    then show arg " -> %d" ((0, 4) ∷ [])
    else if cmd == 0x01
    then show arg " -> %#lx" ((0, 8) ∷ [])
    else if cmd == 0x05
    then (do query ← u32 (arg + 12); write_info_answer arg query)
    else if cmd == 0x02
    then show arg " -> %PRIu32" ((0, 4) ∷ [])
    else if cmd == 0x04
    then show arg " -> %PRIu64" ((0, 8) ∷ [])
    else if cmd == 0x09
    then (do show arg " -> %PRIu64" ((0, 8) ∷ []); show arg " -> %PRIu32" ((20, 4) ∷ []))
    else if cmd == 0x11
    then show arg " -> %PRIu32" ((20, 4) ∷ [])
    else nothing

-- `union drm_amdgpu_gem_create`.
unfoldable pub write_gem_create : ℕ → M (Unit {0})
unfolding show load write_flags
write_gem_create arg = do
  show arg "(bo_size: %#PRIx64, alignment: %#PRIx64, domains: " ((0, 8) ∷ (8, 8) ∷ [])
  say "{"
  heaps ← u64 (arg + 16)
  write_flags domains heaps
  say "}"
  say ", domain_flags: "
  say "{"
  flags ← u64 (arg + 24)
  write_flags domain_flags flags
  say "}"
  say ")"

unfoldable pub write_ctx : ℕ → M (Unit {0})
unfolding show choose load
write_ctx arg = do
  say "(op: "
  op ← u32 arg
  choose ((1, "ALLOC") ∷ (2, "FREE") ∷ (3, "QUERY_STATE") ∷ (4, "QUERY_STATE2") ∷ []) nothing op
  show arg ", flags: %#PRIx32" ((4, 4) ∷ [])
  show arg ", ctx_id: %PRIu32" ((8, 4) ∷ [])
  show arg ", priority: %PRId32)" ((12, 4) ∷ [])

abbrev pub ip_texts : List (ℕ × String)
ip_texts =
    (0, "GFX")
    ∷ (1, "COMPUTE")
    ∷ (2, "DMA")
    ∷ (3, "UVD")
    ∷ (4, "VCE")
    ∷ (5, "UVD_ENC")
    ∷ (6, "VCN_DEC")
    ∷ (7, "VCN_ENC")
    ∷ (8, "VCN_JPEG")
    ∷ (9, "NUM")
    ∷ []

unfoldable pub write_query_hw_ip : ℕ → M (Unit {0})
unfolding show choose load
write_query_hw_ip arg = do
  say "(type: "
  type ← u32 (arg + 16)
  choose ip_texts (print "?(%#PRIx32)" (type ∷ [])) type
  show arg ", ip_instance: %PRIu32)" ((20, 4) ∷ [])

abbrev pub firmware_texts : List (ℕ × String)
firmware_texts =
    (0x1, "VCE")
    ∷ (0x2, "UVD")
    ∷ (0x3, "GMC")
    ∷ (0x4, "GFX_ME")
    ∷ (0x5, "GFX_PFP")
    ∷ (0x6, "GFX_CE")
    ∷ (0x7, "GFX_RLC")
    ∷ (0x8, "GFX_MEC")
    ∷ (0xa, "SMC")
    ∷ (0xb, "SDMA")
    ∷ (0xc, "SOS")
    ∷ (0xd, "ASD")
    ∷ (0xe, "VCN")
    ∷ (0xf, "GFX_RLC_RESTORE_LIST_CNTL")
    ∷ (0x10, "GFX_RLC_RESTORE_LIST_GPM_MEM")
    ∷ (0x11, "GFX_RLC_RESTORE_LIST_SRM_MEM")
    ∷ []

unfoldable pub write_query_fw : ℕ → M (Unit {0})
unfolding show choose load
write_query_fw arg = do
  say "(type: "
  type ← u32 (arg + 16)
  choose firmware_texts (print "?(%#PRIx32)" (type ∷ [])) type
  show arg ", ip_instance: %PRIu32" ((20, 4) ∷ [])
  show arg ", index: %PRIu32" ((24, 4) ∷ [])
  say ")"

unfoldable pub write_read_mmr_reg : ℕ → M (Unit {0})
unfolding show
write_read_mmr_reg arg = do
  show arg "(dword_offset: %#PRIx32" ((16, 4) ∷ [])
  show arg ", count: %#PRIx32" ((20, 4) ∷ [])
  show arg ", instance: %#PRIx32" ((24, 4) ∷ [])
  show arg ", flags: %#PRIx32" ((28, 4) ∷ [])
  say ")"

-- The queries that are printed by name; a query of another number is not printed.
abbrev pub query_texts : List (ℕ × String)
query_texts =
    (0x00, "AMDGPU_INFO_ACCEL_WORKING")
    ∷ (0x01, "AMDGPU_INFO_CRTC_FROM_ID")
    ∷ (0x02, "AMDGPU_INFO_HW_IP_INFO")
    ∷ (0x03, "AMDGPU_INFO_HW_IP_COUNT")
    ∷ (0x05, "AMDGPU_INFO_TIMESTAMP")
    ∷ (0x0e, "AMDGPU_INFO_FW_VERSION")
    ∷ (0x0f, "AMDGPU_INFO_NUM_BYTES_MOVED")
    ∷ (0x10, "AMDGPU_INFO_VRAM_USAGE")
    ∷ (0x11, "AMDGPU_INFO_GTT_USAGE")
    ∷ (0x13, "AMDGPU_INFO_GDS_CONFIG")
    ∷ (0x14, "AMDGPU_INFO_VRAM_GTT")
    ∷ (0x15, "AMDGPU_INFO_READ_MMR_REG")
    ∷ (0x16, "AMDGPU_INFO_DEV_INFO")
    ∷ (0x17, "AMDGPU_INFO_VIS_VRAM_USAGE")
    ∷ (0x18, "AMDGPU_INFO_NUM_EVICTIONS")
    ∷ (0x19, "AMDGPU_INFO_MEMORY")
    ∷ (0x1a, "AMDGPU_INFO_VCE_CLOCK_TABLE")
    ∷ (0x1b, "AMDGPU_INFO_VBIOS")
    ∷ (0x1c, "AMDGPU_INFO_NUM_HANDLES")
    ∷ (0x1d, "AMDGPU_INFO_SENSOR")
    ∷ (0x1e, "AMDGPU_INFO_NUM_VRAM_CPU_PAGE_FAULTS")
    ∷ (0x1f, "AMDGPU_INFO_VRAM_LOST_COUNTER")
    ∷ (0x20, "AMDGPU_INFO_RAS_ENABLED_FEATURES")
    ∷ (0x21, "AMDGPU_INFO_VIDEO_CAPS")
    ∷ []

unfoldable pub write_info : ℕ → M (Unit {0})
unfolding choose load write_query_hw_ip write_query_fw write_read_mmr_reg
write_info arg = do
  say "(query: "
  query ← u32 (arg + 12)
  choose query_texts nothing query
  if query == 0x02
      then write_query_hw_ip arg
      else if query == 0x0e
      then write_query_fw arg
      else if query == 0x15
      then write_read_mmr_reg arg
      else nothing
  say ")"

unfoldable pub write_gem_va : ℕ → M (Unit {0})
unfolding show choose load
write_gem_va arg = do
  show arg "(handle: %PRIu32" ((0, 4) ∷ [])
  say ", operation: "
  operation ← u32 (arg + 8)
  choose ((1, "MAP") ∷ (2, "UNMAP") ∷ (3, "CLEAR") ∷ (4, "REPLACE") ∷ []) nothing operation
  show arg ", flags: %#PRIx32" ((12, 4) ∷ [])
  show arg ", va_address: %#PRIx64" ((16, 8) ∷ [])
  show arg ", offset_in_bo: %#PRIx64" ((24, 8) ∷ [])
  show arg ", map_size: %#PRIx64)" ((32, 8) ∷ [])

unfoldable pub write_wait_cs : ℕ → M (Unit {0})
unfolding show
write_wait_cs arg = do
  show arg "(handle: %PRIu64" ((0, 8) ∷ [])
  show arg ", timeout: %PRIu64" ((8, 8) ∷ [])
  show arg ", ip_type: %PRIu32" ((16, 4) ∷ [])
  show arg ", ip_instance: %PRIu32" ((20, 4) ∷ [])
  show arg ", ring: %PRIu32" ((24, 4) ∷ [])
  show arg ", ctx_id: %PRIu32)" ((28, 4) ∷ [])

unfoldable pub write_gem_userptr : ℕ → M (Unit {0})
unfolding show
write_gem_userptr arg = do
  show arg "(addr: %PRIu64" ((0, 8) ∷ [])
  show arg ", size: %PRIu64" ((8, 8) ∷ [])
  show arg ", flags: %PRIu32)" ((16, 4) ∷ [])

abbrev pub command_texts : List (ℕ × String)
command_texts =
    (0x00, "AMDGPU_GEM_CREATE")
    ∷ (0x01, "AMDGPU_GEM_MMAP")
    ∷ (0x02, "AMDGPU_CTX")
    ∷ (0x03, "AMDGPU_BO_LIST")
    ∷ (0x04, "AMDGPU_CS")
    ∷ (0x05, "AMDGPU_INFO")
    ∷ (0x06, "AMDGPU_GEM_METADATA")
    ∷ (0x07, "AMDGPU_GEM_WAIT_IDLE")
    ∷ (0x08, "AMDGPU_GEM_VA")
    ∷ (0x09, "AMDGPU_WAIT_CS")
    ∷ (0x10, "AMDGPU_GEM_OP")
    ∷ (0x11, "AMDGPU_GEM_USERPTR")
    ∷ (0x12, "AMDGPU_WAIT_FENCES")
    ∷ (0x13, "AMDGPU_VM")
    ∷ (0x14, "AMDGPU_FENCE_TO_HANDLE")
    ∷ (0x15, "DRM_AMDGPU_SCHED")
    ∷ []

-- The part of a command that follows its name.
unfoldable pub write_amdgpu_args : (cmd arg : ℕ) → M (Unit {0})
unfolding write_gem_create show write_ctx write_cs write_info write_gem_va write_wait_cs
    write_gem_userptr
write_amdgpu_args cmd arg =
    if cmd == 0x00
    then write_gem_create arg
    else if cmd == 0x01
    then show arg "(%d)" ((0, 4) ∷ [])
    else if cmd == 0x02
    then write_ctx arg
    else if cmd == 0x04
    then write_cs arg
    else if cmd == 0x05
    then write_info arg
    else if cmd == 0x08
    then write_gem_va arg
    else if cmd == 0x09
    then write_wait_cs arg
    else if cmd == 0x11
    then write_gem_userptr arg
    else nothing

unfoldable pub write_amdgpu_cmd : (cmd arg : ℕ) → M (Unit {0})
unfolding choose write_amdgpu_args
write_amdgpu_cmd cmd arg = do
  choose command_texts (print "?(%#lx)" (cmd ∷ [])) cmd
  write_amdgpu_args cmd arg
