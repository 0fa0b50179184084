-- ===== src/Trace/Post.antt =====
-- What is printed of the answer of a query: the case DRM_AMDGPU_INFO of `drmAmdgpuWriteCmd`.
use Prim.Native.String.{String}
use libdrm.Base.{Bool, ℕ, zero, suc, ◌+◌, ◌*◌, ◌==◌, ◌||◌, List, [], ◌∷◌, if◌then◌else◌}
use libdrm.Trace.Output.{
  M, ◌>>=◌, ◌>>◌, nothing, say, print, load, u32, u64, Field, f32, f64, write_fields,
}

-- `drmAmdgpuWriteHeapInfo`, and the three calls of it for `struct drm_amdgpu_memory_info`.
unfoldable pub heap_fields : ℕ → List Field
heap_fields base =
    f64 base "    total_heap_size: %#PRIx64\n"
    ∷ f64 (base + 8) "    usable_heap_size: %#PRIx64\n"
    ∷ f64 (base + 16) "    heap_usage: %#PRIx64\n"
    ∷ f64 (base + 24) "    max_allocation: %#PRIx64\n"
    ∷ []

unfoldable pub write_memory_info : ℕ → M (Unit {0})
unfolding heap_fields write_fields
write_memory_info meminfo = do
  say " -> (\n"
  say "  vram: (\n"
  write_fields meminfo (heap_fields 0)
  say "  )\n  cpu_accessible_vram: (\n"
  write_fields meminfo (heap_fields 32)
  say "  )\n  gtt: (\n"
  write_fields meminfo (heap_fields 64)
  say "  )\n"
  say ")"

-- `for (i = …) { if (i > 0) printf(", "); … }`, with the rounds left.
unfoldable pub commas : ℕ → ℕ → (ℕ → M (Unit {0})) → M (Unit {0})
commas zero i body = nothing
commas (suc n) i body = do if i == 0 then nothing else say ", "; body i; commas n (i + 1) body

abbrev pub print_at : ℕ → ℕ → Field → M (Unit {0})
print_at base i f = do v ← load f.bytes (base + i * f.bytes); print f.format (v ∷ [])

-- A 4 by 4 array of words.
unfoldable pub write_bitmap : ℕ → M (Unit {0})
unfolding commas load
write_bitmap base =
    commas 4 0
      (λ i. do say "("; commas 4 0 (λ j. print_at (base + 16 * i) j (f32 0 "%#x")); say ")")

unfoldable pub dev_fields_head : List Field
dev_fields_head =
    f32 0 "  device_id: %#x\n"
    ∷ f32 4 "  chip_rev: %#x\n"
    ∷ f32 8 "  external_rev: %#x\n"
    ∷ f32 12 "  pci_rev: %#x\n"
    ∷ f32 16 "  family: %#x\n"
    ∷ f32 20 "  num_shader_engines: %#x\n"
    ∷ f32 24 "  num_shader_arrays_per_engine: %#x\n"
    ∷ f32 28 "  gpu_counter_freq: %#x\n"
    ∷ f64 32 "  max_engine_clock: %#PRIx64\n"
    ∷ f64 40 "  max_memory_clock: %#PRIx64\n"
    ∷ f32 48 "  cu_active_number: %#x\n"
    ∷ f32 52 "  cu_ao_mask: %#x\n"
    ∷ []

unfoldable pub dev_fields_middle : List Field
dev_fields_middle =
    f32 120 "  enabled_rb_pipes_mask: %#x\n"
    ∷ f32 124 "  num_rb_pipes: %#x\n"
    ∷ f32 128 "  num_hw_gfx_contexts: %#x\n"
    ∷ f64 136 "  ids_flags: %#PRIx64\n"
    ∷ f64 144 "  virtual_address_offset: %#PRIx64\n"
    ∷ f64 152 "  virtual_address_max: %#PRIx64\n"
    ∷ f32 160 "  virtual_address_alignment: %#x\n"
    ∷ f32 164 "  pte_fragment_size: %#x\n"
    ∷ f32 168 "  gart_page_size: %#x\n"
    ∷ f32 172 "  ce_ram_size: %#x\n"
    ∷ f32 176 "  vram_type: %#x\n"
    ∷ f32 180 "  vram_bit_width: %#x\n"
    ∷ f32 184 "  vce_harvest_config: %#x\n"
    ∷ f32 188 "  gc_double_offchip_lds_buf: %#x\n"
    ∷ f64 192 "  prim_buf_gpu_addr: %#PRIx64\n"
    ∷ f64 200 "  pos_buf_gpu_addr: %#PRIx64\n"
    ∷ f64 208 "  cntl_sb_buf_gpu_addr: %#PRIx64\n"
    ∷ f64 216 "  param_buf_gpu_addr: %#PRIx64\n"
    ∷ f32 224 "  prim_buf_size: %#x\n"
    ∷ f32 228 "  pos_buf_size: %#x\n"
    ∷ f32 232 "  cntl_sb_buf_size: %#x\n"
    ∷ f32 236 "  param_buf_size: %#x\n"
    ∷ f32 240 "  wave_front_size: %#x\n"
    ∷ f32 244 "  num_shader_visible_vgprs: %#x\n"
    ∷ f32 248 "  num_cu_per_sh: %#x\n"
    ∷ f32 252 "  num_tcc_blocks: %#x\n"
    ∷ f32 256 "  gs_vgt_table_depth: %#x\n"
    ∷ f32 260 "  gs_prim_buffer_depth: %#x\n"
    ∷ f32 264 "  max_gs_waves_per_vgt: %#x\n"
    ∷ []

unfoldable pub dev_fields_tail : List Field
dev_fields_tail =
    f64 336 "  high_va_offset: %#PRIx64\n"
    ∷ f64 344 "  high_va_max: %#PRIx64\n"
    ∷ f32 352 "  pa_sc_tile_steering_override: %#x\n"
    ∷ f64 360 "  tcc_disabled_mask: %#PRIx64\n"
    ∷ []

unfoldable pub write_dev_info : ℕ → M (Unit {0})
unfolding dev_fields_head dev_fields_middle dev_fields_tail write_bitmap write_fields
write_dev_info info = do
  say " -> (\n"
  write_fields info dev_fields_head
  say "  cu_bitmap: ("
  write_bitmap (info + 56)
  say ")\n"
  write_fields info dev_fields_middle
  say "  cu_ao_bitmap: ("
  write_bitmap (info + 272)
  say ")\n"
  write_fields info dev_fields_tail
  say ")"

unfoldable pub hw_ip_fields : List Field
hw_ip_fields =
    f32 0 "  hw_ip_version_major: %#PRIx32\n"
    ∷ f32 4 "  hw_ip_version_minor: %#PRIx32\n"
    ∷ f64 8 "  capabilities_flags: %#PRIx64\n"
    ∷ f32 16 "  ib_start_alignment: %#PRIx32\n"
    ∷ f32 20 "  ib_size_alignment: %#PRIx32\n"
    ∷ f32 24 "  available_rings: %PRIu32\n"
    ∷ []

unfoldable pub firmware_fields : List Field
firmware_fields = f32 0 "ver: %#PRIx32" ∷ f32 4 ", feature: %#PRIx32" ∷ []

unfoldable pub gds_fields : List Field
gds_fields =
    f32 0 "  gds_gfx_partition_size: %#PRIx32\n"
    ∷ f32 4 "  compute_partition_size: %#PRIx32\n"
    ∷ f32 8 "  gds_total_size: %#PRIx32\n"
    ∷ f32 12 "  gws_per_gfx_partition: %#PRIx32\n"
    ∷ f32 16 "  gws_per_compute_partition: %#PRIx32\n"
    ∷ f32 20 "  oa_per_gfx_partition: %#PRIx32\n"
    ∷ f32 24 "  oa_per_compute_partition: %#PRIx32\n"
    ∷ []

unfoldable pub vram_gtt_fields : List Field
vram_gtt_fields =
    f64 0 "  vram_size: %#PRIx64\n"
    ∷ f64 8 "  vram_cpu_accessible_size: %#PRIx64\n"
    ∷ f64 16 "  gtt_size: %#PRIx64\n"
    ∷ []

abbrev pub bracketed : String → M (Unit {0}) → M (Unit {0})
bracketed start body = do say start; body; say ")"

-- The queries in front of AMDGPU_INFO_MEMORY, whose cases run on into its case: CRTC_FROM_ID,
-- HW_IP_COUNT, TIMESTAMP, NUM_BYTES_MOVED, VRAM_USAGE, GTT_USAGE, VIS_VRAM_USAGE, NUM_EVICTIONS.
unfoldable pub runs_on : ℕ → Bool
runs_on q =
    (q == 0x01)
    || (q == 0x03)
    || (q == 0x05)
    || (q == 0x0f)
    || (q == 0x10)
    || (q == 0x11)
    || (q == 0x17)
    || (q == 0x18)

-- And those in front of VIDEO_CAPS: VCE_CLOCK_TABLE, VBIOS, NUM_HANDLES, SENSOR,
-- NUM_VRAM_CPU_PAGE_FAULTS, VRAM_LOST_COUNTER, RAS_ENABLED_FEATURES.
unfoldable pub not_printed : ℕ → Bool
not_printed q =
    (q == 0x1a)
    || (q == 0x1b)
    || (q == 0x1c)
    || (q == 0x1d)
    || (q == 0x1e)
    || (q == 0x1f)
    || (q == 0x20)
    || (q == 0x21)

-- `arg` is a `struct drm_amdgpu_info`: `return_pointer`, `return_size`, `query` and the query's own
-- part, of which `read_mmr_reg.count` is the second word.
unfoldable pub write_info_answer : (arg query : ℕ) → M (Unit {0})
unfolding write_dev_info hw_ip_fields firmware_fields gds_fields vram_gtt_fields commas
    write_memory_info write_fields load runs_on not_printed
write_info_answer arg query =
    let returned = λ (body : ℕ → M (Unit {0})). u64 arg >>= body in
    if query == 0x00
    then returned (λ p. do v ← u32 p; print " -> %d" (v ∷ []))
    else if query == 0x16
    then returned write_dev_info
    else if query == 0x02
    then returned (λ p. bracketed " -> (\n" (write_fields p hw_ip_fields))
    else if query == 0x0e
    then returned (λ p. bracketed " -> (" (write_fields p firmware_fields))
    else if query == 0x13
    then returned (λ p. bracketed " -> (\n" (write_fields p gds_fields))
    else if query == 0x14
    then returned (λ p. bracketed " -> (\n" (write_fields p vram_gtt_fields))
    else if query == 0x15
    then returned (λ p.
      bracketed " -> ("
        (do count ← u32 (arg + 20); commas count 0 (λ i. print_at p i (f32 0 "%#PRIx32"))))
    else if runs_on query || (query == 0x19)
    then returned write_memory_info
    else if not_printed query
    then say " -> ?"
    else nothing
