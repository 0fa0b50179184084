-- ===== src/Gpu/Query.antt =====
-- The queries of `struct drm_amdgpu_info`, and what the driver writes through `return_pointer`.
use libdrm.Base.{replicate, ℕ, Option, none, some, List, [], ◌∷◌, Ret}

-- `struct drm_amdgpu_info_device`, the fields that are read or written under amdgpu/ or stub/; a table
-- of four by four words is a list of its rows one after the other.
pub record DevInfo : Type 0 where
  pub device_id : ℕ
  pub chip_rev : ℕ
  pub external_rev : ℕ
  pub pci_rev : ℕ
  pub family : ℕ
  pub num_shader_engines : ℕ
  pub num_shader_arrays_per_engine : ℕ
  pub gpu_counter_freq : ℕ
  pub max_engine_clock : ℕ
  pub max_memory_clock : ℕ
  pub cu_active_number : ℕ
  pub cu_ao_mask : ℕ
  pub cu_bitmap : List ℕ
  pub enabled_rb_pipes_mask : ℕ
  pub num_rb_pipes : ℕ
  pub num_hw_gfx_contexts : ℕ
  pub ids_flags : ℕ
  pub virtual_address_offset : ℕ
  pub virtual_address_max : ℕ
  pub virtual_address_alignment : ℕ
  pub pte_fragment_size : ℕ
  pub gart_page_size : ℕ
  pub ce_ram_size : ℕ
  pub vram_type : ℕ
  pub vram_bit_width : ℕ
  pub vce_harvest_config : ℕ
  pub num_shader_visible_vgprs : ℕ
  pub num_cu_per_sh : ℕ
  pub num_tcc_blocks : ℕ
  pub max_gs_waves_per_vgt : ℕ
  pub cu_ao_bitmap : List ℕ
  pub high_va_offset : ℕ
  pub high_va_max : ℕ

-- The structure after memset.
abbrev pub no_device : DevInfo
no_device = record {
  device_id = 0;
  chip_rev = 0;
  external_rev = 0;
  pci_rev = 0;
  family = 0;
  num_shader_engines = 0;
  num_shader_arrays_per_engine = 0;
  gpu_counter_freq = 0;
  max_engine_clock = 0;
  max_memory_clock = 0;
  cu_active_number = 0;
  cu_ao_mask = 0;
  cu_bitmap = replicate 16 0;
  enabled_rb_pipes_mask = 0;
  num_rb_pipes = 0;
  num_hw_gfx_contexts = 0;
  ids_flags = 0;
  virtual_address_offset = 0;
  virtual_address_max = 0;
  virtual_address_alignment = 0;
  pte_fragment_size = 0;
  gart_page_size = 0;
  ce_ram_size = 0;
  vram_type = 0;
  vram_bit_width = 0;
  vce_harvest_config = 0;
  num_shader_visible_vgprs = 0;
  num_cu_per_sh = 0;
  num_tcc_blocks = 0;
  max_gs_waves_per_vgt = 0;
  cu_ao_bitmap = replicate 16 0;
  high_va_offset = 0;
  high_va_max = 0;
}

pub record VramGtt : Type 0 where
  pub vram_size : ℕ
  pub vram_cpu_accessible_size : ℕ
  pub gtt_size : ℕ

-- `struct drm_amdgpu_heap_info`.
pub record Heap : Type 0 where
  pub total_heap_size : ℕ
  pub usable_heap_size : ℕ
  pub heap_usage : ℕ
  pub max_allocation : ℕ

pub record MemoryInfo : Type 0 where
  pub vram : Heap
  pub cpu_accessible_vram : Heap
  pub gtt : Heap

pub record Firmware : Type 0 where
  pub ver : ℕ
  pub feature : ℕ

pub record HwIp : Type 0 where
  pub hw_ip_version_major : ℕ
  pub hw_ip_version_minor : ℕ
  pub capabilities_flags : ℕ
  pub ib_start_alignment : ℕ
  pub ib_size_alignment : ℕ
  pub available_rings : ℕ

pub record Gds : Type 0 where
  pub gds_gfx_partition_size : ℕ
  pub compute_partition_size : ℕ
  pub gds_total_size : ℕ
  pub gws_per_gfx_partition : ℕ
  pub gws_per_compute_partition : ℕ
  pub oa_per_gfx_partition : ℕ
  pub oa_per_compute_partition : ℕ

-- AMDGPU_INFO_*, with the fields of the request that the query reads.
pub data Query : Type 0 where
  accel_working dev_info vram_gtt vram_usage vis_vram_usage gtt_usage memory gds_config : Query
  crtc_from_id : (id : ℕ) → Query
  hw_ip_count : (type : ℕ) → Query
  hw_ip_info : (type ip_instance : ℕ) → Query
  fw_version : (fw_type ip_instance index : ℕ) → Query
  read_mmr_reg : (dword_offset count instance flags : ℕ) → Query
  sensor : (type : ℕ) → Query
  video_caps : (type : ℕ) → Query

abbrev pub Answer : Query → Type 0
Answer accel_working = ℕ
Answer dev_info = DevInfo
Answer vram_gtt = VramGtt
Answer vram_usage = ℕ
Answer vis_vram_usage = ℕ
Answer gtt_usage = ℕ
Answer memory = MemoryInfo
Answer gds_config = Gds
Answer (crtc_from_id id) = ℕ
Answer (hw_ip_count type) = ℕ
Answer (hw_ip_info type ip_instance) = HwIp
Answer (fw_version fw_type ip_instance index) = Firmware
Answer (read_mmr_reg dword_offset count instance flags) = List ℕ
Answer (sensor type) = List ℕ
Answer (video_caps type) = List ℕ

-- AmdgpuQueryInfo: the result, and what was written, if anything was.
abbrev pub Driver : Type 0
Driver = (q : Query) → Ret × Option (Answer q)

-- The memory that an answer is written to.
abbrev pub written : {A : Type 0} → A → Option A → A
written old none = old
written old (some new) = new

-- One word, and an array whose first words are written.
abbrev pub word : ℕ → Option (List ℕ) → ℕ
word old none = old
word old (some []) = old
word old (some (v ∷ vs)) = v

abbrev pub overwrite : List ℕ → List ℕ → List ℕ
overwrite [] new = []
overwrite (x ∷ xs) [] = x ∷ xs
overwrite (x ∷ xs) (y ∷ ys) = y ∷ overwrite xs ys

abbrev pub words : List ℕ → Option (List ℕ) → List ℕ
words old none = old
words old (some new) = overwrite old new
