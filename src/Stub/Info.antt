-- ===== src/Stub/Info.antt =====
-- The queries about the GPU, DRM_AMDGPU_INFO of `HandleAmdgpuIoctl` in stub/libdrmStub.cpp, and
-- `drmAmdgpuReadMmrReg`.
use libdrm.Base.{
  ℕ, zero, suc, Option, none, some, List, [], ◌∷◌, Assoc, find, replicate, add32, Ret, ok, err,
  failure,
}
use libdrm.Gpu.Query.{
  DevInfo, no_device, MemoryInfo, Firmware, HwIp, accel_working, dev_info, vram_gtt, vram_usage,
  vis_vram_usage, gtt_usage, memory, gds_config, crtc_from_id, hw_ip_count, hw_ip_info, fw_version,
  read_mmr_reg, sensor, video_caps, Driver,
}

-- The registers with their values.
abbrev pub mmr_regs : Assoc ℕ
mmr_regs =
    (0x263d, 0x1)
    ∷ (0xa0d4, 0x1240)
    ∷ (0x263e, 0x1201_0002)
    ∷ (0x2644, 0x3a_0112)
    ∷ (0x2645, 0x3a_0912)
    ∷ (0x2646, 0x3a_1112)
    ∷ (0x2647, 0x21_2912)
    ∷ (0x2648, 0x10a)
    ∷ (0x2649, 0x11_1912)
    ∷ (0x264a, 0x12_1112)
    ∷ (0x264b, 0x2_2112)
    ∷ (0x264c, 0x4)
    ∷ (0x264d, 0x108)
    ∷ (0x264e, 0x3a_1110)
    ∷ (0x264f, 0x35_1110)
    ∷ (0x2650, 0x34_1910)
    ∷ (0x2651, 0x109)
    ∷ (0x2652, 0x36_1111)
    ∷ (0x2653, 0x35_1111)
    ∷ (0x2654, 0x34_1911)
    ∷ (0x2655, 0x34_2911)
    ∷ (0x2656, 0x10d)
    ∷ (0x2657, 0x34_2921)
    ∷ (0x2658, 0x34_291d)
    ∷ (0x2659, 0x22_1111)
    ∷ (0x265a, 0x21_1111)
    ∷ (0x265b, 0x12_1111)
    ∷ (0x265c, 0x11_1911)
    ∷ (0x265d, 0x2_2111)
    ∷ (0x265e, 0x2_2111)
    ∷ (0x265f, 0x2_2111)
    ∷ (0x2660, 0x2_2111)
    ∷ (0x2661, 0x2_2111)
    ∷ (0x2662, 0x1_2911)
    ∷ (0x2663, 0)
    ∷ (0x9d8, 0x262)
    ∷ []

unfoldable pub amdgpu_read_mmr_reg : ℕ → Option ℕ
amdgpu_read_mmr_reg offset = find mmr_regs offset

-- The values that the loop writes before it ends or a register is refused.
unfoldable pub read_mmr_regs : (offset count : ℕ) → Ret × List ℕ
unfolding amdgpu_read_mmr_reg
read_mmr_regs offset zero = (ok, [])
read_mmr_regs offset (suc n) = elim (amdgpu_read_mmr_reg offset) [
  | none ↦ (err failure, [])
  | some v ↦ let (r, vs) = read_mmr_regs (add32 offset 1) n in (r, v ∷ vs)
]

unfoldable pub stub_device : DevInfo
stub_device = record no_device {
  device_id = 0x683f;
  chip_rev = 0x1;
  external_rev = 0x29;
  pci_rev = 0x87;
  family = 110;
  num_shader_engines = 1;
  num_shader_arrays_per_engine = 2;
  gpu_counter_freq = 0x6978;
  max_engine_clock = 0xc_3500;
  max_memory_clock = 0x11_2a88;
  cu_active_number = 0x8;
  cu_ao_mask = 0x1e1e;
  cu_bitmap = 0x1e ∷ 0x1e ∷ replicate 14 0;
  enabled_rb_pipes_mask = 0xf;
  num_rb_pipes = 0x4;
  num_hw_gfx_contexts = 0x8;
  virtual_address_offset = 0x20_0000;
  virtual_address_max = 0xf_ffe0_0000;
  virtual_address_alignment = 0x1000;
  pte_fragment_size = 0x20_0000;
  gart_page_size = 0x1000;
  ce_ram_size = 0x8000;
  vram_type = 0x5;
  vram_bit_width = 0x80;
  num_shader_visible_vgprs = 0x100;
  num_cu_per_sh = 0x5;
  num_tcc_blocks = 0x4;
  max_gs_waves_per_vgt = 0x20;
  cu_ao_bitmap = 0x1e ∷ 0x1e ∷ replicate 14 0;
}

unfoldable pub stub_memory : MemoryInfo
stub_memory = record {
  vram = record {
    total_heap_size = 0x8000_0000;
    usable_heap_size = 0x7e38_0000;
    heap_usage = 0x266_4000;
    max_allocation = 0x5eaa_0000;
  };
  cpu_accessible_vram = record {
    total_heap_size = 0x1000_0000;
    usable_heap_size = 0xf37_8000;
    heap_usage = 0x129_0000;
    max_allocation = 0xb69_a000;
  };
  gtt = record {
    total_heap_size = 0xc000_0000;
    usable_heap_size = 0xbfdd_d000;
    heap_usage = 0xce_1000;
    max_allocation = 0x8fe6_5c00;
  };
}

-- AMDGPU_INFO_FW_GFX_ME, _MEC, _PFP, _CE, _UVD and _VCE.
unfoldable pub stub_firmware : (fw_type : ℕ) → Option Firmware
stub_firmware fw_type =
    find
      ((0x4, record { ver = 0x91; feature = 0x1d })
        ∷ (0x8, record { ver = 0; feature = 0 })
        ∷ (0x5, record { ver = 0x54; feature = 0x1d })
        ∷ (0x6, record { ver = 0x3d; feature = 0x1d })
        ∷ (0x2, record { ver = 0x4000_0d00; feature = 0 })
        ∷ (0x1, record { ver = 0; feature = 0 })
        ∷ [])
      fw_type

abbrev hw_ip : (major minor start_alignment size_alignment rings : ℕ) → Option HwIp
hw_ip major minor start_alignment size_alignment rings = some (record {
  hw_ip_version_major = major;
  hw_ip_version_minor = minor;
  capabilities_flags = 0;
  ib_start_alignment = start_alignment;
  ib_size_alignment = size_alignment;
  available_rings = rings;
})

-- AMDGPU_HW_IP_GFX to _VCN_JPEG: the inner `none` is a success that writes nothing.
unfoldable pub stub_hw_ip : (type : ℕ) → Option (Option HwIp)
stub_hw_ip type =
    find
      ((0, hw_ip 0x6 0 0x20 0x20 1)
        ∷ (1, hw_ip 0x6 0 0x20 0x20 3)
        ∷ (2, hw_ip 0x1 0 0x100 0x4 3)
        ∷ (3, hw_ip 0x3 0x1 0x40 0x40 1)
        ∷ (4, none)
        ∷ (5, hw_ip 0x3 0x1 0x40 0x40 0)
        ∷ (6, none)
        ∷ (7, none)
        ∷ (8, none)
        ∷ [])
      type

abbrev refused : {A : Type 0} → Ret × Option A
refused = (err failure, none)

abbrev found : {A : Type 0} → Option A → Ret × Option A
found none = (err failure, none)
found (some v) = (ok, some v)

-- The case AMDGPU_INFO_FW_TA has the number of AMDGPU_INFO_GDS_CONFIG.
unfoldable pub info_stub : Driver
unfolding read_mmr_regs stub_device stub_memory stub_firmware stub_hw_ip
info_stub accel_working = (ok, some 1)
info_stub dev_info = (ok, some stub_device)
info_stub vram_gtt = (ok, none)
info_stub vram_usage = (ok, none)
info_stub vis_vram_usage = (ok, none)
info_stub gtt_usage = (ok, none)
info_stub memory = (ok, some stub_memory)
info_stub gds_config = (ok, none)
info_stub (crtc_from_id id) = refused
info_stub (hw_ip_count type) = refused
info_stub (hw_ip_info type ip_instance) = elim (stub_hw_ip type) [
  | none ↦ refused
  | some w ↦ (ok, w)
]
info_stub (fw_version fw_type ip_instance index) = found (stub_firmware fw_type)
info_stub (read_mmr_reg dword_offset count instance flags) =
    let (r, vs) = read_mmr_regs dword_offset count in (r, some vs)
info_stub (sensor type) = refused
info_stub (video_caps type) = refused
