-- ===== src/Gpu/Init.antt =====
-- `amdgpu_query_gpu_info_init`: the device's information from the driver's, and from its registers.
use libdrm.Base.{
  ℕ, zero, suc, ◌/◌, ◌%◌, ◌^◌, bit_or, Option, none, some, List, get_or, set, if◌then◌else◌, ltb,
  leb, Ret, ok, err, einval, Bool,
}
use libdrm.Gpu.Query.{DevInfo, dev_info, read_mmr_reg, Driver, written, word, words}

-- `struct amdgpu_gpu_info`, without the fields that nothing sets.
pub record GpuInfo : Type 0 where
  pub asic_id : ℕ
  pub chip_rev : ℕ
  pub chip_external_rev : ℕ
  pub family_id : ℕ
  pub ids_flags : ℕ
  pub max_engine_clk : ℕ
  pub max_memory_clk : ℕ
  pub num_shader_engines : ℕ
  pub num_shader_arrays_per_engine : ℕ
  pub num_hw_gfx_contexts : ℕ
  pub rb_pipes : ℕ
  pub enabled_rb_pipes_mask : ℕ
  pub gpu_counter_freq : ℕ
  pub backend_disable : List ℕ
  pub mc_arb_ramcfg : ℕ
  pub gb_addr_cfg : ℕ
  pub gb_tile_mode : List ℕ
  pub gb_macro_tile_mode : List ℕ
  pub pa_sc_raster_cfg : List ℕ
  pub pa_sc_raster_cfg1 : List ℕ
  pub cu_active_number : ℕ
  pub cu_ao_mask : ℕ
  pub cu_bitmap : List ℕ
  pub vram_type : ℕ
  pub vram_bit_width : ℕ
  pub ce_ram_size : ℕ
  pub vce_harvest_config : ℕ
  pub pci_rev_id : ℕ

-- The fields `dev_info` and `info` of a device.
pub record Infos : Type 0 where
  pub dev_info : DevInfo
  pub info : GpuInfo

-- AMDGPU_FAMILY_CI and AMDGPU_FAMILY_AI.
abbrev pub family_ci : ℕ
family_ci = 120

abbrev pub family_ai : ℕ
family_ai = 141

unfoldable pub from_device : DevInfo → GpuInfo → GpuInfo
from_device d i = record i {
  asic_id = d.device_id;
  chip_rev = d.chip_rev;
  chip_external_rev = d.external_rev;
  family_id = d.family;
  max_engine_clk = d.max_engine_clock;
  max_memory_clk = d.max_memory_clock;
  gpu_counter_freq = d.gpu_counter_freq;
  enabled_rb_pipes_mask = d.enabled_rb_pipes_mask;
  rb_pipes = d.num_rb_pipes;
  ids_flags = d.ids_flags;
  num_hw_gfx_contexts = d.num_hw_gfx_contexts;
  num_shader_engines = d.num_shader_engines;
  num_shader_arrays_per_engine = d.num_shader_arrays_per_engine;
  vram_type = d.vram_type;
  vram_bit_width = d.vram_bit_width;
  ce_ram_size = d.ce_ram_size;
  vce_harvest_config = d.vce_harvest_config;
  pci_rev_id = d.pci_rev;
}

unfoldable pub with_units : DevInfo → GpuInfo → GpuInfo
with_units d i = record i {
  cu_active_number = d.cu_active_number;
  cu_ao_mask = d.cu_ao_mask;
  cu_bitmap = d.cu_bitmap;
}

-- What follows a call with `if (r) return r`. `none` is a write out of an array's bounds.
abbrev pub Outcome : Type 0
Outcome = Option (Ret × GpuInfo)

unfoldable pub and_then : Outcome → (GpuInfo → Outcome) → Outcome
and_then none k = none
and_then (some (ok, i)) k = k i
and_then (some (err e, i)) k = some (err e, i)

-- Where each register goes: `a` is what was read.
abbrev pub set_backend : (i : ℕ) → Option (List ℕ) → GpuInfo → GpuInfo
set_backend i a info = record info {
  backend_disable = set info.backend_disable i (word (get_or info.backend_disable i 0) a);
}

-- CC_RB_BACKEND_DISABLE.BACKEND_DISABLE.
abbrev pub extract_backend : (i : ℕ) → GpuInfo → GpuInfo
extract_backend i info = record info {
  backend_disable = set info.backend_disable i ((get_or info.backend_disable i 0 / 2 ^ 16) % 2 ^ 8);
}

abbrev pub set_raster : (i : ℕ) → Option (List ℕ) → GpuInfo → GpuInfo
set_raster i a info = record info {
  pa_sc_raster_cfg = set info.pa_sc_raster_cfg i (word (get_or info.pa_sc_raster_cfg i 0) a);
}

abbrev pub set_raster1 : (i : ℕ) → Option (List ℕ) → GpuInfo → GpuInfo
set_raster1 i a info = record info {
  pa_sc_raster_cfg1 = set info.pa_sc_raster_cfg1 i (word (get_or info.pa_sc_raster_cfg1 i 0) a);
}

abbrev pub set_addr_cfg : Option (List ℕ) → GpuInfo → GpuInfo
set_addr_cfg a info = record info { gb_addr_cfg = word info.gb_addr_cfg a }

abbrev pub set_tile_mode : Option (List ℕ) → GpuInfo → GpuInfo
set_tile_mode a info = record info { gb_tile_mode = words info.gb_tile_mode a }

abbrev pub set_macro_tile_mode : Option (List ℕ) → GpuInfo → GpuInfo
set_macro_tile_mode a info = record info { gb_macro_tile_mode = words info.gb_macro_tile_mode a }

abbrev pub set_ramcfg : Option (List ℕ) → GpuInfo → GpuInfo
set_ramcfg a info = record info { mc_arb_ramcfg = word info.mc_arb_ramcfg a }

-- The number of rounds of a loop up to an `(int)`, which is negative from 2^31 on.
unfoldable pub as_int : ℕ → ℕ
as_int n = if ltb n (2 ^ 31) then n else 0

module _ (driver : Driver) where
  -- amdgpu_read_mm_registers with a way to store what it reads.
  unfoldable pub read :
      (dword_offset count instance : ℕ) → (Option (List ℕ) → GpuInfo → GpuInfo) → GpuInfo → Outcome
  read dword_offset count instance store i =
      let (r, a) = driver (read_mmr_reg dword_offset count instance 0) in some (r, store a i)

  -- The body of the loop over the shader engines. The arrays have four entries.
  unfoldable pub engine : (i : ℕ) → GpuInfo → Outcome
  unfolding read and_then
  engine i info =
      let instance = bit_or i 0xff00 in
      if leb 4 i
      then none
      else and_then (read 0x263d 1 instance (set_backend i) info) (λ i1.
        and_then (read 0xa0d4 1 instance (set_raster i) (extract_backend i i1)) (λ i2.
          if leb family_ci i2.family_id
          then read 0xa0d5 1 instance (set_raster1 i) i2
          else some (ok, i2)))

  -- The engines from `i` on, `n` of them.
  unfoldable pub engines : (n i : ℕ) → GpuInfo → Outcome
  unfolding engine and_then
  engines zero i info = some (ok, info)
  engines (suc n) i info = and_then (engine i info) (engines n (suc i))

  unfoldable pub tiles : GpuInfo → Outcome
  unfolding read and_then
  tiles info = and_then (read 0x2644 32 0xffff_ffff set_tile_mode info) (λ i1.
      and_then
        (if leb family_ci i1.family_id
          then read 0x2664 16 0xffff_ffff set_macro_tile_mode i1
          else some (ok, i1))
        (read 0x9d8 1 0xffff_ffff set_ramcfg))

  unfoldable pub registers : GpuInfo → Outcome
  unfolding engines read tiles and_then
  registers info =
      and_then
        (if ltb info.family_id family_ai
          then engines (as_int info.num_shader_engines) 0 info
          else some (ok, info))
        (λ i1.
          and_then (read 0x263e 1 0xffff_ffff set_addr_cfg i1)
            (λ i2. if ltb i2.family_id family_ai then tiles i2 else some (ok, i2)))

  unfoldable pub finish : DevInfo → Outcome → Option (Ret × Infos)
  finish d none = none
  finish d (some (ok, i)) = some (ok, record { dev_info = d; info = with_units d i })
  finish d (some (err e, i)) = some (err e, record { dev_info = d; info = i })

  unfoldable pub query_gpu_info_init : Infos → Option (Ret × Infos)
  unfolding from_device with_units registers finish
  query_gpu_info_init s =
      let (r, a) = driver dev_info in
      let d = written s.dev_info a in
      elim r [
        | err e ↦ some (err e, record s { dev_info = d })
        | ok ↦ finish d (registers (from_device d s.info))
      ]

-- `amdgpu_query_gpu_info` of a device, or of NULL; `out` is whether `info` is not NULL.
unfoldable pub query_gpu_info : (dev : Option Infos) (out : Bool) → Ret × Option GpuInfo
query_gpu_info none out = (err einval, none)
query_gpu_info (some dev) out = if out then (ok, some dev.info) else (err einval, none)
