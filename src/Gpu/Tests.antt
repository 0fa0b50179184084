-- ===== src/Gpu/Tests.antt =====
-- The information of a GPU with two shader engines whose driver refuses one register.
use libdrm.Base.{◌≡◌, ◌==◌, ◌*◌, none, some, replicate, arith, if◌then◌else◌, ok, err, failure}
use libdrm.Gpu.Query.{
  no_device, DevInfo, accel_working, dev_info, vram_gtt, vram_usage, vis_vram_usage, gtt_usage,
  memory, gds_config, crtc_from_id, hw_ip_count, hw_ip_info, fw_version, read_mmr_reg, sensor,
  video_caps, Driver,
}
use libdrm.Gpu.Init.{GpuInfo, Infos, query_gpu_info_init}
use libdrm.Gpu.Plan.{first_error, query_gpu_info_init-plan}

abbrev no_info : GpuInfo
no_info = record {
  asic_id = 0;
  chip_rev = 0;
  chip_external_rev = 0;
  family_id = 0;
  ids_flags = 0;
  max_engine_clk = 0;
  max_memory_clk = 0;
  num_shader_engines = 0;
  num_shader_arrays_per_engine = 0;
  num_hw_gfx_contexts = 0;
  rb_pipes = 0;
  enabled_rb_pipes_mask = 0;
  gpu_counter_freq = 0;
  backend_disable = replicate 4 0;
  mc_arb_ramcfg = 0;
  gb_addr_cfg = 0;
  gb_tile_mode = replicate 32 0;
  gb_macro_tile_mode = replicate 16 0;
  pa_sc_raster_cfg = replicate 4 0;
  pa_sc_raster_cfg1 = replicate 4 0;
  cu_active_number = 0;
  cu_ao_mask = 0;
  cu_bitmap = replicate 16 0;
  vram_type = 0;
  vram_bit_width = 0;
  ce_ram_size = 0;
  vce_harvest_config = 0;
  pci_rev_id = 0;
}

abbrev device : DevInfo
device = record no_device { device_id = 0x683f; family = 110; num_shader_engines = 2 }

-- Every register is 0x10000 times its number, and 0x9d8 is not answered.
abbrev driver : Driver
driver accel_working = (ok, some 1)
driver dev_info = (ok, some device)
driver vram_gtt = (ok, none)
driver vram_usage = (ok, none)
driver vis_vram_usage = (ok, none)
driver gtt_usage = (ok, none)
driver memory = (ok, none)
driver gds_config = (ok, none)
driver (crtc_from_id id) = (err failure, none)
driver (hw_ip_count type) = (err failure, none)
driver (hw_ip_info type ip_instance) = (ok, none)
driver (fw_version fw_type ip_instance index) = (err failure, none)
driver (read_mmr_reg dword_offset count instance flags) =
    if dword_offset == 0x9d8
    then (err failure, none)
    else (ok, some (replicate count (dword_offset * 0x1_0000)))
driver (sensor type) = (err failure, none)
driver (video_caps type) = (err failure, none)

query_gpu_info_init-plan_example :
    (t : Infos) × (query_gpu_info_init driver (record { dev_info = no_device; info = no_info })
      ≡ some (err failure, t))
    × (t.dev_info ≡ device)
unfolding first_error
query_gpu_info_init-plan_example =
    query_gpu_info_init-plan driver (record { dev_info = no_device; info = no_info }) (omega arith)
