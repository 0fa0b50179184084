-- ===== src/Gpu/Calls.antt =====
-- The calls that make one query or two: what they return, and what their output parameter holds then.
use libdrm.Base.{ℕ, ◌%◌, ◌==◌, not, Option, none, some, List, if◌then◌else◌, Ret, ok, err, einval}
use libdrm.Gpu.Query.{
  Query, vram_gtt, vram_usage, vis_vram_usage, gtt_usage, gds_config, crtc_from_id, hw_ip_count,
  hw_ip_info, fw_version, read_mmr_reg, sensor, video_caps, Answer, Driver, HwIp, Gds, written,
  words,
}

-- `struct amdgpu_heap_info`.
pub record HeapInfo : Type 0 where
  pub heap_size : ℕ
  pub heap_usage : ℕ
  pub max_allocation : ℕ

-- AMDGPU_GEM_DOMAIN_GTT and AMDGPU_GEM_DOMAIN_VRAM.
abbrev pub domain_gtt : ℕ
domain_gtt = 2

abbrev pub domain_vram : ℕ
domain_vram = 4

module _ (driver : Driver) where
  unfoldable pub query_info : (q : Query) → Answer q → Ret × Answer q
  query_info q value = let (r, a) = driver q in (r, written value a)

  unfoldable pub query_crtc_from_id : (id result : ℕ) → Ret × ℕ
  unfolding query_info
  query_crtc_from_id id result = query_info (crtc_from_id id) result

  unfoldable pub read_mm_registers : (dword_offset count instance flags : ℕ) → List ℕ → Ret × List ℕ
  read_mm_registers dword_offset count instance flags values =
      let (r, a) = driver (read_mmr_reg dword_offset count instance flags) in (r, words values a)

  unfoldable pub query_hw_ip_count : (type count : ℕ) → Ret × ℕ
  unfolding query_info
  query_hw_ip_count type count = query_info (hw_ip_count type) count

  unfoldable pub query_hw_ip_info : (type ip_instance : ℕ) → HwIp → Ret × HwIp
  unfolding query_info
  query_hw_ip_info type ip_instance info = query_info (hw_ip_info type ip_instance) info

  -- The driver writes to a local variable, and the code that copies it to `*version` and `*feature`
  -- comes after the return.
  unfoldable pub query_firmware_version :
      (fw_type ip_instance index version feature : ℕ) → Ret × (ℕ × ℕ)
  query_firmware_version fw_type ip_instance index version feature =
      ((driver (fw_version fw_type ip_instance index)).0, (version, feature))

  -- The driver's usage counter goes to the field at once, whatever the result.
  unfoldable pub query_heap_info : (heap flags : ℕ) → HeapInfo → Ret × HeapInfo
  query_heap_info heap flags info =
      let (r, a) = driver vram_gtt in
      let m = written (record { vram_size = 0; vram_cpu_accessible_size = 0; gtt_size = 0 }) a in
      let cpu_access = not ((flags % 2) == 0) in
      let (v, used) = if cpu_access then driver vis_vram_usage else driver vram_usage in
      let (g, gtt_used) = driver gtt_usage in
      elim r [
        | err e ↦ (err e, info)
        | ok ↦
            if heap == domain_vram
            then (
              v,
              record {
                heap_size = if cpu_access then m.vram_cpu_accessible_size else m.vram_size;
                heap_usage = written info.heap_usage used;
                max_allocation = m.vram_cpu_accessible_size;
              },
            )
            else if heap == domain_gtt
            then (
              g,
              record {
                heap_size = m.gtt_size;
                heap_usage = written info.heap_usage gtt_used;
                max_allocation = m.vram_cpu_accessible_size;
              },
            )
            else (err einval, info)
      ]

  -- `gds_info` is NULL or holds a value.
  unfoldable pub query_gds_info : Option Gds → Ret × Option Gds
  query_gds_info none = (err einval, none)
  query_gds_info (some info) =
      let (r, a) = driver gds_config in
      let config =
        written
          (record {
            gds_gfx_partition_size = 0;
            compute_partition_size = 0;
            gds_total_size = 0;
            gws_per_gfx_partition = 0;
            gws_per_compute_partition = 0;
            oa_per_gfx_partition = 0;
            oa_per_compute_partition = 0;
          })
          a in
      elim r [ err e ↦ (err e, some info) | ok ↦ (ok, some config) ]

  unfoldable pub query_sensor_info : (sensor_type : ℕ) → List ℕ → Ret × List ℕ
  query_sensor_info sensor_type value =
      let (r, a) = driver (sensor sensor_type) in (r, words value a)

  unfoldable pub query_video_caps_info : (cap_type : ℕ) → List ℕ → Ret × List ℕ
  query_video_caps_info cap_type value =
      let (r, a) = driver (video_caps cap_type) in (r, words value a)
