-- ===== src/Bo/Metadata.antt =====
-- The calls on an object or a device that only pass on or read: `amdgpu_bo_set_metadata`,
-- `amdgpu_bo_query_info` and `amdgpu_query_buffer_size_alignment`.
use libdrm.Base.{ℕ, Option, none, some, Ret, ok}
use libdrm.Bo.State.{Device}

-- What the driver is asked for: the object's handle, and what the caller's structure holds. The
-- result is the driver's; `none` is a dangling pointer.
module _ {Info Driver : Type 0} (call : Driver → (handle : ℕ) → Info → Ret × Info × Driver) where
  unfoldable pub pass_on : Device → ℕ → Info → Driver → Option (Ret × Info × Driver)
  pass_on d p info driver = elim (d.heap p) [
    | none ↦ none
    | some b ↦ some (call driver b.handle info)
  ]

  -- With AmdgpuBoSetMetadata and AmdgpuBoQueryInfo for `call`.
  unfoldable pub bo_set_metadata : Device → ℕ → Info → Driver → Option (Ret × Info × Driver)
  unfolding pass_on
  bo_set_metadata d p info driver = pass_on d p info driver

  unfoldable pub bo_query_info : Device → ℕ → Info → Driver → Option (Ret × Info × Driver)
  unfolding pass_on
  bo_query_info d p info driver = pass_on d p info driver

-- `struct amdgpu_buffer_size_alignments`.
pub record SizeAlignments : Type 0 where
  pub size_local : ℕ
  pub size_remote : ℕ

unfoldable pub query_buffer_size_alignment :
    (pte_fragment_size gart_page_size : ℕ) → Ret × SizeAlignments
query_buffer_size_alignment pte_fragment_size gart_page_size =
    (ok, record { size_local = pte_fragment_size; size_remote = gart_page_size })
