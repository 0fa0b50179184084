-- ===== src/VaMgr/Init.antt =====
-- `amdgpu_vamgr_init`.
use libdrm.Base.{ℕ, ◌-◌, ◌<◌, ◌^◌, ◌≡◌, arith, IsPow2, IsPow2-bounds}
use libdrm.VaMgr.{init}
use libdrm.VaMgr.Holes.{within, is_free, IsValid}

module _ (first max alignment : ℕ) (p : IsPow2 alignment) (l : first < max) (u : max < 2 ^ 64) where
  init_alignment : (init first max alignment).va_alignment ≡ alignment
  unfolding init
  init_alignment = let b = IsPow2-bounds p in omega arith

  -- A fresh manager of a nonempty range is valid.
  pub init-IsValid : IsValid 1 (init first max alignment)
  unfolding init
  init-IsValid = record {
    gap_le = omega arith;
    power = rw init_alignment p;
    small = u;
    spaced = (omega arith, omega arith, tt);
  }

  -- A fresh manager has exactly the addresses from `first` up to `max` free.
  pub init-is_free :
      (a : ℕ) → is_free (init first max alignment).va_holes a ≡ within first (max - first) a
  unfolding init
  init-is_free a = ground arith
