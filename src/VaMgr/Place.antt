-- ===== src/VaMgr/Place.antt =====
-- The offset that a search picks in one hole.
use libdrm.Base.{
  ℕ, zero, suc, ◌+◌, ◌-◌, ◌%◌, ◌==◌, Bool-cases, ◌≤◌, ◌<◌, ◌^◌, ◌≡◌, ◌≢◌, refl, ◌⊎◌, inl, inr, Bool,
  true, false, some, arith, add-mod-waste, sub-mod_self, waste-least, rest-greatest,
}
use libdrm.VaMgr.{Hole, place, place_base, place_low, place_high}

-- `va` is a place for `size` addresses in the hole: aligned, and the required base if one is given.
pub record Fits (h : Hole) (size alignment base va : ℕ) : Type 0 where
  pub above : h.offset ≤ va
  pub fits : va + size ≤ h.offset + h.size
  pub aligned : va % alignment ≡ 0
  pub at_base : (base ≡ 0) ⊎ (va ≡ base)

-- What the code relies on so that no sum of a search wraps.
pub record NoWrap (h : Hole) (size alignment base : ℕ) : Type 0 where
  pub hole_small : h.offset + h.size < 2 ^ 64
  pub align_small : h.offset + alignment ≤ 2 ^ 64
  pub base_small : base + size < 2 ^ 64
  pub align_pos : 0 < alignment
  pub base_aligned : base % alignment ≡ 0

-- A search from below picks the lowest such place of a hole, a search from above the highest.
abbrev pub Best : Bool → ℕ → ℕ → Type 0
Best true va other = other ≤ va
Best false va other = va ≤ other

module _ (size alignment : ℕ) (h : Hole) (n : NoWrap h size alignment 0) where
  low-Fits : (va : ℕ) → place_low size alignment h ≡ some va → Fits h size alignment 0 va
  unfolding place_low
  low-Fits va e = record {
    above = ground arith;
    fits = ground arith;
    aligned = ground (arith, add-mod-waste h.offset alignment);
    at_base = inl refl;
  }

  high-Fits : (va : ℕ) → place_high size alignment h ≡ some va → Fits h size alignment 0 va
  unfolding place_high
  high-Fits va e = record {
    above = ground arith;
    fits = ground arith;
    aligned = ground (arith, sub-mod_self (h.offset + h.size - size) alignment);
    at_base = inl refl;
  }

  module _ (other : ℕ) (f : Fits h size alignment 0 other) where
    low-found : 0 < size → (va : ℕ) × (place_low size alignment h ≡ some va) × (va ≤ other)
    unfolding place_low
    low-found z = elim (Bool-cases ((h.offset % alignment) == 0)) [
      | inl p ↦ (h.offset, ground arith, f.above)
      | inr p ↦
          let least : h.offset + (alignment - h.offset % alignment) ≤ other =
            waste-least other h.offset alignment n.align_pos f.aligned f.above (ground arith) in
          (h.offset + (alignment - h.offset % alignment), ground arith, least)
    ]

    high-found : (va : ℕ) × (place_high size alignment h ≡ some va) × (other ≤ va)
    unfolding place_high
    high-found =
        let top = h.offset + h.size - size in
        let greatest : other ≤ top - top % alignment =
          rest-greatest other top alignment n.align_pos f.aligned (ground arith) in
        (top - top % alignment, ground arith, greatest)

module _ (size alignment base : ℕ) (h : Hole) (n : NoWrap h size alignment base) where
  base-Fits : base ≢ 0 → (va : ℕ) → place_base size base h ≡ some va → Fits h size alignment base va
  unfolding place_base
  base-Fits b va e = record {
    above = ground arith;
    fits = ground arith;
    aligned = ground arith;
    at_base = inr (ground arith);
  }

  base_found :
      (other : ℕ)
      → base ≢ 0
      → Fits h size alignment base other
      → place_base size base h ≡ some other
  unfolding place_base
  base_found other b f = ground arith

Best-self : (top : Bool) (va : ℕ) → Best top va va
Best-self true va = omega arith
Best-self false va = omega arith

place-eq-base :
    (top : Bool) (size alignment b : ℕ) (h : Hole)
    → place top size alignment (suc b) h ≡ place_base size (suc b) h
unfolding place
place-eq-base top size alignment b h = ground arith

-- What a search picks is a place of the hole.
pub place-Fits :
    (top : Bool) (size alignment base : ℕ) (h : Hole)
    → NoWrap h size alignment base
    → (va : ℕ) → place top size alignment base h ≡ some va
    → Fits h size alignment base va
unfolding place
place-Fits top size alignment (suc b) h n va e =
    base-Fits size alignment (suc b) h n (omega arith) va (rw place-eq-base at e)
place-Fits true size alignment zero h n va e = high-Fits size alignment h n va e
place-Fits false size alignment zero h n va e = low-Fits size alignment h n va e

-- A hole with a place is not passed over, and what is picked is the best of its places.
pub place_found :
    (top : Bool) (size alignment base : ℕ) (h : Hole)
    → NoWrap h size alignment base
    → (other : ℕ) → 0 < size
    → Fits h size alignment base other
    → (va : ℕ) × (place top size alignment base h ≡ some va) × Best top va other
unfolding place
place_found top size alignment (suc b) h n other z f = (
  other,
  rw place-eq-base (base_found size alignment (suc b) h n other (omega arith) f),
  Best-self top other,
)
place_found true size alignment zero h n other z f = high-found size alignment h n other f
place_found false size alignment zero h n other z f = low-found size alignment h n other f z
