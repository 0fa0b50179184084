-- ===== src/VaMgr/Holes.antt =====
-- The views of a list of holes that the theorems about the address manager use: the addresses
-- that are free, and the order of the holes.
use libdrm.Base.{
  ℕ, ◌+◌, ◌≤◌, ◌<◌, ◌^◌, ◌≡◌, refl, ◌⊎◌, inl, Bool, false, ◌||◌, ◌&&◌, List, [], ◌∷◌, arith, ltb,
  leb, IsPow2,
}
use libdrm.VaMgr.{Hole, VaMgr}

-- Whether `a` lies in the `size` addresses from `va` on.
abbrev pub within : ℕ → ℕ → ℕ → Bool
within va size a = leb va a && ltb a (va + size)

-- The abstract view of a list of holes: the set of free addresses.
abbrev pub is_free : List Hole → ℕ → Bool
is_free [] a = false
is_free (h ∷ hs) a = within h.offset h.size a || is_free hs a

-- The holes lie below `bound`, each at least `gap` below the one before, and none is smaller than
-- `gap`: at 0 they are ordered and disjoint, at 1 also nonempty and nowhere adjacent.
abbrev pub Spaced : ℕ → ℕ → List Hole → Type 0
Spaced gap bound [] = Unit {0}
Spaced gap bound (h ∷ hs) =
    (gap ≤ h.size) × (h.offset + h.size + gap ≤ bound) × Spaced gap h.offset hs

-- No hole meets the `size` addresses from `va` on.
abbrev pub Clear : ℕ → ℕ → List Hole → Type 0
Clear va size [] = Unit {0}
Clear va size (h ∷ hs) = ((h.offset + h.size ≤ va) ⊎ (va + size ≤ h.offset)) × Clear va size hs

-- The invariant of `amdgpu_bo_va_mgr`.
pub record IsValid (gap : ℕ) (m : VaMgr) : Type 0 where
  pub gap_le : gap ≤ 1
  pub power : IsPow2 m.va_alignment
  pub small : m.va_max < 2 ^ 64
  pub spaced : Spaced gap (m.va_max + gap) m.va_holes

pub Spaced-mono : (gap : ℕ) {b c : ℕ} (hs : List Hole) → b ≤ c → Spaced gap b hs → Spaced gap c hs
Spaced-mono gap [] l s = tt
Spaced-mono gap (h ∷ hs) l (z, e, s) = (z, omega arith, s)

-- Nothing at or above the bound is free.
pub is_free_above : (gap b a : ℕ) (hs : List Hole) → Spaced gap b hs → b ≤ a → is_free hs a ≡ false
is_free_above gap b a [] s l = refl
is_free_above gap b a (h ∷ hs) (z, e, s) l = ground (arith, is_free_above gap h.offset a hs s)

pub Spaced-Clear :
    (gap b va size : ℕ) (hs : List Hole) → Spaced gap b hs → b ≤ va → Clear va size hs
Spaced-Clear gap b va size [] s l = tt
Spaced-Clear gap b va size (h ∷ hs) (z, e, s) l =
    (inl (omega arith), Spaced-Clear gap h.offset va size hs s (omega arith))
