-- ===== src/VaMgr/Free.antt =====
-- `amdgpu_vamgr_free_va`: the loop and what stands behind it, on a list of nonempty holes no two
-- of which touch.
pub mod Loop
pub mod Memory
use libdrm.Base.{
  ℕ, zero, suc, ◌+◌, ◌-◌, ◌%◌, ◌≤◌, ◌<◌, ◌^◌, ◌≡◌, ◌≢◌, refl, ap, sym, ◌∙◌, ◌⊎◌, inl, inr, ◌↔◌,
  Bool, true, false, ◌&&◌, ◌||◌, not, Option, none, some, List, [], ◌∷◌, arith, Bool-cases, ◌==◌,
  ltb, add64,
}
use libdrm.VaMgr.{Hole, end_of, emit, add_hole, grow_upper, grow_lower, give_back, free_loop}
use libdrm.VaMgr.Holes.{within, is_free, Spaced, Spaced-mono, Clear}

module _ (memory : Bool) (va size : ℕ) (z : 0 < size) (small : va + size < 2 ^ 64) where
  pub grow_lower-Spaced :
      (lower : List Hole)
      → Spaced 1 (va + 1) lower
      → Spaced 1 (va + size + 1) (grow_lower memory va size lower)
  unfolding grow_lower
  grow_lower-Spaced [] s = elim (Bool-cases memory) [
    | inl m ↦ rw m (omega arith, omega arith, tt)
    | inr m ↦ rw m tt
  ]
  grow_lower-Spaced (next ∷ rest) s = elim (Bool-cases (end_of next == va)) [
    | inl e ↦ rw e (ground arith, ground arith, s.2)
    | inr e ↦ elim (Bool-cases memory) [
      | inl m ↦ rw (e, m) (omega arith, omega arith, (s.0, ground arith, s.2))
      | inr m ↦ rw (e, m) (s.0, omega arith, s.2)
    ]
  ]

  pub grow_lower-is_free :
      (lower : List Hole) (a : ℕ)
      → memory ≡ true
      → Spaced 1 (va + 1) lower
      → is_free (grow_lower memory va size lower) a ≡ (is_free lower a || within va size a)
  unfolding grow_lower
  grow_lower-is_free [] a m s = ground arith
  grow_lower-is_free (next ∷ rest) a m s = ground arith

  -- The hole above the range, and the holes below it.
  abbrev pub Around : ℕ → Hole → List Hole → Type 0
  Around bound hole lower =
      Spaced 1 bound (hole ∷ lower) × (va + size ≤ hole.offset) × Spaced 1 (va + 1) lower

  module _ (bound : ℕ) (hole : Hole) (b : bound ≤ 2 ^ 64) where
    grow_upper-Spaced :
        (lower : List Hole)
        → hole.offset ≡ va + size
        → Around bound hole lower
        → Spaced 1 bound (grow_upper va size hole lower)
    unfolding grow_upper
    grow_upper-Spaced [] e (s, l, t) = (ground arith, ground arith, tt)
    grow_upper-Spaced (next ∷ rest) e (s, l, t) = elim (Bool-cases (end_of next == va)) [
      | inl q ↦ rw q (ground arith, ground arith, t.2)
      | inr q ↦ rw q (ground arith, ground arith, (t.0, ground arith, t.2))
    ]

    grow_upper-is_free :
        (lower : List Hole) (a : ℕ)
        → hole.offset ≡ va + size
        → Around bound hole lower
        → is_free (grow_upper va size hole lower) a ≡ (is_free (hole ∷ lower) a || within va size a)
    unfolding grow_upper
    grow_upper-is_free [] a e (s, l, t) = ground arith
    grow_upper-is_free (next ∷ rest) a e (s, l, t) = ground arith

    pub give_back-Spaced :
        (lower : List Hole)
        → Around bound hole lower
        → Spaced 1 bound (give_back memory va size (some hole) lower)
    unfolding give_back
    give_back-Spaced lower (s, l, t) = elim (Bool-cases (hole.offset == add64 va size)) [
      | inl e ↦ rw e (grow_upper-Spaced lower (ground arith) (s, l, t))
      | inr e ↦ rw e (s.0, s.1, Spaced-mono 1 _ (ground arith) (grow_lower-Spaced lower t))
    ]

    pub give_back-is_free :
        (lower : List Hole) (a : ℕ)
        → memory ≡ true
        → Around bound hole lower
        → is_free (give_back memory va size (some hole) lower) a
          ≡ (is_free (hole ∷ lower) a || within va size a)
    unfolding give_back
    give_back-is_free lower a m (s, l, t) =
        ground (arith, grow_upper-is_free lower a, grow_lower-is_free lower a m t)
