-- ===== src/VaMgr/Subtract.antt =====
-- `amdgpu_vamgr_subtract_hole`: cutting a range out of one hole.
use libdrm.Base.{
  ℕ, ◌+◌, ◌≤◌, ◌<◌, ◌^◌, ◌≡◌, refl, Bool, true, ◌&&◌, not, List, ◌∷◌, arith, inl, inr, ltb, add64,
  sub64, Bool-cases, ok, err,
}
use libdrm.VaMgr.{Hole, subtract_hole, take_from}
use libdrm.VaMgr.Holes.{within, is_free, Spaced, is_free_above, Spaced-mono}

-- `va` and `size` are a range of the hole, and the hole's end does not wrap.
pub record Inside (h : Hole) (va size : ℕ) : Type 0 where
  pub above : h.offset ≤ va
  pub fits : va + size ≤ h.offset + h.size
  pub small : h.offset + h.size < 2 ^ 64

module _ (memory : Bool) (size va gap bound : ℕ) (h : Hole) (rest : List Hole)
    (i : Inside h va size) where
  pub take_from-memory : memory ≡ true → (take_from memory size h va rest).ret ≡ ok
  unfolding take_from subtract_hole
  take_from-memory e = ground arith

  pub take_from-va : (take_from memory size h va rest).va ≡ va
  unfolding take_from
  take_from-va = refl

  pub take_from-failed :
      (e : _)
      → (take_from memory size h va rest).ret ≡ err e
      → (take_from memory size h va rest).holes ≡ h ∷ rest
  unfolding take_from subtract_hole
  take_from-failed e p = ground arith

  pub take_from-Spaced :
      gap ≤ 1
      → gap ≤ size
      → Spaced gap bound (h ∷ rest)
      → Spaced gap bound (take_from memory size h va rest).holes
  unfolding take_from subtract_hole
  take_from-Spaced g z s =
      let (z', e, r) = s in
      elim (Bool-cases (ltb h.offset va)) [
        | inl p ↦ elim (Bool-cases (ltb (sub64 (add64 va size) h.offset) h.size)) [
          | inl q ↦ elim (Bool-cases memory) [
            | inl m ↦ rw (p, q, m) (ground arith, ground arith, (ground arith, ground arith, r))
            | inr m ↦ rw (p, q, m) s
          ]
          | inr q ↦ rw (p, q) (ground arith, ground arith, r)
        ]
        | inr p ↦ elim (Bool-cases (ltb (sub64 (add64 va size) h.offset) h.size)) [
          | inl q ↦ rw (p, q) (ground arith, ground arith, Spaced-mono gap rest (ground arith) r)
          | inr q ↦ rw (p, q) (Spaced-mono gap rest (ground arith) r)
        ]
      ]

  pub take_from-is_free :
      (a : ℕ)
      → Spaced gap bound (h ∷ rest)
      → (take_from memory size h va rest).ret ≡ ok
      → is_free (take_from memory size h va rest).holes a
        ≡ (is_free (h ∷ rest) a && not (within va size a))
  unfolding take_from subtract_hole
  take_from-is_free a s p = ground (arith, is_free_above gap h.offset a rest)
