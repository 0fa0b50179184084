-- ===== src/VaMgr/Free/Memory.antt =====
-- Without memory for a new hole `amdgpu_vamgr_free_va` may lose addresses; it never frees others.
use libdrm.Base.{
  ℕ, ◌≡◌, Bool, true, Option, none, some, List, [], ◌∷◌, arith, Bool-cases, ltb, ◌==◌, inl, inr,
  align64,
}
use libdrm.VaMgr.{
  Hole, VaMgr, emit, end_of, grow_lower, give_back, free_loop, free_va, add_hole,
  invalid_va_address,
}
use libdrm.VaMgr.Holes.{is_free}

module _ (memory : Bool) (va size a : ℕ) where
  -- What is free in the first list is free in the second.
  abbrev Less : List Hole → List Hole → Type 0
  Less hs ks = is_free hs a ≡ true → is_free ks a ≡ true

  add_hole-Less :
      (lower : List Hole) → Less (add_hole memory va size lower) (add_hole true va size lower)
  unfolding add_hole
  add_hole-Less lower = elim (Bool-cases memory) [
    | inl m ↦ rw m (λ h. h)
    | inr m ↦ rw m (λ h. ground arith)
  ]

  grow_lower-Less :
      (lower : List Hole) → Less (grow_lower memory va size lower) (grow_lower true va size lower)
  unfolding grow_lower
  grow_lower-Less [] = add_hole-Less []
  grow_lower-Less (next ∷ rest) = elim (Bool-cases (end_of next == va)) [
    | inl e ↦ rw e (λ h. h)
    | inr e ↦ rw e (add_hole-Less (next ∷ rest))
  ]

  give_back-Less :
      (hole : Option Hole) (lower : List Hole)
      → Less (give_back memory va size hole lower) (give_back true va size hole lower)
  unfolding give_back
  give_back-Less none lower = grow_lower-Less lower
  give_back-Less (some hole) lower = λ h. ground (arith, grow_lower-Less lower)

  emit-Less :
      (hole : Option Hole) (hs ks : List Hole) → Less hs ks → Less (emit hole hs) (emit hole ks)
  emit-Less none hs ks l = l
  emit-Less (some hole) hs ks l = λ h. ground arith

  free_loop-Less :
      (hole : Option Hole) (rest : List Hole)
      → Less (free_loop memory va size hole rest) (free_loop true va size hole rest)
  unfolding free_loop
  free_loop-Less hole [] = give_back-Less hole []
  free_loop-Less hole (next ∷ rest) =
      let ih = emit-Less hole _ _ (free_loop-Less (some next) rest) in
      elim (Bool-cases (ltb next.offset va)) [
        | inl e ↦ rw e (give_back-Less hole (next ∷ rest))
        | inr e ↦ rw e ih
      ]

pub free_va-Less :
    (memory : Bool) (m : VaMgr) (va size a : ℕ)
    → is_free (free_va memory m va size).va_holes a ≡ true
    → is_free (free_va true m va size).va_holes a ≡ true
unfolding free_va
free_va-Less memory m va size a = elim (Bool-cases (va == invalid_va_address)) [
  | inl e ↦ rw e (λ h. h)
  | inr e ↦ rw e (free_loop-Less memory va (align64 size m.va_alignment) a none m.va_holes)
]
