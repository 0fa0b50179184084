-- ===== src/VaMgr/Free/Loop.antt =====
-- The loop of `amdgpu_vamgr_free_va`, and the whole of it.
use libdrm.Base.{
  ℕ, ◌+◌, ◌≤◌, ◌<◌, ◌^◌, ◌≡◌, inl, inr, Bool, true, ◌||◌, Option, none, some, List, [], ◌∷◌, arith,
  Bool-cases, ltb, align64,
}
use libdrm.VaMgr.{Hole, VaMgr, emit, give_back, free_loop, free_va}
use libdrm.VaMgr.Holes.{within, is_free, Spaced, Spaced-mono, Clear, IsValid}
use libdrm.VaMgr.Free.{grow_lower-Spaced, grow_lower-is_free, give_back-Spaced, give_back-is_free}

module _ (memory : Bool) (va size : ℕ) (z : 0 < size) (small : va + size < 2 ^ 64) where
  -- Before each round: the list from `hole` on is in order and lies round the range.
  abbrev Start : ℕ → Option Hole → List Hole → Type 0
  Start bound none rest = Spaced 1 bound rest × (va + size + 1 ≤ bound)
  Start bound (some hole) rest = Spaced 1 bound (hole ∷ rest) × (va + size ≤ hole.offset)

  give_back_after :
      (bound : ℕ) (hole : Option Hole) (rest : List Hole)
      → bound ≤ 2 ^ 64
      → Start bound hole rest
      → Spaced 1 (va + 1) rest
      → Spaced 1 bound (give_back memory va size hole rest)
  unfolding give_back
  give_back_after bound none rest b (s, l) t =
      Spaced-mono 1 _ l (grow_lower-Spaced memory va size z small rest t)
  give_back_after bound (some hole) rest b (s, l) t =
      give_back-Spaced memory va size z small bound hole b rest (s, l, t)

  give_back_frees :
      (bound : ℕ) (hole : Option Hole) (rest : List Hole) (a : ℕ)
      → bound ≤ 2 ^ 64
      → memory ≡ true
      → Start bound hole rest
      → Spaced 1 (va + 1) rest
      → is_free (give_back memory va size hole rest) a
        ≡ (is_free (emit hole rest) a || within va size a)
  unfolding give_back
  give_back_frees bound none rest a b m (s, l) t =
      grow_lower-is_free memory va size z small rest a m t
  give_back_frees bound (some hole) rest a b m (s, l) t =
      give_back-is_free memory va size z small bound hole b rest a m (s, l, t)

  below_va :
      (bound : ℕ) (next : Hole) (rest : List Hole)
      → ltb next.offset va ≡ true
      → Spaced 1 bound (next ∷ rest)
      → Clear va size (next ∷ rest)
      → Spaced 1 (va + 1) (next ∷ rest)
  below_va bound next rest e s c = (s.0, ground arith, s.2)

  -- The bound of what stands behind `hole`.
  abbrev inner : ℕ → Option Hole → ℕ
  inner bound none = bound
  inner bound (some hole) = hole.offset

  rest-Spaced :
      (bound : ℕ) (hole : Option Hole) (rest : List Hole)
      → Start bound hole rest
      → Spaced 1 (inner bound hole) rest × (inner bound hole ≤ bound)
  rest-Spaced bound none rest (s, l) = (s, omega arith)
  rest-Spaced bound (some hole) rest (s, l) = (s.2, omega arith)

  emit-Spaced :
      (bound : ℕ) (hole : Option Hole) (rest hs : List Hole)
      → Start bound hole rest
      → Spaced 1 (inner bound hole) hs
      → Spaced 1 bound (emit hole hs)
  emit-Spaced bound none rest hs st s = s
  emit-Spaced bound (some hole) rest hs (t, l) s = (t.0, t.1, s)

  emit-is_free :
      (hole : Option Hole) (next : Hole) (rest hs : List Hole) (a : ℕ) (b : Bool)
      → is_free hs a ≡ (is_free (next ∷ rest) a || b)
      → is_free (emit hole hs) a ≡ (is_free (emit hole (next ∷ rest)) a || b)
  emit-is_free none next rest hs a b e = e
  emit-is_free (some hole) next rest hs a b e = ground arith

  free_loop-Spaced :
      (bound : ℕ) (hole : Option Hole) (rest : List Hole)
      → bound ≤ 2 ^ 64
      → Start bound hole rest
      → Clear va size rest
      → Spaced 1 bound (free_loop memory va size hole rest)
  unfolding free_loop
  free_loop-Spaced bound hole [] b st c = give_back_after bound hole [] b st tt
  free_loop-Spaced bound hole (next ∷ rest) b st c =
      let (s, l) = rest-Spaced bound hole (next ∷ rest) st in
      elim (Bool-cases (ltb next.offset va)) [
        | inl e ↦ rw e (give_back_after bound hole (next ∷ rest) b st (below_va _ next rest e s c))
        | inr e ↦
            let ih =
              free_loop-Spaced (inner bound hole) (some next) rest (omega arith) (s, ground arith)
                c.1 in
            rw e (emit-Spaced bound hole (next ∷ rest) _ st ih)
      ]

  free_loop-is_free :
      (bound : ℕ) (hole : Option Hole) (rest : List Hole) (a : ℕ)
      → bound ≤ 2 ^ 64
      → memory ≡ true
      → Start bound hole rest
      → Clear va size rest
      → is_free (free_loop memory va size hole rest) a
        ≡ (is_free (emit hole rest) a || within va size a)
  unfolding free_loop
  free_loop-is_free bound hole [] a b m st c = give_back_frees bound hole [] a b m st tt
  free_loop-is_free bound hole (next ∷ rest) a b m st c =
      let (s, l) = rest-Spaced bound hole (next ∷ rest) st in
      elim (Bool-cases (ltb next.offset va)) [
        | inl e ↦
            rw e (give_back_frees bound hole (next ∷ rest) a b m st (below_va _ next rest e s c))
        | inr e ↦
            let ih =
              free_loop-is_free (inner bound hole) (some next) rest a (omega arith) m
                (s, ground arith) c.1 in
            rw e (emit-is_free hole next rest _ a _ ih)
      ]

-- A range that was handed out and is not free: nonempty, below `va_max`, and clear of every hole.
pub record Returnable (m : VaMgr) (va size : ℕ) : Type 0 where
  pub nonempty : 0 < align64 size m.va_alignment
  pub in_bounds : va + align64 size m.va_alignment ≤ m.va_max
  pub clear : Clear va (align64 size m.va_alignment) m.va_holes

module _ (memory : Bool) (m : VaMgr) (va size : ℕ) (v : IsValid 1 m)
    (r : Returnable m va size) where
  free_va-loop :
      free_va memory m va size
      ≡ record m { va_holes = free_loop memory va (align64 size m.va_alignment) none m.va_holes }
  unfolding free_va
  free_va-loop = ground arith

  start : Start memory va _ r.nonempty (omega arith) (m.va_max + 1) none m.va_holes
  start = (v.spaced, omega arith)

  -- Giving back such a range keeps the invariant (nonempty holes, no two of which touch), even
  -- where there is no memory for a new hole.
  pub free_va-IsValid : IsValid 1 (free_va memory m va size)
  free_va-IsValid = rw free_va-loop (record {
    gap_le = v.gap_le;
    power = v.power;
    small = v.small;
    spaced =
        free_loop-Spaced memory va _ r.nonempty (omega arith) (m.va_max + 1) none m.va_holes
          (omega arith) start r.clear;
  })

  -- With memory, giving back such a range frees exactly its addresses.
  pub free_va-is_free :
      memory ≡ true
      → (a : ℕ)
      → is_free (free_va memory m va size).va_holes a
        ≡ (is_free m.va_holes a || within va (align64 size m.va_alignment) a)
  free_va-is_free e a = rw free_va-loop (
      free_loop-is_free memory va _ r.nonempty (omega arith) (m.va_max + 1) none m.va_holes a
        (omega arith) e start r.clear)

-- Only the list of holes changes.
pub free_va-same :
    (memory : Bool) (m : VaMgr) (va size : ℕ)
    → ((free_va memory m va size).va_alignment ≡ m.va_alignment)
      × ((free_va memory m va size).va_max ≡ m.va_max)
unfolding free_va
free_va-same memory m va size = (ground arith, ground arith)
