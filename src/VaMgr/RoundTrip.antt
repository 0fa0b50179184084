-- ===== src/VaMgr/RoundTrip.antt =====
-- `amdgpu_vamgr_free_va` undoes `amdgpu_vamgr_find_va`.
use libdrm.Base.{
  ℕ, ◌+◌, ◌<◌, ◌≡◌, refl, ◌∙◌, Bool, true, some, arith, ok, align64, align64-RoundsUp,
  RoundsUp-self, IsPow2-bounds,
}
use libdrm.VaMgr.{VaMgr, find_va, free_va}
use libdrm.VaMgr.Holes.{IsValid}
use libdrm.VaMgr.Find.{Allocated, InRange, eff_size, find_va-Allocated}
use libdrm.VaMgr.Canonical.{canonical, Clear-of_not_free}
use libdrm.VaMgr.Free.Loop.{Returnable, free_va-IsValid, free_va-is_free, free_va-same}

module _ (m m' : VaMgr) (size alignment base va : ℕ) (v : IsValid 1 m)
    (r : InRange m size alignment base) (z : 0 < size)
    (d : Allocated 1 m size alignment base va m') where
  -- The size that a request is served with is its own multiple of the alignment.
  pub eff_size-aligned : align64 (eff_size m size) m.va_alignment ≡ eff_size m size
  eff_size-aligned =
      let a = align64-RoundsUp size v.power (omega arith) in
      let b = IsPow2-bounds v.power in
      RoundsUp-self _ _ _ (align64-RoundsUp (eff_size m size) v.power (ground arith)) a.0

  realigned : align64 (eff_size m size) m'.va_alignment ≡ eff_size m size
  realigned = rw d.same_alignment eff_size-aligned

  pub nonempty : 0 < eff_size m size
  nonempty = omega (arith, align64-RoundsUp size v.power (omega arith))

  valid : IsValid 1 m'
  valid = d.valid z

  -- A range that was handed out can be given back.
  pub Allocated-Returnable : Returnable m' va (eff_size m size)
  Allocated-Returnable = record {
    nonempty = rw realigned nonempty;
    in_bounds = rw (realigned, d.same_max) d.in_bounds;
    clear = rw realigned (
        Clear-of_not_free (m'.va_max + 1) va _ m'.va_holes nonempty valid.spaced
          (λ a w. ground (arith, d.now_free a)));
  }

  -- With memory, giving it back restores the list of holes, node for node.
  pub free_va-Allocated : (free_va true m' va (eff_size m size)).va_holes ≡ m.va_holes
  free_va-Allocated =
      canonical _ _ _ _ (free_va-IsValid true m' va _ valid Allocated-Returnable).spaced v.spaced
        (λ a. ground (
          arith,
          free_va-is_free true m' va _ valid Allocated-Returnable refl a,
          realigned,
          d.now_free a,
          d.was_free a,
        ))

VaMgr-eq :
    (m n : VaMgr)
    → m.va_max ≡ n.va_max
    → m.va_alignment ≡ n.va_alignment
    → m.va_holes ≡ n.va_holes
    → m ≡ n
VaMgr-eq m n p q r = λ i. record { va_max = p i; va_alignment = q i; va_holes = r i }

-- `amdgpu_vamgr_free_va` uses the size only aligned.
free_va-size :
    (memory : Bool) (m : VaMgr) (va s t : ℕ)
    → align64 s m.va_alignment ≡ align64 t m.va_alignment
    → free_va memory m va s ≡ free_va memory m va t
unfolding free_va
free_va-size memory m va s t e = rw e

-- With memory, giving a range back with the size that was asked for restores the manager.
pub free_va-restores :
    (m m' : VaMgr) (size alignment base va : ℕ)
    → IsValid 1 m
    → InRange m size alignment base
    → 0 < size
    → Allocated 1 m size alignment base va m'
    → free_va true m' va size ≡ m
free_va-restores m m' size alignment base va v r z d =
    free_va-size true m' va size (eff_size m size)
      (rw (realigned m m' size alignment base va v r z d) (rw d.same_alignment))
    ∙ VaMgr-eq _ m ((free_va-same true m' va _).1 ∙ d.same_max)
        ((free_va-same true m' va _).0 ∙ d.same_alignment)
        (free_va-Allocated m m' size alignment base va v r z d)

-- Freeing what a successful search returned gives back the manager exactly, list of holes
-- included, for every request of nonzero size whose sums do not wrap and a free with memory.
pub free_va-find_va :
    (memory : Bool) (m : VaMgr) (size alignment base : ℕ) (top : Bool)
    → IsValid 1 m
    → InRange m size alignment base
    → 0 < size
    → let s = find_va memory m size alignment base top in
      s.ret ≡ ok → (va : ℕ) × (s.va_out ≡ some va) × (free_va true s.mgr va size ≡ m)
free_va-find_va memory m size alignment base top v r z e =
    let (va, p, d) = find_va-Allocated 1 memory m size alignment base top v r e in
    (va, p, free_va-restores m _ size alignment base va v r z d)
