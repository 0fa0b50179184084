-- ===== src/VaMgr/Find.antt =====
-- What `amdgpu_vamgr_find_va` promises.
use libdrm.Base.{
  ℕ, ◌+◌, ◌%◌, ◌≤◌, ◌<◌, ◌^◌, ◌≡◌, ◌≢◌, refl, ap, ◌⊎◌, inl, inr, Bool, true, false, ◌&&◌, not,
  Option, none, some, arith, Option-cases, Bool-cases, ok, err, einval, max2, align64,
  align64-RoundsUp, IsPow2-bounds, if◌then◌else◌,
}
use native.Mathlib.Decide.{ℕ_discrete}
use libdrm.VaMgr.{VaMgr, Taken, finish, place, search_down, search_up, find_va}
use libdrm.VaMgr.Holes.{within, is_free, IsValid}
use libdrm.VaMgr.Place.{Best}
use libdrm.VaMgr.Loops.{Cut, Limits, search_down-Cut, search_up-Cut}
use libdrm.VaMgr.Complete.{Room, search_down_found, search_up_found}

-- The alignment and the size that a request is served with.
abbrev pub eff_alignment : VaMgr → ℕ → ℕ
eff_alignment m alignment = max2 alignment m.va_alignment

abbrev pub eff_size : VaMgr → ℕ → ℕ
eff_size m size = align64 size m.va_alignment

-- No sum of the search wraps.
pub record InRange (m : VaMgr) (size alignment base : ℕ) : Type 0 where
  pub size_small : base + size + m.va_alignment ≤ 2 ^ 64
  pub align_small : m.va_max + eff_alignment m alignment ≤ 2 ^ 64

-- A range from `va` on was taken from `m`, leaving `m'`.
pub record Allocated (gap : ℕ) (m : VaMgr) (size alignment base va : ℕ) (m' : VaMgr) : Type 0 where
  pub aligned : va % eff_alignment m alignment ≡ 0
  pub at_base : (base ≡ 0) ⊎ (va ≡ base)
  pub in_bounds : va + eff_size m size ≤ m.va_max
  pub was_free : (a : ℕ) → within va (eff_size m size) a ≡ true → is_free m.va_holes a ≡ true
  pub now_free :
      (a : ℕ)
      → is_free m'.va_holes a ≡ (is_free m.va_holes a && not (within va (eff_size m size) a))
  pub valid : gap ≤ size → IsValid gap m'
  pub same_max : m'.va_max ≡ m.va_max
  pub same_alignment : m'.va_alignment ≡ m.va_alignment

-- The search of `find_va`, by its direction.
abbrev pub search : Bool → Bool → VaMgr → ℕ → ℕ → ℕ → Option Taken
search memory top m size alignment base =
    let size' = eff_size m size in
    let pick = place top size' (eff_alignment m alignment) base in
    if top then search_down memory size' pick m.va_holes else search_up memory size' pick m.va_holes

module _ (memory : Bool) (m : VaMgr) (size alignment base : ℕ) (top : Bool) where
  pub find_va-misaligned :
      base % eff_alignment m alignment ≢ 0
      → find_va memory m size alignment base top
        ≡ record { ret = err einval; va_out = none; mgr = m }
  unfolding find_va
  find_va-misaligned e = ground arith

  pub find_va-search :
      base % eff_alignment m alignment ≡ 0
      → find_va memory m size alignment base top
        ≡ finish m (search memory top m size alignment base)
  unfolding find_va
  find_va-search e = ground arith

module _ (gap : ℕ) (memory : Bool) (m : VaMgr) (size alignment base : ℕ) (top : Bool)
    (v : IsValid gap m) (r : InRange m size alignment base) where
  eff_size-bounds : (size ≤ eff_size m size) × (base + eff_size m size < 2 ^ 64)
  eff_size-bounds =
      let b = IsPow2-bounds v.power in
      let a = align64-RoundsUp size v.power (omega arith) in (a.1, omega arith)

  limits :
      base % eff_alignment m alignment ≡ 0
      → Limits m.va_max (eff_size m size) (eff_alignment m alignment) base
  limits e = record {
    align_small = r.align_small;
    base_small = eff_size-bounds.1;
    align_pos = let b = IsPow2-bounds v.power in ground arith;
    base_aligned = e;
  }

  search-Cut :
      (t : Taken)
      → base % eff_alignment m alignment ≡ 0
      → search memory top m size alignment base ≡ some t
      → Cut gap
          (eff_size m size)
          (eff_alignment m alignment)
          base
          (m.va_max + gap)
          memory
          m.va_holes
          t
  search-Cut t e s = elim (Bool-cases top) [
    | inl p ↦
        search_down-Cut gap _ _ _ _ memory true v.gap_le (limits e) _ _ t (omega arith) v.spaced
          (rw p at s)
    | inr p ↦
        search_up-Cut gap _ _ _ _ memory false v.gap_le (limits e) _ _ t (omega arith) v.spaced
          (rw p at s)
  ]

  Cut-Allocated :
      (t : Taken)
      → Cut gap
          (eff_size m size)
          (eff_alignment m alignment)
          base
          (m.va_max + gap)
          memory
          m.va_holes
          t
      → t.ret ≡ ok
      → Allocated gap m size alignment base t.va (record m { va_holes = t.holes })
  Cut-Allocated t c e = record {
    aligned = c.aligned;
    at_base = c.at_base;
    in_bounds = omega arith;
    was_free = c.was_free;
    now_free = λ a. c.now_free a e;
    valid = λ z. record {
      gap_le = v.gap_le;
      power = v.power;
      small = v.small;
      spaced = c.spaced (omega (arith, eff_size-bounds.0));
    };
    same_max = refl;
    same_alignment = refl;
  }

  -- In a valid manager, for a request whose sums do not wrap (`InRange`: base, size and `va_alignment`
  -- add up to at most 2^64, and so do `va_max` and the alignment): a search that returns 0 has written
  -- to `va_out` an address of the requested alignment (and the required base, if one is given), with
  -- the range behind it below `va_max`; every address of the range was free, afterwards exactly these
  -- are no longer free, and the manager stays valid if the size is at least the least size `gap` of a
  -- hole, which is 0 or 1.
  pub find_va-Allocated :
      let s = find_va memory m size alignment base top in
      s.ret ≡ ok → (va : ℕ) × (s.va_out ≡ some va) × Allocated gap m size alignment base va s.mgr
  unfolding finish
  find_va-Allocated e = elim (ℕ_discrete (base % eff_alignment m alignment) 0) [
    | no b ↦ cc (rw (find_va-misaligned memory m size alignment base top b) at e)
    | yes b ↦ elim (Option-cases (search memory top m size alignment base)) [
      | inl n ↦ cc (rw (find_va-search memory m size alignment base top b, n, finish) at e)
      | inr (t, f) ↦
          let e' = rw (find_va-search memory m size alignment base top b, f, finish) at e in
          rw (find_va-search memory m size alignment base top b, f, finish)
            (t.va, refl, Cut-Allocated t (search-Cut t b f) e')
    ]
  ]

  -- A search that returns an error leaves the manager as it was.
  pub find_va-unchanged :
      (e : _)
      → (find_va memory m size alignment base top).ret ≡ err e
      → (find_va memory m size alignment base top).mgr ≡ m
  unfolding finish
  find_va-unchanged e p = elim (ℕ_discrete (base % eff_alignment m alignment) 0) [
    | no b ↦ rw (find_va-misaligned memory m size alignment base top b)
    | yes b ↦ elim (Option-cases (search memory top m size alignment base)) [
      | inl n ↦ rw (find_va-search memory m size alignment base top b, n, finish)
      | inr (t, f) ↦
          let p' = rw (find_va-search memory m size alignment base top b, f, finish) at p in
          rw (find_va-search memory m size alignment base top b, f, finish)
            (ap (λ hs. record m { va_holes = hs }) ((search-Cut t b f).without e p'))
    ]
  ]

  search_found :
      (other : ℕ)
      → 0 < size
      → base % eff_alignment m alignment ≡ 0
      → Room (eff_size m size) (eff_alignment m alignment) base m.va_holes other
      → (t : Taken) × (search memory top m size alignment base ≡ some t) × Best top t.va other
  search_found other z b room =
      let z' : 0 < eff_size m size = omega (arith, eff_size-bounds.0) in
      elim (Bool-cases top) [
        | inl p ↦ rw p (
            search_down_found gap _ _ _ _ memory v.gap_le z' (limits b) other _ m.va_holes
              (omega arith) v.spaced room)
        | inr p ↦ rw p (
            search_up_found gap _ _ _ _ memory v.gap_le z' (limits b) other _ m.va_holes
              (omega arith) v.spaced room)
      ]

  -- In a valid manager, with memory, for a nonempty request whose sums do not wrap (`InRange`: base,
  -- size and `va_alignment` add up to at most 2^64, and so do `va_max` and the alignment) and whose
  -- base has the alignment: if some hole has room for the request, it is granted, at the highest
  -- possible address if the search runs from the top, and else at the lowest.
  pub find_va_complete :
      (other : ℕ)
      → memory ≡ true
      → 0 < size
      → base % eff_alignment m alignment ≡ 0
      → Room (eff_size m size) (eff_alignment m alignment) base m.va_holes other
      → let s = find_va memory m size alignment base top in
        (s.ret ≡ ok) × ((va : ℕ) × (s.va_out ≡ some va) × Best top va other)
  unfolding finish
  find_va_complete other me z b room =
      let (t, f, best) = search_found other z b room in
      let c = search-Cut t b f in
      rw (find_va-search memory m size alignment base top b, f, finish)
        (c.with_memory me, (t.va, refl, best))
