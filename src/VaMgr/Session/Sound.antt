-- ===== src/VaMgr/Session/Sound.antt =====
-- Live ranges never overlap, and none of their addresses is free.
use libdrm.Base.{
  ℕ, ◌+◌, ◌<◌, ◌≡◌, refl, sym, ◌∙◌, inl, inr, Bool, true, false, List, [], ◌∷◌, arith, some_inj,
}
use native.Mathlib.Decide.{dec_le}
use libdrm.VaMgr.{VaMgr, free_va}
use libdrm.VaMgr.Holes.{within, is_free, IsValid}
use libdrm.VaMgr.Find.{Allocated, InRange, eff_size, find_va-Allocated, find_va-unchanged}
use libdrm.VaMgr.Canonical.{Clear-of_not_free}
use libdrm.VaMgr.RoundTrip.{eff_size-aligned, nonempty}
use libdrm.VaMgr.Free.Loop.{Returnable, free_va-IsValid, free_va-is_free, free_va-same}
use libdrm.VaMgr.Free.Memory.{free_va-Less}
use libdrm.VaMgr.Session.{
  Range, Session, Removed, here, there, Step, allocate, refuse, release, Reach, start, next, Apart,
  AllApart, Owned, Live, IsSound,
}

-- Ranges that share no address are apart.
Apart-of_disjoint :
    (r s : Range)
    → 0 < r.size
    → 0 < s.size
    → ((a : ℕ) → within r.va r.size a ≡ true → within s.va s.size a ≡ false)
    → Apart r s
Apart-of_disjoint r s p q d = elim (dec_le (r.va + r.size) s.va) [
  | yes l ↦ inl l
  | no n ↦ elim (dec_le (s.va + s.size) r.va) [
    | yes l ↦ inr l
    | no m ↦ elim (dec_le r.va s.va) [
      | yes l ↦ absurd (ground (arith, d s.va))
      | no l ↦ absurd (ground (arith, d r.va))
    ]
  ]
]

Apart-sym : (r s : Range) → Apart r s → Apart s r
Apart-sym r s (inl l) = inr l
Apart-sym r s (inr l) = inl l

-- Ranges that were not free stay so when the manager frees no address of theirs.
Owned-mono :
    (m m' : VaMgr) (r : Range)
    → m'.va_alignment ≡ m.va_alignment
    → m'.va_max ≡ m.va_max
    → ((a : ℕ)
        → within r.va r.size a ≡ true
        → is_free m'.va_holes a ≡ true
        → is_free m.va_holes a ≡ true)
    → Owned m r
    → Owned m' r
Owned-mono m m' r p q f o = record {
  nonempty = o.nonempty;
  aligned = rw p o.aligned;
  in_bounds = rw q o.in_bounds;
  not_free = λ a w. ground (arith, f a w, o.not_free a w);
}

module _ (m m' : VaMgr) (size alignment base va : ℕ) (v : IsValid 1 m)
    (r : InRange m size alignment base) (z : 0 < size)
    (d : Allocated 1 m size alignment base va m') where
  abbrev new : Range
  new = record { va = va; size = eff_size m size }

  new-Owned : Owned m' new
  new-Owned = record {
    nonempty = nonempty m m' size alignment base va v r z d;
    aligned = rw d.same_alignment (eff_size-aligned m m' size alignment base va v r z d);
    in_bounds = rw d.same_max d.in_bounds;
    not_free = λ a w. ground (arith, d.now_free a);
  }

  new-AllApart : (rs : List Range) → Live m rs → AllApart new rs
  new-AllApart [] l = tt
  new-AllApart (s ∷ rs) (o, _, l) = (
    Apart-of_disjoint new s new-Owned.nonempty o.nonempty
        (λ a w. ground (arith, d.was_free a, o.not_free a)),
    new-AllApart rs l,
  )

  keep-Live : (rs : List Range) → Live m rs → Live m' rs
  keep-Live [] l = tt
  keep-Live (s ∷ rs) (o, p, l) = (
    Owned-mono m m' s d.same_alignment d.same_max (λ a w h. ground (arith, d.now_free a)) o,
    p,
    keep-Live rs l,
  )

-- What `Removed` leaves, and what it takes out.
Removed-AllApart :
    (s : Range) {r : Range} {rs rs' : List Range}
    → Removed r rs rs'
    → AllApart s rs
    → Apart s r × AllApart s rs'
Removed-AllApart s here (p, q) = (p, q)
Removed-AllApart s (there x) (p, q) = let ih = Removed-AllApart s x q in (ih.0, (p, ih.1))

Removed-Live :
    {m : VaMgr} {r : Range} {rs rs' : List Range}
    → Removed r rs rs'
    → Live m rs
    → Owned m r × AllApart r rs' × Live m rs'
Removed-Live here (o, p, l) = (o, p, l)
Removed-Live {r = r} (there {s} x) (o, p, l) =
    let ih = Removed-Live x l in
    let q = Removed-AllApart s x p in (ih.0, (Apart-sym s r q.0, ih.1), (o, q.1, ih.2))

module _ (memory : Bool) (m : VaMgr) (r : Range) (v : IsValid 1 m) (o : Owned m r) where
  Owned-Returnable : Returnable m r.va r.size
  Owned-Returnable = record {
    nonempty = rw o.aligned o.nonempty;
    in_bounds = rw o.aligned o.in_bounds;
    clear =
        rw o.aligned (Clear-of_not_free _ r.va r.size m.va_holes o.nonempty v.spaced o.not_free);
  }

  released-Live :
      (rs : List Range) → AllApart r rs → Live m rs → Live (free_va memory m r.va r.size) rs
  released-Live [] p l = tt
  released-Live (s ∷ rs) (p, ps) (o', q, l) = (
    Owned-mono m _ s (free_va-same memory m r.va r.size).0 (free_va-same memory m r.va r.size).1
        (λ a w h. ground (
          arith,
          free_va-Less memory m r.va r.size a h,
          free_va-is_free true m r.va r.size v Owned-Returnable refl a,
          o.aligned,
        ))
        o',
    q,
    released-Live rs ps l,
  )

Allocated-IsSound :
    (s : Session) (m' : VaMgr) (size alignment base va : ℕ)
    → InRange s.mgr size alignment base
    → 0 < size
    → Allocated 1 s.mgr size alignment base va m'
    → IsSound s
    → IsSound (record { mgr = m'; live = record { va = va; size = eff_size s.mgr size } ∷ s.live })
Allocated-IsSound s m' size alignment base va r z d i = record {
  valid = d.valid z;
  live = (
    new-Owned s.mgr m' size alignment base va i.valid r z d,
    new-AllApart s.mgr m' size alignment base va i.valid r z d s.live i.live,
    keep-Live s.mgr m' size alignment base va i.valid r z d s.live i.live,
  );
}

-- Each step keeps the invariant.
pub Step-IsSound : {s t : Session} → Step s t → IsSound s → IsSound t
Step-IsSound (allocate memory s size alignment base top va r z e p) i =
    let (va', p', d) = find_va-Allocated 1 memory s.mgr size alignment base top i.valid r e in
    let q : va' ≡ va = some_inj (sym p' ∙ p) in
    Allocated-IsSound s _ size alignment base va r z (rw q at d) i
Step-IsSound (refuse memory s size alignment base top r e p) i =
    rw (find_va-unchanged 1 memory s.mgr size alignment base top i.valid r e p) i
Step-IsSound (release memory s r rest x) i =
    let (o, p, l) = Removed-Live x i.live in
    record {
      valid =
          free_va-IsValid memory s.mgr r.va r.size i.valid
            (Owned-Returnable memory s.mgr r i.valid o);
      live = released-Live memory s.mgr r i.valid o rest p l;
    }

-- Of searches whose sums do not wrap (`InRange`: base, size and `va_alignment` add up to at most 2^64,
-- and so do `va_max` and the alignment), those that succeed being of a nonzero size, and of frees of
-- live ranges, with or without memory: in every state that they reach from a sound one, the manager is
-- valid, any two live ranges are apart, and every live range lies below `va_max` with none of its
-- addresses free.
pub Reach-IsSound : {s t : Session} → Reach s t → IsSound s → IsSound t
Reach-IsSound start i = i
Reach-IsSound (next r st) i = Step-IsSound st (Reach-IsSound r i)
