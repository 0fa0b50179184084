-- ===== src/VaMgr/Loops.antt =====
-- The two search loops of `amdgpu_vamgr_find_va` over a list of holes.
use libdrm.Base.{
  ℕ, ◌+◌, ◌%◌, ◌≤◌, ◌<◌, ◌^◌, ◌≡◌, ap, ◌⊎◌, inl, inr, Bool, true, ◌&&◌, not, Option, none, some,
  List, [], ◌∷◌, arith, Option-cases, some_inj, ok, err,
}
use libdrm.VaMgr.{Hole, Taken, place, keep, take_from, search_down, search_up}
use libdrm.VaMgr.Holes.{within, is_free, Spaced}
use libdrm.VaMgr.Subtract.{
  Inside, take_from-memory, take_from-va, take_from-failed, take_from-Spaced, take_from-is_free,
}
use libdrm.VaMgr.Place.{NoWrap, place-Fits}

-- One round of each loop.
module _ (memory : Bool) (size : ℕ) (pick : Hole → Option ℕ) (h : Hole) (hs : List Hole) where
  pub search_down-hit :
      {va : ℕ}
      → pick h ≡ some va
      → search_down memory size pick (h ∷ hs) ≡ some (take_from memory size h va hs)
  unfolding search_down
  search_down-hit p = rw (p, search_down)

  pub search_down-miss :
      {t : Taken}
      → pick h ≡ none
      → search_down memory size pick hs ≡ some t
      → search_down memory size pick (h ∷ hs) ≡ some (keep h t)
  unfolding search_down
  search_down-miss p e = rw (p, e, search_down)

  pub search_up-hit :
      {va : ℕ}
      → search_up memory size pick hs ≡ none
      → pick h ≡ some va
      → search_up memory size pick (h ∷ hs) ≡ some (take_from memory size h va hs)
  unfolding search_up
  search_up-hit e p = rw (e, p, search_up)

  pub search_up_later :
      {t : Taken}
      → search_up memory size pick hs ≡ some t
      → search_up memory size pick (h ∷ hs) ≡ some (keep h t)
  unfolding search_up
  search_up_later e = rw (e, search_up)

-- The sums of a search over holes below `va_max` do not wrap.
pub record Limits (va_max size alignment base : ℕ) : Type 0 where
  pub align_small : va_max + alignment ≤ 2 ^ 64
  pub base_small : base + size < 2 ^ 64
  pub align_pos : 0 < alignment
  pub base_aligned : base % alignment ≡ 0

-- What a search that takes a range has done to the holes below `bound`.
pub record Cut (gap size alignment base bound : ℕ) (memory : Bool) (hs : List Hole) (t : Taken)
    : Type 0 where
  pub aligned : t.va % alignment ≡ 0
  pub at_base : (base ≡ 0) ⊎ (t.va ≡ base)
  pub below : t.va + size + gap ≤ bound
  pub was_free : (a : ℕ) → within t.va size a ≡ true → is_free hs a ≡ true
  pub with_memory : memory ≡ true → t.ret ≡ ok
  pub without : (e : _) → t.ret ≡ err e → t.holes ≡ hs
  pub spaced : gap ≤ size → Spaced gap bound t.holes
  pub now_free :
      (a : ℕ) → t.ret ≡ ok → is_free t.holes a ≡ (is_free hs a && not (within t.va size a))

module _ (gap va_max size alignment base : ℕ) (memory top : Bool) (g : gap ≤ 1)
    (lim : Limits va_max size alignment base) where
  pub Spaced-NoWrap :
      (bound : ℕ) (h : Hole) (hs : List Hole)
      → bound ≤ va_max + gap
      → Spaced gap bound (h ∷ hs)
      → NoWrap h size alignment base
  Spaced-NoWrap bound h hs l (z, e, s) = record {
    hole_small = omega arith;
    align_small = omega arith;
    base_small = lim.base_small;
    align_pos = lim.align_pos;
    base_aligned = lim.base_aligned;
  }

  take_from-Cut :
      (bound : ℕ) (h : Hole) (hs : List Hole) (va : ℕ)
      → bound ≤ va_max + gap
      → Spaced gap bound (h ∷ hs)
      → place top size alignment base h ≡ some va
      → Cut gap size alignment base bound memory (h ∷ hs) (take_from memory size h va hs)
  take_from-Cut bound h hs va l s p =
      let n = Spaced-NoWrap bound h hs l s in
      let f = place-Fits top size alignment base h n va p in
      let i : Inside h va size = record { above = f.above; fits = f.fits; small = n.hole_small } in
      let v = take_from-va memory size va gap bound h hs i in
      record {
        aligned = rw v f.aligned;
        at_base = rw v f.at_base;
        below = rw v (omega arith);
        was_free = rw v (λ a w. ground arith);
        with_memory = take_from-memory memory size va gap bound h hs i;
        without = take_from-failed memory size va gap bound h hs i;
        spaced = λ z. take_from-Spaced memory size va gap bound h hs i g z s;
        now_free = rw v (λ a. take_from-is_free memory size va gap bound h hs i a s);
      }

  keep-Cut :
      (bound : ℕ) (h : Hole) (hs : List Hole) (t : Taken)
      → Spaced gap bound (h ∷ hs)
      → Cut gap size alignment base h.offset memory hs t
      → Cut gap size alignment base bound memory (h ∷ hs) (keep h t)
  keep-Cut bound h hs t s c = record {
    aligned = c.aligned;
    at_base = c.at_base;
    below = omega arith;
    was_free = λ a w. ground (arith, c.was_free a);
    with_memory = c.with_memory;
    without = λ e p. ap (λ l. h ∷ l) (c.without e p);
    spaced = λ z. (s.0, s.1, c.spaced z);
    now_free = λ a p. ground (arith, c.now_free a p);
  }

  pub search_down-Cut :
      (bound : ℕ) (hs : List Hole) (t : Taken)
      → bound ≤ va_max + gap
      → Spaced gap bound hs
      → search_down memory size (place top size alignment base) hs ≡ some t
      → Cut gap size alignment base bound memory hs t
  unfolding search_down
  search_down-Cut bound [] t l s e = cc
  search_down-Cut bound (h ∷ hs) t l s e = elim (Option-cases (place top size alignment base h)) [
    | inr (va, p) ↦
        let q : take_from memory size h va hs ≡ t = some_inj (rw (p, search_down) at e) in
        rw (← q) (take_from-Cut bound h hs va l s p)
    | inl p ↦ elim (Option-cases (search_down memory size (place top size alignment base) hs)) [
      | inr (u, r) ↦
          let q : keep h u ≡ t = some_inj (rw (p, r, search_down) at e) in
          rw (← q) (keep-Cut bound h hs u s (search_down-Cut h.offset hs u (omega arith) s.2 r))
      | inl r ↦ cc (rw (p, r, search_down) at e)
    ]
  ]

  pub search_up-Cut :
      (bound : ℕ) (hs : List Hole) (t : Taken)
      → bound ≤ va_max + gap
      → Spaced gap bound hs
      → search_up memory size (place top size alignment base) hs ≡ some t
      → Cut gap size alignment base bound memory hs t
  unfolding search_up
  search_up-Cut bound [] t l s e = cc
  search_up-Cut bound (h ∷ hs) t l s e =
      elim (Option-cases (search_up memory size (place top size alignment base) hs)) [
        | inr (u, r) ↦
            let q : keep h u ≡ t = some_inj (rw (r, search_up) at e) in
            rw (← q) (keep-Cut bound h hs u s (search_up-Cut h.offset hs u (omega arith) s.2 r))
        | inl r ↦ elim (Option-cases (place top size alignment base h)) [
          | inr (va, p) ↦
              let q : take_from memory size h va hs ≡ t = some_inj (rw (r, p, search_up) at e) in
              rw (← q) (take_from-Cut bound h hs va l s p)
          | inl p ↦ cc (rw (r, p, search_up) at e)
        ]
      ]
