-- ===== src/VaMgr/Complete.antt =====
-- A search finds a place whenever some hole has room, and the best one.
use libdrm.Base.{
  ℕ, ◌+◌, ◌≤◌, ◌<◌, ◌≡◌, refl, ◌⊎◌, inl, inr, Bool, true, false, some, List, [], ◌∷◌, arith,
  Option-cases,
}
use libdrm.VaMgr.{Hole, Taken, place, keep, take_from, search_down, search_up}
use libdrm.VaMgr.Holes.{Spaced}
use libdrm.VaMgr.Place.{Fits, place-Fits, place_found}
use libdrm.VaMgr.Loops.{
  Limits, Spaced-NoWrap, search_up-Cut, search_down-hit, search_down-miss, search_up-hit,
  search_up_later,
}

module _ (size alignment base : ℕ) where
  -- Some hole of the list has room for the request at `va`.
  abbrev pub Room : List Hole → ℕ → Type 0
  Room [] va = ⊥
  Room (h ∷ hs) va = Fits h size alignment base va ⊎ Room hs va

module _ (gap va_max size alignment base : ℕ) (memory : Bool) (g : gap ≤ 1) (z : 0 < size)
    (lim : Limits va_max size alignment base) (other : ℕ) where
  Room-below :
      (bound : ℕ) (hs : List Hole)
      → Spaced gap bound hs
      → Room size alignment base hs other
      → other + size ≤ bound
  Room-below bound [] s r = absurd r
  Room-below bound (h ∷ hs) s (inl f) = omega arith
  Room-below bound (h ∷ hs) s (inr r) = omega (arith, Room-below h.offset hs s.2 r)

  take_va : (h : Hole) (va : ℕ) (hs : List Hole) → (take_from memory size h va hs).va ≡ va
  unfolding take_from
  take_va h va hs = refl

  -- The search from the top finds a place no lower than any other.
  pub search_down_found :
      (bound : ℕ) (hs : List Hole)
      → bound ≤ va_max + gap
      → Spaced gap bound hs
      → Room size alignment base hs other
      → (t : Taken) × (search_down memory size (place true size alignment base) hs ≡ some t)
        × (other ≤ t.va)
  search_down_found bound [] l s r = absurd r
  search_down_found bound (h ∷ hs) l s (inl f) =
      let n = Spaced-NoWrap gap va_max size alignment base memory true g lim bound h hs l s in
      let (va, p, b) = place_found true size alignment base h n other z f in
      (take_from memory size h va hs, search_down-hit memory size _ h hs p, rw take_va b)
  search_down_found bound (h ∷ hs) l s (inr q) =
      let n = Spaced-NoWrap gap va_max size alignment base memory true g lim bound h hs l s in
      let ih = search_down_found h.offset hs (omega arith) s.2 q in
      elim (Option-cases (place true size alignment base h)) [
        | inr (va, p) ↦
            let f = place-Fits true size alignment base h n va p in
            (
              take_from memory size h va hs,
              search_down-hit memory size _ h hs p,
              rw take_va (omega (arith, Room-below h.offset hs s.2 q)),
            )
        | inl p ↦ (keep h ih.0, search_down-miss memory size _ h hs p ih.1, ih.2)
      ]

  -- The search from the bottom finds a place no higher than any other.
  pub search_up_found :
      (bound : ℕ) (hs : List Hole)
      → bound ≤ va_max + gap
      → Spaced gap bound hs
      → Room size alignment base hs other
      → (t : Taken) × (search_up memory size (place false size alignment base) hs ≡ some t)
        × (t.va ≤ other)
  search_up_found bound [] l s r = absurd r
  search_up_found bound (h ∷ hs) l s (inr q) =
      let ih = search_up_found h.offset hs (omega arith) s.2 q in
      (keep h ih.0, search_up_later memory size _ h hs ih.1, ih.2)
  search_up_found bound (h ∷ hs) l s (inl f) =
      let n = Spaced-NoWrap gap va_max size alignment base memory false g lim bound h hs l s in
      let (va, p, b) = place_found false size alignment base h n other z f in
      elim (Option-cases (search_up memory size (place false size alignment base) hs)) [
        | inr (t, e) ↦
            let c =
              search_up-Cut gap va_max size alignment base memory false g lim h.offset hs t
                (omega arith) s.2 e in
            (keep h t, search_up_later memory size _ h hs e, omega (arith, c.below))
        | inl e ↦
            (take_from memory size h va hs, search_up-hit memory size _ h hs e p, rw take_va b)
      ]
