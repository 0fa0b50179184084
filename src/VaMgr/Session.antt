-- ===== src/VaMgr/Session.antt =====
-- Any sequence of searches and frees on one manager: a step relation, and what holds at every state
-- that it reaches.
pub mod Sound
use libdrm.Base.{
  ℕ, ◌+◌, ◌≤◌, ◌<◌, ◌≡◌, refl, ap, sym, ◌∙◌, ◌⊎◌, inl, inr, Bool, true, false, ◌&&◌, ◌||◌, not,
  Option, some, List, [], ◌∷◌, arith, Bool-cases, Ret, ok, err, align64,
}
use native.Mathlib.Decide.{dec_le}
use libdrm.VaMgr.{VaMgr, find_va, free_va}
use libdrm.VaMgr.Holes.{within, is_free, IsValid}
use libdrm.VaMgr.Find.{Allocated, InRange, eff_size, find_va-Allocated, find_va-unchanged}
use libdrm.VaMgr.Canonical.{Clear-of_not_free}
use libdrm.VaMgr.RoundTrip.{eff_size-aligned}
use libdrm.VaMgr.Free.Loop.{Returnable, free_va-IsValid, free_va-is_free}
use libdrm.VaMgr.Free.Memory.{free_va-Less}

-- A range that has been handed out and not yet given back.
pub record Range : Type 0 where
  pub va : ℕ
  pub size : ℕ

pub record Session : Type 0 where
  pub mgr : VaMgr
  pub live : List Range

-- `Removed r rs rs'`: `rs'` is `rs` without one occurrence of `r`.
pub data Removed (r : Range) : List Range → List Range → Type 0 where
  here : {rs : List Range} → Removed r (r ∷ rs) rs
  there : {s : Range} {rs rs' : List Range} → Removed r rs rs' → Removed r (s ∷ rs) (s ∷ rs')

pub data Step : Session → Session → Type 0 where
  -- A search that succeeds makes its range live.
  allocate :
      (memory : Bool) (s : Session) (size alignment base : ℕ) (top : Bool) (va : ℕ)
      → InRange s.mgr size alignment base
      → 0 < size
      → (find_va memory s.mgr size alignment base top).ret ≡ ok
      → (find_va memory s.mgr size alignment base top).va_out ≡ some va
      → Step s (record {
        mgr = (find_va memory s.mgr size alignment base top).mgr;
        live = record { va = va; size = eff_size s.mgr size } ∷ s.live;
      })
  -- A search that fails.
  refuse :
      (memory : Bool) (s : Session) (size alignment base : ℕ) (top : Bool)
      → InRange s.mgr size alignment base
      → (e : _) → (find_va memory s.mgr size alignment base top).ret ≡ err e
      → Step s (record s { mgr = (find_va memory s.mgr size alignment base top).mgr })
  -- A live range is given back.
  release :
      (memory : Bool) (s : Session) (r : Range) (rest : List Range)
      → Removed r s.live rest
      → Step s (record { mgr = free_va memory s.mgr r.va r.size; live = rest })

pub data Reach (s : Session) : Session → Type 0 where
  start : Reach s s
  next : {t u : Session} → Reach s t → Step t u → Reach s u

abbrev pub Apart : Range → Range → Type 0
Apart r s = (r.va + r.size ≤ s.va) ⊎ (s.va + s.size ≤ r.va)

abbrev pub AllApart : Range → List Range → Type 0
AllApart r [] = Unit {0}
AllApart r (s ∷ rs) = Apart r s × AllApart r rs

-- A live range lies below `va_max`, and the manager counts none of its addresses as free.
pub record Owned (m : VaMgr) (r : Range) : Type 0 where
  pub nonempty : 0 < r.size
  pub aligned : align64 r.size m.va_alignment ≡ r.size
  pub in_bounds : r.va + r.size ≤ m.va_max
  pub not_free : (a : ℕ) → within r.va r.size a ≡ true → is_free m.va_holes a ≡ false

abbrev pub Live : VaMgr → List Range → Type 0
Live m [] = Unit {0}
Live m (r ∷ rs) = Owned m r × AllApart r rs × Live m rs

pub record IsSound (s : Session) : Type 0 where
  pub valid : IsValid 1 s.mgr
  pub live : Live s.mgr s.live
