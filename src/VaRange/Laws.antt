-- ===== src/VaRange/Laws.antt =====
-- Reading and writing one of the four managers, and one search in it.
use libdrm.Base.{ℕ, ◌≡◌, refl, ap, Bool, ok, err, ◌∙◌}
use libdrm.VaMgr.{VaMgr}
use libdrm.VaMgr.Holes.{IsValid}
use libdrm.VaMgr.Find.{Allocated, InRange, find_va-Allocated, find_va-unchanged}
use libdrm.VaRange.{Which, low, low_32, high, high_32, Managers, manager, put, Attempt, attempt}

pub manager-put : (d : Managers) (w : Which) (m : VaMgr) → manager (put d w m) w ≡ m
manager-put d low m = refl
manager-put d low_32 m = refl
manager-put d high m = refl
manager-put d high_32 m = refl

pub put-manager : (d : Managers) (w : Which) → put d w (manager d w) ≡ d
put-manager d low = refl
put-manager d low_32 = refl
put-manager d high = refl
put-manager d high_32 = refl

pub put-put : (d : Managers) (w : Which) (m n : VaMgr) → put (put d w m) w n ≡ put d w n
put-put d low m n = refl
put-put d low_32 m n = refl
put-put d high m n = refl
put-put d high_32 m n = refl

-- What one search in manager `w` leaves behind when it succeeds.
pub record Taken (d : Managers) (w : Which) (size alignment base : ℕ) (a : Attempt) : Type 0 where
  pub mgr : VaMgr
  pub allocated : Allocated 1 (manager d w) size alignment base a.out mgr
  pub mgrs : a.mgrs ≡ put d w mgr

module _ (memory : Bool) (d : Managers) (w : Which) (size alignment base : ℕ) (top : Bool) (out : ℕ)
    (v : IsValid 1 (manager d w)) (r : InRange (manager d w) size alignment base) where
  pub attempt-Taken :
      (attempt memory d w size alignment base top out).ret ≡ ok
      → Taken d w size alignment base (attempt memory d w size alignment base top out)
  unfolding attempt
  attempt-Taken e =
      let (va, p, q) = find_va-Allocated 1 memory (manager d w) size alignment base top v r e in
      record { mgr = _; allocated = rw (p, attempt) q; mgrs = refl }

  pub attempt_failed :
      (e : _)
      → (attempt memory d w size alignment base top out).ret ≡ err e
      → (attempt memory d w size alignment base top out).mgrs ≡ d
  unfolding attempt
  attempt_failed e p =
      ap (put d w) (find_va-unchanged 1 memory (manager d w) size alignment base top v r e p)
      ∙ put-manager d w
