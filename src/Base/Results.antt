-- ===== src/Base/Results.antt =====
-- What a library call returns: 0, or one of the error codes that the code names, or a nonzero code
-- that it was handed by the driver. `failure` is -1, which is also B_ERROR. On Haiku the error codes
-- are negative.
use Prim.Native.Nat.{ℕ}
use mathlib.Core.Path.{◌≡◌, refl}
use mathlib.Core.Logic.{◌⊎◌, inl, inr}

pub data Errno : Type 0 where
  einval enomem enosys eperm enxio ebadf eagain enoent failure : Errno
  driver_error : ℕ → Errno

pub data Ret : Type 0 where
  ok : Ret
  err : Errno → Ret

pub Ret-cases : (r : Ret) → (r ≡ ok) ⊎ ((e : Errno) × (r ≡ err e))
Ret-cases ok = inl refl
Ret-cases (err e) = inr (e, refl)
