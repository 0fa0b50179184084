-- ===== src/Bo/Driver.antt =====
-- The driver behind the buffer objects: what amdgpu/amdgpu_bo.c relies on of AmdgpuBoAlloc and
-- DrmCloseBufferHandle, which the accelerant of the device implements.
use libdrm.Base.{ℕ, ◌≡◌, ◌==◌, Bool, true, false, ◌||◌, Option, none, some, if◌then◌else◌, Errno}
use libdrm.Bo.State.{Answer, done, refused}

abbrev pub is_some : Option ℕ → Bool
is_some none = false
is_some (some p) = true

pub record Driver : Type 1 where
  pub State : Type 0
  pub owned : State → ℕ → Bool
  pub create : State → ℕ → Answer ℕ × State
  pub close : State → ℕ → State
  -- The driver's own invariant, and when it has a handle left to give.
  pub IsSane : State → Type 0
  pub Room : State → Type 0
  pub create-IsSane : (s : State) (size : ℕ) → IsSane s → Room s → IsSane (create s size).1
  pub close-IsSane : (s : State) (h : ℕ) → IsSane s → IsSane (close s h)
  pub create_new :
      (s : State) (size h : ℕ) → IsSane s → (create s size).0 ≡ done h → owned s h ≡ false
  pub create_owned :
      (s : State) (size h : ℕ)
      → IsSane s
      → (create s size).0 ≡ done h
      → (j : ℕ) → owned (create s size).1 j ≡ ((j == h) || owned s j)
  pub create_refused :
      (s : State) (size : ℕ) (e : Errno)
      → IsSane s
      → (create s size).0 ≡ refused e
      → (j : ℕ) → owned (create s size).1 j ≡ owned s j
  pub close_owned :
      (s : State) (h j : ℕ) → IsSane s → owned (close s h) j ≡ (if j == h then false else owned s j)
