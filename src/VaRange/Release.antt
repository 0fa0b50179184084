-- ===== src/VaRange/Release.antt =====
-- `amdgpu_va_range_free` after `amdgpu_va_range_alloc`, and where a range may come from.
use libdrm.Base.{
  ℕ, ◌≡◌, ◌≢◌, ap, inl, inr, Bool, true, false, some, arith, ok, clear_bit_one, ◌==◌, max2, align64,
  Ret-cases, Bool-cases,
}
use libdrm.VaMgr.{free_va}
use libdrm.VaMgr.Holes.{IsValid}
use libdrm.VaMgr.RoundTrip.{free_va-restores}
use libdrm.VaRange.{
  Which, low, low_32, high, high_32, Managers, manager, put, VaHandle, VaRangeType, Memory, Attempt,
  Reply, hand_out, has, known_flags, first_choice, fallback, range_32_bit, range_high,
  range_replayable, attempt, va_range_alloc, va_range_free,
}
use libdrm.VaRange.Laws.{manager-put, put-put, put-manager}
use libdrm.VaRange.Alloc.{Admissible, Granted, va_range_alloc-Granted}

-- The range of a handle is given back.
va_range_free-Granted :
    (d : Managers) (size unit alignment base : ℕ) (r : Reply)
    → ((w : Which) → IsValid 1 (manager d w))
    → (g : Granted d size unit alignment base r) → r.va_base_allocated ≢ 0
    → va_range_free true r.mgrs r.va_range_handle ≡ (ok, d)
unfolding va_range_free
va_range_free-Granted d size unit al base r valid g n =
    let h = g.handle in
    let restored : put r.mgrs h.vamgr (free_va true (manager r.mgrs h.vamgr) h.address h.size) ≡ d =
      rw
        (
          g.mgrs,
          manager-put,
          put-put,
          free_va-restores (manager d h.vamgr) g.mgr h.size al base h.address (valid h.vamgr)
              g.in_range g.nonempty g.allocated,
        )
        (put-manager d h.vamgr) in
    let nonzero : (h.address == 0) ≡ false = ground (arith, g.address) in
    rw g.returned (rw nonzero (ap (λ x. (ok, x)) restored))

-- When the four managers are valid, the size is not 0, and no sum of a search wraps in any of them
-- (`Admissible`): freeing, with memory, the handle of a range that was just allocated, at an address
-- other than 0, returns 0 and restores the four managers exactly.
pub va_range_free-va_range_alloc :
    (memory : Memory) (d : Managers) (type : VaRangeType)
    (size va_base_alignment va_base_required out flags : ℕ)
    → Admissible d size va_base_alignment va_base_required
    → let r = va_range_alloc memory d type size va_base_alignment va_base_required out flags in
      r.ret ≡ ok → r.va_base_allocated ≢ 0 → va_range_free true r.mgrs r.va_range_handle ≡ (ok, d)
va_range_free-va_range_alloc memory d type size al base out flags adm e n =
    va_range_free-Granted d size _ _ base _ adm.valid
      (va_range_alloc-Granted memory d type size al base out flags adm e) n

module _ (d : Managers) (flags : ℕ) where
  -- Dropping the high bit leaves the 32-bit one.
  known_flags-32_bit : has (known_flags d flags) range_32_bit ≡ has flags range_32_bit
  unfolding known_flags
  known_flags-32_bit = ground (arith, clear_bit_one flags)

  known_flags-high : has (known_flags d flags) range_high ≡ true → d.vamgr_high_32.va_max ≢ 0
  unfolding known_flags
  known_flags-high h = ground (arith, clear_bit_one flags)

-- The managers of the low addresses, and those below 4 GB of their part.
unfoldable pub is_low : Which → Bool
is_low low = true
is_low low_32 = true
is_low high = false
is_low high_32 = false

unfoldable pub is_32_bit : Which → Bool
is_32_bit low = false
is_32_bit low_32 = true
is_32_bit high = false
is_32_bit high_32 = true

hand_out-vamgr :
    (memory : Memory) (type : VaRangeType) (w : Which) (size : ℕ) (a : Attempt) (h : VaHandle)
    → (hand_out memory type w size a).va_range_handle ≡ some h
    → h.vamgr ≡ w
unfolding hand_out
hand_out-vamgr memory type w size a h e = ground arith

-- The manager that a flag allows.
abbrev pub Allowed : Managers → ℕ → Which → Type 0
Allowed d flags w =
    (has flags range_32_bit ≡ true → is_32_bit w ≡ true)
    × (d.vamgr_high_32.va_max ≡ 0 → is_low w ≡ true)

first_choice-Allowed :
    (d : Managers) (flags : ℕ) → Allowed d flags (first_choice (known_flags d flags))
unfolding first_choice is_32_bit is_low
first_choice-Allowed d flags =
    (λ b. ground (arith, known_flags-32_bit d flags), λ z. ground (arith, known_flags-high d flags))

fallback-Allowed :
    (d : Managers) (flags : ℕ)
    → has (known_flags d flags) range_32_bit ≡ false
    → Allowed d flags (fallback (known_flags d flags))
unfolding fallback is_32_bit is_low
fallback-Allowed d flags f =
    (λ b. ground (arith, known_flags-32_bit d flags), λ z. ground (arith, known_flags-high d flags))

-- A range asked for with the 32-bit flag comes from a 32-bit manager, and without a high manager
-- every range comes from a low one, whatever the flags and the other arguments say.
pub va_range_alloc-Allowed :
    (memory : Memory) (d : Managers) (type : VaRangeType)
    (size va_base_alignment va_base_required out flags : ℕ) (h : VaHandle)
    → (va_range_alloc memory d type size va_base_alignment va_base_required out
        flags).va_range_handle
      ≡ some h
    → Allowed d flags h.vamgr
unfolding va_range_alloc
va_range_alloc-Allowed memory d type size al base out flags h e =
    let f = known_flags d flags in
    let m = manager d (first_choice f) in
    let first =
      attempt memory.find d (first_choice f) (align64 size m.va_alignment) (max2 al m.va_alignment)
        base (has flags range_replayable) out in
    elim (Ret-cases first.ret) [
      | inl q ↦
          rw (hand_out-vamgr memory type _ _ _ h (rw (va_range_alloc, q) at e))
            (first_choice-Allowed d flags)
      | inr (x, q) ↦ elim (Bool-cases (has f range_32_bit)) [
        | inl b ↦
            rw (hand_out-vamgr memory type _ _ _ h (rw (va_range_alloc, q, b) at e))
              (first_choice-Allowed d flags)
        | inr b ↦
            rw (hand_out-vamgr memory type _ _ _ h (rw (va_range_alloc, q, b) at e))
              (fallback-Allowed d flags b)
      ]
    ]
