-- ===== src/VaRange/Alloc.antt =====
-- `amdgpu_va_range_alloc`, on every branch.
use libdrm.Base.{
  ℕ, ◌+◌, ◌≤◌, ◌<◌, ◌^◌, ◌≡◌, refl, ◌⊎◌, inl, inr, Bool, true, false, some, arith, ok, err, Errno,
  Ret-cases, Bool-cases, max2, align64, RoundsUp, align64-RoundsUp,
}
use libdrm.VaMgr.{VaMgr, free_va}
use libdrm.VaMgr.Holes.{IsValid}
use libdrm.VaMgr.Find.{Allocated, InRange}
use libdrm.VaMgr.RoundTrip.{free_va-restores}
use libdrm.VaRange.{
  Which, Managers, manager, put, VaHandle, VaRangeType, Memory, Attempt, attempt, Reply, hand_out,
  has, known_flags, first_choice, fallback, range_32_bit, range_replayable, va_range_alloc,
}
use libdrm.VaRange.Laws.{Taken, attempt-Taken, attempt_failed, manager-put, put-put, put-manager}

-- The managers are valid, the size is not 0, and no sum of a search wraps in any of them.
pub record Admissible (d : Managers) (size alignment base : ℕ) : Type 0 where
  pub valid : (w : Which) → IsValid 1 (manager d w)
  pub nonempty : 0 < size
  pub size_small : (w : Which) → size + (manager d w).va_alignment ≤ 2 ^ 64
  pub in_range :
      (w u : Which)
      → InRange
          (manager d w)
          (align64 size (manager d u).va_alignment)
          (max2 alignment (manager d u).va_alignment)
          base

-- The handle that a successful call returns, and what was done for it: its size is the asked one,
-- rounded up to whole units, the range was taken in one manager of `d`, and the other three are as
-- they were.
pub record Granted (d : Managers) (size unit alignment base : ℕ) (r : Reply) : Type 0 where
  pub handle : VaHandle
  pub mgr : VaMgr
  pub returned : r.va_range_handle ≡ some handle
  pub address : handle.address ≡ r.va_base_allocated
  pub nonempty : 0 < handle.size
  pub rounded : RoundsUp handle.size unit size
  pub in_range : InRange (manager d handle.vamgr) handle.size alignment base
  pub allocated : Allocated 1 (manager d handle.vamgr) handle.size alignment base handle.address mgr
  pub mgrs : r.mgrs ≡ put d handle.vamgr mgr

module _ (memory : Memory) (d : Managers) (type : VaRangeType) (w : Which)
    (size unit asked alignment base : ℕ) (a : Attempt) (v : IsValid 1 (manager d w))
    (r : InRange (manager d w) size alignment base) (z : 0 < size)
    (round : RoundsUp size unit asked) where
  hand_out-Granted :
      (a.ret ≡ ok → Taken d w size alignment base a)
      → (hand_out memory type w size a).ret ≡ ok
      → Granted d asked unit alignment base (hand_out memory type w size a)
  unfolding hand_out
  hand_out-Granted t e = elim (Ret-cases a.ret) [
    | inl q ↦ elim (Bool-cases memory.handle) [
      | inl h ↦
          rw (q, h, hand_out)
            (record {
              handle = record { address = a.out; size = size; range = type; vamgr = w };
              mgr = (t q).mgr;
              returned = refl;
              address = refl;
              nonempty = z;
              rounded = round;
              in_range = r;
              allocated = (t q).allocated;
              mgrs = (t q).mgrs;
            })
      | inr h ↦ cc (rw (q, h, hand_out) at e)
    ]
    | inr (x, q) ↦ cc (rw (q, hand_out) at e)
  ]

  hand_out_failed :
      memory.undo ≡ true
      → (a.ret ≡ ok → Taken d w size alignment base a)
      → ((x : Errno) → a.ret ≡ err x → a.mgrs ≡ d)
      → (e : Errno) → (hand_out memory type w size a).ret ≡ err e
      → (hand_out memory type w size a).mgrs ≡ d
  unfolding hand_out
  hand_out_failed u t f e p = elim (Ret-cases a.ret) [
    | inl q ↦ elim (Bool-cases memory.handle) [
      | inl h ↦ cc (rw (q, h, hand_out) at p)
      | inr h ↦ rw (q, h, hand_out) (undone (t q))
    ]
    | inr (x, q) ↦ rw (q, hand_out) (f x q)
  ]
    where
      undone :
          Taken d w size alignment base a
          → put a.mgrs w (free_va memory.undo (manager a.mgrs w) a.out size) ≡ d
      undone t =
          rw
            (
              t.mgrs,
              manager-put,
              put-put,
              u,
              free_va-restores (manager d w) t.mgr size alignment base a.out v r z t.allocated,
            )
            (put-manager d w)

module _ (memory : Memory) (d : Managers) (type : VaRangeType)
    (size va_base_alignment va_base_required out flags : ℕ)
    (adm : Admissible d size va_base_alignment va_base_required) where
  abbrev pub flags' : ℕ
  flags' = known_flags d flags

  abbrev pub first_mgr : VaMgr
  first_mgr = manager d (first_choice flags')

  -- What is asked of the searches.
  abbrev pub asked_alignment : ℕ
  asked_alignment = max2 va_base_alignment first_mgr.va_alignment

  abbrev pub asked_size : ℕ
  asked_size = align64 size first_mgr.va_alignment

  abbrev pub try : Bool → Managers → Which → ℕ → Attempt
  try m d w o =
      attempt m d w asked_size asked_alignment va_base_required (has flags range_replayable) o

  -- The unit of the sizes.
  abbrev pub unit : ℕ
  unit = first_mgr.va_alignment

  asked_size-RoundsUp : RoundsUp asked_size unit size
  asked_size-RoundsUp =
      align64-RoundsUp size (adm.valid (first_choice flags')).power (adm.size_small _)

  asked_size_pos : 0 < asked_size
  asked_size_pos = omega (arith, adm.nonempty, asked_size-RoundsUp)

  try-Taken :
      (m : Bool) (w : Which) (o : ℕ)
      → (try m d w o).ret ≡ ok
      → Taken d w asked_size asked_alignment va_base_required (try m d w o)
  try-Taken m w o =
      attempt-Taken m d w asked_size asked_alignment va_base_required _ o (adm.valid w)
        (adm.in_range w (first_choice flags'))

  try_failed :
      (m : Bool) (w : Which) (o : ℕ) (e : Errno)
      → (try m d w o).ret ≡ err e
      → (try m d w o).mgrs ≡ d
  try_failed m w o =
      attempt_failed m d w asked_size asked_alignment va_base_required _ o (adm.valid w)
        (adm.in_range w (first_choice flags'))

  abbrev pub first : Attempt
  first = try memory.find d (first_choice flags') out

  abbrev pub second : Attempt
  second = try memory.retry d (fallback flags') first.out

  abbrev pub call : Reply
  call = va_range_alloc memory d type size va_base_alignment va_base_required out flags

  -- The three ways through the call.
  pub va_range_alloc-cases :
      ((first.ret ≡ ok) × (call ≡ hand_out memory type (first_choice flags') asked_size first))
      ⊎ ((has flags' range_32_bit ≡ true)
          × ((e : Errno) × (first.ret ≡ err e))
          × (call ≡ hand_out memory type (first_choice flags') asked_size first))
      ⊎ ((has flags' range_32_bit ≡ false)
          × (call ≡ hand_out memory type (fallback flags') asked_size second))
  unfolding va_range_alloc
  va_range_alloc-cases = elim (Ret-cases first.ret) [
    | inl q ↦ inl (q, simp (q, va_range_alloc))
    | inr (e, q) ↦ elim (Bool-cases (has flags' range_32_bit)) [
      | inl b ↦ inr (inl (b, (e, q), simp (q, b, va_range_alloc)))
      | inr b ↦ inr (inr (b, simp (q, b, try_failed memory.find _ out e q, va_range_alloc)))
    ]
  ]

  -- When the four managers are valid, the size is not 0, and no sum of a search wraps in any of them
  -- (`Admissible`): a call that returns 0 returns a handle at the address that it reports, of the
  -- asked size, rounded up to whole units of the manager that the flags choose first, and of the asked
  -- alignment, or that manager's if it is greater (and at the required base, if one is given). It took
  -- the range, which was free, from the manager that the handle names; no other manager changes.
  pub va_range_alloc-Granted :
      call.ret ≡ ok → Granted d size unit asked_alignment va_base_required call
  va_range_alloc-Granted e = elim va_range_alloc-cases [
    | inl (q, c) ↦ rw c (
        hand_out-Granted memory d type _ asked_size unit size asked_alignment va_base_required first
          (adm.valid _) (adm.in_range _ _) asked_size_pos asked_size-RoundsUp
          (try-Taken memory.find _ out) (rw c at e))
    | inr (inl (b, q, c)) ↦ rw c (
        hand_out-Granted memory d type _ asked_size unit size asked_alignment va_base_required first
          (adm.valid _) (adm.in_range _ _) asked_size_pos asked_size-RoundsUp
          (try-Taken memory.find _ out) (rw c at e))
    | inr (inr (b, c)) ↦ rw c (
        hand_out-Granted memory d type _ asked_size unit size asked_alignment va_base_required
          second (adm.valid _) (adm.in_range _ _) asked_size_pos asked_size-RoundsUp
          (try-Taken memory.retry _ first.out) (rw c at e))
  ]

  -- A call that returns an error leaves the four managers as they were, also where a range was
  -- found and there is no memory for its handle (if giving it back needs none or finds some).
  pub va_range_alloc_failed : memory.undo ≡ true → (e : Errno) → call.ret ≡ err e → call.mgrs ≡ d
  va_range_alloc_failed u e p = elim va_range_alloc-cases [
    | inl (q, c) ↦ rw c (
        hand_out_failed memory d type _ asked_size unit size asked_alignment va_base_required first
          (adm.valid _) (adm.in_range _ _) asked_size_pos asked_size-RoundsUp u
          (try-Taken memory.find _ out) (try_failed memory.find _ out) e (rw c at p))
    | inr (inl (b, q, c)) ↦ rw c (
        hand_out_failed memory d type _ asked_size unit size asked_alignment va_base_required first
          (adm.valid _) (adm.in_range _ _) asked_size_pos asked_size-RoundsUp u
          (try-Taken memory.find _ out) (try_failed memory.find _ out) e (rw c at p))
    | inr (inr (b, c)) ↦ rw c (
        hand_out_failed memory d type _ asked_size unit size asked_alignment va_base_required second
          (adm.valid _) (adm.in_range _ _) asked_size_pos asked_size-RoundsUp u
          (try-Taken memory.retry _ first.out) (try_failed memory.retry _ first.out) e (rw c at p))
  ]
