-- ===== src/VaRange.antt =====
-- The public calls of amdgpu/amdgpu_vamgr.c on the four address managers of a device.
mod Tests
pub mod Laws
pub mod Alloc
pub mod Release
use libdrm.Base.{
  ℕ, ◌-◌, ◌^◌, Bool, true, false, ◌&&◌, not, Option, none, some, bit_and, ◌==◌, if◌then◌else◌, max2,
  align64, Ret, ok, err, einval, enomem,
}
use libdrm.VaMgr.{VaMgr, Search, find_va, free_va}

-- The four managers of `struct amdgpu_device`.
pub data Which : Type 0 where
  low low_32 high high_32 : Which

pub record Managers : Type 0 where
  pub vamgr : VaMgr
  pub vamgr_32 : VaMgr
  pub vamgr_high : VaMgr
  pub vamgr_high_32 : VaMgr

abbrev pub manager : Managers → Which → VaMgr
manager d low = d.vamgr
manager d low_32 = d.vamgr_32
manager d high = d.vamgr_high
manager d high_32 = d.vamgr_high_32

abbrev pub put : Managers → Which → VaMgr → Managers
put d low m = record d { vamgr = m }
put d low_32 m = record d { vamgr_32 = m }
put d high m = record d { vamgr_high = m }
put d high_32 m = record d { vamgr_high_32 = m }

pub data VaRangeType : Type 0 where
  general : VaRangeType
  other : ℕ → VaRangeType

-- `struct amdgpu_va`, less its device.
pub record VaHandle : Type 0 where
  pub address : ℕ
  pub size : ℕ
  pub range : VaRangeType
  pub vamgr : Which

abbrev pub has : ℕ → ℕ → Bool
has flags bit = not (bit_and flags bit == 0)

abbrev pub range_32_bit : ℕ
range_32_bit = 0x1

abbrev pub range_high : ℕ
range_high = 0x2

abbrev pub range_replayable : ℕ
range_replayable = 0x4

-- `flags` after the high bit is dropped where there is no high manager.
pub known_flags : Managers → ℕ → ℕ
known_flags d flags =
    if has flags range_high && (d.vamgr_high_32.va_max == 0)
    then bit_and flags (2 ^ 64 - 1 - range_high)
    else flags

pub first_choice : ℕ → Which
first_choice flags =
    if has flags range_high
    then if has flags range_32_bit then high_32 else high
    else if has flags range_32_bit
    then low_32
    else low

pub fallback : ℕ → Which
fallback flags = if has flags range_high then high_32 else low_32

-- What calloc answers, in the order in which the call may ask: in the two searches, for the handle,
-- and in giving the range back.
pub record Memory : Type 0 where
  pub find : Bool
  pub retry : Bool
  pub handle : Bool
  pub undo : Bool

-- One search in one manager of the device. `out` is what `*va_base_allocated` held.
pub record Attempt : Type 0 where
  pub ret : Ret
  pub out : ℕ
  pub mgrs : Managers

pub attempt : Bool → Managers → Which → ℕ → ℕ → ℕ → Bool → ℕ → Attempt
attempt memory d w size alignment base top out =
    let s = find_va memory (manager d w) size alignment base top in
    record { ret = s.ret; out = elim s.va_out [ none ↦ out | some va ↦ va ]; mgrs = put d w s.mgr }

pub record Reply : Type 0 where
  pub ret : Ret
  pub va_base_allocated : ℕ
  pub va_range_handle : Option VaHandle
  pub mgrs : Managers

-- The end of `amdgpu_va_range_alloc`, after the last search, made in manager `w`.
pub hand_out : Memory → VaRangeType → Which → ℕ → Attempt → Reply
hand_out memory type w size a = elim a.ret [
  | err e ↦ record { ret = err e; va_base_allocated = a.out; va_range_handle = none; mgrs = a.mgrs }
  | ok ↦
      if memory.handle
      then record {
        ret = ok;
        va_base_allocated = a.out;
        va_range_handle = some (record { address = a.out; size = size; range = type; vamgr = w });
        mgrs = a.mgrs;
      }
      else record {
        ret = err enomem;
        va_base_allocated = a.out;
        va_range_handle = none;
        mgrs = put a.mgrs w (free_va memory.undo (manager a.mgrs w) a.out size);
      }
]

pub va_range_alloc : Memory → Managers → VaRangeType → ℕ → ℕ → ℕ → ℕ → ℕ → Reply
va_range_alloc memory d type size va_base_alignment va_base_required out flags =
    let top = has flags range_replayable in
    let flags' = known_flags d flags in
    let w = first_choice flags' in
    let alignment = max2 va_base_alignment (manager d w).va_alignment in
    let size' = align64 size (manager d w).va_alignment in
    let first = attempt memory.find d w size' alignment va_base_required top out in
    let second =
      attempt memory.retry first.mgrs (fallback flags') size' alignment va_base_required top
        first.out in
    elim first.ret [
      | ok ↦ hand_out memory type w size' first
      | err e ↦
          if has flags' range_32_bit
          then hand_out memory type w size' first
          else hand_out memory type (fallback flags') size' second
    ]

-- `none` is a null handle. A handle whose address is 0 is left alone.
pub va_range_free : Bool → Managers → Option VaHandle → Ret × Managers
va_range_free memory d none = (ok, d)
va_range_free memory d (some h) =
    if h.address == 0
    then (ok, d)
    else (ok, put d h.vamgr (free_va memory (manager d h.vamgr) h.address h.size))

-- `virtual_address_offset` and `virtual_address_max` of the device information.
pub va_range_query : ℕ → ℕ → VaRangeType → Ret × Option (ℕ × ℕ)
va_range_query virtual_address_offset virtual_address_max general =
    (ok, some (virtual_address_offset, virtual_address_max))
va_range_query virtual_address_offset virtual_address_max (other n) = (err einval, none)
