-- ===== src/Device/Ranges.antt =====
-- The four address managers of a new device, cut from the ranges that the driver reports.
use libdrm.Base.{
  ℕ, ◌/◌, ◌==◌, sub64, Bool, Option, none, some, Ret, ok, err, einval, ◌+◌, ◌-◌, ◌%◌, ◌≤◌, ◌<◌, ◌^◌,
  ◌≡◌, ◌≢◌, refl, sym, ◌∙◌, inl, inr, Bool-cases, true, false, arith, ltb, if◌then◌else◌, add64,
  min2, max2, IsPow2,
}
use libdrm.Gpu.Query.{DevInfo}
use libdrm.VaMgr.{init}
use libdrm.VaMgr.Holes.{is_free, IsValid}
use libdrm.VaMgr.Init.{init-IsValid, init-is_free}
use libdrm.VaRange.{Which, low, low_32, high, high_32, Managers, manager}

-- `(start & ~0xffffffff) + 0x100000000`: clearing the low 32 bits takes them off the number.
abbrev pub next_4g : ℕ → ℕ
next_4g first = add64 (first - first % 2 ^ 32) (2 ^ 32)

abbrev pub split : DevInfo → ℕ
split i = min2 i.virtual_address_max (2 ^ 32)

abbrev pub split_high : DevInfo → ℕ
split_high i = min2 i.high_va_max (next_4g i.high_va_offset)

unfoldable pub first_managers : DevInfo → Managers
first_managers i = record {
  vamgr_32 = init i.virtual_address_offset (split i) i.virtual_address_alignment;
  vamgr = init (split i) (max2 i.virtual_address_max (2 ^ 32)) i.virtual_address_alignment;
  vamgr_high_32 = init i.high_va_offset (split_high i) i.virtual_address_alignment;
  vamgr_high =
      init (split_high i) (max2 i.high_va_max (next_4g (split_high i))) i.virtual_address_alignment;
}

-- amdgpu_query_sw_info: `info` is amdgpu_sw_info_address32_hi, or not.
unfoldable pub query_sw_info : Managers → (info : Bool) → Ret × Option ℕ
query_sw_info m false = (err einval, none)
query_sw_info m true =
    let va_max =
      if m.vamgr_high_32.va_max == 0 then m.vamgr_32.va_max else m.vamgr_high_32.va_max in
    (ok, some (sub64 va_max 1 / 2 ^ 32))

-- The ranges of a driver that has both parts: the low one crosses 4 GB, the high one lies behind it
-- and crosses a multiple of 4 GB by more than 4 GB.
pub record Reported (i : DevInfo) : Type 0 where
  pub alignment : IsPow2 i.virtual_address_alignment
  pub low_start : i.virtual_address_offset < 2 ^ 32
  pub low_end : 2 ^ 32 < i.virtual_address_max
  pub apart : i.virtual_address_max ≤ i.high_va_offset
  pub high_end : i.high_va_offset + 2 ^ 33 ≤ i.high_va_max
  pub fits : i.high_va_max < 2 ^ 64

-- The range of each manager.
pub first_of : DevInfo → Which → ℕ
first_of i low = 2 ^ 32
first_of i low_32 = i.virtual_address_offset
first_of i high = next_4g i.high_va_offset
first_of i high_32 = i.high_va_offset

pub end_of : DevInfo → Which → ℕ
end_of i low = i.virtual_address_max
end_of i low_32 = 2 ^ 32
end_of i high = i.high_va_max
end_of i high_32 = next_4g i.high_va_offset

split_high-eq : (i : DevInfo) → Reported i → split_high i ≡ next_4g i.high_va_offset
split_high-eq i r = ground arith

first_managers-init :
    (i : DevInfo) (w : Which)
    → Reported i
    → manager (first_managers i) w ≡ init (first_of i w) (end_of i w) i.virtual_address_alignment
unfolding first_managers first_of end_of
first_managers-init i low r =
    let a : split i ≡ 2 ^ 32 = ground arith in
    let b : max2 i.virtual_address_max (2 ^ 32) ≡ i.virtual_address_max = ground arith in
    rw (a, b) refl
first_managers-init i low_32 r = let a : split i ≡ 2 ^ 32 = ground arith in rw a refl
first_managers-init i high r =
    let a = split_high-eq i r in
    let b : max2 i.high_va_max (next_4g (next_4g i.high_va_offset)) ≡ i.high_va_max =
      ground arith in
    rw (a, b) refl
first_managers-init i high_32 r = rw (split_high-eq i r) refl

range-bounds :
    (i : DevInfo) (w : Which) → Reported i → (first_of i w < end_of i w) × (end_of i w < 2 ^ 64)
unfolding first_of end_of
range-bounds i low r = ground arith
range-bounds i low_32 r = ground arith
range-bounds i high r = ground arith
range-bounds i high_32 r = ground arith

-- For ranges as in `Reported`, each of the four managers of a new device is valid.
pub first_managers-IsValid :
    (i : DevInfo) (w : Which) → Reported i → IsValid 1 (manager (first_managers i) w)
first_managers-IsValid i w r =
    let (a, b) = range-bounds i w r in
    rw (first_managers-init i w r)
      (init-IsValid (first_of i w) (end_of i w) i.virtual_address_alignment r.alignment a b)

-- The manager that an address falls to.
which_of : DevInfo → ℕ → Which
which_of i a =
    if ltb a (2 ^ 32)
    then low_32
    else if ltb a i.virtual_address_max
    then low
    else if ltb a (next_4g i.high_va_offset)
    then high_32
    else high

in_range :
    (i : DevInfo) (w : Which) (a : ℕ)
    → Reported i
    → is_free (manager (first_managers i) w).va_holes a ≡ true
    → (first_of i w ≤ a) × (a < end_of i w)
in_range i w a r f =
    let (l, u) = range-bounds i w r in
    let e =
      init-is_free (first_of i w) (end_of i w) i.virtual_address_alignment r.alignment l u a in
    ground (arith, sym e ∙ (rw (first_managers-init i w r) at f))

range-which_of :
    (i : DevInfo) (w : Which) (a : ℕ)
    → Reported i
    → first_of i w ≤ a
    → a < end_of i w
    → which_of i a ≡ w
unfolding first_of end_of which_of
range-which_of i low a r l u = ground arith
range-which_of i low_32 a r l u = ground arith
range-which_of i high a r l u = ground arith
range-which_of i high_32 a r l u = ground arith

-- For ranges as in `Reported`, an address that is free in one of the managers of a new device is not
-- free in any other.
pub first_managers-apart :
    (i : DevInfo) (w v : Which) (a : ℕ)
    → Reported i
    → w ≢ v
    → is_free (manager (first_managers i) w).va_holes a ≡ true
    → is_free (manager (first_managers i) v).va_holes a ≡ false
first_managers-apart i w v a r n f =
    elim (Bool-cases (is_free (manager (first_managers i) v).va_holes a)) [
      | inr g ↦ g
      | inl g ↦
          let (l, u) = in_range i w a r f in
          let (l', u') = in_range i v a r g in
          absurd (n (sym (range-which_of i w a r l u) ∙ range-which_of i v a r l' u'))
    ]
