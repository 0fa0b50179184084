-- ===== src/VaMgr.antt =====
-- The virtual address manager of amdgpu/amdgpu_vamgr.c: `amdgpu_bo_va_mgr` and its operations.
-- The list `va_holes` is read along `next`, from the highest hole to the lowest. What the code
-- asks of calloc is the argument `memory`: false, if calloc returns NULL.
mod Tests
pub mod Holes
pub mod Subtract
pub mod Place
pub mod Loops
pub mod Complete
pub mod Find
pub mod Free
pub mod Canonical
pub mod RoundTrip
pub mod Init
pub mod Session
use libdrm.Base.{
  ℕ, ◌%◌, ◌^◌, Bool, ◌||◌, Option, none, some, List, [], ◌∷◌, ◌++◌, ltb, leb, ◌==◌, if◌then◌else◌,
  add64, sub64, max2, align64, Ret, ok, err, einval, enomem,
}

pub record Hole : Type 0 where
  pub offset : ℕ
  pub size : ℕ

pub record VaMgr : Type 0 where
  pub va_max : ℕ
  pub va_alignment : ℕ
  pub va_holes : List Hole

-- The end of a hole as the code computes it.
abbrev pub end_of : Hole → ℕ
end_of h = add64 h.offset h.size

-- `va_alignment` is a uint32_t field.
unfoldable pub init : ℕ → ℕ → ℕ → VaMgr
init start max alignment = record {
  va_max = max;
  va_alignment = alignment % 2 ^ 32;
  va_holes = record { offset = start; size = sub64 max start } ∷ [];
}

-- The nodes that stand in the place of `hole` afterwards: a new node is linked behind it.
unfoldable pub subtract_hole : Bool → Hole → ℕ → ℕ → Ret × List Hole
subtract_hole memory hole start_va end_va =
    let past = sub64 end_va hole.offset in
    let upper = record hole { offset = end_va; size = sub64 hole.size past } in
    let lower = record hole { size = sub64 start_va hole.offset } in
    if ltb hole.offset start_va
    then if ltb past hole.size
      then if memory then (ok, upper ∷ lower ∷ []) else (err enomem, hole ∷ [])
      else (ok, lower ∷ [])
    else if ltb past hole.size
    then (ok, upper ∷ [])
    else (ok, [])

-- The offset that the body of a search loop picks in a hole; `none` is `continue`.
unfoldable pub place_base : ℕ → ℕ → Hole → Option ℕ
place_base size base_required hole =
    if ltb base_required hole.offset || ltb (end_of hole) (add64 base_required size)
    then none
    else some base_required

unfoldable pub place_low : ℕ → ℕ → Hole → Option ℕ
place_low size alignment hole =
    let rest = hole.offset % alignment in
    let waste = if rest == 0 then 0 else sub64 alignment rest in
    let offset = add64 hole.offset waste in
    if leb (end_of hole) offset || ltb (sub64 (end_of hole) offset) size then none else some offset

unfoldable pub place_high : ℕ → ℕ → Hole → Option ℕ
place_high size alignment hole =
    let top = sub64 (end_of hole) size in
    let offset = sub64 top (top % alignment) in
    if ltb hole.size size || ltb offset hole.offset then none else some offset

unfoldable pub place : Bool → ℕ → ℕ → ℕ → Hole → Option ℕ
place search_from_top size alignment base_required hole =
    if base_required == 0
    then if search_from_top then place_high size alignment hole else place_low size alignment hole
    else place_base size base_required hole

-- What a search that reaches `subtract_hole` leaves: its result, `*va_out` and the list.
pub record Taken : Type 0 where
  pub ret : Ret
  pub va : ℕ
  pub holes : List Hole

abbrev pub keep : Hole → Taken → Taken
keep hole t = record t { holes = hole ∷ t.holes }

unfoldable pub take_from : Bool → ℕ → Hole → ℕ → List Hole → Taken
take_from memory size hole offset rest =
    let (ret, nodes) = subtract_hole memory hole offset (add64 offset size) in
    record { ret = ret; va = offset; holes = nodes ++ rest }

module _ (memory : Bool) (size : ℕ) (pick : Hole → Option ℕ) where
  -- LIST_FOR_EACH_ENTRY_SAFE: the first hole from the head.
  unfoldable pub search_down : List Hole → Option Taken
  search_down [] = none
  search_down (hole ∷ rest) = elim (pick hole) [
    | some offset ↦ some (take_from memory size hole offset rest)
    | none ↦ elim (search_down rest) [ none ↦ none | some t ↦ some (keep hole t) ]
  ]

  -- LIST_FOR_EACH_ENTRY_SAFE_REV: the first hole from the tail.
  unfoldable pub search_up : List Hole → Option Taken
  search_up [] = none
  search_up (hole ∷ rest) = elim (search_up rest) [
    | some t ↦ some (keep hole t)
    | none ↦ elim (pick hole) [
      | some offset ↦ some (take_from memory size hole offset rest)
      | none ↦ none
    ]
  ]

-- What `amdgpu_vamgr_find_va` returns, what it writes to `*va_out` (`none`: nothing), and the
-- manager afterwards.
pub record Search : Type 0 where
  pub ret : Ret
  pub va_out : Option ℕ
  pub mgr : VaMgr

unfoldable pub finish : VaMgr → Option Taken → Search
finish mgr none = record { ret = err enomem; va_out = none; mgr = mgr }
finish mgr (some t) = record {
  ret = t.ret;
  va_out = some t.va;
  mgr = record mgr { va_holes = t.holes };
}

unfoldable pub find_va : Bool → VaMgr → ℕ → ℕ → ℕ → Bool → Search
unfolding finish
find_va memory mgr size alignment base_required search_from_top =
    let alignment' = max2 alignment mgr.va_alignment in
    let size' = align64 size mgr.va_alignment in
    let pick = place search_from_top size' alignment' base_required in
    if (base_required % alignment') == 0
    then finish mgr (
        if search_from_top
        then search_down memory size' pick mgr.va_holes
        else search_up memory size' pick mgr.va_holes)
    else record { ret = err einval; va_out = none; mgr = mgr }

abbrev pub invalid_va_address : ℕ
invalid_va_address = 0xffff_ffff_ffff_ffff

abbrev pub emit : Option Hole → List Hole → List Hole
emit none l = l
emit (some hole) l = hole ∷ l

-- The part of `amdgpu_vamgr_free_va` behind its loop: `hole` is the last node not below `va`
-- (`none`: the list head), and the list starts at `next` (empty: the list head).
unfoldable pub grow_upper : ℕ → ℕ → Hole → List Hole → List Hole
grow_upper va size hole [] = record { offset = va; size = add64 hole.size size } ∷ []
grow_upper va size hole (next ∷ rest) =
    let hole' = record hole { offset = va; size = add64 hole.size size } in
    if end_of next == va
    then record next { size = add64 next.size hole'.size } ∷ rest
    else hole' ∷ next ∷ rest

unfoldable pub add_hole : Bool → ℕ → ℕ → List Hole → List Hole
add_hole memory va size lower =
    if memory then record { offset = va; size = size } ∷ lower else lower

unfoldable pub grow_lower : Bool → ℕ → ℕ → List Hole → List Hole
unfolding add_hole
grow_lower memory va size [] = add_hole memory va size []
grow_lower memory va size (next ∷ rest) =
    if end_of next == va
    then record next { size = add64 next.size size } ∷ rest
    else add_hole memory va size (next ∷ rest)

unfoldable pub give_back : Bool → ℕ → ℕ → Option Hole → List Hole → List Hole
unfolding grow_upper grow_lower
give_back memory va size none lower = grow_lower memory va size lower
give_back memory va size (some hole) lower =
    if hole.offset == add64 va size
    then grow_upper va size hole lower
    else hole ∷ grow_lower memory va size lower

-- The loop: `hole` follows one node behind `next`, and stops above the first node below `va`.
unfoldable pub free_loop : Bool → ℕ → ℕ → Option Hole → List Hole → List Hole
unfolding give_back
free_loop memory va size hole [] = give_back memory va size hole []
free_loop memory va size hole (next ∷ rest) =
    let passed = emit hole (free_loop memory va size (some next) rest) in
    if ltb next.offset va then give_back memory va size hole (next ∷ rest) else passed

unfoldable pub free_va : Bool → VaMgr → ℕ → ℕ → VaMgr
unfolding free_loop
free_va memory mgr va size = if va == invalid_va_address then mgr else record mgr {
  va_holes = free_loop memory va (align64 size mgr.va_alignment) none mgr.va_holes;
}
