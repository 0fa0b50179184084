-- ===== src/VaMgr/Tests.antt =====
-- Runs of the address manager, and its theorems at concrete managers.
use libdrm.Base.{
  ℕ, ◌≡◌, refl, inl, inr, true, false, some, [], ◌∷◌, arith, ok, err, enomem, IsPow2, align64,
}
use libdrm.VaMgr.{
  Hole, VaMgr, init, find_va, free_va, finish, place, place_low, place_high, place_base,
  search_down, search_up, take_from, subtract_hole,
}
use libdrm.VaMgr.Holes.{IsValid}
use libdrm.VaMgr.Place.{Best}
use libdrm.VaMgr.Complete.{Room}
use libdrm.VaMgr.Find.{Allocated, InRange, find_va-Allocated, find_va_complete}
use libdrm.VaMgr.Free.Loop.{Returnable}
use libdrm.VaMgr.RoundTrip.{free_va-find_va}
use libdrm.VaMgr.Init.{init-IsValid}
use libdrm.VaMgr.Session.{Session, IsSound, start, next, Step, allocate, release, here, there}
use libdrm.VaMgr.Session.Sound.{Reach-IsSound}

abbrev hole : ℕ → ℕ → Hole
hole o s = record { offset = o; size = s }

abbrev page : IsPow2 4096
page = record { log = 12; log_lt = omega arith; is_pow = refl }

-- Two holes: 16 pages from page 32 on, and 4 pages from page 8 on.
abbrev two_holes : VaMgr
two_holes = record {
  va_max = 0x100000;
  va_alignment = 4096;
  va_holes = hole 0x20000 0x10000 ∷ hole 0x8000 0x4000 ∷ [];
}

two_holes-IsValid : IsValid 1 two_holes
two_holes-IsValid = record {
  gap_le = omega arith;
  power = page;
  small = omega arith;
  spaced = omega arith;
}

in_range : InRange two_holes 5000 8192 0
in_range = record { size_small = omega arith; align_small = omega arith }

-- The search from below serves two pages from the lower hole, that from above from the upper one.
low_run : find_va true two_holes 5000 8192 0 false ≡ record {
  ret = ok;
  va_out = some 0x8000;
  mgr = record two_holes { va_holes = hole 0x20000 0x10000 ∷ hole 0xa000 0x2000 ∷ [] };
}
unfolding find_va place place_low search_up take_from subtract_hole finish align64
low_run = refl

high_run : find_va true two_holes 5000 8192 0 true ≡ record {
  ret = ok;
  va_out = some 0x2e000;
  mgr = record two_holes { va_holes = hole 0x20000 0xe000 ∷ hole 0x8000 0x4000 ∷ [] };
}
unfolding find_va place place_high search_down take_from subtract_hole finish align64
high_run = refl

-- A required base inside the upper hole splits it.
base_run :
    (find_va true two_holes 4096 4096 0x24000 false).mgr.va_holes
    ≡ hole 0x25000 0xb000 ∷ hole 0x20000 0x4000 ∷ hole 0x8000 0x4000 ∷ []
unfolding find_va place place_base search_up take_from subtract_hole finish align64
base_run = refl

full_run : (find_va true two_holes 0x20000 4096 0 false).ret ≡ err enomem
unfolding find_va place place_low search_up finish align64
full_run = refl

find_va-Allocated_example :
    let s = find_va true two_holes 5000 8192 0 false in
    (va : ℕ) × (s.va_out ≡ some va) × Allocated 1 two_holes 5000 8192 0 va s.mgr
unfolding find_va place place_low search_up take_from subtract_hole finish align64
find_va-Allocated_example =
    find_va-Allocated 1 true two_holes 5000 8192 0 false two_holes-IsValid in_range refl

in_base : InRange two_holes 4096 4096 0x24000
in_base = record { size_small = omega arith; align_small = omega arith }

-- The second hole has room at 0xa000.
room : Room 0x2000 8192 0 two_holes.va_holes 0xa000
room =
    inr
      (inl (record { above = omega arith; fits = omega arith; aligned = refl; at_base = inl refl }))

find_va_complete_example :
    let s = find_va true two_holes 5000 8192 0 false in
    (s.ret ≡ ok) × ((va : ℕ) × (s.va_out ≡ some va) × Best false va 0xa000)
unfolding align64
find_va_complete_example =
    find_va_complete 1 true two_holes 5000 8192 0 false two_holes-IsValid in_range 0xa000 refl
      (omega arith) refl room

-- Page 12 lies between the two holes.
page_12 : Returnable two_holes 0xc000 4096
unfolding align64
page_12 = record {
  nonempty = omega arith;
  in_bounds = omega arith;
  clear = (inr (omega arith), (inl (omega arith), tt));
}

free_va-find_va_example :
    let s = find_va true two_holes 5000 8192 0 false in
    (va : ℕ) × (s.va_out ≡ some va) × (free_va true s.mgr va 5000 ≡ two_holes)
unfolding find_va place place_low search_up take_from subtract_hole finish align64
free_va-find_va_example =
    free_va-find_va true two_holes 5000 8192 0 false two_holes-IsValid in_range (omega arith) refl

init-IsValid_example : IsValid 1 (init 0x200000 0xfffe00000 4096)
init-IsValid_example = init-IsValid 0x200000 0xfffe00000 4096 page (omega arith) (omega arith)

-- Two pages are taken, then one, and the two are given back.
abbrev begin : Session
begin = record { mgr = two_holes; live = [] }

abbrev mgr_one : VaMgr
mgr_one = record two_holes { va_holes = hole 0x20000 0x10000 ∷ hole 0xa000 0x2000 ∷ [] }

abbrev one : Session
one = record { mgr = mgr_one; live = record { va = 0x8000; size = 0x2000 } ∷ [] }

abbrev two : Session
two = record {
  mgr = record two_holes { va_holes = hole 0x20000 0xf000 ∷ hole 0xa000 0x2000 ∷ [] };
  live = record { va = 0x2f000; size = 0x1000 } ∷ record { va = 0x8000; size = 0x2000 } ∷ [];
}

abbrev three : Session
three = record {
  mgr = record two_holes { va_holes = hole 0x20000 0xf000 ∷ hole 0x8000 0x4000 ∷ [] };
  live = record { va = 0x2f000; size = 0x1000 } ∷ [];
}

begin-IsSound : IsSound begin
begin-IsSound = record { valid = two_holes-IsValid; live = tt }

take_two : Step begin one
unfolding find_va place place_low search_up take_from subtract_hole finish align64
take_two = allocate true begin 5000 8192 0 false 0x8000 in_range (omega arith) refl refl

take_one : Step one two
unfolding find_va place place_high search_down take_from subtract_hole finish align64
take_one =
    allocate true one 1 1 0 true 0x2f000
      (record { size_small = omega arith; align_small = omega arith }) (omega arith) refl refl

give_two : Step two three
unfolding free_va align64
give_two = release true two (record { va = 0x8000; size = 0x2000 }) _ (there here)

Reach-IsSound_example : IsSound three
Reach-IsSound_example =
    Reach-IsSound (next (next (next start take_two) take_one) give_two) begin-IsSound
