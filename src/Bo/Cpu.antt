-- ===== src/Bo/Cpu.antt =====
-- CPU access to a buffer object: `amdgpu_bo_cpu_map`, `amdgpu_bo_cpu_unmap`, and the search for the
-- object behind a CPU address.
use libdrm.Base.{
  ℕ, zero, suc, ◌-◌, ◌==◌, Bool, false, ◌||◌, ◌&&◌, Option, none, some, if◌then◌else◌, ltb, leb,
  add64, sub64, Ret, ok, err, einval, enxio,
}
use libdrm.HandleTable.{lookup}
use libdrm.Bo.State.{Bo, Device, Answer, done, refused, store, bump}

-- On one object: the result, what is written to `*cpu`, and the object afterwards. The answer is
-- that of AmdgpuBoCpuMap; the assertions on the count give `none`.
unfoldable pub map_bo : Bo → Answer ℕ → Option (Ret × Option ℕ × Bo)
map_bo b answer =
    if b.cpu_ptr == 0
    then if b.cpu_map_count == 0
      then elim answer [
        | done p ↦ some (ok, some p, record b { cpu_ptr = p; cpu_map_count = 1 })
        | refused e ↦ some (err e, none, b)
      ]
      else none
    else if b.cpu_map_count == 0
    then none
    else some (ok, some b.cpu_ptr, record b { cpu_map_count = suc b.cpu_map_count })

-- `unmapped` is what drm_munmap gives: its error is passed on.
unfoldable pub unmap_bo : Bo → Ret → Ret × Bo
unmap_bo b unmapped =
    let b' = record b { cpu_map_count = b.cpu_map_count - 1 } in
    if b.cpu_map_count == 0
    then (err einval, b)
    else if b'.cpu_map_count == 0
    then (unmapped, record b' { cpu_ptr = 0 })
    else (ok, b')

unfoldable pub bo_cpu_map : Device → ℕ → Answer ℕ → Option (Ret × Option ℕ × Device)
unfolding map_bo
bo_cpu_map d p answer = elim (d.heap p) [
  | none ↦ none
  | some b ↦ elim (map_bo b answer) [
    | none ↦ none
    | some (r, cpu, b') ↦ some (r, cpu, store d p (some b'))
  ]
]

unfoldable pub bo_cpu_unmap : Device → ℕ → Ret → Option (Ret × Device)
unfolding unmap_bo
bo_cpu_unmap d p unmapped = elim (d.heap p) [
  | none ↦ none
  | some b ↦ let (r, b') = unmap_bo b unmapped in some (r, store d p (some b'))
]

-- The test of the loop in `amdgpu_find_bo_by_cpu_mapping`, with the pointers as addresses.
unfoldable pub holds : Bo → ℕ → ℕ → Bool
holds b cpu size =
    if (b.cpu_ptr == 0) || ltb b.alloc_size size
    then false
    else leb b.cpu_ptr cpu && ltb cpu (add64 b.cpu_ptr b.alloc_size)

-- The object at key `i`, if it passes the test. A table entry that dangles passes none.
unfoldable pub candidate : Device → ℕ → ℕ → ℕ → Option (ℕ × Bo)
candidate d cpu size i = elim (lookup d.bo_handles i) [
  | none ↦ none
  | some p ↦ elim (d.heap p) [
    | none ↦ none
    | some b ↦ if holds b cpu size then some (p, b) else none
  ]
]

-- The loop, with the rounds left and the key of the next one.
unfoldable pub scan : Device → ℕ → ℕ → ℕ → ℕ → Option (ℕ × Bo)
scan d cpu size zero i = none
scan d cpu size (suc rounds) i = elim (candidate d cpu size i) [
  | some found ↦ some found
  | none ↦ scan d cpu size rounds (suc i)
]

pub record Found : Type 0 where
  pub ret : Ret
  pub buf_handle : ℕ
  pub offset_in_bo : ℕ
  pub dev : Device

-- The calls with a null pointer or size 0 write nothing; the record then holds what was there.
unfoldable pub find_bo_by_cpu_mapping : Device → ℕ → ℕ → ℕ → ℕ → Found
unfolding scan candidate holds
find_bo_by_cpu_mapping d cpu size old_handle old_offset =
    if (cpu == 0) || (size == 0)
    then record { ret = err einval; buf_handle = old_handle; offset_in_bo = old_offset; dev = d }
    else elim (scan d cpu size d.bo_handles.max_key 0) [
      | none ↦ record { ret = err enxio; buf_handle = 0; offset_in_bo = 0; dev = d }
      | some (p, b) ↦ record {
        ret = ok;
        buf_handle = p;
        offset_in_bo = sub64 cpu b.cpu_ptr;
        dev = store d p (some (bump b));
      }
    ]
