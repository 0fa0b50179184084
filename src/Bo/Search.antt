-- ===== src/Bo/Search.antt =====
-- `amdgpu_find_bo_by_cpu_mapping`: what the search returns.
use libdrm.Base.{
  ℕ, zero, suc, ◌+◌, ◌≤◌, ◌<◌, ◌^◌, ◌≡◌, ap, sym, ◌∙◌, inl, inr, ◌==◌, ◌||◌, ◌&&◌, leb, ltb, Bool,
  true, false, none, some, some_inj, arith, Bool-cases, Option-cases, ok, err, enxio,
}
use native.Mathlib.Decide.{dec_le}
use libdrm.HandleTable.{lookup}
use libdrm.Bo.State.{Bo, Device, store, bump}
use libdrm.Bo.Cpu.{find_bo_by_cpu_mapping, scan, candidate, holds, Found}

-- `b` is at `p`, in the table under `key`, and passes the test.
pub record Hit (d : Device) (cpu size key p : ℕ) (b : Bo) : Type 0 where
  pub entry : lookup d.bo_handles key ≡ some p
  pub object : d.heap p ≡ some b
  pub passes : holds b cpu size ≡ true

candidate-Hit :
    (d : Device) (cpu size key p : ℕ) (b : Bo)
    → candidate d cpu size key ≡ some (p, b)
    → Hit d cpu size key p b
unfolding candidate
candidate-Hit d cpu size key p b e = elim (Option-cases (lookup d.bo_handles key)) [
  | inl z ↦ absurd (cc (rw (candidate, z) at e))
  | inr (q, z) ↦ elim (Option-cases (d.heap q)) [
    | inl y ↦ absurd (cc (rw (candidate, z, y) at e))
    | inr (c, y) ↦ elim (Bool-cases (holds c cpu size)) [
      | inr x ↦ absurd (cc (rw (candidate, z, y, x) at e))
      | inl x ↦
          let u : (q, c) ≡ (p, b) = some_inj (rw (candidate, z, y, x) at e) in
          let v = ap (λ w. w.0) u in
          let w = ap (λ w. w.1) u in
          record {
            entry = z ∙ ap some v;
            object = ap d.heap (sym v) ∙ y ∙ ap some w;
            passes = ap (λ o. holds o cpu size) (sym w) ∙ x;
          }
    ]
  ]
]

-- The loop stops at the first key that passes.
pub scan-first :
    (d : Device) (cpu size rounds i p : ℕ) (b : Bo)
    → scan d cpu size rounds i ≡ some (p, b)
    → (key : ℕ) × (i ≤ key)
      × (key < i + rounds)
      × Hit d cpu size key p b
      × ((j : ℕ) → i ≤ j → j < key → candidate d cpu size j ≡ none)
unfolding scan
scan-first d cpu size zero i p b e = absurd (cc)
scan-first d cpu size (suc rounds) i p b e = elim (Option-cases (candidate d cpu size i)) [
  | inr (x, h) ↦ (
    i,
    omega arith,
    omega arith,
    candidate-Hit d cpu size i p b (h ∙ rw (scan, h) at e),
    λ j l m. absurd (omega arith),
  )
  | inl h ↦
      let (key, l, m, hit, first) = scan-first d cpu size rounds (suc i) p b (rw (scan, h) at e) in
      (
        key,
        omega arith,
        omega arith,
        hit,
        λ j x y. elim (dec_le (suc i) j) [
          | yes z ↦ first j z y
          | no z ↦ let w : i ≡ j = omega arith in rw (← w) h
        ],
      )
]

scan-none :
    (d : Device) (cpu size rounds i : ℕ)
    → scan d cpu size rounds i ≡ none
    → (j : ℕ) → i ≤ j
    → j < i + rounds
    → candidate d cpu size j ≡ none
unfolding scan
scan-none d cpu size zero i e j l m = absurd (omega arith)
scan-none d cpu size (suc rounds) i e j l m = elim (Option-cases (candidate d cpu size i)) [
  | inr (x, h) ↦ absurd (cc (rw (scan, h) at e))
  | inl h ↦ elim (dec_le (suc i) j) [
    | yes z ↦ scan-none d cpu size rounds (suc i) (rw (scan, h) at e) j z (omega arith)
    | no z ↦ let w : i ≡ j = omega arith in rw (← w) h
  ]
]

-- The test is that the address lies in the object's mapping, for a mapping that does not wrap.
holds-range :
    (b : Bo) (cpu size : ℕ)
    → b.cpu_ptr + b.alloc_size < 2 ^ 64
    → holds b cpu size ≡ true
    → (size ≤ b.alloc_size) × (b.cpu_ptr ≤ cpu) × (cpu < b.cpu_ptr + b.alloc_size)
unfolding holds
holds-range b cpu size l h = ground arith

-- The object is mapped, is at least `size` bytes long, and the address lies in its mapping.
abbrev pub in_mapping : Bo → ℕ → ℕ → Bool
in_mapping b cpu size =
    ltb 0 b.cpu_ptr
    && (leb size b.alloc_size && (leb b.cpu_ptr cpu && ltb cpu (b.cpu_ptr + b.alloc_size)))

-- The table has such an object under the key.
abbrev pub matches : Device → ℕ → ℕ → ℕ → Bool
matches d cpu size key = elim (lookup d.bo_handles key) [
  | none ↦ false
  | some p ↦ elim (d.heap p) [ none ↦ false | some b ↦ in_mapping b cpu size ]
]

-- For a mapping that does not wrap, this is the test of the loop.
holds-eq-in_mapping :
    (b : Bo) (cpu size : ℕ)
    → b.cpu_ptr + b.alloc_size < 2 ^ 64
    → holds b cpu size ≡ in_mapping b cpu size
unfolding holds
holds-eq-in_mapping b cpu size l = ground arith

-- No mapping wraps.
abbrev pub Fits : Device → Type 0
Fits d = (p : ℕ) (b : Bo) → d.heap p ≡ some b → b.cpu_ptr + b.alloc_size < 2 ^ 64

candidate-none :
    (d : Device) (cpu size key : ℕ)
    → Fits d
    → candidate d cpu size key ≡ none
    → matches d cpu size key ≡ false
unfolding candidate
candidate-none d cpu size key w e = elim (Option-cases (lookup d.bo_handles key)) [
  | inl z ↦ rw (matches, z)
  | inr (p, z) ↦ elim (Option-cases (d.heap p)) [
    | inl y ↦ rw (matches, z, y)
    | inr (b, y) ↦ elim (Bool-cases (holds b cpu size)) [
      | inl x ↦ absurd (cc (rw (candidate, z, y, x) at e))
      | inr x ↦ rw (matches, z, y) (sym (holds-eq-in_mapping b cpu size (w p b y)) ∙ x)
    ]
  ]
]

-- What a search reports: the first object in the table that matches, with the count raised and the
-- offset of the address in its mapping; or no object, when no key of the table matches.
pub data Outcome (d : Device) (cpu size : ℕ) : Found → Type 0 where
  hit :
      (key p : ℕ) (b : Bo)
      → key < d.bo_handles.max_key
      → lookup d.bo_handles key ≡ some p
      → d.heap p ≡ some b
      → in_mapping b cpu size ≡ true
      → ((j : ℕ) → j < key → matches d cpu size j ≡ false)
      → (offset : ℕ) → b.cpu_ptr + offset ≡ cpu
      → offset < b.alloc_size
      → Outcome d cpu size (record {
        ret = ok;
        buf_handle = p;
        offset_in_bo = offset;
        dev = store d p (some (bump b));
      })
  miss :
      ((j : ℕ) → j < d.bo_handles.max_key → matches d cpu size j ≡ false)
      → Outcome d cpu size (record { ret = err enxio; buf_handle = 0; offset_in_bo = 0; dev = d })

-- For an address below 2^64 that is not NULL and a size that is not 0, when no mapping ends at or
-- above 2^64: the search reports the object of the least key that is mapped, is at least `size` bytes
-- long and holds the address in its mapping, with its count raised by one and the offset of the
-- address in it, or ENXIO when the table has no such object.
pub find_bo_by_cpu_mapping-Outcome :
    (d : Device) (cpu size old_handle old_offset : ℕ)
    → 0 < cpu
    → cpu < 2 ^ 64
    → 0 < size
    → Fits d
    → Outcome d cpu size (find_bo_by_cpu_mapping d cpu size old_handle old_offset)
unfolding find_bo_by_cpu_mapping
find_bo_by_cpu_mapping-Outcome d cpu size old_handle old_offset c l s w =
    let z : ((cpu == 0) || (size == 0)) ≡ false = ground arith in
    elim (Option-cases (scan d cpu size d.bo_handles.max_key 0)) [
      | inl h ↦
          rw (find_bo_by_cpu_mapping, z, h)
            (miss (λ j m.
              candidate-none d cpu size j w
                (scan-none d cpu size _ 0 h j (omega arith) (omega arith))))
      | inr ((p, b), h) ↦
          let (key, _, m, x, first) = scan-first d cpu size _ 0 p b h in
          let (u, v, t) = holds-range b cpu size (w p b x.object) x.passes in
          rw (find_bo_by_cpu_mapping, z, h)
            (hit key p b (omega arith) x.entry x.object
              (sym (holds-eq-in_mapping b cpu size (w p b x.object)) ∙ x.passes)
              (λ j n. candidate-none d cpu size j w (first j (omega arith) n)) _ (omega arith)
              (omega arith))
    ]
