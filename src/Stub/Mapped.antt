-- ===== src/Stub/Mapped.antt =====
-- The mappings of the stub after one more: which mapping an address is looked up in.
use libdrm.Base.{
  ℕ, Bool, Option, leb, ltb, add64, floor, Ordered, floor-some, floor-none, Option-cases, sub64,
  ◌+◌, ◌≤◌, ◌<◌, ◌^◌, ◌≡◌, refl, ap, sym, ◌∙◌, ◌⊎◌, inl, inr, ◌==◌, true, false, none, some,
  some_inj, find, emplace, find-emplace, emplace-Ordered, if◌then◌else◌, arith, Bool-cases, Assoc,
}
use native.Mathlib.Decide.{dec_le}
use libdrm.Stub.Buffers.{GpuBuffer, GpuMapping, Buffers, this_mapped_gpu_buffer}
use libdrm.Stub.Laws.{Disjoint}

-- A range without a mapping in it.
pub record Unmapped (m : Assoc GpuMapping) (va size : ℕ) : Type 0 where
  pub none_here : find m va ≡ none
  pub clear : (k : ℕ) (v : GpuMapping) → find m k ≡ some v → (k + v.size ≤ va) ⊎ (va + size ≤ k)

abbrev pub mapped : Buffers → (va : ℕ) → GpuMapping → Buffers
mapped s va n = record s { mappings = emplace s.mappings va n }

pub find-mapped :
    (s : Buffers) (va k : ℕ) (n : GpuMapping)
    → Disjoint s.mappings
    → find s.mappings va ≡ none
    → find (mapped s va n).mappings k ≡ (if k == va then some n else find s.mappings k)
find-mapped s va k n d z = ground (arith, find-emplace s.mappings 0 va n k d.ordered, z)

-- An entry is the new one or an old one.
mapped-cases :
    (s : Buffers) (va k : ℕ) (n v : GpuMapping)
    → Disjoint s.mappings
    → find s.mappings va ≡ none
    → find (mapped s va n).mappings k ≡ some v
    → ((k ≡ va) × (v ≡ n)) ⊎ (find s.mappings k ≡ some v)
mapped-cases s va k n v d z e = elim (Bool-cases (k == va)) [
  | inl t ↦ inl (ground arith, some_inj (sym e ∙ find-mapped s va k n d z ∙ (rw t refl)))
  | inr t ↦
      let x : find (mapped s va n).mappings k ≡ find s.mappings k =
        find-mapped s va k n d z ∙ (rw t refl) in
      inr (sym x ∙ e)
]

find-kept :
    (s : Buffers) (va k : ℕ) (n m : GpuMapping)
    → Disjoint s.mappings
    → find s.mappings va ≡ none
    → find s.mappings k ≡ some m
    → find (mapped s va n).mappings k ≡ some m
find-kept s va k n m d z h = elim (Bool-cases (k == va)) [
  | inl t ↦ let r : k ≡ va = ground arith in absurd (cc (sym h ∙ ap (find s.mappings) r ∙ z))
  | inr t ↦ find-mapped s va k n d z ∙ (rw t h)
]

pub mapped-Disjoint :
    (s : Buffers) (va : ℕ) (n : GpuMapping)
    → Disjoint s.mappings
    → Unmapped s.mappings va n.size
    → va + n.size < 2 ^ 64
    → n.offset + va + n.size < 2 ^ 64
    → Disjoint (mapped s va n).mappings
mapped-Disjoint s va n d u f g = record {
  ordered = emplace-Ordered s.mappings 0 va n d.ordered (omega arith);
  fits = λ k v e. elim (mapped-cases s va k n v d u.none_here e) [
    | inl (p, q) ↦ rw (p, q) f
    | inr h ↦ d.fits k v h
  ];
  offset_fits = λ k v e. elim (mapped-cases s va k n v d u.none_here e) [
    | inl (p, q) ↦ rw (p, q) g
    | inr h ↦ d.offset_fits k v h
  ];
  apart = λ j k v w e e' l. elim (mapped-cases s va j n v d u.none_here e) [
    | inl (p, q) ↦ elim (mapped-cases s va k n w d u.none_here e') [
      | inl (p', q') ↦ absurd (omega arith)
      | inr h' ↦ let r = ap (λ x. x.size) q in let b = u.clear k w h' in ground arith
    ]
    | inr h ↦ elim (mapped-cases s va k n w d u.none_here e') [
      | inl (p', q') ↦ let b = u.clear j v h in ground arith
      | inr h' ↦ d.apart j k v w h h' l
    ]
  ];
}

-- The entry that `floor` finds is the one with the greatest key up to the address.
floor_unique :
    (m : Assoc GpuMapping) (a j : ℕ) (v : GpuMapping)
    → Ordered 0 m
    → find m j ≡ some v
    → j ≤ a
    → ((i : ℕ) → j < i → i ≤ a → find m i ≡ none)
    → floor m a ≡ some (j, v)
floor_unique m a j v o f l g = elim (Option-cases (floor m a)) [
  | inl z ↦ absurd (cc (sym (floor-none m a j z l) ∙ f))
  | inr ((k, w), z) ↦
      let (p, _, q, h) = floor-some m 0 a k w o z in
      let jk : k ≡ j = elim (dec_le k j) [
        | no n ↦ absurd (cc (sym (g k (omega arith) q) ∙ p))
        | yes y ↦ elim (dec_le j k) [
          | yes x ↦ omega arith
          | no n ↦ absurd (cc (sym (h j (omega arith) l) ∙ f))
        ]
      ] in
      let vw : w ≡ v = some_inj (sym p ∙ ap (find m) jk ∙ f) in z ∙ rw (jk, vw) refl
]

-- An address outside a new mapping: below every mapping, the search for it was a fault, and it is one
-- no more when the new mapping is below it.
abbrev pub outside : Bool → Option (Option (GpuBuffer × ℕ)) → Option (Option (GpuBuffer × ℕ))
outside above none = if above then some none else none
outside above (some x) = some x

module _ (s : Buffers) (va c : ℕ) (n : GpuMapping) (d : Disjoint s.mappings)
    (u : Unmapped s.mappings va n.size) (fits : va + n.size < 2 ^ 64) where
  -- The new mapping is the last one up to the address, and ends before it.
  behind_new :
      va + n.size ≤ c
      → ((i : ℕ) → va < i → i ≤ c → find s.mappings i ≡ none)
      → this_mapped_gpu_buffer (mapped s va n) c ≡ some none
  unfolding this_mapped_gpu_buffer
  behind_new l g =
      let e = find-mapped s va va n d u.none_here in
      let o = emplace-Ordered s.mappings 0 va n d.ordered (omega arith) in
      let w =
        floor_unique (mapped s va n).mappings c va n o (ground (arith, e)) (omega arith)
          (λ i p q. find-mapped s va i n d u.none_here ∙ ground (arith, g i p q)) in
      let t : ltb c (add64 va n.size) ≡ false = ground arith in
      rw (this_mapped_gpu_buffer, w, t) refl

  -- No mapping is below the address, neither the new one.
  below_all : c < va → floor s.mappings c ≡ none → this_mapped_gpu_buffer (mapped s va n) c ≡ none
  unfolding this_mapped_gpu_buffer
  below_all l z =
      let o = emplace-Ordered s.mappings 0 va n d.ordered (omega arith) in
      elim (Option-cases (floor (mapped s va n).mappings c)) [
        | inl y ↦ rw (this_mapped_gpu_buffer, y) refl
        | inr ((j, v), y) ↦
            let (p, _, q, _) = floor-some (mapped s va n).mappings 0 c j v o y in
            let e : find s.mappings j ≡ some v =
              ground (arith, find-mapped s va j n d u.none_here) in
            absurd (cc (sym (floor-none s.mappings c j z q) ∙ e))
      ]

  -- An old mapping is still the last one up to the address.
  still_last :
      (j : ℕ) (v : GpuMapping)
      → find s.mappings j ≡ some v
      → j ≤ c
      → ((i : ℕ) → j < i → i ≤ c → find s.mappings i ≡ none)
      → (c < va) ⊎ (va < j)
      → floor (mapped s va n).mappings c ≡ some (j, v)
  still_last j v f l g x =
      floor_unique (mapped s va n).mappings c j v
        (emplace-Ordered s.mappings 0 va n d.ordered (omega arith))
        (find-kept s va j n v d u.none_here f) l
        (λ i p q. find-mapped s va i n d u.none_here ∙ ground (arith, g i p q))

  -- Behind an old mapping below the new one, the search finds nothing before and after.
  between :
      (j : ℕ) (v : GpuMapping)
      → floor s.mappings c ≡ some (j, v)
      → find s.mappings j ≡ some v
      → j < va
      → va + n.size ≤ c
      → this_mapped_gpu_buffer s c ≡ some none
  unfolding this_mapped_gpu_buffer
  between j v z f l m =
      let k = u.clear j v f in
      let b = d.fits j v f in
      let t : ltb c (add64 j v.size) ≡ false = ground arith in
      rw (this_mapped_gpu_buffer, z, t) refl

  search_none : floor s.mappings c ≡ none → this_mapped_gpu_buffer s c ≡ none
  unfolding this_mapped_gpu_buffer
  search_none z = rw (this_mapped_gpu_buffer, z) refl

  -- The search depends on the last mapping up to the address only.
  search_same :
      (above : Bool) (x : ℕ × GpuMapping)
      → floor s.mappings c ≡ some x
      → floor (mapped s va n).mappings c ≡ some x
      → this_mapped_gpu_buffer (mapped s va n) c ≡ outside above (this_mapped_gpu_buffer s c)
  unfolding this_mapped_gpu_buffer
  search_same above x z y =
      let old : this_mapped_gpu_buffer s c
          ≡ some (
              if ltb c (add64 x.0 x.1.size)
              then some (x.1.buffer, sub64 (add64 x.1.offset c) x.0)
              else none) =
        rw (this_mapped_gpu_buffer, z) refl in
      rw old (rw (this_mapped_gpu_buffer, y) refl)

  pub this_mapped_gpu_buffer-outside :
      (c < va) ⊎ (va + n.size ≤ c)
      → this_mapped_gpu_buffer (mapped s va n) c ≡ outside (leb va c) (this_mapped_gpu_buffer s c)
  this_mapped_gpu_buffer-outside (inl l) =
      let above : leb va c ≡ false = ground arith in
      elim (Option-cases (floor s.mappings c)) [
        | inl z ↦ rw (above, search_none z) (below_all l z)
        | inr ((j, v), z) ↦
            let (f, _, q, g) = floor-some s.mappings 0 c j v d.ordered z in
            search_same (leb va c) (j, v) z (still_last j v f q g (inl l))
      ]
  this_mapped_gpu_buffer-outside (inr l) =
      let above : leb va c ≡ true = ground arith in
      elim (Option-cases (floor s.mappings c)) [
        | inl z ↦ rw (above, search_none z) (behind_new l (λ i p q. floor-none s.mappings c i z q))
        | inr ((j, v), z) ↦
            let (f, _, q, g) = floor-some s.mappings 0 c j v d.ordered z in
            elim (dec_le va j) [
              | no m ↦
                  rw (above, between j v z f (omega arith) l)
                    (behind_new l (λ i p r. g i (omega arith) r))
              | yes m ↦ elim (dec_le j va) [
                | yes k ↦
                    let e : j ≡ va = omega arith in
                    absurd (cc (sym f ∙ ap (find s.mappings) e ∙ u.none_here))
                | no k ↦ search_same (leb va c) (j, v) z (still_last j v f q g (inr (omega arith)))
              ]
            ]
      ]
