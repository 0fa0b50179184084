-- ===== src/Base/Maps.antt =====
-- std::map<int, T>: an association list in the order of its keys.
use Prim.Native.Nat.{ℕ, ◌+◌, ◌≤◌, ◌<◌}
use mathlib.Core.Path.{◌≡◌, refl, ap, ◌∙◌}
use mathlib.Core.Logic.{inl, inr}
use mathlib.Core.Option.{Option, none, some}
use mathlib.Core.List.{List, [], ◌∷◌}
use native.Mathlib.Omega.{arith}
use libdrm.Base.Tests.{ltb, leb, ◌==◌, if◌then◌else◌, Bool-cases, Option-cases, some_inj}

abbrev pub Assoc : Type 0 → Type 0
Assoc A = List (ℕ × A)

module _ {A : Type 0} where
  unfoldable pub find : Assoc A → ℕ → Option A
  find [] k = none
  find ((j, v) ∷ m) k = if j == k then some v else find m k

  -- A key that is there keeps its value.
  unfoldable pub emplace : Assoc A → ℕ → A → Assoc A
  emplace [] k v = (k, v) ∷ []
  emplace ((j, w) ∷ m) k v =
      let rest = emplace m k v in
      if ltb k j then (k, v) ∷ (j, w) ∷ m else if j == k then (j, w) ∷ m else (j, w) ∷ rest

  unfoldable pub erase : Assoc A → ℕ → Assoc A
  erase [] k = []
  erase ((j, w) ∷ m) k = let rest = erase m k in if j == k then m else (j, w) ∷ rest

  -- The entry before `upper_bound(a)`: the last one whose key is at most `a`.
  unfoldable pub floor : Assoc A → ℕ → Option (ℕ × A)
  floor [] a = none
  floor ((j, w) ∷ m) a = elim (floor m a) [
    | some e ↦ some e
    | none ↦ if leb j a then some (j, w) else none
  ]

  -- The keys increase, from `lo` on.
  abbrev pub Ordered : ℕ → Assoc A → Type 0
  Ordered lo [] = Unit {0}
  Ordered lo ((j, w) ∷ m) = (lo ≤ j) × Ordered (j + 1) m

  pub find_below : (m : Assoc A) (lo k : ℕ) → Ordered lo m → k < lo → find m k ≡ none
  unfolding find
  find_below [] lo k o l = refl
  find_below ((j, w) ∷ m) lo k (p, o) l = ground (arith, find_below m (j + 1) k o)

  pub emplace-Ordered :
      (m : Assoc A) (lo k : ℕ) (v : A) → Ordered lo m → lo ≤ k → Ordered lo (emplace m k v)
  unfolding emplace
  emplace-Ordered [] lo k v o l = (l, tt)
  emplace-Ordered ((j, w) ∷ m) lo k v (p, o) l = elim (Bool-cases (ltb k j)) [
    | inl s ↦ rw s (l, (ground arith, o))
    | inr s ↦ elim (Bool-cases (j == k)) [
      | inl t ↦ rw (s, t) (p, o)
      | inr t ↦ rw (s, t) (p, emplace-Ordered m (j + 1) k v o (ground arith))
    ]
  ]

  pub find-emplace :
      (m : Assoc A) (lo k : ℕ) (v : A) (j : ℕ)
      → Ordered lo m
      → find (emplace m k v) j
        ≡ (if j == k then (elim (find m k) [ none ↦ some v | some w ↦ some w ]) else find m j)
  unfolding emplace find
  find-emplace [] lo k v j o = ground arith
  find-emplace ((i, w) ∷ m) lo k v j (p, o) =
      ground (arith, find-emplace m (i + 1) k v j o, find_below m (i + 1) k o)

  pub erase-Ordered : (m : Assoc A) (lo k : ℕ) → Ordered lo m → Ordered lo (erase m k)
  unfolding erase
  erase-Ordered [] lo k o = tt
  erase-Ordered ((j, w) ∷ m) lo k (p, o) = elim (Bool-cases (j == k)) [
    | inl t ↦ rw t (weaken m (j + 1) lo o (omega arith))
    | inr t ↦ rw t (p, erase-Ordered m (j + 1) k o)
  ]
    where
      weaken : (m : Assoc A) (hi lo : ℕ) → Ordered hi m → lo ≤ hi → Ordered lo m
      weaken [] hi lo o l = tt
      weaken ((j, w) ∷ m) hi lo (p, o) l = (omega arith, o)

  pub find-erase :
      (m : Assoc A) (lo k j : ℕ)
      → Ordered lo m
      → find (erase m k) j ≡ (if j == k then none else find m j)
  unfolding erase find
  find-erase [] lo k j o = ground arith
  find-erase ((i, w) ∷ m) lo k j (p, o) =
      ground (arith, find-erase m (i + 1) k j o, find_below m (i + 1) k o)

  -- Erasing a key that was emplaced anew gives back the map.
  pub erase-emplace :
      (m : Assoc A) (lo k : ℕ) (v : A)
      → Ordered lo m
      → find m k ≡ none
      → erase (emplace m k v) k ≡ m
  unfolding erase emplace find
  erase-emplace [] lo k v o n = ground arith
  erase-emplace ((j, w) ∷ m) lo k v (p, o) n = ground (arith, erase-emplace m (j + 1) k v o)

  pub floor-none : (m : Assoc A) (a j : ℕ) → floor m a ≡ none → j ≤ a → find m j ≡ none
  unfolding floor find
  floor-none [] a j e l = refl
  floor-none ((i, w) ∷ m) a j e l = elim (Option-cases (floor m a)) [
    | inl z ↦ ground (arith, floor-none m a j z l)
    | inr (x, z) ↦ absurd (cc (rw (floor, z) at e))
  ]

  -- The entry that `floor` finds is in the map, and no key lies between it and `a`.
  pub floor-some :
      (m : Assoc A) (lo a k : ℕ) (v : A)
      → Ordered lo m
      → floor m a ≡ some (k, v)
      → (find m k ≡ some v) × (lo ≤ k) × (k ≤ a) × ((j : ℕ) → k < j → j ≤ a → find m j ≡ none)
  unfolding floor find
  floor-some [] lo a k v o e = absurd (cc)
  floor-some ((i, w) ∷ m) lo a k v (p, o) e = elim (Option-cases (floor m a)) [
    | inl z ↦ elim (Bool-cases (leb i a)) [
      | inr x ↦ absurd (cc (rw (floor, z, x) at e))
      | inl x ↦
          let q : ◌≡◌ {A = ℕ × A} (i, w) (k, v) = some_inj (rw (floor, z, x) at e) in
          let ik : i ≡ k = ap (λ (u : ℕ × A). u.0) q in
          let wv : w ≡ v = ap (λ (u : ℕ × A). u.1) q in
          (ground arith, omega arith, ground arith, λ j l u. ground (arith, floor-none m a j z))
    ]
    | inr (x, z) ↦
        let (f, l, u, g) = floor-some m (i + 1) a k v o (z ∙ rw (floor, z) at e) in
        (ground arith, omega arith, u, λ j b t. ground (arith, g j))
  ]
