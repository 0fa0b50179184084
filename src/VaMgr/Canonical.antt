-- ===== src/VaMgr/Canonical.antt =====
-- Lists of nonempty holes no two of which touch are determined by the addresses that are free.
use libdrm.Base.{
  ℕ, ◌+◌, ◌-◌, ◌≤◌, ◌<◌, ◌≡◌, refl, sym, ◌⊎◌, inl, inr, true, false, List, [], ◌∷◌, arith,
}
use native.Mathlib.Decide.{dec_le}
use libdrm.VaMgr.{Hole}
use libdrm.VaMgr.Holes.{within, is_free, Spaced, is_free_above, Clear}

-- Two lists that free the same addresses.
abbrev pub SameFree : List Hole → List Hole → Type 0
SameFree hs ks = (a : ℕ) → is_free hs a ≡ is_free ks a

abbrev top_of : Hole → ℕ
top_of h = h.offset + h.size

-- The first hole of one list cannot reach above the other list's, nor begin below it.
end_le :
    (b c : ℕ) (h k : Hole) (hs ks : List Hole)
    → Spaced 1 b (h ∷ hs)
    → Spaced 1 c (k ∷ ks)
    → SameFree (h ∷ hs) (k ∷ ks)
    → top_of k ≤ top_of h
end_le b c h k hs ks s t e = elim (dec_le (top_of k) (top_of h)) [
  | yes l ↦ l
  | no n ↦ absurd (ground (arith, e (top_of k - 1), is_free_above 1 h.offset (top_of k - 1) hs s.2))
]

offset_le :
    (b c : ℕ) (h k : Hole) (hs ks : List Hole)
    → Spaced 1 b (h ∷ hs)
    → Spaced 1 c (k ∷ ks)
    → top_of h ≡ top_of k
    → SameFree (h ∷ hs) (k ∷ ks)
    → k.offset ≤ h.offset
offset_le b c h k hs ks s t q e = elim (dec_le k.offset h.offset) [
  | yes l ↦ l
  | no n ↦ absurd (ground (arith, e (k.offset - 1), below (k.offset - 1) ks t.2))
]
  where
    below : (a : ℕ) (ks : List Hole) → Spaced 1 k.offset ks → is_free ks (k.offset - 1) ≡ false
    below a [] s = refl
    below a (j ∷ ks) s = ground (arith, is_free_above 1 j.offset (k.offset - 1) ks s.2)

pub canonical :
    (b c : ℕ) (hs ks : List Hole) → Spaced 1 b hs → Spaced 1 c ks → SameFree hs ks → hs ≡ ks
canonical b c [] [] s t e = refl
canonical b c [] (k ∷ ks) s t e = absurd (ground (arith, e k.offset))
canonical b c (h ∷ hs) [] s t e = absurd (ground (arith, e h.offset))
canonical b c (h ∷ hs) (k ∷ ks) s t e =
    let e' : SameFree (k ∷ ks) (h ∷ hs) = λ a. sym (e a) in
    let q : top_of h ≡ top_of k =
      omega (arith, end_le b c h k hs ks s t e, end_le c b k h ks hs t s e') in
    let o : h.offset ≡ k.offset =
      omega (arith, offset_le b c h k hs ks s t q e, offset_le c b k h ks hs t s (sym q) e') in
    let z : h.size ≡ k.size = omega arith in
    let rest : SameFree hs ks = λ a.
      ground (arith, e a, is_free_above 1 h.offset a hs s.2, is_free_above 1 k.offset a ks t.2) in
    cc (canonical h.offset k.offset hs ks s.2 t.2 rest)

-- A range none of whose addresses is free is clear of every hole.
pub Clear-of_not_free :
    (b va size : ℕ) (hs : List Hole)
    → 0 < size
    → Spaced 1 b hs
    → ((a : ℕ) → within va size a ≡ true → is_free hs a ≡ false)
    → Clear va size hs
Clear-of_not_free b va size [] z s f = tt
Clear-of_not_free b va size (h ∷ hs) z s f =
    (head, Clear-of_not_free h.offset va size hs z s.2 (λ a w. ground (arith, f a)))
  where
    head : (top_of h ≤ va) ⊎ (va + size ≤ h.offset)
    head = elim (dec_le (top_of h) va) [
      | yes l ↦ inl l
      | no n ↦ elim (dec_le (va + size) h.offset) [
        | yes l ↦ inr l
        | no m ↦ elim (dec_le va h.offset) [
          | yes l ↦ absurd (ground (arith, f h.offset))
          | no l ↦ absurd (ground (arith, f va))
        ]
      ]
    ]
