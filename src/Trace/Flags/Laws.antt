-- ===== src/Trace/Flags/Laws.antt =====
-- What is printed of a word of flags tells the word.
use Prim.Native.String.{String}
use text.Mathlib.Text.{◌==◌ as str_eq}
use text.Mathlib.TextEquality.{eq_iff}
use libdrm.Base.{
  ℕ, zero, suc, ◌+◌, ◌-◌, ◌*◌, ◌/◌, ◌%◌, ◌^◌, ◌<◌, ◌≤◌, ◌==◌, bit_and, Bool, true, false, ◌&&◌, not,
  ◌≡◌, ◌≢◌, refl, ap, sym, ◌∙◌, some_inj, List, [], ◌∷◌, if◌then◌else◌, arith, Bool-cases, inl, inr,
  ◌⊎◌, bit_and-pow, bit_and_sign, bits-ext, pow_pos,
}
use libdrm.Trace.Output.{Printf, printf, Memory}
use libdrm.Trace.Flags.{
  Names, write_name, comma, write_bits, FlagWord, domains, domain_flags, create_flags, to_fd_flags,
  from_fd_flags, wait_flags, flag_names, mask_of, write_flags,
}

-- No name is `s`, nor the format of a bit without a name.
abbrev unused : String → Names → Bool
unused s [] = not (str_eq s "?(%u)")
unused s ((j, t) ∷ names) = not (str_eq s t) && unused s names

abbrev distinct : Names → Bool
distinct [] = true
distinct ((j, s) ∷ names) = unused s names && distinct names

format_of : Printf → String
format_of (printf s args) = s

args_of : Printf → List ℕ
args_of (printf s args) = args

write_name-unused :
    (s : String) (names : Names) (i : ℕ) → unused s names ≡ true → printf s [] ≢ write_name names i
unfolding write_name
write_name-unused s [] i u e = ground (arith, eq_iff s "?(%u)")
write_name-unused s ((j, t) ∷ names) i u e = ground (arith, eq_iff s t, write_name-unused s names i)

write_name_inj :
    (names : Names) (i j : ℕ)
    → distinct names ≡ true
    → write_name names i ≡ write_name names j
    → i ≡ j
unfolding write_name
write_name_inj [] i j d e = ground arith
write_name_inj ((k, s) ∷ names) i j d e =
    ground
      (arith, write_name_inj names i j, write_name-unused s names i, write_name-unused s names j)

comma_inj :
    (first : Bool) (x y : Printf) (xs ys : List Printf)
    → comma first (x ∷ xs) ≡ comma first (y ∷ ys)
    → (x ≡ y) × (xs ≡ ys)
comma_inj true x y xs ys e = (cc, cc)
comma_inj false x y xs ys e = (cc, cc)

comma-ne-nil : (first : Bool) (x : Printf) (xs : List Printf) → comma first (x ∷ xs) ≢ []
comma-ne-nil true x xs e = cc
comma-ne-nil false x xs e = cc

module _ (mask : ℕ → ℕ) (names : Names) where
  -- Whether a bit is clear, and what the loop prints then.
  abbrev is_clear : ℕ → ℕ → Bool
  is_clear i flags = bit_and flags (mask i) == 0

  clear_step :
      (n i : ℕ) (first : Bool) (f : ℕ)
      → is_clear i f ≡ true
      → write_bits mask names (suc n) i first f ≡ write_bits mask names n (i + 1) first f
  unfolding write_bits
  clear_step n i first f e = rw (write_bits, e) refl

  set_step :
      (n i : ℕ) (first : Bool) (f : ℕ)
      → is_clear i f ≡ false
      → write_bits mask names (suc n) i first f
        ≡ comma first (write_name names i ∷ write_bits mask names n (i + 1) false f)
  unfolding write_bits
  set_step n i first f e = rw (write_bits, e) refl

  -- The first name that the loop prints is that of a bit it still has to test.
  write_bits-cases :
      (n i : ℕ) (first : Bool) (f : ℕ)
      → (write_bits mask names n i first f ≡ [])
        ⊎ ((j : ℕ) × (rest : List Printf) × (i ≤ j)
            × (write_bits mask names n i first f ≡ comma first (write_name names j ∷ rest)))
  unfolding write_bits
  write_bits-cases zero i first f = inl refl
  write_bits-cases (suc n) i first f = elim (Bool-cases (is_clear i f)) [
    | inr e ↦ inr (i, _, omega arith, set_step n i first f e)
    | inl e ↦ elim (write_bits-cases n (i + 1) first f) [
      | inl z ↦ inl (clear_step n i first f e ∙ z)
      | inr (j, rest, l, z) ↦ inr (j, rest, omega arith, clear_step n i first f e ∙ z)
    ]
  ]

  module _ (d : distinct names ≡ true) where
    -- A bit that is set in one word only shows.
    set-ne-clear :
        (n i : ℕ) (first : Bool) (f g : ℕ)
        → is_clear i f ≡ false
        → is_clear i g ≡ true
        → write_bits mask names (suc n) i first f ≢ write_bits mask names (suc n) i first g
    set-ne-clear n i first f g a b e =
        let x = sym (set_step n i first f a) ∙ e ∙ clear_step n i first g b in
        elim (write_bits-cases n (i + 1) first g) [
          | inl z ↦ comma-ne-nil first _ _ (x ∙ z)
          | inr (j, rest, l, z) ↦
              let same = write_name_inj names i j d (comma_inj first _ _ _ _ (x ∙ z)).0 in
              absurd (omega arith)
        ]

    write_bits_inj :
        (n i : ℕ) (first : Bool) (f g : ℕ)
        → write_bits mask names n i first f ≡ write_bits mask names n i first g
        → (j : ℕ) → i ≤ j
        → j < i + n
        → is_clear j f ≡ is_clear j g
    write_bits_inj zero i first f g e j l u = absurd (omega arith)
    write_bits_inj (suc n) i first f g e j l u =
        let later : (b : Bool)
            → write_bits mask names n (i + 1) b f ≡ write_bits mask names n (i + 1) b g
            → is_clear i f ≡ is_clear i g
            → is_clear j f ≡ is_clear j g =
          λ b x y. elim (Bool-cases (i == j)) [
            | inl z ↦ let q : i ≡ j = ground arith in rw (← q) y
            | inr z ↦ write_bits_inj n (i + 1) b f g x j (ground arith) (omega arith)
          ] in
        elim (Bool-cases (is_clear i f)) [
          | inl a ↦ elim (Bool-cases (is_clear i g)) [
            | inl b ↦
                later first (sym (clear_step n i first f a) ∙ e ∙ clear_step n i first g b)
                  (a ∙ sym b)
            | inr b ↦ absurd (set-ne-clear n i first g f b a (sym e))
          ]
          | inr a ↦ elim (Bool-cases (is_clear i g)) [
            | inl b ↦ absurd (set-ne-clear n i first f g a b e)
            | inr b ↦
                later false
                  (comma_inj first _ _ _ _
                    (sym (set_step n i first f a) ∙ e ∙ set_step n i first g b)).1
                  (a ∙ sym b)
          ]
        ]

scaled_bit : (b c p : ℕ) → b < 2 → c < 2 → 0 < p → (b * p == 0) ≡ (c * p == 0) → b ≡ c
scaled_bit zero zero p l m q e = refl
scaled_bit zero (suc c) p l m q e =
    let z : c ≡ 0 = omega arith in ground (arith, ap (λ (t : ℕ). suc t * p) z)
scaled_bit (suc b) zero p l m q e =
    let z : b ≡ 0 = omega arith in ground (arith, ap (λ (t : ℕ). suc t * p) z)
scaled_bit (suc b) (suc c) p l m q e = omega arith

bit_of_test :
    (i f g : ℕ)
    → (bit_and f (2 ^ i) == 0) ≡ (bit_and g (2 ^ i) == 0)
    → f / 2 ^ i % 2 ≡ g / 2 ^ i % 2
bit_of_test i f g e =
    scaled_bit (f / 2 ^ i % 2) (g / 2 ^ i % 2) (2 ^ i) (omega arith) (omega arith) (pow_pos i)
      (rw (← bit_and-pow i f, ← bit_and-pow i g) e)

flag_names-distinct : (word : FlagWord) → distinct (flag_names word) ≡ true
unfolding flag_names
flag_names-distinct domains = refl
flag_names-distinct domain_flags = refl
flag_names-distinct create_flags = refl
flag_names-distinct to_fd_flags = refl
flag_names-distinct from_fd_flags = refl
flag_names-distinct wait_flags = refl

sign_mask :
    (i x : ℕ)
    → x < 2 ^ 32
    → (bit_and x (if i == 31 then 2 ^ 64 - 2 ^ 31 else 2 ^ i) == 0) ≡ (bit_and x (2 ^ i) == 0)
sign_mask i x l = elim (Bool-cases (i == 31)) [
  | inr e ↦ rw e refl
  | inl e ↦ let q : i ≡ 31 = ground arith in rw q (bit_and_sign x l)
]

-- Of a 32-bit word each mask reads its bit.
mask_of_lem :
    (word : FlagWord) (i x : ℕ)
    → x < 2 ^ 32
    → (bit_and x (mask_of word i) == 0) ≡ (bit_and x (2 ^ i) == 0)
unfolding mask_of
mask_of_lem domains i x l = sign_mask i x l
mask_of_lem domain_flags i x l = sign_mask i x l
mask_of_lem create_flags i x l = refl
mask_of_lem to_fd_flags i x l = refl
mask_of_lem from_fd_flags i x l = refl
mask_of_lem wait_flags i x l = refl

-- Two 32-bit words of flags that are printed alike, by the loop of any command that prints such a
-- word, are equal: a bit without a name shows too, by its number.
pub write_flags_inj :
    (word : FlagWord) (f g : ℕ) (m : Memory)
    → f < 2 ^ 32
    → g < 2 ^ 32
    → write_flags word f m ≡ write_flags word g m
    → f ≡ g
unfolding write_flags
write_flags_inj word f g m l k e =
    let mask = mask_of word in
    let names = flag_names word in
    let same : write_bits mask names 32 0 true f ≡ write_bits mask names 32 0 true g =
      ap (λ x. x.1) (some_inj e) in
    bits-ext 32 f g l k (λ i u.
      let both =
        write_bits_inj mask names (flag_names-distinct word) 32 0 true f g same i (omega arith)
          (omega arith) in
      bit_of_test i f g (sym (mask_of_lem word i f l) ∙ both ∙ mask_of_lem word i g k))
