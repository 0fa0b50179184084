-- ===== src/AsicId/Table.antt =====
-- The lines of amdgpu.ids as they are written, and what the parser makes of one.
use libdrm.Base.{
  ℕ, ◌+◌, ◌*◌, ◌/◌, ◌%◌, ◌^◌, ◌<◌, ◌≡◌, refl, ap, ◌∙◌, ◌==◌, true, false, Bool-cases, inl, inr,
  Option, none, some, List, [], ◌∷◌, ◌++◌, if◌then◌else◌, ltb, arith,
}
use libdrm.AsicId.Text.{
  isblank, isspace, skip, is_comma, until_comma, strtok, hex_digit, is_hex, digits, skip_0x,
  as_word, number, strtol,
}

-- A digit of a number in base 16, and the numbers with four digits and with two.
abbrev pub hex_char : ℕ → ℕ
hex_char d = if ltb d 10 then 48 + d else 55 + d

abbrev pub print2 : ℕ → List ℕ
print2 n = hex_char (n / 16) ∷ hex_char (n % 16) ∷ []

abbrev pub print4 : ℕ → List ℕ
print4 n =
    hex_char (n / 4096)
    ∷ hex_char ((n / 256) % 16)
    ∷ hex_char ((n / 16) % 16)
    ∷ hex_char (n % 16)
    ∷ []

pub record Entry : Type 0 where
  pub did : ℕ
  pub rid : ℕ
  pub name : List ℕ

-- "DDDD,\tRR,\tname".
abbrev pub print_entry : Entry → List ℕ
print_entry e = print4 e.did ++ (44 ∷ (9 ∷ print2 e.rid) ++ (44 ∷ 9 ∷ e.name))

abbrev pub NoComma : List ℕ → Type 0
NoComma [] = Unit {0}
NoComma (c ∷ s) = (is_comma c ≡ false) × NoComma s

abbrev pub IsName : List ℕ → Type 0
IsName [] = ⊥
IsName (c ∷ s) = (isblank c ≡ false) × NoComma (c ∷ s)

pub record IsEntry (e : Entry) : Type 0 where
  pub did_lt : e.did < 2 ^ 16
  pub rid_lt : e.rid < 2 ^ 8
  pub is_name : IsName e.name

-- What a digit is not.
pub record HexChar (c d : ℕ) : Type 0 where
  pub digit : hex_digit c ≡ some d
  pub no_comma : is_comma c ≡ false
  pub no_space : isspace c ≡ false
  pub no_minus : (c == 45) ≡ false
  pub no_plus : (c == 43) ≡ false
  pub no_x : (c == 120) ≡ false
  pub no_cap : (c == 88) ≡ false
  pub no_hash : (c == 35) ≡ false

pub hex_char-HexChar : (d : ℕ) → d < 16 → HexChar (hex_char d) d
unfolding hex_digit
hex_char-HexChar d l = record {
  digit = ground arith;
  no_comma = ground arith;
  no_space = ground arith;
  no_minus = ground arith;
  no_plus = ground arith;
  no_x = ground arith;
  no_cap = ground arith;
  no_hash = ground arith;
}

until_comma-token : (s r : List ℕ) → NoComma s → until_comma (s ++ (44 ∷ r)) ≡ (s, r)
unfolding until_comma
until_comma-token [] r n = refl
until_comma-token (c ∷ s) r (m, n) = rw (until_comma, until_comma-token s r n, m) refl

until_comma-end : (s : List ℕ) → NoComma s → until_comma s ≡ (s, [])
unfolding until_comma
until_comma-end [] n = refl
until_comma-end (c ∷ s) (m, n) = rw (until_comma, until_comma-end s n, m) refl

pub strtok-token :
    (c : ℕ) (s r : List ℕ) → NoComma (c ∷ s) → strtok ((c ∷ s) ++ (44 ∷ r)) ≡ some (c ∷ s, r)
unfolding strtok skip
strtok-token c s r (m, n) = rw (strtok, skip, m) (ap some (until_comma-token (c ∷ s) r (m, n)))

pub strtok-end : (c : ℕ) (s : List ℕ) → NoComma (c ∷ s) → strtok (c ∷ s) ≡ some (c ∷ s, [])
unfolding strtok skip
strtok-end c s (m, n) = rw (strtok, skip, m) (ap some (until_comma-end (c ∷ s) (m, n)))

digits-step :
    (acc c d : ℕ) (s : List ℕ) → hex_digit c ≡ some d → digits acc (c ∷ s) ≡ digits (acc * 16 + d) s
unfolding digits
digits-step acc c d s e = rw (digits, e) refl

number-digit :
    (whole s : List ℕ) (c d : ℕ)
    → hex_digit c ≡ some d
    → number false whole (c ∷ s) ≡ (as_word false (digits d s).0, (digits d s).1)
unfolding number
number-digit whole s c d e =
    let z : 0 * 16 + d ≡ d = omega arith in
    let i : is_hex c ≡ true = ap (λ (o : Option ℕ). elim o [ none ↦ false | some x ↦ true ]) e in
    rw (number, digits-step 0 c d s e, z, i) refl

-- Numbers, once their spaces and their prefix are gone.
number-four :
    (whole : List ℕ) (c3 c2 c1 c0 d3 d2 d1 d0 : ℕ)
    → HexChar c3 d3
    → HexChar c2 d2
    → HexChar c1 d1
    → HexChar c0 d0
    → number false whole (c3 ∷ c2 ∷ c1 ∷ c0 ∷ [])
      ≡ (as_word false (((d3 * 16 + d2) * 16 + d1) * 16 + d0), [])
unfolding digits
number-four whole c3 c2 c1 c0 d3 d2 d1 d0 h3 h2 h1 h0 =
    rw
      (
        number-digit whole (c2 ∷ c1 ∷ c0 ∷ []) c3 d3 h3.digit,
        digits-step d3 c2 d2 (c1 ∷ c0 ∷ []) h2.digit,
        digits-step (d3 * 16 + d2) c1 d1 (c0 ∷ []) h1.digit,
        digits-step ((d3 * 16 + d2) * 16 + d1) c0 d0 [] h0.digit,
      )
      refl

number-two :
    (whole : List ℕ) (c1 c0 d1 d0 : ℕ)
    → HexChar c1 d1
    → HexChar c0 d0
    → number false whole (c1 ∷ c0 ∷ []) ≡ (as_word false (d1 * 16 + d0), [])
unfolding digits
number-two whole c1 c0 d1 d0 h1 h0 =
    rw (number-digit whole (c0 ∷ []) c1 d1 h1.digit, digits-step d1 c0 d0 [] h0.digit) refl

skip_0x-four :
    (c3 c2 c1 c0 d2 : ℕ) → HexChar c2 d2 → skip_0x (c3 ∷ c2 ∷ c1 ∷ c0 ∷ []) ≡ c3 ∷ c2 ∷ c1 ∷ c0 ∷ []
unfolding skip_0x
skip_0x-four c3 c2 c1 c0 d2 h2 = elim (Bool-cases (c3 == 48)) [
  | inl z ↦ rw (skip_0x, h2.no_x, h2.no_cap, z) refl
  | inr z ↦ rw (skip_0x, h2.no_x, h2.no_cap, z) refl
]

strtol-four :
    (c3 c2 c1 c0 d3 d2 d1 d0 : ℕ)
    → HexChar c3 d3
    → HexChar c2 d2
    → HexChar c1 d1
    → HexChar c0 d0
    → strtol (c3 ∷ c2 ∷ c1 ∷ c0 ∷ []) ≡ (as_word false (((d3 * 16 + d2) * 16 + d1) * 16 + d0), [])
unfolding strtol skip
strtol-four c3 c2 c1 c0 d3 d2 d1 d0 h3 h2 h1 h0 =
    rw (strtol, skip, h3.no_space, h3.no_minus, h3.no_plus, skip_0x-four c3 c2 c1 c0 d2 h2)
      (number-four (c3 ∷ c2 ∷ c1 ∷ c0 ∷ []) c3 c2 c1 c0 d3 d2 d1 d0 h3 h2 h1 h0)

-- After a tab.
strtol-two :
    (c1 c0 d1 d0 : ℕ)
    → HexChar c1 d1
    → HexChar c0 d0
    → strtol (9 ∷ c1 ∷ c0 ∷ []) ≡ (as_word false (d1 * 16 + d0), [])
unfolding strtol skip skip_0x
strtol-two c1 c0 d1 d0 h1 h0 =
    rw (strtol, skip, h1.no_space, h1.no_minus, h1.no_plus)
      (number-two (9 ∷ c1 ∷ c0 ∷ []) c1 c0 d1 d0 h1 h0)

pub strtol-print4 : (n : ℕ) → n < 2 ^ 16 → strtol (print4 n) ≡ (n, [])
strtol-print4 n l =
    let a = hex_char-HexChar (n / 4096) (omega arith) in
    let b = hex_char-HexChar ((n / 256) % 16) (omega arith) in
    let c = hex_char-HexChar ((n / 16) % 16) (omega arith) in
    let d = hex_char-HexChar (n % 16) (omega arith) in
    let v : ((n / 4096 * 16 + (n / 256) % 16) * 16 + (n / 16) % 16) * 16 + n % 16 ≡ n =
      omega arith in
    let w : as_word false n ≡ n = ground arith in
    strtol-four _ _ _ _ _ _ _ _ a b c d ∙ ap (λ m. (as_word false m, [])) v ∙ ap (λ m. (m, [])) w

pub strtol-print2 : (n : ℕ) → n < 2 ^ 8 → strtol (9 ∷ print2 n) ≡ (n, [])
strtol-print2 n l =
    let c = hex_char-HexChar (n / 16) (omega arith) in
    let d = hex_char-HexChar (n % 16) (omega arith) in
    let v : n / 16 * 16 + n % 16 ≡ n = omega arith in
    let w : as_word false n ≡ n = ground arith in
    strtol-two _ _ _ _ c d ∙ ap (λ m. (as_word false m, [])) v ∙ ap (λ m. (m, [])) w
