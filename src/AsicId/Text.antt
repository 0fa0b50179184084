-- ===== src/AsicId/Text.antt =====
-- What amdgpu/amdgpu_asic_id.c uses of the C library on texts: isblank, isspace, strtok_r and strtol.
use libdrm.Base.{
  ℕ, ◌+◌, ◌-◌, ◌*◌, ◌%◌, ◌^◌, ◌==◌, Bool, true, false, ◌&&◌, ◌||◌, Option, none, some, List, [],
  ◌∷◌, if◌then◌else◌, ltb, leb, sub32,
}

-- ' ' and '\t'.
abbrev pub isblank : ℕ → Bool
isblank c = (c == 32) || (c == 9)

abbrev pub isspace : ℕ → Bool
isspace c = (c == 32) || (leb 9 c && leb c 13)

unfoldable pub skip : (ℕ → Bool) → List ℕ → List ℕ
skip p [] = []
skip p (c ∷ s) = let rest = skip p s in if p c then rest else c ∷ s

abbrev pub is_comma : ℕ → Bool
is_comma c = c == 44

-- The text before the first comma, and that after it.
unfoldable pub until_comma : List ℕ → List ℕ × List ℕ
until_comma [] = ([], [])
until_comma (c ∷ s) =
    let (token, rest) = until_comma s in if is_comma c then ([], s) else (c ∷ token, rest)

-- strtok_r with ",": the token, and what `saveptr` keeps.
unfoldable pub strtok : List ℕ → Option (List ℕ × List ℕ)
unfolding skip until_comma
strtok s = elim (skip is_comma s) [ [] ↦ none | c ∷ t ↦ some (until_comma (c ∷ t)) ]

unfoldable pub hex_digit : ℕ → Option ℕ
hex_digit c =
    if leb 48 c && leb c 57
    then some (c - 48)
    else if leb 65 c && leb c 70
    then some (c - 55)
    else if leb 97 c && leb c 102
    then some (c - 87)
    else none

-- The number that the first digits make after those in `acc`, and the text after them.
unfoldable pub digits : (acc : ℕ) → List ℕ → ℕ × List ℕ
unfolding hex_digit
digits acc [] = (acc, [])
digits acc (c ∷ s) = elim (hex_digit c) [ none ↦ (acc, c ∷ s) | some d ↦ digits (acc * 16 + d) s ]

abbrev pub is_hex : ℕ → Bool
is_hex c = elim (hex_digit c) [ none ↦ false | some d ↦ true ]

-- "0x" before a digit.
unfoldable pub skip_0x : List ℕ → List ℕ
unfolding hex_digit
skip_0x [] = []
skip_0x (a ∷ []) = a ∷ []
skip_0x (a ∷ b ∷ []) = a ∷ b ∷ []
skip_0x (a ∷ b ∷ c ∷ s) =
    if (a == 48) && (((b == 120) || (b == 88)) && is_hex c) then c ∷ s else a ∷ b ∷ c ∷ s

-- The low 32 bits of a `long`: of LONG_MAX for a number that is too great, of LONG_MIN for one that is
-- too small.
abbrev pub as_word : (negative : Bool) → ℕ → ℕ
as_word false n = if ltb n (2 ^ 63) then n % 2 ^ 32 else 0xffff_ffff
as_word true n = if leb n (2 ^ 63) then sub32 0 (n % 2 ^ 32) else 0

-- The digits of `whole` start at `s`; without a digit the end is the start.
unfoldable pub number : (negative : Bool) (whole s : List ℕ) → ℕ × List ℕ
unfolding digits hex_digit
number negative whole [] = (0, whole)
number negative whole (c ∷ s) =
    let (n, rest) = digits 0 (c ∷ s) in if is_hex c then (as_word negative n, rest) else (0, whole)

-- strtol in base 16, as a uint32_t: the value, and the text at `endptr`.
unfoldable pub strtol : List ℕ → ℕ × List ℕ
unfolding skip skip_0x number
strtol whole = elim (skip isspace whole) [
  | [] ↦ (0, whole)
  | c ∷ s ↦
      if c == 45
      then number true whole (skip_0x s)
      else if c == 43
      then number false whole (skip_0x s)
      else number false whole (skip_0x (c ∷ s))
]
