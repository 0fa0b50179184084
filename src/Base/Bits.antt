-- ===== src/Base/Bits.antt =====
-- ALIGN of util_math.h, and the laws of `&` that it and the tests of flags rest on.
use Prim.Native.Nat.{
  ℕ, zero, suc, ◌+◌, ◌-◌, ◌*◌, ◌/◌, ◌%◌, ◌^◌, ◌≤◌, ◌<◌, min, bit_and, digits, bit_and-bitwise,
}
use mathlib.Core.Path.{◌≡◌, refl, ap, ◌∙◌, sym}
use mathlib.Core.Logic.{◌≢◌}
use native.Mathlib.Nat.{div-div-eq-div-mul, pow-suc, pow-le-pow_right, mul-mod_left}
use native.Mathlib.Omega.{arith}
use libdrm.Base.Tests.{◌==◌}
use libdrm.Base.Words.{add32, add64, sub32}

-- What `bit_and` stands for, with `k` rounds of fuel: the digits in base 2, combined by `min`.
abbrev rounds : ℕ → ℕ → ℕ → ℕ
rounds k x y = digits (λ _. 0) min k x y

rounds_none : (k y : ℕ) → rounds k 0 y ≡ 0
rounds_none zero y = refl
rounds_none (suc k) y = refl

-- Any two amounts of fuel that reach the number's length give the same.
rounds_enough : (x k j y : ℕ) → x ≤ k → x ≤ j → rounds k x y ≡ rounds j x y
rounds_enough zero k j y l m = rounds_none k y ∙ sym (rounds_none j y)
rounds_enough (suc x) zero j y l m = elim l [ ]
rounds_enough (suc x) (suc k) zero y l m = elim m [ ]
rounds_enough (suc x) (suc k) (suc j) y l m =
    let half = rounds_enough (suc x / 2) k j (y / 2) (omega arith) (omega arith) in omega arith

none-bit_and : (y : ℕ) → bit_and 0 y ≡ 0
none-bit_and y = bit_and-bitwise 0 y ∙ rounds_none 0 y

-- `&` from the last bits and the rest.
bit_and-last : (x y : ℕ) → bit_and x y ≡ 2 * bit_and (x / 2) (y / 2) + min (x % 2) (y % 2)
bit_and-last zero y = let here = none-bit_and y in omega (arith, none-bit_and (y / 2))
bit_and-last (suc x) y =
    let whole = bit_and-bitwise (suc x) y in
    let half = bit_and-bitwise (suc x / 2) (y / 2) in
    let fuel = rounds_enough (suc x / 2) x (suc x / 2) (y / 2) (omega arith) (omega arith) in
    omega arith

pub pow_pos : (k : ℕ) → 0 < 2 ^ k
pow_pos zero = omega arith
pow_pos (suc k) = omega (arith, pow-suc 2 k, pow_pos k)

bit_and-ones : (w x : ℕ) → x < 2 ^ w → bit_and x (2 ^ w - 1) ≡ x
bit_and-ones zero x h = let e : x ≡ 0 = omega arith in rw (e, none-bit_and 0)
bit_and-ones (suc w) x h =
    let p = pow-suc 2 w in
    let half : (2 ^ suc w - 1) / 2 ≡ 2 ^ w - 1 = omega arith in
    let ih : bit_and (x / 2) ((2 ^ suc w - 1) / 2) ≡ x / 2 =
      rw half (bit_and-ones w (x / 2) (omega arith)) in
    omega (arith, pow_pos w, bit_and-last x (2 ^ suc w - 1))

-- `x & (2^w - 2^k)` for a `w`-bit `x` is the multiple of `2^k` at or just below `x`.
abbrev HighBits : ℕ → ℕ → ℕ → Type 0
HighBits r b x = (q : ℕ) × (r ≡ q * b) × (r ≤ x) × (x < r + b)

bit_and-HighBits : (k w x : ℕ) → k ≤ w → x < 2 ^ w → HighBits (bit_and x (2 ^ w - 2 ^ k)) (2 ^ k) x
bit_and-HighBits zero w x h l =
    let e = bit_and-ones w x l in (x, omega arith, omega arith, omega arith)
bit_and-HighBits (suc k) zero x h l = absurd (omega arith)
bit_and-HighBits (suc k) (suc w) x h l =
    let p = pow-suc 2 w in
    let p' = pow-suc 2 k in
    let half : (2 ^ suc w - 2 ^ suc k) / 2 ≡ 2 ^ w - 2 ^ k = omega arith in
    let step : bit_and x (2 ^ suc w - 2 ^ suc k) ≡ bit_and (x / 2) (2 ^ w - 2 ^ k) * 2 =
      rw (← half) (omega (arith, bit_and-last x (2 ^ suc w - 2 ^ suc k))) in
    let ih = bit_and-HighBits k w (x / 2) (omega arith) (omega arith) in
    let double : ih.0 * 2 ^ suc k ≡ ih.0 * 2 ^ k * 2 = omega (arith, ap (λ (t : ℕ). ih.0 * t) p') in
    (ih.0, omega arith, omega arith, omega arith)

-- A power of two that a uint32_t can hold.
pub record IsPow2 (a : ℕ) : Type 0 where
  pub log : ℕ
  pub log_lt : log < 32
  pub is_pow : a ≡ 2 ^ log

-- ALIGN on uint64_t values, with a uint32_t alignment: the mask is taken in 32 bits.
unfoldable pub align64 : ℕ → ℕ → ℕ
align64 value alignment =
    let mask = sub32 alignment 1 in bit_and (add64 value mask) (2 ^ 64 - 1 - mask)

-- ALIGN on uint32_t values.
unfoldable pub align32 : ℕ → ℕ → ℕ
align32 value alignment =
    let mask = sub32 alignment 1 in bit_and (add32 value mask) (2 ^ 32 - 1 - mask)

-- The least multiple of the alignment at or above the value.
abbrev pub RoundsUp : ℕ → ℕ → ℕ → Type 0
RoundsUp r a value = (r % a ≡ 0) × (value ≤ r) × (r < value + a)

pub IsPow2-bounds : {a : ℕ} → IsPow2 a → (0 < a) × (a < 2 ^ 32)
IsPow2-bounds p = omega (
  arith,
  pow_pos p.log,
  pow-le-pow_right {n = 2} (omega arith) {i = p.log} {j = 31} (omega arith),
)

HighBits-mod : (r b x : ℕ) → HighBits r b x → r % b ≡ 0
HighBits-mod r b x (q, e, _, _) = rw e (mul-mod_left q b)

-- The common part of the two widths.
mask-RoundsUp :
    (w : ℕ) {a : ℕ} (value : ℕ)
    → (p : IsPow2 a) → p.log ≤ w
    → value + a ≤ 2 ^ w
    → RoundsUp (bit_and (value + a - 1) (2 ^ w - a)) a value
mask-RoundsUp w {a} value p l h =
    let b = IsPow2-bounds p in
    let high : HighBits (bit_and (value + a - 1) (2 ^ w - a)) a (value + a - 1) =
      rw p.is_pow
        (bit_and-HighBits p.log w (value + 2 ^ p.log - 1) l (rw (← p.is_pow) (omega arith))) in
    (HighBits-mod _ _ _ high, omega arith, omega arith)

pub align64-RoundsUp :
    {a : ℕ} (value : ℕ) → IsPow2 a → value + a ≤ 2 ^ 64 → RoundsUp (align64 value a) a value
unfolding align64
align64-RoundsUp {a} value p h =
    let b = IsPow2-bounds p in
    let mask : sub32 a 1 ≡ a - 1 = omega arith in
    let sum : add64 value (a - 1) ≡ value + a - 1 = omega arith in
    let high_mask : 2 ^ 64 - 1 - (a - 1) ≡ 2 ^ 64 - a = omega arith in
    rw (mask, sum, high_mask) (mask-RoundsUp 64 value p (omega arith) h)

pub align32-RoundsUp :
    {a : ℕ} (value : ℕ) → IsPow2 a → value + a ≤ 2 ^ 32 → RoundsUp (align32 value a) a value
unfolding align32
align32-RoundsUp {a} value p h =
    let b = IsPow2-bounds p in
    let mask : sub32 a 1 ≡ a - 1 = omega arith in
    let sum : add32 value (a - 1) ≡ value + a - 1 = omega arith in
    let high_mask : 2 ^ 32 - 1 - (a - 1) ≡ 2 ^ 32 - a = omega arith in
    rw (mask, sum, high_mask) (mask-RoundsUp 32 value p (omega arith) h)

-- Two multiples less than one alignment apart are equal.
pub RoundsUp-self : (r a value : ℕ) → RoundsUp r a value → value % a ≡ 0 → r ≡ value
RoundsUp-self r a value (m, l, u) h = grind arith

pub add-mod-waste : (x a : ℕ) → 0 < a → x % a ≢ 0 → (x + (a - x % a)) % a ≡ 0
add-mod-waste x a p h = grind arith

pub sub-mod_self : (x a : ℕ) → 0 < a → (x - x % a) % a ≡ 0
sub-mod_self x a p = grind arith

-- The multiple found by adding the waste is the least above `x`, that by dropping the rest the
-- greatest below it.
pub waste-least : (v x a : ℕ) → 0 < a → v % a ≡ 0 → x ≤ v → x % a ≢ 0 → x + (a - x % a) ≤ v
waste-least v x a p m l h = grind arith

pub rest-greatest : (v x a : ℕ) → 0 < a → v % a ≡ 0 → v ≤ x → v ≤ x - x % a
rest-greatest v x a p m l = grind arith

bit_and-none : (bound x : ℕ) → x ≤ bound → bit_and x 0 ≡ 0
bit_and-none bound zero l = none-bit_and 0
bit_and-none zero (suc x) l = elim l [ ]
bit_and-none (suc bound) (suc x) l =
    let half = bit_and-none bound (suc x / 2) (omega arith) in omega (arith, bit_and-last (suc x) 0)

last_bit : (x : ℕ) → bit_and x 1 ≡ x % 2
last_bit x =
    let rest = bit_and-none (x / 2) (x / 2) (omega arith) in omega (arith, bit_and-last x 1)

second_bit : (a : ℕ) → bit_and a 2 ≡ (a / 2) % 2 * 2
second_bit a = omega (arith, bit_and-last a 2, last_bit (a / 2))

-- Clearing bit 1 of a uint64_t clears that bit and keeps bit 0.
pub clear_bit_one :
    (x : ℕ)
    → (bit_and (bit_and x (2 ^ 64 - 1 - 2)) 2 ≡ 0)
      × (bit_and (bit_and x (2 ^ 64 - 1 - 2)) 1 ≡ bit_and x 1)
clear_bit_one x =
    let s = bit_and-last x (2 ^ 64 - 1 - 2) in
    let t = bit_and-last (x / 2) (2 ^ 63 - 2) in
    (
      omega (arith, second_bit (bit_and x (2 ^ 64 - 1 - 2))),
      omega (arith, last_bit (bit_and x (2 ^ 64 - 1 - 2)), last_bit x),
    )

half_shift : (i x : ℕ) → x / 2 / 2 ^ i ≡ x / 2 ^ suc i
half_shift i x = div-div-eq-div-mul x 2 (2 ^ i) ∙ ap (λ (t : ℕ). x / t) (omega (arith, pow-suc 2 i))

-- The bit that the loops over a word test.
pub bit_and-pow : (i x : ℕ) → bit_and x (2 ^ i) ≡ x / 2 ^ i % 2 * 2 ^ i
bit_and-pow zero x = omega (arith, last_bit x)
bit_and-pow (suc i) x =
    let p = pow-suc 2 i in
    let half : 2 ^ suc i / 2 ≡ 2 ^ i = omega arith in
    let ih : bit_and (x / 2) (2 ^ suc i / 2) ≡ x / 2 / 2 ^ i % 2 * 2 ^ i =
      rw half (bit_and-pow i (x / 2)) in
    let bit : ℕ = x / 2 ^ suc i % 2 in
    let low : bit_and (x / 2) (2 ^ suc i / 2) ≡ bit * 2 ^ i =
      ih ∙ ap (λ (t : ℕ). t % 2 * 2 ^ i) (half_shift i x) in
    let double : bit * 2 ^ suc i ≡ bit * 2 ^ i * 2 = omega (arith, ap (λ (t : ℕ). bit * t) p) in
    omega (arith, bit_and-last x (2 ^ suc i))

-- A mask of the bits from 31 on reads bit 31 of a 32-bit word.
pub bit_and_sign :
    (x : ℕ) → x < 2 ^ 32 → (bit_and x (2 ^ 64 - 2 ^ 31) == 0) ≡ (bit_and x (2 ^ 31) == 0)
bit_and_sign x l =
    let h = bit_and-HighBits 31 64 x (omega arith) (omega arith) in
    let b = bit_and-pow 31 x in ground (arith, h)

-- Words with the same bits are equal.
pub bits-ext :
    (n x y : ℕ) → x < 2 ^ n → y < 2 ^ n → ((i : ℕ) → i < n → x / 2 ^ i % 2 ≡ y / 2 ^ i % 2) → x ≡ y
bits-ext zero x y l m h = omega arith
bits-ext (suc n) x y l m h =
    let p = pow-suc 2 n in
    let ih : x / 2 ≡ y / 2 = bits-ext n (x / 2) (y / 2) (omega arith) (omega arith) (λ i k.
      ap (λ (t : ℕ). t % 2) (half_shift i x)
      ∙ h (suc i) (omega arith)
      ∙ ap (λ (t : ℕ). t % 2) (sym (half_shift i y))) in
    omega (arith, h 0 (omega arith))
