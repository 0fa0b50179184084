-- ===== src/Base/Words.antt =====
-- uint32_t and uint64_t arithmetic on native numbers, with the wrap-around written out.
use Prim.Native.Nat.{ℕ, ◌+◌, ◌-◌, ◌%◌, ◌^◌}
use libdrm.Base.Tests.{ltb, if◌then◌else◌}

abbrev pub add64 : ℕ → ℕ → ℕ
add64 a b = (a + b) % 2 ^ 64

abbrev pub sub64 : ℕ → ℕ → ℕ
sub64 a b = (a + 2 ^ 64 - b) % 2 ^ 64

abbrev pub add32 : ℕ → ℕ → ℕ
add32 a b = (a + b) % 2 ^ 32

abbrev pub sub32 : ℕ → ℕ → ℕ
sub32 a b = (a + 2 ^ 32 - b) % 2 ^ 32

-- MIN2 and MAX2 of util_math.h.
abbrev pub min2 : ℕ → ℕ → ℕ
min2 a b = if ltb a b then a else b

abbrev pub max2 : ℕ → ℕ → ℕ
max2 a b = if ltb b a then a else b
