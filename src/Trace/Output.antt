-- ===== src/Trace/Output.antt =====
-- Memory, reads of it, and calls of printf. A format is as in the source, the PRI macros by name.
use Prim.Native.String.{String}
use libdrm.Base.{
  ◌==◌, if◌then◌else◌, ℕ, zero, suc, ◌+◌, ◌*◌, Option, none, some, List, [], ◌∷◌, ◌++◌,
}

-- A byte for each address that may be read.
abbrev pub Memory : Type 0
Memory = ℕ → Option ℕ

pub data Printf : Type 0 where
  printf : String → List ℕ → Printf

-- `none` is a read of memory that may not be read.
abbrev pub M : Type 0 → Type 0
M A = Memory → Option (A × List Printf)

infixl 5 ◌>>=◌ ◌>>◌
abbrev pub ◌>>=◌ : {A B : Type 0} → M A → (A → M B) → M B
◌>>=◌ p f m = elim (p m) [
  | none ↦ none
  | some (a, out) ↦ elim (f a m) [ none ↦ none | some (b, out') ↦ some (b, out ++ out') ]
]

abbrev pub ◌>>◌ : {B : Type 0} → M (Unit {0}) → M B → M B
p >> q = p >>= λ _. q

abbrev pub nothing : M (Unit {0})
nothing m = some (tt, [])

abbrev pub say : String → M (Unit {0})
say format m = some (tt, printf format [] ∷ [])

abbrev pub print : String → List ℕ → M (Unit {0})
print format args m = some (tt, printf format args ∷ [])

-- A little-endian number of `n` bytes.
unfoldable pub load : ℕ → ℕ → M ℕ
load zero a m = some (0, [])
load (suc n) a m = elim (m a) [
  | none ↦ none
  | some byte ↦ elim (load n (a + 1) m) [
    | none ↦ none
    | some (rest, out) ↦ some (byte + 256 * rest, [])
  ]
]

abbrev pub u32 : ℕ → M ℕ
u32 a = load 4 a

abbrev pub u64 : ℕ → M ℕ
u64 a = load 8 a

-- A member of a struct that is printed by itself: its offset, its bytes and the format.
pub record Field : Type 0 where
  pub offset : ℕ
  pub bytes : ℕ
  pub format : String

abbrev pub f32 : ℕ → String → Field
f32 offset format = record { offset = offset; bytes = 4; format = format }

abbrev pub f64 : ℕ → String → Field
f64 offset format = record { offset = offset; bytes = 8; format = format }

unfoldable pub write_fields : ℕ → List Field → M (Unit {0})
unfolding load
write_fields base [] = nothing
write_fields base (f ∷ fs) = do
  v ← load f.bytes (base + f.offset)
  print f.format (v ∷ [])
  write_fields base fs

-- `switch (v)` with a text for some values.
unfoldable pub choose : List (ℕ × String) → M (Unit {0}) → ℕ → M (Unit {0})
choose [] other v = other
choose ((k, s) ∷ texts) other v = if v == k then say s else choose texts other v

-- The values at offsets of a struct, each with its bytes, and one printf of them.
unfoldable pub values : ℕ → List (ℕ × ℕ) → M (List ℕ)
unfolding load
values base [] = λ m. some ([], [])
values base ((offset, bytes) ∷ rest) = do
  v ← load bytes (base + offset)
  vs ← values base rest
  λ m. some (v ∷ vs, [])

unfoldable pub show : ℕ → String → List (ℕ × ℕ) → M (Unit {0})
unfolding values
show base format offsets = do vs ← values base offsets; print format vs
