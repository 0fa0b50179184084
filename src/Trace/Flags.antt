-- ===== src/Trace/Flags.antt =====
-- The loops that print the flags of a word by name, bit by bit.
pub mod Laws
use Prim.Native.String.{String}
use text.Mathlib.Text.{◌==◌ as str_eq}
use libdrm.Base.{
  ℕ, zero, suc, ◌+◌, ◌-◌, ◌^◌, ◌==◌, bit_and, Bool, true, false, ◌&&◌, not, some, List, [], ◌∷◌,
  ◌++◌, if◌then◌else◌,
}
use libdrm.Trace.Output.{Printf, printf, M}

-- `switch (i)` with a name for some of the bits.
abbrev pub Names : Type 0
Names = List (ℕ × String)

unfoldable pub write_name : Names → ℕ → Printf
write_name [] i = printf "?(%u)" (i ∷ [])
write_name ((j, s) ∷ names) i = if i == j then printf s [] else write_name names i

abbrev pub comma : Bool → List Printf → List Printf
comma true out = out
comma false out = printf ", " [] ∷ out

-- The loop, with what `1 << i` is as an operand, the rounds left, the next bit, and `first`.
unfoldable pub write_bits : (ℕ → ℕ) → Names → ℕ → ℕ → Bool → ℕ → List Printf
unfolding write_name
write_bits mask names zero i first flags = []
write_bits mask names (suc n) i first flags = elim (bit_and flags (mask i) == 0) [
  | true ↦ write_bits mask names n (i + 1) first flags
  | false ↦ comma first (write_name names i ∷ write_bits mask names n (i + 1) false flags)
]

-- The words of flags that are printed so.
pub data FlagWord : Type 0 where
  domains domain_flags create_flags to_fd_flags from_fd_flags wait_flags : FlagWord

unfoldable pub flag_names : FlagWord → Names
flag_names domains =
    (0, "CPU") ∷ (1, "GTT") ∷ (2, "VRAM") ∷ (3, "GDS") ∷ (4, "GWS") ∷ (5, "OA") ∷ []
flag_names domain_flags =
    (0, "CPU_ACCESS_REQUIRED")
    ∷ (1, "NO_CPU_ACCESS")
    ∷ (2, "CPU_GTT_USWC")
    ∷ (3, "VRAM_CLEARED")
    ∷ (5, "VRAM_CONTIGUOUS")
    ∷ (6, "VM_ALWAYS_VALID")
    ∷ (7, "EXPLICIT_SYNC")
    ∷ (8, "CP_MQD_GFX9")
    ∷ (9, "VRAM_WIPE_ON_RELEASE")
    ∷ (10, "CREATE_ENCRYPTED")
    ∷ (11, "CREATE_PREEMPTIBLE")
    ∷ []
flag_names create_flags = (0, "SIGNALED") ∷ []
flag_names to_fd_flags = (0, "EXPORT_SYNC_FILE") ∷ []
flag_names from_fd_flags = (0, "IMPORT_SYNC_FILE") ∷ []
flag_names wait_flags = (0, "ALL") ∷ (1, "FOR_SUBMIT") ∷ (2, "AVAILABLE") ∷ []

-- The first two words have 64 bits, and `1 << 31` is negative: its sign is extended.
unfoldable pub mask_of : FlagWord → ℕ → ℕ
mask_of domains i = if i == 31 then 2 ^ 64 - 2 ^ 31 else 2 ^ i
mask_of domain_flags i = if i == 31 then 2 ^ 64 - 2 ^ 31 else 2 ^ i
mask_of word i = 2 ^ i

-- The whole of such a loop.
unfoldable pub write_flags : FlagWord → ℕ → M (Unit {0})
unfolding write_bits flag_names mask_of
write_flags word flags m = some (tt, write_bits (mask_of word) (flag_names word) 32 0 true flags)
