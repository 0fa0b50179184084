-- ===== src/Trace/Tests.antt =====
-- Traces of a command, of flags and of two answers, in a small memory.
use libdrm.Base.{
  ℕ, ◌+◌, ◌^◌, false, ◌≡◌, refl, none, some, [], ◌∷◌, arith, if◌then◌else◌, ltb, ◌==◌,
}
use libdrm.Trace.Output.{Memory, printf, load}
use libdrm.Trace.Flags.{domains, write_flags, write_bits, write_name, flag_names, mask_of}
use libdrm.Trace.Flags.Laws.{write_flags_inj}
use libdrm.Trace.Post.{write_info_answer, runs_on}
use libdrm.Trace.Reads.{Succeeds}
use libdrm.Trace.Answer.{printed_bytes, write_info_answer-Succeeds, write_info_answer_overread}
use libdrm.Trace.Drm.{write_cmd}

-- `size` bytes of which the first is 64 and the others are 0.
abbrev memory : ℕ → Memory
memory size a = if ltb a size then some (if a == 0 then 64 else 0) else none

-- GTT and VRAM.
two_domains :
    write_flags domains 6 (memory 0)
    ≡ some (tt, printf "GTT" [] ∷ printf ", " [] ∷ printf "VRAM" [] ∷ [])
unfolding write_flags write_bits write_name flag_names mask_of
two_domains = refl

-- A bit above the 32nd shows as the last one, since `1 << 31` is negative.
high_domain : write_flags domains (2 ^ 40) (memory 0) ≡ some (tt, printf "?(%u)" (31 ∷ []) ∷ [])
unfolding write_flags write_bits write_name flag_names mask_of
high_domain = refl

gem_close :
    write_cmd 0x09 0 false (memory 8)
    ≡ some (tt, printf "GEM_CLOSE" [] ∷ printf "(%PRIu32)" (64 ∷ []) ∷ [])
unfolding write_cmd
gem_close = refl

write_flags_inj_example : ◌≡◌ {A = ℕ} 6 (2 + 4)
write_flags_inj_example =
    write_flags_inj domains 6 (2 + 4) (memory 0) (omega arith) (omega arith) refl

-- VRAM_GTT, with the buffer of 24 bytes at address 64.
write_info_answer-Succeeds_example : Succeeds (write_info_answer 0 0x14) (memory 88)
unfolding printed_bytes load
write_info_answer-Succeeds_example =
    write_info_answer-Succeeds (memory 88) 0 64 0 refl refl 0x14 (λ i l. (0, ground arith))

-- VRAM_USAGE, with the buffer of 8 bytes there.
write_info_answer_overread_example : write_info_answer 0 0x10 (memory 72) ≡ none
unfolding load runs_on
write_info_answer_overread_example = write_info_answer_overread (memory 72) 0 64 0x10 refl refl refl
