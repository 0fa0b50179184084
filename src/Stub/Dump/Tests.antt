-- ===== src/Stub/Dump/Tests.antt =====
-- A buffer with three packets.
use Prim.Native.String.{String}
use libdrm.Base.{
  ℕ, ◌≡◌, refl, true, Option, none, some, [], ◌∷◌, arith, if◌then◌else◌, ◌==◌, ◌+◌, get_or, map,
  List,
}
use libdrm.Trace.Output.{Memory, printf}
use libdrm.Stub.Dump.{dump_ib}
use libdrm.Stub.Dump.Lines.{Packet, nop, copy_data, other, all_words, all_lines, lines}
use libdrm.Stub.Dump.Names.{reg_text_inj}
use libdrm.Stub.Regs.{radeon_get_reg_name, find_in, find_name, reg_tables}
use libdrm.Stub.Dump.Walk.{dump_ib-lines}

-- SPI_SHADER_PGM_LO_PS.
abbrev one_name : ℕ → Option String
one_name reg = if reg == 0xb020 then some "SPI_SHADER_PGM_LO_PS" else none

-- SET_SH_REG with two values, a copy of an immediate value to memory, and a NOP.
abbrev packets : List Packet
packets = other 0x76 0 8 (0x1234 ∷ 0 ∷ []) ∷ copy_data 0 0x505 7 0 0x8000 1 [] ∷ nop ∷ []

abbrev buffer : Memory
unfolding all_words
buffer i = get_or (map (λ w. some w) (all_words packets)) i none

printed :
    all_lines one_name packets
    ≡ printf "PKT3(" []
      ∷ printf "SET_SH_REG" []
      ∷ printf ", %d)\n" (2 ∷ [])
      ∷ printf "  reg: " []
      ∷ printf "SPI_SHADER_PGM_LO_PS" []
      ∷ printf "\n" []
      ∷ printf "  0x%08PRIx32\n" (0x1234 ∷ [])
      ∷ printf "  0x%08PRIx32\n" (0 ∷ [])
      ∷ printf "PKT3(" []
      ∷ printf "COPY_DATA" []
      ∷ printf ", %d)\n" (4 ∷ [])
      ∷ printf "  src: " []
      ∷ printf "IMM" []
      ∷ printf "\n" []
      ∷ printf "  dst: " []
      ∷ printf "DST_MEM(0x%08PRIx64)" (0x1_0000_8000 ∷ [])
      ∷ printf "\n" []
      ∷ printf "PKT2(NOP)\n" []
      ∷ []
unfolding all_lines lines
printed = refl

dump_ib-lines_example : dump_ib one_name 4 0 11 buffer ≡ some (true, all_lines one_name packets)
unfolding all_words
dump_ib-lines_example =
    dump_ib-lines one_name buffer 4 0 11 packets
      ((omega arith, omega arith, omega arith, omega arith), ((omega arith, omega arith), (tt, tt)))
      (refl, (refl, (refl, (refl, (refl, (refl, (refl, (refl, (refl, (refl, (refl, tt)))))))))))
      refl (omega arith)

sh_reg : radeon_get_reg_name 0xb020 ≡ some "SPI_SHADER_PGM_LO_PS"
unfolding radeon_get_reg_name find_in find_name reg_tables
sh_reg = refl

-- SQ_WAVE_MODE, the first of them.
reg_text_inj_example : ◌≡◌ {A = ℕ} 0x44 (0x40 + 4)
reg_text_inj_example = reg_text_inj 0x44 (0x40 + 4) refl
