-- ===== src/Stub/Dump/Lines.antt =====
-- An indirect buffer as a list of packets: its words, and what is printed of it.
use Prim.Native.String.{String}
use libdrm.Base.{
  ℕ, ◌+◌, ◌*◌, ◌/◌, ◌%◌, ◌^◌, ◌<◌, ◌≢◌, ◌==◌, Option, List, [], ◌∷◌, ◌++◌, map, if◌then◌else◌,
  length,
}
use libdrm.Trace.Output.{Printf, printf}
use libdrm.Stub.Dump.{
  op_text, config_reg_offset, context_reg_offset, sh_reg_offset, reg_text, reg_at,
}

-- A packet with the byte of its header that is not looked at, and its words, of which there is at
-- least one; COPY_DATA has at least five.
pub data Packet : Type 0 where
  nop : Packet
  copy_data : (low w0 w1 w2 w3 w4 : ℕ) → List ℕ → Packet
  other : (op low first : ℕ) → List ℕ → Packet

abbrev pub header : (op low count : ℕ) → ℕ
header op low count = 3 * 2 ^ 30 + count * 2 ^ 16 + op * 2 ^ 8 + low

abbrev pub words_of : Packet → List ℕ
words_of nop = 0x8000_0000 ∷ []
words_of (copy_data low w0 w1 w2 w3 w4 rest) =
    header 0x40 low (4 + length rest) ∷ w0 ∷ w1 ∷ w2 ∷ w3 ∷ w4 ∷ rest
words_of (other op low first rest) = header op low (length rest) ∷ first ∷ rest

abbrev pub IsPacket : Packet → Type 0
IsPacket nop = Unit {0}
IsPacket (copy_data low w0 w1 w2 w3 w4 rest) = (low < 0x100) × (4 + length rest < 0x4000)
IsPacket (other op low first rest) =
    (op < 0x100) × (op ≢ 0x40) × (low < 0x100) × (length rest < 0x4000)

abbrev pub ArePackets : List Packet → Type 0
ArePackets [] = Unit {0}
ArePackets (p ∷ ps) = IsPacket p × ArePackets ps

unfoldable pub all_words : List Packet → List ℕ
all_words [] = []
all_words (p ∷ ps) = words_of p ++ all_words ps

abbrev pub value_line : ℕ → Printf
value_line w = printf "  0x%08PRIx32\n" (w ∷ [])

abbrev pub header_lines : (op count : ℕ) → List Printf → List Printf
header_lines op count lines = printf "PKT3(" [] ∷ op_text op ∷ printf ", %d)\n" (count ∷ []) ∷ lines

module _ (reg_name : ℕ → Option String) where
  abbrev pub reg_lines : (offset first : ℕ) → List ℕ → List Printf
  reg_lines offset first rest =
      printf "  reg: " []
      ∷ reg_text reg_name (reg_at reg_name offset first)
      ∷ printf "\n" []
      ∷ map value_line rest

  abbrev pub operand_lines : ℕ → List Printf
  operand_lines r = printf "REG(" [] ∷ reg_text reg_name (r * 4 % 2 ^ 32) ∷ printf ")" [] ∷ []

  abbrev pub src_lines : (kind w1 w2 w3 : ℕ) → List Printf
  src_lines kind w1 w2 w3 =
      if kind == 0
      then operand_lines w3
      else if kind == 1
      then printf "SRC_MEM(0x%08PRIx64)" ((w1 + 2 ^ 32 * w2) ∷ []) ∷ []
      else if kind == 2
      then printf "TC_L2" [] ∷ []
      else if kind == 3
      then printf "GDS" [] ∷ []
      else if kind == 4
      then printf "PERF" [] ∷ []
      else if kind == 5
      then printf "IMM" [] ∷ []
      else if kind == 9
      then printf "TIMESTAMP" [] ∷ []
      else printf "?(%u)" (kind ∷ []) ∷ []

  abbrev pub dst_lines : (kind w3 w4 : ℕ) → List Printf
  dst_lines kind w3 w4 =
      if kind == 0
      then operand_lines w3
      else if kind == 1
      then printf "DST_MEM_GRBM" [] ∷ []
      else if kind == 2
      then printf "TC_L2" [] ∷ []
      else if kind == 3
      then printf "GDS" [] ∷ []
      else if kind == 4
      then printf "PERF" [] ∷ []
      else if kind == 5
      then printf "DST_MEM(0x%08PRIx64)" ((w3 + 2 ^ 32 * w4) ∷ []) ∷ []
      else printf "?(%u)" (kind ∷ []) ∷ []

  abbrev pub body_lines : (op first : ℕ) → List ℕ → List Printf
  body_lines op first rest =
      if op == 0x68
      then reg_lines config_reg_offset first rest
      else if op == 0x69
      then reg_lines context_reg_offset first rest
      else if op == 0x76
      then reg_lines sh_reg_offset first rest
      else value_line first ∷ map value_line rest

  unfoldable pub lines : Packet → List Printf
  lines nop = printf "PKT2(NOP)\n" [] ∷ []
  lines (copy_data low w0 w1 w2 w3 w4 rest) = header_lines 0x40 (4 + length rest) (
      printf "  src: " []
      ∷ (src_lines (w0 % 0x10) w1 w2 w3
          ++ printf "\n" []
            ∷ printf "  dst: " []
            ∷ (dst_lines (w0 / 2 ^ 8 % 0x10) w3 w4 ++ printf "\n" [] ∷ [])))
  lines (other op low first rest) = header_lines op (length rest) (body_lines op first rest)

  unfoldable pub all_lines : List Packet → List Printf
  all_lines [] = []
  all_lines (p ∷ ps) = lines p ++ all_lines ps
