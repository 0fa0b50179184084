-- ===== src/Stub/Dump.antt =====
-- The dump of an indirect buffer, `DumpIb` of stub/libdrmStub.cpp. Memory is a partial map of words, so
-- that reading past the buffer is a fault, and what is printed is a list of calls of printf.
pub mod Lines
pub mod Walk
pub mod Names
mod Tests
use Prim.Native.String.{String}
use libdrm.Base.{
  ℕ, zero, suc, ◌+◌, ◌*◌, ◌/◌, ◌%◌, ◌^◌, ◌==◌, Bool, true, false, Option, none, some, List, [], ◌∷◌,
  if◌then◌else◌,
}
use libdrm.Trace.Output.{Printf, printf, Memory, M, ◌>>=◌, ◌>>◌, nothing, say, print}

-- `*adr`.
unfoldable pub word : ℕ → M ℕ
word adr m = elim (m adr) [ none ↦ none | some w ↦ some (w, []) ]

-- PKT_TYPE_G, PKT_COUNT_G and PKT3_IT_OPCODE_G.
unfoldable pub pkt_type : ℕ → ℕ
pkt_type x = x / 2 ^ 30 % 4

unfoldable pub pkt_count : ℕ → ℕ
pkt_count x = x / 2 ^ 16 % 0x4000

unfoldable pub pkt3_it_opcode : ℕ → ℕ
pkt3_it_opcode x = x / 2 ^ 8 % 0x100

abbrev pub emit : Printf → M (Unit {0})
emit p m = some (tt, p ∷ [])

abbrev pub return : Bool → M Bool
return b m = some (b, [])

abbrev pub op_text : ℕ → Printf
op_text op =
    if op == 0x12
    then printf "CLEAR_STATE" []
    else if op == 0x15
    then printf "DISPATCH_DIRECT" []
    else if op == 0x27
    then printf "DRAW_INDEX_2" []
    else if op == 0x28
    then printf "CONTEXT_CONTROL" []
    else if op == 0x2a
    then printf "INDEX_TYPE" []
    else if op == 0x2d
    then printf "DRAW_INDEX_AUTO" []
    else if op == 0x2f
    then printf "NUM_INSTANCES" []
    else if op == 0x37
    then printf "WRITE_DATA" []
    else if op == 0x40
    then printf "COPY_DATA" []
    else if op == 0x41
    then printf "CP_DMA" []
    else if op == 0x42
    then printf "PFP_SYNC_ME" []
    else if op == 0x43
    then printf "SURFACE_SYNC" []
    else if op == 0x46
    then printf "EVENT_WRITE" []
    else if op == 0x68
    then printf "SET_CONFIG_REG" []
    else if op == 0x69
    then printf "SET_CONTEXT_REG" []
    else if op == 0x76
    then printf "SET_SH_REG" []
    else printf "?(%#02x)" (op ∷ [])

-- SI_CONFIG_REG_OFFSET, SI_CONTEXT_REG_OFFSET and SI_SH_REG_OFFSET.
abbrev pub config_reg_offset : ℕ
config_reg_offset = 0x8000

abbrev pub context_reg_offset : ℕ
context_reg_offset = 0x28000

abbrev pub sh_reg_offset : ℕ
sh_reg_offset = 0xb000

-- `while (adr != pktEnd)`, with the words left.
unfoldable pub write_words : (left adr : ℕ) → M (Unit {0})
unfolding word
write_words zero adr = nothing
write_words (suc n) adr = do w ← word adr; print "  0x%08PRIx32\n" (w ∷ []); write_words n (adr + 1)

-- Two words as a 64-bit address.
unfoldable pub write_address : String → ℕ → M (Unit {0})
unfolding word
write_address format adr = do
  low ← word adr
  high ← word (adr + 1)
  print format ((low + 2 ^ 32 * high) ∷ [])

-- What is printed of a register, from its name if it has one.
abbrev pub name_text : ℕ → Option String → Printf
name_text reg none = printf "?(%PRIu32)" (reg ∷ [])
name_text reg (some name) = printf name []

-- The registers' names, RadeonGetRegName of stub/radeon_hd_regs.cpp (Stub.Regs), are given here.
module _ (reg_name : ℕ → Option String) where
  -- RadeonWriteRegName.
  abbrev pub reg_text : ℕ → Printf
  reg_text reg = name_text reg (reg_name reg)

  -- The cases SET_CONFIG_REG, SET_CONTEXT_REG and SET_SH_REG, which differ in the offset.
  abbrev pub reg_at : (offset w : ℕ) → ℕ
  reg_at offset w = (w * 4 + offset) % 2 ^ 32

  unfoldable pub write_set_reg : (offset count adr : ℕ) → M (Unit {0})
  unfolding word write_words
  write_set_reg offset count adr = do
    w ← word adr
    say "  reg: "
    emit (reg_text (reg_at offset w))
    say "\n"
    write_words count (adr + 1)

  -- The operands of COPY_DATA. What they need of the packet is read whatever its length.
  unfoldable pub write_reg_operand : ℕ → M (Unit {0})
  unfolding word
  write_reg_operand adr = do
    r ← word (adr + 3)
    say "REG("
    emit (reg_text (r * 4 % 2 ^ 32))
    say ")"

  unfoldable pub write_src : (kind adr : ℕ) → M (Unit {0})
  unfolding word write_reg_operand write_address
  write_src kind adr =
      if kind == 0
      then write_reg_operand adr
      else if kind == 1
      then write_address "SRC_MEM(0x%08PRIx64)" (adr + 1)
      else if kind == 2
      then say "TC_L2"
      else if kind == 3
      then say "GDS"
      else if kind == 4
      then say "PERF"
      else if kind == 5
      then say "IMM"
      else if kind == 9
      then say "TIMESTAMP"
      else print "?(%u)" (kind ∷ [])

  unfoldable pub write_dst : (kind adr : ℕ) → M (Unit {0})
  unfolding word write_reg_operand write_address
  write_dst kind adr =
      if kind == 0
      then write_reg_operand adr
      else if kind == 1
      then say "DST_MEM_GRBM"
      else if kind == 2
      then say "TC_L2"
      else if kind == 3
      then say "GDS"
      else if kind == 4
      then say "PERF"
      else if kind == 5
      then write_address "DST_MEM(0x%08PRIx64)" (adr + 3)
      else print "?(%u)" (kind ∷ [])

  unfoldable pub write_copy_data : ℕ → M (Unit {0})
  unfolding word write_src write_dst
  write_copy_data adr = do
    w ← word adr
    say "  src: "
    write_src (w % 0x10) adr
    say "\n"
    say "  dst: "
    write_dst (w / 2 ^ 8 % 0x10) adr
    say "\n"

  -- The second switch on the operation; `pktEnd` is `adr + (count + 1)`.
  unfoldable pub write_packet : (op count adr : ℕ) → M (Unit {0})
  unfolding write_set_reg write_copy_data write_words
  write_packet op count adr =
      if op == 0x68
      then write_set_reg config_reg_offset count adr
      else if op == 0x69
      then write_set_reg context_reg_offset count adr
      else if op == 0x76
      then write_set_reg sh_reg_offset count adr
      else if op == 0x40
      then write_copy_data adr
      else write_words (suc count) adr

  -- The case of type 3, with the rest of the loop from an address on.
  unfoldable pub dump_pkt3 : (ℕ → M Bool) → (op count adr : ℕ) → M Bool
  unfolding write_packet
  dump_pkt3 go op count adr = do
    say "PKT3("
    emit (op_text op)
    print ", %d)\n" (count ∷ [])
    write_packet op count adr
    go (adr + (count + 1))

  -- One round of the loop behind the header. The result is `true` where the function returns.
  unfoldable pub dump_packet : (ℕ → M Bool) → (header adr : ℕ) → M Bool
  unfolding pkt_type pkt_count pkt3_it_opcode dump_pkt3
  dump_packet go header adr =
      if pkt_type header == 3
      then dump_pkt3 go (pkt3_it_opcode header) (pkt_count header) adr
      else if pkt_type header == 2
      then if header == 0x8000_0000
        then (do say "PKT2(NOP)\n"; go adr)
        else (do say "PKT2(?)\n"; return true)
      else do print "? ( %08PRIx32)" (header ∷ []); return true

  -- `while (adr != end)`; `false` if it is still going after `fuel` rounds.
  unfoldable pub dump_ib : (fuel adr end : ℕ) → M Bool
  unfolding word dump_packet
  dump_ib zero adr end = return false
  dump_ib (suc fuel) adr end = elim (adr == end) [
    | true ↦ return true
    | false ↦ word adr >>= λ header. dump_packet (λ next. dump_ib fuel next end) header (adr + 1)
  ]
