-- ===== src/Stub/Dump/Walk.antt =====
-- Dumping the words of packets prints the packets.
use Prim.Native.String.{String}
use libdrm.Base.{
  ℕ, zero, suc, ◌+◌, ◌*◌, ◌/◌, ◌%◌, ◌^◌, ◌<◌, ◌≡◌, ◌≢◌, refl, ap, ◌∙◌, ◌==◌, Bool, true, false,
  Option, some, List, [], ◌∷◌, ◌++◌, map, if◌then◌else◌, length, length-append, arith,
}
use libdrm.Trace.Output.{Printf, printf, Memory, M, ◌>>=◌, ◌>>◌, say, print}
use libdrm.Stub.Dump.{
  word, pkt_type, pkt_count, pkt3_it_opcode, config_reg_offset, context_reg_offset, sh_reg_offset,
  write_words, write_address, write_set_reg, write_reg_operand, write_src, write_dst,
  write_copy_data, write_packet, dump_pkt3, dump_packet, dump_ib,
}
use libdrm.Stub.Dump.Lines.{
  Packet, nop, copy_data, other, header, ArePackets, all_words, value_line, reg_lines,
  operand_lines, src_lines, dst_lines, body_lines, header_lines, lines, all_lines,
}

-- The words from an address on.
abbrev pub Holds : Memory → ℕ → List ℕ → Type 0
Holds m adr [] = Unit {0}
Holds m adr (w ∷ ws) = (m adr ≡ some w) × Holds m (adr + 1) ws

Holds-append :
    (m : Memory) (adr : ℕ) (xs ys : List ℕ)
    → Holds m adr (xs ++ ys)
    → Holds m adr xs × Holds m (adr + length xs) ys
Holds-append m adr [] ys h = let z : adr + 0 ≡ adr = omega arith in (tt, rw z h)
Holds-append m adr (x ∷ xs) ys (e, h) =
    let (a, b) = Holds-append m (adr + 1) xs ys h in
    let q : adr + 1 + length xs ≡ adr + suc (length xs) = omega arith in ((e, a), rw (← q) b)

bind_eq :
    {A B : Type 0} (p : M A) (f : A → M B) (m : Memory) {a : A} {b : B} {out out' : List Printf}
    → p m ≡ some (a, out)
    → f a m ≡ some (b, out')
    → (p >>= f) m ≡ some (b, out ++ out')
bind_eq p f m e e' = rw (e, ◌>>=◌, e') refl

header_parts :
    (op low count : ℕ)
    → op < 0x100
    → low < 0x100
    → count < 0x4000
    → (pkt_type (header op low count) ≡ 3)
      × (pkt_count (header op low count) ≡ count)
      × (pkt3_it_opcode (header op low count) ≡ op)
unfolding pkt_type pkt_count pkt3_it_opcode
header_parts op low count a b c = (omega arith, omega arith, omega arith)

word_eq : (m : Memory) (adr w : ℕ) → m adr ≡ some w → word adr m ≡ some (w, [])
unfolding word
word_eq m adr w e = rw (word, e) refl

write_words_eq :
    (m : Memory) (adr : ℕ) (ws : List ℕ)
    → Holds m adr ws
    → write_words (length ws) adr m ≡ some (tt, map value_line ws)
unfolding write_words
write_words_eq m adr [] h = refl
write_words_eq m adr (w ∷ ws) (e, h) =
    bind_eq (word adr) (λ v. print "  0x%08PRIx32\n" (v ∷ []) >> write_words (length ws) (adr + 1))
      m (word_eq m adr w e)
      (bind_eq (print "  0x%08PRIx32\n" (w ∷ [])) (λ _. write_words (length ws) (adr + 1)) m refl
        (write_words_eq m (adr + 1) ws h))

module _ (reg_name : ℕ → Option String) (m : Memory) where
  write_set_reg_eq :
      (offset adr first : ℕ) (rest : List ℕ)
      → Holds m adr (first ∷ rest)
      → write_set_reg reg_name offset (length rest) adr m
        ≡ some (tt, reg_lines reg_name offset first rest)
  unfolding write_set_reg
  write_set_reg_eq offset adr first rest (e, h) =
      rw (write_set_reg, ◌>>=◌, word_eq m adr first e, write_words_eq m (adr + 1) rest h) refl

  -- A test that chooses what is printed.
  if_eq :
      (b : Bool) (p q : M (Unit {0})) (xs ys : List Printf)
      → p m ≡ some (tt, xs)
      → q m ≡ some (tt, ys)
      → (if b then p else q) m ≡ some (tt, if b then xs else ys)
  if_eq true p q xs ys e f = e
  if_eq false p q xs ys e f = f

  write_address_eq :
      (format : String) (adr low high : ℕ)
      → m adr ≡ some low
      → m (adr + 1) ≡ some high
      → write_address format adr m ≡ some (tt, printf format ((low + 2 ^ 32 * high) ∷ []) ∷ [])
  unfolding write_address
  write_address_eq format adr low high e f =
      rw (write_address, ◌>>=◌, word_eq m adr low e, word_eq m (adr + 1) high f) refl

  write_reg_operand_eq :
      (adr w3 : ℕ)
      → m (adr + 3) ≡ some w3
      → write_reg_operand reg_name adr m ≡ some (tt, operand_lines reg_name w3)
  unfolding write_reg_operand
  write_reg_operand_eq adr w3 e = rw (write_reg_operand, ◌>>=◌, word_eq m (adr + 3) w3 e) refl

  write_src_eq :
      (kind adr w1 w2 w3 : ℕ)
      → m (adr + 1) ≡ some w1
      → m (adr + 1 + 1) ≡ some w2
      → m (adr + 3) ≡ some w3
      → write_src reg_name kind adr m ≡ some (tt, src_lines reg_name kind w1 w2 w3)
  unfolding write_src
  write_src_eq kind adr w1 w2 w3 a b c = if_eq (kind == 0) _ _ _ _ (write_reg_operand_eq adr w3 c) (
      if_eq (kind == 1) _ _ _ _ (write_address_eq "SRC_MEM(0x%08PRIx64)" (adr + 1) w1 w2 a b) (
        if_eq (kind == 2) _ _ _ _ refl (
          if_eq (kind == 3) _ _ _ _ refl (
            if_eq (kind == 4) _ _ _ _ refl
              (if_eq (kind == 5) _ _ _ _ refl (if_eq (kind == 9) _ _ _ _ refl refl))))))

  write_dst_eq :
      (kind adr w3 w4 : ℕ)
      → m (adr + 3) ≡ some w3
      → m (adr + 3 + 1) ≡ some w4
      → write_dst reg_name kind adr m ≡ some (tt, dst_lines reg_name kind w3 w4)
  unfolding write_dst
  write_dst_eq kind adr w3 w4 c d = if_eq (kind == 0) _ _ _ _ (write_reg_operand_eq adr w3 c) (
      if_eq (kind == 1) _ _ _ _ refl (
        if_eq (kind == 2) _ _ _ _ refl (
          if_eq (kind == 3) _ _ _ _ refl (
            if_eq (kind == 4) _ _ _ _ refl (
              if_eq (kind == 5) _ _ _ _
                (write_address_eq "DST_MEM(0x%08PRIx64)" (adr + 3) w3 w4 c d) refl)))))

  abbrev copy_lines : (w0 w1 w2 w3 w4 : ℕ) → List Printf
  copy_lines w0 w1 w2 w3 w4 =
      printf "  src: " []
      ∷ (src_lines reg_name (w0 % 0x10) w1 w2 w3
          ++ printf "\n" []
            ∷ printf "  dst: " []
            ∷ (dst_lines reg_name (w0 / 2 ^ 8 % 0x10) w3 w4 ++ printf "\n" [] ∷ []))

  write_copy_data_eq :
      (adr w0 w1 w2 w3 w4 : ℕ)
      → Holds m adr (w0 ∷ w1 ∷ w2 ∷ w3 ∷ w4 ∷ [])
      → write_copy_data reg_name adr m ≡ some (tt, copy_lines w0 w1 w2 w3 w4)
  unfolding write_copy_data
  write_copy_data_eq adr w0 w1 w2 w3 w4 (a, (b, (c, (d, (e, _))))) =
      let d' : m (adr + 3) ≡ some w3 = ap m (omega arith) ∙ d in
      let e' : m (adr + 3 + 1) ≡ some w4 = ap m (omega arith) ∙ e in
      let src = write_src_eq (w0 % 0x10) adr w1 w2 w3 b c d' in
      let dst = write_dst_eq (w0 / 2 ^ 8 % 0x10) adr w3 w4 d' e' in
      rw (write_copy_data, ◌>>=◌, word_eq m adr w0 a, src, dst) refl

  write_other_eq :
      (op adr first : ℕ) (rest : List ℕ)
      → op ≢ 0x40
      → Holds m adr (first ∷ rest)
      → write_packet reg_name op (length rest) adr m ≡ some (tt, body_lines reg_name op first rest)
  unfolding write_packet
  write_other_eq op adr first rest n h =
      let not_copy : (op == 0x40) ≡ false = ground arith in
      if_eq (op == 0x68) _ _ _ _ (write_set_reg_eq config_reg_offset adr first rest h) (
        if_eq (op == 0x69) _ _ _ _ (write_set_reg_eq context_reg_offset adr first rest h) (
          if_eq (op == 0x76) _ _ _ _ (write_set_reg_eq sh_reg_offset adr first rest h)
            (rw not_copy (write_words_eq m adr (first ∷ rest) h))))

  module _ (go : ℕ → M Bool) (op low count adr : ℕ) {ls out : List Printf} {r : Bool} where
    pkt3_eq :
        write_packet reg_name op count adr m ≡ some (tt, ls)
        → go (adr + (count + 1)) m ≡ some (r, out)
        → dump_pkt3 reg_name go op count adr m ≡ some (r, header_lines op count ls ++ out)
    unfolding dump_pkt3
    pkt3_eq e f = rw (dump_pkt3, ◌>>=◌, e, f) refl

    packet_eq :
        op < 0x100
        → low < 0x100
        → count < 0x4000
        → write_packet reg_name op count adr m ≡ some (tt, ls)
        → go (adr + (count + 1)) m ≡ some (r, out)
        → dump_packet reg_name go (header op low count) adr m
          ≡ some (r, header_lines op count ls ++ out)
    unfolding dump_packet
    packet_eq a b c e f =
        let (type, counted, opcode) = header_parts op low count a b c in
        rw (dump_packet, type)
          (ap (λ o. dump_pkt3 reg_name go o (pkt_count (header op low count)) adr m) opcode
            ∙ ap (λ n. dump_pkt3 reg_name go op n adr m) counted
            ∙ pkt3_eq e f)

  step_eq :
      (fuel adr end h : ℕ) {out : List Printf} {r : Bool}
      → adr ≢ end
      → m adr ≡ some h
      → dump_packet reg_name (λ next. dump_ib reg_name fuel next end) h (adr + 1) m ≡ some (r, out)
      → dump_ib reg_name (suc fuel) adr end m ≡ some (r, out)
  unfolding dump_ib
  step_eq fuel adr end h n e d =
      let t : (adr == end) ≡ false = ground arith in
      rw (dump_ib, t)
        (bind_eq (word adr)
          (λ v. dump_packet reg_name (λ next. dump_ib reg_name fuel next end) v (adr + 1)) m
          (word_eq m adr h e) d)

  -- Dumping a buffer that holds the words of packets, with more rounds than packets, returns at its end
  -- and prints every packet, in order, and nothing else.
  pub dump_ib-lines :
      (fuel adr end : ℕ) (ps : List Packet)
      → ArePackets ps
      → Holds m adr (all_words ps)
      → end ≡ adr + length (all_words ps)
      → length ps < fuel
      → dump_ib reg_name fuel adr end m ≡ some (true, all_lines reg_name ps)
  unfolding all_words all_lines lines dump_ib dump_packet write_packet
  dump_ib-lines zero adr end ps v h e l = absurd (omega arith)
  dump_ib-lines (suc fuel) adr end [] v h e l =
      let t : (adr == end) ≡ true = ground arith in rw (dump_ib, t) refl
  dump_ib-lines (suc fuel) adr end (nop ∷ ps) (_, v) (a, h) e l =
      let ih = dump_ib-lines fuel (adr + 1) end ps v h (omega arith) (omega arith) in
      step_eq fuel adr end 0x8000_0000 (λ z. absurd (omega arith)) a
        (bind_eq (say "PKT2(NOP)\n") (λ _. dump_ib reg_name fuel (adr + 1) end) m refl ih)
  dump_ib-lines (suc fuel) adr end (other op low first rest ∷ ps) ((x, y, z, w), v) (a, h) e l =
      let (body, behind) = Holds-append m (adr + 1) (first ∷ rest) (all_words ps) h in
      let n = length-append rest (all_words ps) in
      let q : adr + 1 + suc (length rest) ≡ adr + 1 + (length rest + 1) = omega arith in
      let ih =
        dump_ib-lines fuel (adr + 1 + (length rest + 1)) end ps v (rw (← q) behind) (omega arith)
          (omega arith) in
      step_eq fuel adr end (header op low (length rest)) (λ k. absurd (omega arith)) a
        (packet_eq (λ next. dump_ib reg_name fuel next end) op low (length rest) (adr + 1) x z w
          (write_other_eq op (adr + 1) first rest y body) ih)
  dump_ib-lines (suc fuel) adr end (copy_data low w0 w1 w2 w3 w4 rest ∷ ps) ((x, y), v) (a, h) e l =
      let whole = w0 ∷ w1 ∷ w2 ∷ w3 ∷ w4 ∷ rest in
      let (body, behind) = Holds-append m (adr + 1) whole (all_words ps) h in
      let (five, _) = Holds-append m (adr + 1) (w0 ∷ w1 ∷ w2 ∷ w3 ∷ w4 ∷ []) rest body in
      let n = length-append rest (all_words ps) in
      let q : adr + 1 + length whole ≡ adr + 1 + (4 + length rest + 1) = omega arith in
      let ih =
        dump_ib-lines fuel (adr + 1 + (4 + length rest + 1)) end ps v (rw (← q) behind)
          (omega arith) (omega arith) in
      step_eq fuel adr end (header 0x40 low (4 + length rest)) (λ k. absurd (omega arith)) a
        (packet_eq (λ next. dump_ib reg_name fuel next end) 0x40 low (4 + length rest) (adr + 1)
          (omega arith) x y (write_copy_data_eq (adr + 1) w0 w1 w2 w3 w4 five) ih)
