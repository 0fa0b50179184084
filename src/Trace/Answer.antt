-- ===== src/Trace/Answer.antt =====
-- What the trace of a query's answer reads.
use Prim.Native.String.{String}
use libdrm.Base.{
  Bool, ℕ, ◌+◌, ◌*◌, ◌≤◌, ◌≡◌, refl, ap, ◌∙◌, none, some, List, [], ◌∷◌, arith, ◌==◌, ◌||◌, true,
  false, if◌then◌else◌, Bool-cases, Option-cases, inl, inr,
}
use libdrm.Trace.Output.{
  Memory, M, ◌>>=◌, ◌>>◌, say, nothing, print, load, u32, u64, Field, f32, write_fields,
}
use libdrm.Trace.Post.{
  heap_fields, write_memory_info, commas, print_at, write_bitmap, dev_fields_head,
  dev_fields_middle, dev_fields_tail, write_dev_info, hw_ip_fields, firmware_fields, gds_fields,
  vram_gtt_fields, bracketed, runs_on, not_printed, write_info_answer,
}
use libdrm.Trace.Reads.{
  Readable, Succeeds, outcome, say-Succeeds, part-Readable, load-Succeeds, bind-Succeeds,
  then-Succeeds, Within, write_fields-Succeeds, commas-Succeeds, print_at-Succeeds, load_unreadable,
}

module _ (m : Memory) (p : ℕ) where
  heap-Succeeds :
      (base : ℕ) → base + 32 ≤ 96 → Readable m p 96 → Succeeds (write_fields p (heap_fields base)) m
  unfolding heap_fields
  heap-Succeeds base h r = write_fields-Succeeds p 96 (heap_fields base) m (omega arith) r

  memory_info-Succeeds : Readable m p 96 → Succeeds (write_memory_info p) m
  unfolding write_memory_info
  memory_info-Succeeds r =
      let a = heap-Succeeds 0 (omega arith) r in
      let b = heap-Succeeds 32 (omega arith) r in
      let c = heap-Succeeds 64 (omega arith) r in search (then-Succeeds, say-Succeeds) depth 12

  bitmap-Succeeds :
      (offset : ℕ) → offset + 64 ≤ 368 → Readable m p 368 → Succeeds (write_bitmap (p + offset)) m
  unfolding write_bitmap
  bitmap-Succeeds offset h r =
      commas-Succeeds 4 0
        (λ i. do say "("; commas 4 0 (λ j. print_at (p + offset + 16 * i) j (f32 0 "%#x")); say ")")
        m
        (λ i k.
          let row = part-Readable m p 368 offset 64 r h in
          let here = part-Readable m (p + offset) 64 (16 * i) 16 row (omega arith) in
          let words : Succeeds (commas 4 0 (λ j. print_at (p + offset + 16 * i) j (f32 0 "%#x")))
              m =
            commas-Succeeds 4 0 (λ j. print_at (p + offset + 16 * i) j (f32 0 "%#x")) m
              (λ j l.
                print_at-Succeeds (p + offset + 16 * i) 16 j (f32 0 "%#x") m (omega arith) here) in
          search (then-Succeeds, say-Succeeds) depth 6)

  dev_info-Succeeds : Readable m p 368 → Succeeds (write_dev_info p) m
  unfolding write_dev_info dev_fields_head dev_fields_middle dev_fields_tail
  dev_info-Succeeds r =
      let a = write_fields-Succeeds p 368 dev_fields_head m (omega arith) r in
      let b = bitmap-Succeeds 56 (omega arith) r in
      let c = write_fields-Succeeds p 368 dev_fields_middle m (omega arith) r in
      let d = bitmap-Succeeds 272 (omega arith) r in
      let e = write_fields-Succeeds p 368 dev_fields_tail m (omega arith) r in
      search (then-Succeeds, say-Succeeds) depth 14

  bracketed-Succeeds :
      (start : String) (body : M (Unit {0})) → Succeeds body m → Succeeds (bracketed start body) m
  bracketed-Succeeds start body s = search (then-Succeeds, say-Succeeds) depth 4

  -- One test of a chain, with the bytes that each branch reads at `p`.
  branch-Succeeds :
      (b : Bool) (f g : M (Unit {0})) (x y : ℕ)
      → (Readable m p x → Succeeds f m)
      → (Readable m p y → Succeeds g m)
      → Readable m p (if b then x else y)
      → Succeeds (if b then f else g) m
  branch-Succeeds true f g x y s t r = s r
  branch-Succeeds false f g x y s t r = t r

-- The bytes that are read of the answer to a query; of READ_MMR_REG, for a count of registers.
unfoldable pub printed_bytes : (query count : ℕ) → ℕ
unfolding runs_on
printed_bytes query count =
    if query == 0x00
    then 4
    else if query == 0x16
    then 368
    else if query == 0x02
    then 32
    else if query == 0x0e
    then 8
    else if query == 0x13
    then 32
    else if query == 0x14
    then 24
    else if query == 0x15
    then count * 4
    else if runs_on query || (query == 0x19)
    then 96
    else 0

heap_overread : (m : Memory) (p : ℕ) → m (p + 8) ≡ none → write_fields p (heap_fields 0) m ≡ none
unfolding write_fields heap_fields
heap_overread m p e = elim (Option-cases (load 8 (p + 0) m)) [
  | inl z ↦ rw (write_fields, heap_fields, ◌>>=◌, z) refl
  | inr ((v, out), z) ↦ rw (write_fields, heap_fields, ◌>>=◌, z, load_unreadable 7 (p + 8) m e) refl
]

memory_info_overread : (m : Memory) (p : ℕ) → m (p + 8) ≡ none → write_memory_info p m ≡ none
unfolding write_memory_info
memory_info_overread m p e = rw (write_memory_info, ◌>>=◌, heap_overread m p e) refl

not_query : (query k : ℕ) → runs_on query ≡ true → runs_on k ≡ false → (query == k) ≡ false
not_query query k r n = elim (Bool-cases (query == k)) [
  | inr e ↦ e
  | inl e ↦ let q : query ≡ k = ground arith in absurd (cc)
]

-- The queries in front of MEMORY are printed as it is.
run_on :
    (arg query : ℕ)
    → runs_on query ≡ true
    → write_info_answer arg query ≡ (u64 arg >>= write_memory_info)
unfolding write_info_answer runs_on
run_on arg query r =
    rw
      (
        write_info_answer,
        not_query query 0x00 r refl,
        not_query query 0x16 r refl,
        not_query query 0x02 r refl,
        not_query query 0x0e r refl,
        not_query query 0x13 r refl,
        not_query query 0x14 r refl,
        not_query query 0x15 r refl,
        r,
      )
      refl

module _ (m : Memory) (arg p count : ℕ) (pointer : u64 arg m ≡ some (p, []))
    (counted : u32 (arg + 20) m ≡ some (count, [])) where
  -- A step that reads a word whose value is known.
  known-Succeeds :
      {A : Type 0} (word : M ℕ) (v : ℕ) (f : ℕ → M A)
      → word m ≡ some (v, [])
      → Succeeds (f v) m
      → Succeeds (word >>= f) m
  known-Succeeds word v f e (outcome (w, out) e') = outcome (w, out) (rw (e, ◌>>=◌, e') refl)

  registers-Succeeds :
      Readable m p (count * 4)
      → Succeeds (u32 (arg + 20) >>= λ n. commas n 0 (λ i. print_at p i (f32 0 "%#PRIx32"))) m
  registers-Succeeds r = known-Succeeds (u32 (arg + 20)) count _ counted (
      commas-Succeeds count 0 (λ i. print_at p i (f32 0 "%#PRIx32")) m
        (λ i l. print_at-Succeeds p (count * 4) i (f32 0 "%#PRIx32") m (omega arith) r))

  struct-Succeeds :
      (start : String) (n : ℕ) (fs : List Field)
      → Within n fs
      → Readable m p n
      → Succeeds (u64 arg >>= λ q. bracketed start (write_fields q fs)) m
  struct-Succeeds start n fs w r =
      known-Succeeds (u64 arg) p (λ q. bracketed start (write_fields q fs)) pointer
        (bracketed-Succeeds m p start (write_fields p fs) (write_fields-Succeeds p n fs m w r))

  working-Succeeds :
      Readable m p 4 → Succeeds (u64 arg >>= λ q. u32 q >>= λ v. print " -> %d" (v ∷ [])) m
  working-Succeeds r =
      known-Succeeds (u64 arg) p (λ q. u32 q >>= λ v. print " -> %d" (v ∷ [])) pointer
        (bind-Succeeds (u32 p) (λ v. print " -> %d" (v ∷ [])) m (load-Succeeds 4 p m r)
          (λ v. outcome _ refl))

  rest-Succeeds : (query : ℕ) → Succeeds (if not_printed query then say " -> ?" else nothing) m
  rest-Succeeds query = elim (Bool-cases (not_printed query)) [
    | inl e ↦ rw e (outcome _ refl)
    | inr e ↦ rw e (outcome _ refl)
  ]

  -- Tracing the answer to a query, of any number, succeeds when the buffer that the query's
  -- `return_pointer` leads to has the bytes that the answer of that query is printed from; a
  -- query whose answer is not printed needs none.
  pub write_info_answer-Succeeds :
      (query : ℕ)
      → Readable m p (printed_bytes query count)
      → Succeeds (write_info_answer arg query) m
  unfolding write_info_answer printed_bytes hw_ip_fields firmware_fields gds_fields vram_gtt_fields
  write_info_answer-Succeeds query =
      let branch = branch-Succeeds m p in
      branch (query == 0x00) _ _ 4 _ working-Succeeds (
        branch (query == 0x16) _ _ 368 _
          (λ r. known-Succeeds (u64 arg) p write_dev_info pointer (dev_info-Succeeds m p r))
          (branch (query == 0x02) _ _ 32 _ (struct-Succeeds " -> (\n" 32 hw_ip_fields (omega arith))
            (branch (query == 0x0e) _ _ 8 _
              (struct-Succeeds " -> (" 8 firmware_fields (omega arith))
              (branch (query == 0x13) _ _ 32 _
                (struct-Succeeds " -> (\n" 32 gds_fields (omega arith))
                (branch (query == 0x14) _ _ 24 _
                  (struct-Succeeds " -> (\n" 24 vram_gtt_fields (omega arith))
                  (branch (query == 0x15) _ _ (count * 4) _
                    (λ r.
                      known-Succeeds (u64 arg) p _ pointer
                        (bracketed-Succeeds m p " -> (" _ (registers-Succeeds r)))
                    (branch (runs_on query || (query == 0x19)) _ _ 96 0
                      (λ r.
                        known-Succeeds (u64 arg) p write_memory_info pointer
                          (memory_info-Succeeds m p r))
                      (λ r. rest-Succeeds query))))))))

-- The cases of CRTC_FROM_ID, HW_IP_COUNT, TIMESTAMP, NUM_BYTES_MOVED, VRAM_USAGE, GTT_USAGE,
-- VIS_VRAM_USAGE and NUM_EVICTIONS run on into the case of MEMORY: where the byte behind the eight
-- at `return_pointer`, the most that their answers have, may not be read, tracing the answer faults.
pub write_info_answer_overread :
    (m : Memory) (arg p query : ℕ)
    → u64 arg m ≡ some (p, [])
    → runs_on query ≡ true
    → m (p + 8) ≡ none
    → write_info_answer arg query m ≡ none
write_info_answer_overread m arg p query pointer r e =
    ap (λ (f : M (Unit {0})). f m) (run_on arg query r)
    ∙ rw (pointer, ◌>>=◌, memory_info_overread m p e) refl
