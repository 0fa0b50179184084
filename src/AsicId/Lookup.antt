-- ===== src/AsicId/Lookup.antt =====
-- The table as a whole: the name that is found is that of the first entry for the device.
use libdrm.Base.{
  ℕ, ◌+◌, ◌/◌, ◌%◌, ◌<◌, ◌^◌, ◌≡◌, refl, ap, ◌∙◌, ◌==◌, Bool, true, false, ◌&&◌, Bool-cases, inl,
  inr, Option, none, some, List, [], ◌∷◌, ◌++◌, if◌then◌else◌, arith, Ret, ok, err, eagain,
}
use libdrm.AsicId.Text.{isblank, skip, strtok, strtol}
use libdrm.AsicId.Parse.{
  Ids, Memory, ignored, field, use_name, use_rid, use_did, after_line, parse_one_line, trim,
  skip_version, parse_lines, silent, report, parse_asic_ids,
}
use libdrm.AsicId.Table.{
  hex_char, print2, print4, Entry, print_entry, NoComma, IsName, IsEntry, hex_char-HexChar,
  strtok-token, strtok-end, strtol-print4, strtol-print2,
}

abbrev pub is_for : Ids → Entry → Bool
is_for dev e = (e.did == dev.asic_id) && (e.rid == dev.pci_rev_id)

abbrev pub first_name : Ids → List Entry → Option (List ℕ)
first_name dev [] = none
first_name dev (e ∷ l) = if is_for dev e then some e.name else first_name dev l

abbrev pub print_lines : List Entry → List (List ℕ)
print_lines [] = []
print_lines (e ∷ l) = (print_entry e ++ (10 ∷ [])) ∷ print_lines l

abbrev pub AllEntries : List Entry → Type 0
AllEntries [] = Unit {0}
AllEntries (e ∷ l) = IsEntry e × AllEntries l

trim-newline : (s : List ℕ) → trim (s ++ (10 ∷ [])) ≡ s
unfolding trim
trim-newline [] = refl
trim-newline (c ∷ []) = refl
trim-newline (c ∷ d ∷ s) = ap (λ t. c ∷ t) (trim-newline (d ∷ s))

use_name-name :
    (memory : Memory) (c : ℕ) (s : List ℕ)
    → memory.name ≡ true
    → isblank c ≡ false
    → use_name memory (some (9 ∷ c ∷ s, [])) ≡ (ok, some (c ∷ s))
unfolding use_name skip
use_name-name memory c s m b = rw (use_name, skip, b, m) refl

use_name-strtok :
    (memory : Memory) (name : List ℕ)
    → memory.name ≡ true
    → IsName name
    → use_name memory (strtok (9 ∷ name)) ≡ (ok, some name)
use_name-strtok memory [] m n = absurd n
use_name-strtok memory (c ∷ s) m (b, n) =
    ap (use_name memory) (strtok-end 9 (c ∷ s) (refl, n)) ∙ use_name-name memory c s m b

-- A number that is read to its end.
use_rid-number :
    (dev : Ids) (memory : Memory) (s_rid rest : List ℕ) (rid : ℕ)
    → strtol s_rid ≡ (rid, [])
    → use_rid dev memory (some (s_rid, rest))
      ≡ (if rid == dev.pci_rev_id then use_name memory (strtok rest) else (err eagain, none))
unfolding use_rid field
use_rid-number dev memory s_rid rest rid e = elim (Bool-cases (rid == dev.pci_rev_id)) [
  | inl z ↦ rw (use_rid, e, field, z) refl
  | inr z ↦ rw (use_rid, e, field, z) refl
]

use_did-number :
    (dev : Ids) (memory : Memory) (s_did rest : List ℕ) (did : ℕ)
    → strtol s_did ≡ (did, [])
    → use_did dev memory (some (s_did, rest))
      ≡ (if did == dev.asic_id then use_rid dev memory (strtok rest) else (err eagain, none))
unfolding use_did field
use_did-number dev memory s_did rest did e = elim (Bool-cases (did == dev.asic_id)) [
  | inl z ↦ rw (use_did, e, field, z) refl
  | inr z ↦ rw (use_did, e, field, z) refl
]

print2-NoComma : (n : ℕ) → n < 2 ^ 8 → NoComma (print2 n)
print2-NoComma n l = (
  (hex_char-HexChar (n / 16) (omega arith)).no_comma,
  ((hex_char-HexChar (n % 16) (omega arith)).no_comma, tt),
)

print4-NoComma : (n : ℕ) → n < 2 ^ 16 → NoComma (print4 n)
print4-NoComma n l = (
  (hex_char-HexChar (n / 4096) (omega arith)).no_comma,
  (
    (hex_char-HexChar ((n / 256) % 16) (omega arith)).no_comma,
    (
      (hex_char-HexChar ((n / 16) % 16) (omega arith)).no_comma,
      ((hex_char-HexChar (n % 16) (omega arith)).no_comma, tt),
    ),
  ),
)

abbrev after_did : Entry → List ℕ
after_did e = (9 ∷ print2 e.rid) ++ (44 ∷ 9 ∷ e.name)

use_rid-strtok :
    (dev : Ids) (memory : Memory) (e : Entry)
    → memory.name ≡ true
    → IsEntry e
    → use_rid dev memory (strtok (after_did e))
      ≡ (if e.rid == dev.pci_rev_id then (ok, some e.name) else (err eagain, none))
use_rid-strtok dev memory e m i =
    ap (use_rid dev memory)
      (strtok-token 9 (print2 e.rid) (9 ∷ e.name) (refl, print2-NoComma e.rid i.rid_lt))
    ∙ use_rid-number dev memory (9 ∷ print2 e.rid) (9 ∷ e.name) e.rid (strtol-print2 e.rid i.rid_lt)
    ∙ ap (λ (x : Ret × Option (List ℕ)). if e.rid == dev.pci_rev_id then x else (err eagain, none))
        (use_name-strtok memory e.name m i.is_name)

if_and :
    {A : Type 0} (a b : Bool) (x y : A)
    → (if a then (if b then x else y) else y) ≡ (if a && b then x else y)
if_and true b x y = refl
if_and false b x y = refl

parse_one_line-print_entry :
    (dev : Ids) (memory : Memory) (e : Entry)
    → memory.line ≡ true
    → memory.name ≡ true
    → IsEntry e
    → parse_one_line dev memory (print_entry e)
      ≡ (if is_for dev e then (ok, some e.name) else (err eagain, none))
unfolding parse_one_line
parse_one_line-print_entry dev memory e k m i =
    let a = hex_char-HexChar (e.did / 4096) (ground (arith, i.did_lt)) in
    let s =
      hex_char ((e.did / 256) % 16) ∷ hex_char ((e.did / 16) % 16) ∷ hex_char (e.did % 16) ∷ [] in
    let begin : parse_one_line dev memory (print_entry e)
        ≡ use_did dev memory (strtok (print_entry e)) =
      rw (a.no_hash, k) refl in
    begin
    ∙ ap (use_did dev memory)
        (strtok-token (hex_char (e.did / 4096)) s (after_did e) (print4-NoComma e.did i.did_lt))
    ∙ use_did-number dev memory (print4 e.did) (after_did e) e.did (strtol-print4 e.did i.did_lt)
    ∙ ap (λ (x : Ret × Option (List ℕ)). if e.did == dev.asic_id then x else (err eagain, none))
        (use_rid-strtok dev memory e m i)
    ∙ if_and (e.did == dev.asic_id) (e.rid == dev.pci_rev_id) (ok, some e.name) (err eagain, none)

parse_lines-print_lines :
    (dev : Ids) (memory : Memory) (r : Ret) (line_num : ℕ) (l : List Entry)
    → memory.line ≡ true
    → memory.name ≡ true
    → AllEntries l
    → ((q : ℕ) → report r q ≡ silent)
    → (n : ℕ) × (r' : Ret) × (parse_lines dev memory r line_num (print_lines l)
        ≡ (r', n, first_name dev l))
      × ((q : ℕ) → report r' q ≡ silent)
unfolding parse_lines after_line report
parse_lines-print_lines dev memory r line_num [] k m i c = (line_num, r, refl, c)
parse_lines-print_lines dev memory r line_num (e ∷ l) k m (i, is) c =
    let p : parse_one_line dev memory (trim (print_entry e ++ (10 ∷ [])))
        ≡ (if is_for dev e then (ok, some e.name) else (err eagain, none)) =
      ap (parse_one_line dev memory) (trim-newline (print_entry e))
      ∙ parse_one_line-print_entry dev memory e k m i in
    let rest = λ (x : Ret × Option (List ℕ)).
      after_line x line_num (parse_lines dev memory x.0 (line_num + 1) (print_lines l)) in
    let (n, r', h, c') =
      parse_lines-print_lines dev memory (err eagain) (line_num + 1) l k m is (λ q. refl) in
    elim (Bool-cases (is_for dev e)) [
      | inl z ↦ (line_num, ok, ap rest p ∙ (rw z refl), λ q. refl)
      | inr z ↦ (n, r', ap rest p ∙ (rw z h), c')
    ]

abbrev pub AllIgnored : List (List ℕ) → Type 0
AllIgnored [] = Unit {0}
AllIgnored (s ∷ l) = (ignored (trim s) ≡ true) × AllIgnored l

skip_version-ignored :
    (line_num : ℕ) (comments lines : List (List ℕ)) (version : List ℕ)
    → AllIgnored comments
    → ignored version ≡ false
    → (n : ℕ) × (skip_version line_num (comments ++ ((version ++ (10 ∷ [])) ∷ lines)) ≡ (n, lines))
unfolding skip_version
skip_version-ignored line_num [] lines version i v =
    let z : ignored (trim (version ++ (10 ∷ []))) ≡ false = ap ignored (trim-newline version) ∙ v in
    (line_num, rw (skip_version, z) refl)
skip_version-ignored line_num (s ∷ comments) lines version (i, is) v =
    let (n, e) = skip_version-ignored (line_num + 1) comments lines version is v in
    (n, rw (skip_version, i) e)

-- In a file with empty lines and comments, a line with the version, and then entries of a device with
-- four digits and a revision with two, the name that is found is that of the first entry with the two
-- numbers of the device, or none if there is no such entry; nothing is reported. This asks that the
-- copies of the strings can be allocated.
pub parse_asic_ids-print_lines :
    (dev : Ids) (memory : Memory) (comments : List (List ℕ)) (version : List ℕ) (l : List Entry)
    → memory.line ≡ true
    → memory.name ≡ true
    → AllIgnored comments
    → ignored version ≡ false
    → AllEntries l
    → parse_asic_ids dev memory (some (comments ++ ((version ++ (10 ∷ [])) ∷ print_lines l)))
      ≡ (first_name dev l, some silent)
unfolding parse_asic_ids report
parse_asic_ids-print_lines dev memory comments version l k m i v es =
    let (n, e) = skip_version-ignored 1 comments (print_lines l) version i v in
    let (n', r, h, q) = parse_lines-print_lines dev memory ok n l k m es (λ q. refl) in
    rw (parse_asic_ids, e, h, q n') refl
