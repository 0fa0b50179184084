-- ===== src/AsicId/Parse.antt =====
-- `parse_one_line` and `amdgpu_parse_asic_ids`.
use libdrm.Base.{
  ℕ, ◌+◌, ◌==◌, Bool, true, false, not, Option, none, some, List, [], ◌∷◌, if◌then◌else◌, Errno,
  Ret, ok, err, einval, enomem, eagain,
}
use libdrm.AsicId.Text.{isblank, skip, strtok, strtol}

-- `info.asic_id` and `info.pci_rev_id` of a device.
pub record Ids : Type 0 where
  pub asic_id : ℕ
  pub pci_rev_id : ℕ

-- Whether the two calls of strdup succeed.
pub record Memory : Type 0 where
  pub line : Bool
  pub name : Bool

abbrev pub is_empty : List ℕ → Bool
is_empty [] = true
is_empty (c ∷ s) = false

-- An empty line or a comment.
abbrev pub ignored : List ℕ → Bool
ignored [] = true
ignored (c ∷ s) = c == 35

-- A number that ends a token and is the one looked for: what the line's result is otherwise.
unfoldable pub field : (wanted : ℕ) → ℕ × List ℕ → Ret
field wanted (value, end) =
    if not (is_empty end) then err einval else if value == wanted then ok else err eagain

-- What is done with a token and the text after it: the last one holds the marketing name.
unfoldable pub use_name : Memory → Option (List ℕ × List ℕ) → Ret × Option (List ℕ)
unfolding skip
use_name memory none = (err einval, none)
use_name memory (some (s_name, rest)) =
    let name = skip isblank s_name in
    if is_empty name
    then (err einval, none)
    else if memory.name
    then (ok, some name)
    else (err enomem, none)

-- The one before it the revision.
unfoldable pub use_rid : Ids → Memory → Option (List ℕ × List ℕ) → Ret × Option (List ℕ)
unfolding strtok strtol field use_name
use_rid dev memory none = (err einval, none)
use_rid dev memory (some (s_rid, rest)) = elim (field dev.pci_rev_id (strtol s_rid)) [
  | err e ↦ (err e, none)
  | ok ↦ use_name memory (strtok rest)
]

-- The first one the device.
unfoldable pub use_did : Ids → Memory → Option (List ℕ × List ℕ) → Ret × Option (List ℕ)
unfolding strtok strtol field use_rid
use_did dev memory none = (err einval, none)
use_did dev memory (some (s_did, rest)) = elim (field dev.asic_id (strtol s_did)) [
  | err e ↦ (err e, none)
  | ok ↦ use_rid dev memory (strtok rest)
]

-- The result, and the new value of `marketing_name`, if it has one.
unfoldable pub parse_one_line : Ids → Memory → List ℕ → Ret × Option (List ℕ)
unfolding strtok use_did
parse_one_line dev memory line =
    if ignored line
    then (err eagain, none)
    else if not memory.line
    then (err enomem, none)
    else use_did dev memory (strtok line)

-- The newline at the end.
unfoldable pub trim : List ℕ → List ℕ
trim [] = []
trim (c ∷ []) = if c == 10 then [] else c ∷ []
trim (c ∷ d ∷ s) = c ∷ trim (d ∷ s)

-- The loop that looks for the version: the lines after it, and `line_num`, which does not count the
-- line of the version.
unfoldable pub skip_version : (line_num : ℕ) → List (List ℕ) → ℕ × List (List ℕ)
unfolding trim
skip_version line_num [] = (line_num, [])
skip_version line_num (line ∷ lines) =
    let later = skip_version (line_num + 1) lines in
    if ignored (trim line) then later else (line_num, lines)

-- The other loop: `r`, `line_num` and the name at its end, from what a line gives and the rest does.
unfoldable pub after_line :
    Ret × Option (List ℕ) → (line_num : ℕ) → Ret × ℕ × Option (List ℕ) → Ret × ℕ × Option (List ℕ)
after_line (ok, name) line_num later = (ok, line_num, name)
after_line (err eagain, name) line_num later = later
after_line (err e, name) line_num later = (err e, line_num, name)

unfoldable pub parse_lines :
    Ids → Memory → (r : Ret) (line_num : ℕ) → List (List ℕ) → Ret × ℕ × Option (List ℕ)
unfolding trim parse_one_line after_line
parse_lines dev memory r line_num [] = (r, line_num, none)
parse_lines dev memory r line_num (line ∷ lines) =
    let read = parse_one_line dev memory (trim line) in
    after_line read line_num (parse_lines dev memory read.0 (line_num + 1) lines)

-- What is written to stderr at the end.
pub data Report : Type 0 where
  silent : Report
  invalid_format : (line_num : ℕ) → Report
  cannot_parse : Errno → Report

unfoldable pub report : Ret → (line_num : ℕ) → Report
report ok line_num = silent
report (err einval) line_num = invalid_format line_num
report (err eagain) line_num = silent
report (err e) line_num = cannot_parse e

-- `file` holds the lines that getline gives, or is `none` if fopen fails. The result is the name and
-- the message.
unfoldable pub parse_asic_ids :
    Ids → Memory → (file : Option (List (List ℕ))) → Option (List ℕ) × Option Report
unfolding skip_version parse_lines report
parse_asic_ids dev memory none = (none, none)
parse_asic_ids dev memory (some lines) =
    let (line_num, entries) = skip_version 1 lines in
    let (r, line_num', name) = parse_lines dev memory ok line_num entries in
    (name, some (report r line_num'))
