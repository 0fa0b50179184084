-- ===== src/HandleTable/Tests.antt =====
-- Handle tables at concrete keys, with four pointers to a page.
use libdrm.Base.{
  ℕ, ◌≡◌, refl, true, none, some, [], ◌∷◌, arith, IsPow2, if◌then◌else◌, ◌==◌, align32,
}
use libdrm.HandleTable.{HandleTable, grow, insert, lookup}
use libdrm.HandleTable.Laws.{IsValid, lookup-insert}

abbrev four : IsPow2 4
four = record { log = 2; log_lt = omega arith; is_pow = refl }

abbrev small : HandleTable ℕ
small = record { max_key = 4; values = none ∷ some 7 ∷ none ∷ none ∷ [] }

-- Key 5 is behind the end: the table grows to the next page.
grown : (insert 4 true small 5 9).1 ≡ record {
  max_key = 8;
  values = none ∷ some 7 ∷ none ∷ none ∷ none ∷ some 9 ∷ none ∷ none ∷ [];
}
unfolding insert grow align32
grown = refl

lookup-insert_example :
    let t' = (insert 4 true small 5 9).1 in
    IsValid t' × ((j : ℕ) → lookup t' j ≡ (if j == 5 then some 9 else lookup small j))
unfolding insert
lookup-insert_example = lookup-insert 4 true small 5 9 refl four (omega arith) refl
