-- ===== src/AsicId/Tests.antt =====
-- A table with a comment, a version and two entries, and the device of the second one.
use libdrm.Base.{ℕ, ◌≡◌, refl, true, some, List, [], ◌∷◌, arith}
use libdrm.AsicId.Parse.{Ids, silent, trim, parse_asic_ids}
use libdrm.AsicId.Table.{Entry, IsEntry}
use libdrm.AsicId.Lookup.{parse_asic_ids-print_lines}

abbrev device : Ids
device = record { asic_id = 0x683f; pci_rev_id = 0x87 }

-- "R7 250E" and "R7".
abbrev other_name : List ℕ
other_name = 82 ∷ 55 ∷ 32 ∷ 50 ∷ 53 ∷ 48 ∷ 69 ∷ []

abbrev short_name : List ℕ
short_name = 82 ∷ 55 ∷ []

abbrev other_entry : Entry
other_entry = record { did = 0x683f; rid = 0; name = other_name }

abbrev entry : Entry
entry = record { did = 0x683f; rid = 0x87; name = short_name }

other_entry-IsEntry : IsEntry other_entry
other_entry-IsEntry = record {
  did_lt = omega arith;
  rid_lt = omega arith;
  is_name = (refl, (refl, (refl, (refl, (refl, (refl, (refl, (refl, tt))))))));
}

entry-IsEntry : IsEntry entry
entry-IsEntry = record {
  did_lt = omega arith;
  rid_lt = omega arith;
  is_name = (refl, (refl, (refl, tt)));
}

-- "# a", then "1.0", "683F,\t00,\tR7 250E" and "683F,\t87,\tR7".
parse_asic_ids-print_lines_example :
    parse_asic_ids device
      (record { line = true; name = true })
      (some (
        (35 ∷ 32 ∷ 97 ∷ 10 ∷ [])
        ∷ (49 ∷ 46 ∷ 48 ∷ 10 ∷ [])
        ∷ (54 ∷ 56 ∷ 51 ∷ 70 ∷ 44 ∷ 9 ∷ 48 ∷ 48 ∷ 44 ∷ 9 ∷ 82 ∷ 55 ∷ 32 ∷ 50 ∷ 53 ∷ 48 ∷ 69 ∷ 10
            ∷ [])
        ∷ (54 ∷ 56 ∷ 51 ∷ 70 ∷ 44 ∷ 9 ∷ 56 ∷ 55 ∷ 44 ∷ 9 ∷ 82 ∷ 55 ∷ 10 ∷ [])
        ∷ []))
    ≡ (some short_name, some silent)
unfolding trim
parse_asic_ids-print_lines_example =
    parse_asic_ids-print_lines device (record { line = true; name = true })
      ((35 ∷ 32 ∷ 97 ∷ 10 ∷ []) ∷ []) (49 ∷ 46 ∷ 48 ∷ []) (other_entry ∷ entry ∷ []) refl refl
      (refl, tt) refl (other_entry-IsEntry, (entry-IsEntry, tt))
