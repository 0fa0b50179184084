-- ===== src/ListHead/Tests.antt =====
-- A ring of three nodes, and a fourth one.
use libdrm.Base.{◌≡◌, ◌==◌, refl, some, [], ◌∷◌, if◌then◌else◌}
use libdrm.ListHead.Ring.{Nodes, list_add, list_del, for_each}
use libdrm.ListHead.Refine.{IsRing, list_head-IsRing}

-- From 100 to 3, 7 and 5, and back.
abbrev ring : Nodes
ring = record {
  next = λ q. if q == 100 then 3 else if q == 3 then 7 else if q == 7 then 5 else 100;
  prev = λ q. if q == 100 then 5 else if q == 3 then 100 else if q == 7 then 3 else 7;
}

list_head-IsRing_example :
    IsRing (list_add 9 100 ring) 100 (9 ∷ 3 ∷ 7 ∷ 5 ∷ [])
    × IsRing (list_del 7 ring) 100 (3 ∷ 5 ∷ [])
    × (for_each 4 (ring.next 100) 100 ring ≡ some (3 ∷ 7 ∷ 5 ∷ []))
list_head-IsRing_example =
    list_head-IsRing ring 100 7 9 (3 ∷ []) (5 ∷ [])
      (
        ((refl, refl), ((refl, refl), ((refl, refl), (refl, refl)))),
        (refl, (refl, (refl, (refl, tt)))),
      )
      refl
