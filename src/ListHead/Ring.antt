-- ===== src/ListHead/Ring.antt =====
-- `struct list_head` on a heap: the two pointers of every node, by its address.
use libdrm.Base.{ℕ, zero, suc, ◌==◌, Option, none, some, List, [], ◌∷◌, if◌then◌else◌}

pub record Nodes : Type 0 where
  pub prev : ℕ → ℕ
  pub next : ℕ → ℕ

-- A write to one node.
abbrev pub put : (ℕ → ℕ) → ℕ → ℕ → ℕ → ℕ
put f p v q = if q == p then v else f q

abbrev pub set_prev : ℕ → ℕ → Nodes → Nodes
set_prev p v h = record h { prev = put h.prev p v }

abbrev pub set_next : ℕ → ℕ → Nodes → Nodes
set_next p v h = record h { next = put h.next p v }

unfoldable pub list_inithead : ℕ → Nodes → Nodes
list_inithead item h = set_next item item (set_prev item item h)

unfoldable pub list_add : (item list : ℕ) → Nodes → Nodes
list_add item list h0 =
    let h1 = set_prev item list h0 in
    let h2 = set_next item (h1.next list) h1 in
    let h3 = set_prev (h2.next list) item h2 in set_next list item h3

unfoldable pub list_addtail : (item list : ℕ) → Nodes → Nodes
list_addtail item list h0 =
    let h1 = set_next item list h0 in
    let h2 = set_prev item (h1.prev list) h1 in
    let h3 = set_next (h2.prev list) item h2 in set_prev list item h3

unfoldable pub list_del : (item : ℕ) → Nodes → Nodes
list_del item h0 =
    let h1 = set_next (h0.prev item) (h0.next item) h0 in set_prev (h1.next item) (h1.prev item) h1

unfoldable pub list_delinit : (item : ℕ) → Nodes → Nodes
list_delinit item h0 =
    let h1 = set_next (h0.prev item) (h0.next item) h0 in
    let h2 = set_prev (h1.next item) (h1.prev item) h1 in set_prev item item (set_next item item h2)

-- LIST_FOR_EACH_ENTRY from the node `pos` on, with a body that changes nothing: the nodes that it
-- visits, or `none` if it is still going after `fuel` rounds.
unfoldable pub for_each : (fuel : ℕ) → (pos head : ℕ) → Nodes → Option (List ℕ)
for_each zero pos head h = none
for_each (suc fuel) pos head h =
    let rest = for_each fuel (h.next pos) head h in
    if pos == head then some [] else elim rest [ none ↦ none | some l ↦ some (pos ∷ l) ]
