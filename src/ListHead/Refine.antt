-- ===== src/ListHead/Refine.antt =====
-- A ring of nodes is a list, and the operations on nodes are the operations on the list.
use libdrm.Base.{
  ℕ, suc, ◌≡◌, refl, ap, sym, ◌∙◌, ◌==◌, true, false, Bool-cases, inl, inr, some, List, [], ◌∷◌,
  ◌++◌, contains, length, arith,
}
use mathlib.Core.Path.{subst}
use libdrm.ListHead.Ring.{Nodes, put, set_prev, set_next, list_add, list_del, for_each}

-- From `a` the pointers lead through `l` to `z`, and back.
abbrev pub Links : Nodes → ℕ → List ℕ → ℕ → Type 0
Links h a [] z = (h.next a ≡ z) × (h.prev z ≡ a)
Links h a (x ∷ l) z = ((h.next a ≡ x) × (h.prev x ≡ a)) × Links h x l z

abbrev pub Distinct : List ℕ → Type 0
Distinct [] = Unit {0}
Distinct (x ∷ l) = (contains l x ≡ false) × Distinct l

-- The ring at `head` holds the nodes `l`.
abbrev pub IsRing : Nodes → (head : ℕ) → List ℕ → Type 0
IsRing h head l = Links h head l head × Distinct (head ∷ l)

-- Links stay if the pointers that they go along do: `next` of all nodes but the last, `prev` of all
-- but the first.
Links-kept :
    (h h' : Nodes) (a z : ℕ) (l : List ℕ)
    → Links h a l z
    → ((q : ℕ) → contains (a ∷ l) q ≡ true → h'.next q ≡ h.next q)
    → ((q : ℕ) → contains (z ∷ l) q ≡ true → h'.prev q ≡ h.prev q)
    → Links h' a l z
Links-kept h h' a z [] (n, p) f g = (f a (ground arith) ∙ n, g z (ground arith) ∙ p)
Links-kept h h' a z (x ∷ l) ((n, p), r) f g = (
  (f a (ground arith) ∙ n, g x (ground arith) ∙ p),
  Links-kept h h' x z l r (λ q e. f q (ground arith)) (λ q e. g q (ground arith)),
)

-- The first node after `a`, and the last before `z`.
abbrev first_of : List ℕ → ℕ → ℕ
first_of [] z = z
first_of (x ∷ l) z = x

abbrev last_of : ℕ → List ℕ → ℕ
last_of a [] = a
last_of a (x ∷ l) = last_of x l

next-first : (h : Nodes) (a z : ℕ) (l : List ℕ) → Links h a l z → h.next a ≡ first_of l z
next-first h a z [] (n, p) = n
next-first h a z (x ∷ l) ((n, p), r) = n

-- The neighbours of a node in the middle.
around :
    (h : Nodes) (a z x : ℕ) (l1 l2 : List ℕ)
    → Links h a (l1 ++ (x ∷ l2)) z
    → (h.prev x ≡ last_of a l1) × (h.next x ≡ first_of l2 z)
around h a z x [] l2 ((n, p), r) = (p, next-first h x z l2 r)
around h a z x (y ∷ l1) l2 ((n, p), r) = around h y z x l1 l2 r

-- A node of a list without repetition.
contains_middle : (l1 l2 : List ℕ) (x : ℕ) → contains (l1 ++ (x ∷ l2)) x ≡ true
contains_middle [] l2 x = ground arith
contains_middle (y ∷ l1) l2 x = ground (arith, contains_middle l1 l2 x)

contains_rest :
    (l1 l2 : List ℕ) (x q : ℕ) → contains (l1 ++ (x ∷ l2)) q ≡ false → contains (l1 ++ l2) q ≡ false
contains_rest [] l2 x q e = ground arith
contains_rest (y ∷ l1) l2 x q e = ground (arith, contains_rest l1 l2 x q)

Distinct-rest : (l1 l2 : List ℕ) (x : ℕ) → Distinct (l1 ++ (x ∷ l2)) → Distinct (l1 ++ l2)
Distinct-rest [] l2 x (n, d) = d
Distinct-rest (y ∷ l1) l2 x (n, d) = (contains_rest l1 l2 x y n, Distinct-rest l1 l2 x d)

contains_second : (l1 l2 : List ℕ) (x y : ℕ) → contains (l1 ++ (x ∷ y ∷ l2)) y ≡ true
contains_second [] l2 x y = ground arith
contains_second (b ∷ l1) l2 x y = ground (arith, contains_second l1 l2 x y)

contains_last : (b : ℕ) (l1 l2 : List ℕ) → contains (b ∷ (l1 ++ l2)) (last_of b l1) ≡ true
contains_last b [] l2 = ground arith
contains_last b (y ∷ l1) l2 = ground (arith, contains_last y l1 l2)

-- A node that is in a list is none that is not.
other :
    (l : List ℕ) (a q : ℕ)
    → contains l a ≡ false
    → contains l q ≡ true
    → ((q == a) ≡ false) × ((a == q) ≡ false)
other l a q n e = elim (Bool-cases (q == a)) [
  | inl t ↦ let r : q ≡ a = ground arith in absurd (cc (sym e ∙ ap (contains l) r ∙ n))
  | inr t ↦ (t, ground arith)
]

first-other :
    (b z x : ℕ) (l1 l2 : List ℕ)
    → contains (l1 ++ (x ∷ l2)) b ≡ false
    → (b == z) ≡ false
    → (b == first_of l2 z) ≡ false
first-other b z x l1 [] n e = e
first-other b z x l1 (y ∷ l2) n e = (other (l1 ++ (x ∷ y ∷ l2)) b y n (contains_second l1 l2 x y)).1

-- The two writes of list_del, with the neighbours as they were.
abbrev joined : Nodes → (p n : ℕ) → Nodes
joined h p n = set_prev n p (set_next p n h)

-- The links from `a` on after the writes: `a` and the nodes are distinct, and so are the nodes and `z`.
Links-joined :
    (h : Nodes) (a z x : ℕ) (l1 l2 : List ℕ)
    → Links h a (l1 ++ (x ∷ l2)) z
    → Distinct (a ∷ l1 ++ (x ∷ l2))
    → Distinct (z ∷ l1 ++ (x ∷ l2))
    → Links (joined h (last_of a l1) (first_of l2 z)) a (l1 ++ l2) z
Links-joined h a z x [] [] ((n, p), (n', p')) (d, ds) (c, cs) = (ground arith, ground arith)
Links-joined h a z x [] (y ∷ l2) ((n, p), ((n', p'), r)) (d, ds) (c, cs) =
    let m : contains (z ∷ l2) y ≡ false = ground (arith, ds.1.0) in
    let k : contains (y ∷ l2) a ≡ false = ground arith in
    (
      (ground arith, ground arith),
      Links-kept h (joined h a y) y z l2 r (λ q e. rw ((other (y ∷ l2) a q k e).0) refl)
          (λ q e. rw ((other (z ∷ l2) y q m e).0) refl),
    )
Links-joined h a z x (b ∷ l1) l2 ((n, p), r) (d, ds) (c, cs) =
    let t = (other (b ∷ (l1 ++ (x ∷ l2))) a (last_of b l1) d (contains_last b l1 (x ∷ l2))).1 in
    let bz : (b == z) ≡ false = ground arith in
    let u = first-other b z x l1 l2 ds.0 bz in
    ((rw t n, rw u p), Links-joined h b z x l1 l2 r ds (ground arith, cs.1))

list_del-joined :
    (h : Nodes) (x : ℕ) → (h.prev x == x) ≡ false → list_del x h ≡ joined h (h.prev x) (h.next x)
unfolding list_del
list_del-joined h x n = let m : (x == h.prev x) ≡ false = ground arith in rw (list_del, m) refl

for_each-step :
    (h : Nodes) (fuel pos head : ℕ) (l : List ℕ)
    → (pos == head) ≡ false
    → for_each fuel (h.next pos) head h ≡ some l
    → for_each (suc fuel) pos head h ≡ some (pos ∷ l)
unfolding for_each
for_each-step h fuel pos head l n e = rw (for_each, n, e) refl

-- The loop visits the nodes in their order.
for_each-Links :
    (h : Nodes) (a head : ℕ) (l : List ℕ)
    → Links h a l head
    → contains l head ≡ false
    → for_each (suc (length l)) (h.next a) head h ≡ some l
unfolding for_each
for_each-Links h a head [] (n, p) d = let t : (h.next a == head) ≡ true = ground arith in rw t refl
for_each-Links h a head (x ∷ l) ((n, p), r) d =
    let t : (x == head) ≡ false = ground arith in
    ap (λ q. for_each (suc (suc (length l))) q head h) n
    ∙ for_each-step h (suc (length l)) x head l t (for_each-Links h x head l r (ground arith))

-- The four writes of list_add, with the neighbour as it was.
abbrev inserted : Nodes → (item head n : ℕ) → Nodes
inserted h item head n = record {
  prev = put (put h.prev item head) n item;
  next = put (put h.next item n) head item;
}

list_add-inserted :
    (h : Nodes) (item head n : ℕ)
    → (head == item) ≡ false
    → h.next head ≡ n
    → list_add item head h ≡ inserted h item head n
unfolding list_add
list_add-inserted h item head n m e = rw (list_add, m, e) refl

Links-inserted :
    (h : Nodes) (item head : ℕ) (l : List ℕ)
    → Links h head l head
    → Distinct (head ∷ l)
    → contains (head ∷ l) item ≡ false
    → Links (inserted h item head (first_of l head)) head (item ∷ l) head
Links-inserted h item head [] (n, p) d m =
    ((ground arith, ground arith), (ground arith, ground arith))
Links-inserted h item head (y ∷ l) ((n, p), r) (d, ds) m =
    let k : contains (head ∷ l) y ≡ false = ground (arith, ds.0) in
    (
      (ground arith, ground arith),
      (
        (ground arith, ground arith),
        Links-kept h (inserted h item head y) y head l r
            (λ q e.
              rw ((other (y ∷ l) head q d e).0, (other (y ∷ l) item q (ground arith) e).0) refl)
            (λ q e.
              rw ((other (head ∷ l) y q k e).0, (other (head ∷ l) item q (ground arith) e).0) refl),
      ),
    )

Distinct-insert :
    (head item : ℕ) (l : List ℕ)
    → Distinct (head ∷ l)
    → contains (head ∷ l) item ≡ false
    → Distinct (head ∷ item ∷ l)
Distinct-insert head item l (d, ds) m = (ground arith, (ground arith, ds))

list_add-IsRing :
    (h : Nodes) (item head : ℕ) (l : List ℕ)
    → IsRing h head l
    → contains (head ∷ l) item ≡ false
    → IsRing (list_add item head h) head (item ∷ l)
list_add-IsRing h item head l (r, d) m =
    let k : (head == item) ≡ false = ground arith in
    (
      subst (λ g. Links g head (item ∷ l) head)
          (sym (list_add-inserted h item head (first_of l head) k (next-first h head head l r)))
          (Links-inserted h item head l r d m),
      Distinct-insert head item l d m,
    )

last-other :
    (a x : ℕ) (l1 l2 : List ℕ) → Distinct (a ∷ l1 ++ (x ∷ l2)) → (last_of a l1 == x) ≡ false
last-other a x [] l2 (d, ds) = ground arith
last-other a x (b ∷ l1) l2 (d, ds) = last-other b x l1 l2 ds

list_del-IsRing :
    (h : Nodes) (head x : ℕ) (l1 l2 : List ℕ)
    → IsRing h head (l1 ++ (x ∷ l2))
    → IsRing (list_del x h) head (l1 ++ l2)
list_del-IsRing h head x l1 l2 (r, d) =
    let (p, n) = around h head head x l1 l2 r in
    let k : (h.prev x == x) ≡ false = ap (λ q. q == x) p ∙ last-other head x l1 l2 d in
    let e : list_del x h ≡ joined h (last_of head l1) (first_of l2 head) =
      list_del-joined h x k
      ∙ ap (λ q. joined h q (h.next x)) p
      ∙ ap (joined h (last_of head l1)) n in
    (rw e (Links-joined h head head x l1 l2 r d d), Distinct-rest (head ∷ l1) l2 x d)

-- A ring holds a list of nodes with `x` among them. Then a new node that is added is put before the
-- list, and the ring without `x` holds the list without it, each time with the pointers in both
-- directions; and the loop over the ring visits the list in its order, and ends.
pub list_head-IsRing :
    (h : Nodes) (head x item : ℕ) (l1 l2 : List ℕ)
    → IsRing h head (l1 ++ (x ∷ l2))
    → contains (head ∷ l1 ++ (x ∷ l2)) item ≡ false
    → let l = l1 ++ (x ∷ l2) in
      IsRing (list_add item head h) head (item ∷ l)
      × IsRing (list_del x h) head (l1 ++ l2)
      × (for_each (suc (length l)) (h.next head) head h ≡ some l)
list_head-IsRing h head x item l1 l2 r m = (
  list_add-IsRing h item head (l1 ++ (x ∷ l2)) r m,
  list_del-IsRing h head x l1 l2 r,
  for_each-Links h head head (l1 ++ (x ∷ l2)) r.0 r.1.0,
)
