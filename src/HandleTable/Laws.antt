-- ===== src/HandleTable/Laws.antt =====
-- A handle table is a map from keys to pointers.
use libdrm.Base.{
  ℕ, ◌+◌, ◌-◌, ◌≤◌, ◌<◌, ◌^◌, ◌≡◌, refl, ◌∙◌, inl, inr, Bool, true, false, Option, none, some, List,
  arith, Bool-cases, leb, ltb, ◌==◌, if◌then◌else◌, add32, align32, align32-RoundsUp, IsPow2,
  IsPow2-bounds, get_or, set, replicate, length, length-append, length-set, length-replicate,
  get_or-set_self, get_or-set_ne, get_or-append_replicate, get_or_past, ok, err, Errno,
}
use libdrm.HandleTable.{HandleTable, grow, insert, remove, lookup, fini}

module _ {A : Type 0} where
  -- The array holds `max_key` entries.
  abbrev pub IsValid : HandleTable A → Type 0
  IsValid t = length t.values ≡ t.max_key

  -- In a valid table the bound test of a lookup changes nothing.
  lookup-eq-get_or : (t : HandleTable A) (k : ℕ) → IsValid t → lookup t k ≡ get_or t.values k none
  unfolding lookup
  lookup-eq-get_or t k v = ground (arith, get_or_past t.values k none)

  get_or-set :
      (xs : List (Option A)) (i j : ℕ) (v : Option A)
      → i < length xs
      → get_or (set xs i v) j none ≡ (if j == i then v else get_or xs j none)
  get_or-set xs i j v l = ground (arith, get_or-set_self xs i v none l, get_or-set_ne xs i j v none)

  pub lookup-set :
      (t : HandleTable A) (max_key key : ℕ) (xs : List (Option A)) (v : Option A) (j : ℕ)
      → IsValid t
      → length xs ≡ max_key
      → key < max_key
      → ((i : ℕ) → get_or xs i none ≡ get_or t.values i none)
      → lookup (record { max_key = max_key; values = set xs key v }) j
        ≡ (if j == key then v else lookup t j)
  lookup-set t max_key key xs v j valid l k same = rw (
    lookup-eq-get_or (record { max_key = max_key; values = set xs key v }) j
        (length-set xs key v ∙ l),
    lookup-eq-get_or t j valid,
    get_or-set xs key j v (omega arith),
    same j,
  )

  pub length-grow :
      (t : HandleTable A) (n : ℕ) → IsValid t → t.max_key ≤ n → length (grow t n).values ≡ n
  unfolding grow
  length-grow t n v l = omega (
    arith,
    length-append {0} t.values (replicate (n - t.max_key) none),
    length-replicate {0} {A = Option A} (n - t.max_key) none,
  )

  lookup-past :
      (t : HandleTable A) (key j : ℕ)
      → t.max_key ≤ key
      → lookup t j ≡ (if j == key then none else lookup t j)
  unfolding lookup
  lookup-past t key j l = ground arith

  -- Removing a key empties its entry and no other, and keeps the table valid.
  pub lookup-remove :
      (t : HandleTable A) (key : ℕ)
      → IsValid t
      → IsValid (remove t key)
        × ((j : ℕ) → lookup (remove t key) j ≡ (if j == key then none else lookup t j))
  unfolding remove
  lookup-remove t key v = elim (Bool-cases (ltb key t.max_key)) [
    | inl l ↦ rw l (
      length-set t.values key none ∙ v,
      λ j. lookup-set t t.max_key key t.values none j v v (ground arith) (λ i. refl),
    )
    | inr l ↦ rw l (v, λ j. lookup-past t key j (ground arith))
  ]

  pub remove-IsValid : (t : HandleTable A) (key : ℕ) → IsValid t → IsValid (remove t key)
  remove-IsValid t key v = (lookup-remove t key v).0

  -- After the table is emptied no key is found.
  pub lookup-fini : (t : HandleTable A) (j : ℕ) → IsValid (fini t) × (lookup (fini t) j ≡ none)
  unfolding fini lookup
  lookup-fini t j = (refl, ground arith)

  -- What an insertion does, in a valid table whose next page boundary does not wrap.
  module _ (entries : ℕ) (memory : Bool) (t : HandleTable A) (key : ℕ) (value : A) (v : IsValid t)
      (p : IsPow2 entries) (small : key + 1 + entries ≤ 2 ^ 32) where
    abbrev boundary : ℕ
    boundary = align32 (add32 key 1) entries

    boundary-lt : key < boundary
    boundary-lt =
        let b = IsPow2-bounds p in
        let e : add32 key 1 ≡ key + 1 = omega arith in
        rw e (omega (arith, align32-RoundsUp (key + 1) p small))

    boundary-ge : leb t.max_key key ≡ true → t.max_key ≤ boundary
    boundary-ge l = ground (arith, boundary-lt)

    -- It fails only without memory for a larger table, and then changes nothing.
    pub insert_failed :
        (e : Errno)
        → (insert entries memory t key value).0 ≡ err e
        → (memory ≡ false) × (t.max_key ≤ key) × ((insert entries memory t key value).1 ≡ t)
    unfolding insert
    insert_failed e q = ground arith

    -- When the entries of a page are a power of two, and the key with one more page fits in 32 bits
    -- (key + 1 + entries is at most 2^32): an insertion without error keeps a valid table valid, and
    -- the key is then found with its value, every other key as before.
    pub lookup-insert :
        (insert entries memory t key value).0 ≡ ok
        → let t' = (insert entries memory t key value).1 in
          IsValid t' × ((j : ℕ) → lookup t' j ≡ (if j == key then some value else lookup t j))
    unfolding insert grow
    lookup-insert q = elim (Bool-cases (leb t.max_key key)) [
      | inr l ↦ rw l (
        length-set t.values key (some value) ∙ v,
        λ j. lookup-set t t.max_key key t.values (some value) j v v (ground arith) (λ i. refl),
      )
      | inl l ↦ elim (Bool-cases memory) [
        | inr m ↦ cc (rw (l, m, insert) at q)
        | inl m ↦
            rw (l, m)
              (
                length-set (grow t boundary).values key (some value)
                    ∙ length-grow t boundary v (boundary-ge l),
                λ j.
                    lookup-set t boundary key (grow t boundary).values (some value) j v
                      (length-grow t boundary v (boundary-ge l)) boundary-lt
                      (λ i. get_or-append_replicate t.values _ i none),
              )
      ]
    ]
