-- ===== src/Stub/Regs/Named.antt =====
-- The name that is printed of a register tells the register.
use Prim.Native.String.{String}
use text.Mathlib.Text.{◌==◌ as str_eq}
use text.Mathlib.TextEquality.{eq_iff}
use libdrm.Base.{
  ℕ, ◌≡◌, ◌≢◌, refl, sym, ◌∙◌, Bool, true, false, ◌&&◌, ◌==◌, not, List, [], ◌∷◌, some, some_inj,
  arith, Option-cases, Bool-cases, inl, inr,
}
use libdrm.Stub.Regs.{reg_tables, find_name, find_in, radeon_get_reg_name}

unused : String → List (ℕ × String) → Bool
unused s [] = true
unused s ((r, t) ∷ names) = not (str_eq s t) && unused s names

unused_all : String → List (List (ℕ × String)) → Bool
unfolding unused
unused_all s [] = true
unused_all s (names ∷ tables) = unused s names && unused_all s tables

distinct_from : List (ℕ × String) → List (List (ℕ × String)) → Bool
unfolding unused unused_all
distinct_from [] tables = true
distinct_from ((r, s) ∷ names) tables =
    unused s names && (unused_all s tables && distinct_from names tables)

distinct : List (List (ℕ × String)) → Bool
unfolding distinct_from
distinct [] = true
distinct (names ∷ tables) = distinct_from names tables && distinct tables

tables-distinct : distinct reg_tables ≡ true
unfolding distinct reg_tables
tables-distinct = refl

and_true : (a b : Bool) → (a && b) ≡ true → (a ≡ true) × (b ≡ true)
and_true true b e = (refl, e)
and_true false b e = absurd (cc)

-- A name that a table has not is found for no register in it.
unused-find_name :
    (s : String) (names : List (ℕ × String)) (b : ℕ)
    → unused s names ≡ true
    → find_name names b ≢ some s
unfolding unused find_name
unused-find_name s [] b u e = cc
unused-find_name s ((r, t) ∷ names) b u e =
    ground (arith, eq_iff s t, unused-find_name s names b, some_inj {a = t} {b = s})

unused-find_in :
    (s : String) (tables : List (List (ℕ × String))) (b : ℕ)
    → unused_all s tables ≡ true
    → find_in tables b ≢ some s
unfolding unused_all find_in
unused-find_in s [] b u e = cc
unused-find_in s (names ∷ tables) b u e =
    let (x, y) = and_true (unused s names) (unused_all s tables) u in
    elim (Option-cases (find_name names b)) [
      | inl z ↦ unused-find_in s tables b y (rw (find_in, z) at e)
      | inr (t, z) ↦ unused-find_name s names b x (z ∙ rw (find_in, z) at e)
    ]

-- No name is found for two registers.
abbrev Told : List (List (ℕ × String)) → Type 0
Told tables = (a b : ℕ) (s : String) → find_in tables a ≡ some s → find_in tables b ≡ some s → a ≡ b

find_in-skip :
    (names : List (ℕ × String)) (tables : List (List (ℕ × String))) (r a : ℕ) (t : String)
    → (a == r) ≡ false
    → find_in (((r, t) ∷ names) ∷ tables) a ≡ find_in (names ∷ tables) a
unfolding find_in find_name
find_in-skip names tables r a t e = rw (find_in, find_name, e) refl

find_in-hit :
    (names : List (ℕ × String)) (tables : List (List (ℕ × String))) (r a : ℕ) (t : String)
    → (a == r) ≡ true
    → find_in (((r, t) ∷ names) ∷ tables) a ≡ some t
unfolding find_in find_name
find_in-hit names tables r a t e = rw (find_in, find_name, e) refl

find_in-rest :
    (tables : List (List (ℕ × String))) (a : ℕ) → find_in ([] ∷ tables) a ≡ find_in tables a
unfolding find_in find_name
find_in-rest tables a = refl

-- The name of the first register is found for no other.
first-ne-other :
    (names : List (ℕ × String)) (tables : List (List (ℕ × String))) (r a b : ℕ) (t s : String)
    → distinct_from ((r, t) ∷ names) tables ≡ true
    → (a == r) ≡ true
    → (b == r) ≡ false
    → find_in (((r, t) ∷ names) ∷ tables) a ≡ some s
    → find_in (((r, t) ∷ names) ∷ tables) b ≢ some s
unfolding distinct_from unused_all
first-ne-other names tables r a b t s d x y e f =
    let (u, rest) =
      and_true (unused t names) (unused_all t tables && distinct_from names tables) d in
    let (v, _) = and_true (unused_all t tables) (distinct_from names tables) rest in
    let same : some t ≡ some s = sym (find_in-hit names tables r a t x) ∙ e in
    unused-find_in t (names ∷ tables) b (rw (unused_all, u) v)
      (sym (find_in-skip names tables r b t y) ∙ f ∙ sym same)

table-Told :
    (names : List (ℕ × String)) (tables : List (List (ℕ × String)))
    → distinct_from names tables ≡ true
    → Told tables
    → Told (names ∷ tables)
unfolding distinct_from
table-Told [] tables d h a b s e f =
    h a b s (sym (find_in-rest tables a) ∙ e) (sym (find_in-rest tables b) ∙ f)
table-Told ((r, t) ∷ names) tables d h a b s e f =
    let (_, rest) =
      and_true (unused t names) (unused_all t tables && distinct_from names tables) d in
    let (_, later) = and_true (unused_all t tables) (distinct_from names tables) rest in
    elim (Bool-cases (a == r)) [
      | inl x ↦ elim (Bool-cases (b == r)) [
        | inl y ↦ ground arith
        | inr y ↦ absurd (first-ne-other names tables r a b t s d x y e f)
      ]
      | inr x ↦ elim (Bool-cases (b == r)) [
        | inl y ↦ absurd (first-ne-other names tables r b a t s d y x f e)
        | inr y ↦
            table-Told names tables later h a b s (sym (find_in-skip names tables r a t x) ∙ e)
              (sym (find_in-skip names tables r b t y) ∙ f)
      ]
    ]

tables-Told : (tables : List (List (ℕ × String))) → distinct tables ≡ true → Told tables
unfolding distinct find_in
tables-Told [] d = λ a b s e f. absurd (cc)
tables-Told (names ∷ tables) d =
    let (x, y) = and_true (distinct_from names tables) (distinct tables) d in
    table-Told names tables x (tables-Told tables y)

-- RadeonGetRegName gives no name to two registers.
pub radeon_get_reg_name_inj :
    (a b : ℕ) (s : String) → radeon_get_reg_name a ≡ some s → radeon_get_reg_name b ≡ some s → a ≡ b
unfolding radeon_get_reg_name
radeon_get_reg_name_inj = tables-Told reg_tables tables-distinct
