-- ===== src/Bo/Sound.antt =====
-- The invariant of a device's buffer objects, and what keeps it.
use libdrm.Base.{
  ℕ, ◌<◌, ◌^◌, ◌≡◌, ◌≢◌, ap, sym, ◌∙◌, ◌⊎◌, inl, inr, ◌==◌, Option, none, some, some_inj, List,
  if◌then◌else◌, arith,
}
use native.Mathlib.Decide.{ℕ_discrete}
use libdrm.HandleTable.{HandleTable, remove, lookup}
use libdrm.HandleTable.Laws.{IsValid, lookup-remove}
use libdrm.Bo.State.{Bo, Device, update, store}

-- An object that is in use. This port never gives one a flink name.
pub record IsObject (b : Bo) : Type 0 where
  pub counted : 0 < b.refcount
  pub bounded : b.refcount < 2 ^ 32
  pub unnamed : b.flink_name ≡ 0
  pub mapped : (b.cpu_ptr == 0) ≡ (b.cpu_map_count == 0)

pub record IsSound (d : Device) : Type 0 where
  pub table : IsValid d.bo_handles
  -- Every object is in use, and the table finds it under its handle.
  pub listed :
      (p : ℕ) (b : Bo) → d.heap p ≡ some b → (lookup d.bo_handles b.handle ≡ some p) × IsObject b
  -- Every entry is the address of an object with that handle.
  pub live :
      (h p : ℕ) → lookup d.bo_handles h ≡ some p → (b : Bo) × (d.heap p ≡ some b) × (b.handle ≡ h)
  pub no_names : (j : ℕ) → lookup d.bo_flink_names j ≡ none
  pub no_null : d.heap 0 ≡ none

-- A heap after a write, at its address and at another.
update_self : (heap : ℕ → Option Bo) (p : ℕ) (v : Option Bo) (q : ℕ) → q ≡ p → update heap p v q ≡ v
update_self heap p v q e = ground arith

update_other :
    (heap : ℕ → Option Bo) (p : ℕ) (v : Option Bo) (q : ℕ) → q ≢ p → update heap p v q ≡ heap q
update_other heap p v q n = ground arith

update-cases :
    (heap : ℕ → Option Bo) (p : ℕ) (v : Option Bo) (q : ℕ) (c : Bo)
    → update heap p v q ≡ some c
    → ((q ≡ p) × (v ≡ some c)) ⊎ ((q ≢ p) × (heap q ≡ some c))
update-cases heap p v q c e = elim (ℕ_discrete q p) [
  | yes s ↦ inl (s, sym (update_self heap p v q s) ∙ e)
  | no n ↦ inr (n, sym (update_other heap p v q n) ∙ e)
]

-- Changing an object in place, its handle kept, keeps the invariant.
pub store-IsSound :
    (d : Device) (p : ℕ) (b b' : Bo)
    → IsSound d
    → d.heap p ≡ some b
    → b'.handle ≡ b.handle
    → IsObject b'
    → IsSound (store d p (some b'))
store-IsSound d p b b' i e h o = record {
  table = i.table;
  listed = λ q c f. elim (update-cases d.heap p (some b') q c f) [
    | inl (s, t) ↦ let u : b' ≡ c = some_inj t in rw (← u) (rw (h, s) (i.listed p b e).0, o)
    | inr (_, t) ↦ i.listed q c t
  ];
  live = λ k q f. elim (ℕ_discrete q p) [
    | yes s ↦ (
      b',
      update_self d.heap p (some b') q s,
      let (c, t, u) = i.live k q f in grind (arith, some_inj),
    )
    | no n ↦ let (c, t, u) = i.live k q f in (c, update_other d.heap p (some b') q n ∙ t, u)
  ];
  no_names = i.no_names;
  no_null = update_other d.heap p (some b') 0 (λ z. grind arith) ∙ i.no_null;
}

-- Closing a handle at the driver changes no table.
pub closed-IsSound : (d : Device) (hs : List ℕ) → IsSound d → IsSound (record d { closed = hs })
closed-IsSound d hs i = record {
  table = i.table;
  listed = i.listed;
  live = i.live;
  no_names = i.no_names;
  no_null = i.no_null;
}

-- Removing an object from its table and the heap keeps the invariant.
pub remove-IsSound :
    (d : Device) (p : ℕ) (b : Bo)
    → IsSound d
    → d.heap p ≡ some b
    → IsSound (store (record d { bo_handles = remove d.bo_handles b.handle }) p none)
remove-IsSound d p b i e =
    let (t, f) = lookup-remove d.bo_handles b.handle i.table in
    record {
      table = t;
      listed = λ q c g. elim (update-cases d.heap p none q c g) [
        | inl (_, z) ↦ absurd (cc)
        | inr (n, z) ↦
            let (l, o) = i.listed q c z in
            let m = (i.listed p b e).0 in (ground (arith, f c.handle, some_inj {a = p} {b = q}), o)
      ];
      live = λ k q g.
          let (n, g') : (k ≢ b.handle) × (lookup d.bo_handles k ≡ some q) = ground (arith, f k) in
          let (c, t, u) = i.live k q g' in
          (
            c,
            update_other d.heap p none q (λ z.
                  n (
                    sym u
                    ∙ ap (λ x. x.handle) (some_inj {a = c} {b = b} (sym t ∙ ap d.heap z ∙ e))))
                ∙ t,
            u,
          );
      no_names = i.no_names;
      no_null = update_other d.heap p none 0 (λ z. grind arith) ∙ i.no_null;
    }

-- Entering a new object keeps the invariant.
pub insert-IsSound :
    (d : Device) (p : ℕ) (b : Bo) (t : HandleTable ℕ)
    → IsSound d
    → d.heap p ≡ none
    → p ≢ 0
    → lookup d.bo_handles b.handle ≡ none
    → IsObject b
    → IsValid t
    → ((j : ℕ) → lookup t j ≡ (if j == b.handle then some p else lookup d.bo_handles j))
    → IsSound (store (record d { bo_handles = t }) p (some b))
insert-IsSound d p b t i e n h o v f = record {
  table = v;
  listed = λ q c g. elim (update-cases d.heap p (some b) q c g) [
    | inl (s, z) ↦ let u : b ≡ c = some_inj z in rw (← u) (rw s (ground (arith, f b.handle)), o)
    | inr (_, z) ↦ let (l, o') = i.listed q c z in (ground (arith, f c.handle), o')
  ];
  live = λ k q g. elim (ℕ_discrete k b.handle) [
    | yes s ↦ (b, update_self d.heap p (some b) q (some_inj (sym g ∙ ground (arith, f k))), sym s)
    | no m ↦
        let g' : lookup d.bo_handles k ≡ some q = ground (arith, f k) in
        let (c, t, u) = i.live k q g' in
        (c, update_other d.heap p (some b) q (λ z. grind arith) ∙ t, u)
  ];
  no_names = i.no_names;
  no_null = update_other d.heap p (some b) 0 (λ z. grind arith) ∙ i.no_null;
}
