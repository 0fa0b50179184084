-- ===== src/Device/Undo.antt =====
-- Opening and closing devices: references are balanced, and closing undoes opening.
use libdrm.Base.{
  ℕ, ◌+◌, ◌<◌, ◌^◌, ◌==◌, ◌≡◌, refl, ap, sym, ◌∙◌, ◌⊎◌, true, false, Option, none, some, some_inj,
  List, [], ◌∷◌, arith, Bool-cases, Option-cases, Ret-cases, inl, inr, add32, sub32, ok, err, Errno,
}
use libdrm.Device.Open.{
  Node, Reference, acquire, release, Devices, Answers, Opened, find_acc, at_address, set_refcount,
  unlink, check_device, initialize, deinitialize,
}

-- The node that the search for an accelerant finds is the one at its address, when no two open
-- devices have an address in common.
unfoldable pub Distinct : List Node → Type 0
Distinct [] = Unit {0}
Distinct (n ∷ ns) = (at_address ns n.address ≡ none) × Distinct ns

find_acc-acc : (ns : List Node) (acc : ℕ) (n : Node) → find_acc ns acc ≡ some n → n.acc_base ≡ acc
unfolding find_acc
find_acc-acc [] acc n e = absurd (cc)
find_acc-acc (m ∷ ns) acc n e = elim (Bool-cases (m.acc_base == acc)) [
  | inl z ↦ ground (arith, some_inj {a = m} {b = n} (rw (find_acc, z) at e))
  | inr z ↦ find_acc-acc ns acc n (rw (find_acc, z) at e)
]

differ :
    (ns : List Node) (m n : Node)
    → at_address ns m.address ≡ none
    → at_address ns n.address ≡ some n
    → (m.address == n.address) ≡ false
differ ns m n e f = elim (Bool-cases (m.address == n.address)) [
  | inr z ↦ z
  | inl z ↦
      let q : m.address ≡ n.address = ground (arith, z) in
      absurd (cc (sym e ∙ ap (at_address ns) q ∙ f))
]

find_acc-at_address :
    (ns : List Node) (acc : ℕ) (n : Node)
    → Distinct ns
    → find_acc ns acc ≡ some n
    → at_address ns n.address ≡ some n
unfolding find_acc at_address Distinct
find_acc-at_address [] acc n d e = absurd (cc)
find_acc-at_address (m ∷ ns) acc n d e = elim (Bool-cases (m.acc_base == acc)) [
  | inl z ↦
      let q : m ≡ n = some_inj (rw (find_acc, z) at e) in
      let here : (n.address == n.address) ≡ true = ground arith in rw q (rw (at_address, here) refl)
  | inr z ↦
      let ih = find_acc-at_address ns acc n d.1 (rw (find_acc, z) at e) in
      let other : (m.address == n.address) ≡ false = differ ns m n d.0 ih in
      rw (at_address, other) ih
]

-- Raising the count of the node that was found and lowering it again gives back the list.
set_refcount-restores :
    (ns : List Node) (acc : ℕ) (n : Node)
    → Distinct ns
    → find_acc ns acc ≡ some n
    → (at_address (set_refcount ns n.address (n.refcount + 1)) n.address
        ≡ some (record n { refcount = n.refcount + 1 }))
      × (set_refcount (set_refcount ns n.address (n.refcount + 1)) n.address n.refcount ≡ ns)
unfolding find_acc at_address set_refcount Distinct
set_refcount-restores [] acc n d e = absurd (cc)
set_refcount-restores (m ∷ ns) acc n d e = elim (Bool-cases (m.acc_base == acc)) [
  | inl z ↦
      let q : m ≡ n = some_inj (rw (find_acc, z) at e) in
      let here : (n.address == n.address) ≡ true = ground arith in
      rw q (rw here (rw here (refl, refl)))
  | inr z ↦
      let f = rw (find_acc, z) at e in
      let other : (m.address == n.address) ≡ false =
        differ ns m n d.0 (find_acc-at_address ns acc n d.1 f) in
      let (a, b) = set_refcount-restores ns acc n d.1 f in
      rw other (rw other (a, ap (λ l. m ∷ l) b))
]

-- Unlinking the head.
unlink_head : (n : Node) (ns : List Node) (p : ℕ) → n.address ≡ p → unlink (n ∷ ns) p ≡ ns
unfolding unlink
unlink_head n [] p e = refl
unlink_head n (m ∷ ns) p e = let t : (n.address == p) ≡ true = ground arith in rw (unlink, t) refl

-- The references after an accelerant was opened and closed again: for one that has a device already
-- they are those before.
abbrev pub balanced : Option Node → ℕ → List Reference → List Reference
balanced (some n) acc rs = rs
balanced none acc rs = release acc ∷ acquire acc ∷ rs

-- The state after a success, closed again.
abbrev Undone : Devices → ℕ → Opened → Type 0
Undone d acc x =
    (p : ℕ) × (x.device_handle ≡ some p)
    × (e : Devices) × (deinitialize x.devices p ≡ some e)
    × (e.dev_list ≡ d.dev_list)
    × (e.references ≡ balanced (find_acc d.dev_list acc) acc d.references)

undo_shared :
    (a : Answers) (d : Devices) (acc : ℕ) (x : Opened) (n : Node)
    → Distinct d.dev_list
    → find_acc d.dev_list acc ≡ some n
    → n.refcount + 1 < 2 ^ 32
    → initialize a d acc ≡ some x
    → Undone d acc x
unfolding initialize deinitialize
undo_shared a d acc x n dis f small e = elim (Bool-cases (n.refcount == 0)) [
  | inl z ↦ absurd (cc (rw (initialize, f, z) at e))
  | inr z ↦
      let up : add32 n.refcount 1 ≡ n.refcount + 1 = omega arith in
      let down : sub32 (n.refcount + 1) 1 ≡ n.refcount = omega arith in
      let c0 : (n.refcount + 1 == 0) ≡ false = ground arith in
      let c1 : (n.refcount + 1 == 1) ≡ false = ground (arith, z) in
      let (u, v) = set_refcount-restores d.dev_list acc n dis f in
      rw (← some_inj (rw (initialize, f, z, up) at e)) (
        n.address,
        refl,
        record d {
          dev_list =
              set_refcount (set_refcount d.dev_list n.address (n.refcount + 1)) n.address
                n.refcount;
        },
        rw (deinitialize, u, c0, c1, down) refl,
        v,
        rw f refl,
      )
]

undo_new :
    (a : Answers) (d : Devices) (acc : ℕ) (x : Opened)
    → find_acc d.dev_list acc ≡ none
    → initialize a d acc ≡ some x
    → x.ret ≡ ok
    → Undone d acc x
unfolding initialize deinitialize at_address
undo_new a d acc x f e q = elim (Bool-cases (a.fresh == 0)) [
  | inl z ↦ absurd (cc (some_inj (rw (initialize, f, z) at e)))
  | inr z ↦ elim (Ret-cases (check_device a)) [
    | inr (y, w) ↦ absurd (cc (some_inj (rw (initialize, f, z, w) at e)))
    | inl w ↦
        let here : (a.fresh == a.fresh) ≡ true = ground arith in
        let node : Node = record {
          address = a.fresh;
          acc_base = acc;
          refcount = 1;
          major_version = a.major_version;
          minor_version = a.minor_version;
        } in
        let closed : List Node → Devices =
          λ l. record { dev_list = l; references = release acc ∷ acquire acc ∷ d.references } in
        rw (← some_inj (rw (initialize, f, z, w) at e)) (
          a.fresh,
          refl,
          closed d.dev_list,
          rw (deinitialize, here)
              (ap (λ l. some (closed l)) (unlink_head node d.dev_list a.fresh refl)),
          refl,
          rw f refl,
        )
  ]
]

-- When no two open devices share an address and the count of the accelerant's device, if it has one,
-- does not wrap: closing a device that was just opened restores the list of devices with their
-- counts, and releases the accelerant exactly if opening has acquired it.
pub deinitialize-initialize :
    (a : Answers) (d : Devices) (acc : ℕ) (x : Opened)
    → Distinct d.dev_list
    → ((n : Node) → find_acc d.dev_list acc ≡ some n → n.refcount + 1 < 2 ^ 32)
    → initialize a d acc ≡ some x
    → x.ret ≡ ok
    → Undone d acc x
deinitialize-initialize a d acc x dis small e q = elim (Option-cases (find_acc d.dev_list acc)) [
  | inl f ↦ undo_new a d acc x f e q
  | inr (n, f) ↦ undo_shared a d acc x n dis f (small n f) e
]

-- An accelerant that cannot be opened leaves the list of devices as it was and gives no device, and
-- if opening has acquired the accelerant it has released it.
pub initialize_failed :
    (a : Answers) (d : Devices) (acc : ℕ) (x : Opened) (y : Errno)
    → initialize a d acc ≡ some x
    → x.ret ≡ err y
    → (x.device_handle ≡ none)
      × (x.devices.dev_list ≡ d.dev_list)
      × ((x.devices.references ≡ d.references)
          ⊎ (x.devices.references ≡ release acc ∷ acquire acc ∷ d.references))
unfolding initialize
initialize_failed a d acc x y e q = elim (Option-cases (find_acc d.dev_list acc)) [
  | inr (n, f) ↦ elim (Bool-cases (n.refcount == 0)) [
    | inl z ↦ absurd (cc (rw (initialize, f, z) at e))
    | inr z ↦ absurd (cc (some_inj (rw (initialize, f, z) at e)))
  ]
  | inl f ↦ elim (Bool-cases (a.fresh == 0)) [
    | inl z ↦ rw (← some_inj (rw (initialize, f, z) at e)) (refl, refl, inl refl)
    | inr z ↦ elim (Ret-cases (check_device a)) [
      | inl w ↦ absurd (cc (some_inj (rw (initialize, f, z, w) at e)))
      | inr (v, w) ↦ rw (← some_inj (rw (initialize, f, z, w) at e)) (refl, refl, inr refl)
    ]
  ]
]
