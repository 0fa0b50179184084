-- ===== src/Bo/Reach.antt =====
-- The states that calls on a device reach.
use libdrm.Base.{
  ℕ, ◌<◌, ◌≡◌, refl, ap, sym, ◌∙◌, ◌⊎◌, inl, inr, ◌==◌, ◌||◌, true, false, Option, none, some,
  some_inj, ◌∷◌, arith, Bool-cases, Option-cases, Ret,
}
use libdrm.HandleTable.{remove}
use libdrm.Bo.State.{Bo, Device, Answer, store, drop_ref}
use libdrm.Bo.Create.{close_handle, bo_alloc, create_bo_from_user_mem}
use libdrm.Bo.Cpu.{map_bo, unmap_bo, bo_cpu_map, bo_cpu_unmap, find_bo_by_cpu_mapping, scan}
use libdrm.Bo.Share.{bo_inc_ref, bo_free, unregister, release_cpu}
use libdrm.Bo.Sound.{IsSound, store-IsSound, closed-IsSound, remove-IsSound}
use libdrm.Bo.Search.{scan-first}
use libdrm.Bo.Calls.{
  Countable, Mapping, Call, alloc, from_user_mem, import, inc_ref, map, unmap, find, free, Calls,
  start, next,
}
use libdrm.Bo.Keep.{
  bump-IsSound, map_bo-IsObject, unmap_bo-IsObject, bo_import-IsSound, adopt-IsSound,
}

bo_inc_ref-IsSound :
    (d d' : Device) (p : ℕ) → IsSound d → Countable d → bo_inc_ref d p ≡ some d' → IsSound d'
unfolding bo_inc_ref
bo_inc_ref-IsSound d d' p i c e = elim (Option-cases (d.heap p)) [
  | inl h ↦ absurd (cc)
  | inr (b, h) ↦ rw (← some_inj (rw (bo_inc_ref, h) at e)) (bump-IsSound d p b i c h)
]

bo_cpu_map-IsSound :
    (d d' : Device) (p : ℕ) (answer : Answer ℕ) (r : Ret) (cpu : Option ℕ)
    → IsSound d
    → Mapping answer
    → bo_cpu_map d p answer ≡ some (r, cpu, d')
    → IsSound d'
unfolding bo_cpu_map
bo_cpu_map-IsSound d d' p answer r cpu i m e = elim (Option-cases (d.heap p)) [
  | inl h ↦ absurd (cc)
  | inr (b, h) ↦ elim (Option-cases (map_bo b answer)) [
    | inl z ↦ absurd (cc (rw (bo_cpu_map, h, z) at e))
    | inr ((r', cpu', b'), z) ↦
        let (o, k) = map_bo-IsObject b b' answer r' cpu' m (i.listed p b h).1 z in
        let q : store d p (some b') ≡ d' = ap (λ x. x.2) (some_inj (rw (bo_cpu_map, h, z) at e)) in
        rw (← q) (store-IsSound d p b b' i h k o)
  ]
]

bo_cpu_unmap-IsSound :
    (d d' : Device) (p : ℕ) (unmapped r : Ret)
    → IsSound d
    → bo_cpu_unmap d p unmapped ≡ some (r, d')
    → IsSound d'
unfolding bo_cpu_unmap
bo_cpu_unmap-IsSound d d' p unmapped r i e = elim (Option-cases (d.heap p)) [
  | inl h ↦ absurd (cc)
  | inr (b, h) ↦
      let (o, k) = unmap_bo-IsObject b unmapped (i.listed p b h).1 in
      let q : store d p (some (unmap_bo b unmapped).1) ≡ d' =
        ap (λ x. x.1) (some_inj (rw (bo_cpu_unmap, h) at e)) in
      rw (← q) (store-IsSound d p b _ i h k o)
]

-- The device without an object whose handle the driver was told to close.
abbrev pub without : Device → ℕ → Bo → Device
without d p b = record (store (record d { bo_handles = remove d.bo_handles b.handle }) p none) {
  closed = b.handle ∷ d.closed;
}

release_cpu-handle : (b : Bo) (unmapped : Ret) → (release_cpu b unmapped).handle ≡ b.handle
unfolding release_cpu unmap_bo
release_cpu-handle b unmapped = ground arith

unregister_unnamed :
    (d : Device) (b : Bo)
    → b.flink_name ≡ 0
    → unregister d b ≡ record d { bo_handles = remove d.bo_handles b.handle }
unfolding unregister
unregister_unnamed d b z =
    let t : (b.flink_name == 0) ≡ true = ground arith in rw (unregister, t) refl

free_last :
    (d : Device) (p : ℕ) (b : Bo) (unmapped : Ret)
    → b.flink_name ≡ 0
    → close_handle (store (unregister d b) p none) (release_cpu (drop_ref b) unmapped).handle
      ≡ without d p b
free_last d p b unmapped z =
    let table = record d { bo_handles = remove d.bo_handles b.handle } in
    ap (λ x. close_handle (store x p none) (release_cpu (drop_ref b) unmapped).handle)
      (unregister_unnamed d b z)
    ∙ ap (λ k. close_handle (store table p none) k) (release_cpu-handle (drop_ref b) unmapped)

-- A free either lowers the count, or, of the last reference, removes the object from the table and
-- the heap and closes its handle.
pub bo_free-cases :
    (d d' : Device) (p : ℕ) (unmapped : Ret)
    → IsSound d
    → bo_free d p unmapped ≡ some d'
    → (b : Bo) × (d.heap p ≡ some b)
      × (((b.refcount ≡ 1) × (d' ≡ without d p b))
          ⊎ ((1 < b.refcount) × (d' ≡ store d p (some (drop_ref b)))))
unfolding bo_free
bo_free-cases d d' p unmapped i e = elim (Option-cases (d.heap p)) [
  | inl h ↦ absurd (cc)
  | inr (b, h) ↦
      let (l, o) = i.listed p b h in
      let nz : (b.refcount == 0) ≡ false = ground (arith, o.counted) in
      elim (Bool-cases (b.refcount == 1)) [
        | inl t ↦ (
          b,
          h,
          inl (
            ground arith,
            some_inj
                (sym e ∙ rw (bo_free, h, nz, t) (ap some (free_last d p b unmapped o.unnamed))),
          ),
        )
        | inr t ↦
            (b, h, inr (ground (arith, o.counted), some_inj (sym e ∙ rw (bo_free, h, nz, t) refl)))
      ]
]

bo_free-IsSound :
    (d d' : Device) (p : ℕ) (unmapped : Ret)
    → IsSound d
    → bo_free d p unmapped ≡ some d'
    → IsSound d'
bo_free-IsSound d d' p unmapped i e =
    let (b, h, x) = bo_free-cases d d' p unmapped i e in
    elim x [
      | inl (_, q) ↦ rw q (closed-IsSound _ _ (remove-IsSound d p b i h))
      | inr (l, q) ↦
          let o = (i.listed p b h).1 in
          rw q (
            store-IsSound d p b (drop_ref b) i h refl (record {
              counted = omega (arith, o.bounded);
              bounded = omega (arith, o.bounded);
              unnamed = o.unnamed;
              mapped = o.mapped;
            }))
    ]

find_bo_by_cpu_mapping-IsSound :
    (d : Device) (cpu size old_handle old_offset : ℕ)
    → IsSound d
    → Countable d
    → IsSound (find_bo_by_cpu_mapping d cpu size old_handle old_offset).dev
unfolding find_bo_by_cpu_mapping
find_bo_by_cpu_mapping-IsSound d cpu size old_handle old_offset i c =
    elim (Bool-cases ((cpu == 0) || (size == 0))) [
      | inl z ↦ rw (find_bo_by_cpu_mapping, z) i
      | inr z ↦ elim (Option-cases (scan d cpu size d.bo_handles.max_key 0)) [
        | inl h ↦ rw (find_bo_by_cpu_mapping, z, h) i
        | inr ((p, b), h) ↦
            let (_, _, _, x, _) = scan-first d cpu size _ 0 p b h in
            rw (find_bo_by_cpu_mapping, z, h) (bump-IsSound d p b i c x.object)
      ]
    ]

-- Each call keeps the invariant.
pub Call-IsSound : {d e : Device} → Call d e → IsSound d → IsSound e
unfolding bo_alloc create_bo_from_user_mem
Call-IsSound (alloc m d size answer f n) i = adopt-IsSound m d size answer i f n
Call-IsSound (from_user_mem m d size answer f n) i = adopt-IsSound m d size answer i f n
Call-IsSound (import m d type shared to_handle info f n c x e) i =
    bo_import-IsSound m d shared x i f c type to_handle info n e
Call-IsSound (inc_ref d d' p c e) i = bo_inc_ref-IsSound d d' p i c e
Call-IsSound (map d d' p answer r cpu m e) i = bo_cpu_map-IsSound d d' p answer r cpu i m e
Call-IsSound (unmap d d' p unmapped r e) i = bo_cpu_unmap-IsSound d d' p unmapped r i e
Call-IsSound (find d cpu size old_handle old_offset c) i =
    find_bo_by_cpu_mapping-IsSound d cpu size old_handle old_offset i c
Call-IsSound (free d d' p unmapped e) i = bo_free-IsSound d d' p unmapped i e

-- Of calls that may fail, where calloc gives an address without an object, the driver makes a new
-- object under a handle that no object has, handles leave room for another page of the table below
-- 2^32, no count wraps by one more reference, and no mapping is at address 0: in every state that the
-- calls reach from a sound one, the table finds every object on the heap under its handle, every entry
-- of the table is the address of an object with that handle, every count is positive, and an object
-- has a CPU address exactly when its map count is not 0.
pub Calls-IsSound : {d e : Device} → Calls d e → IsSound d → IsSound e
Calls-IsSound start i = i
Calls-IsSound (next c x) i = Call-IsSound x (Calls-IsSound c i)
