-- ===== src/Bo/Laws.antt =====
-- What the calls do: release after creation, failure, sharing, mapping and the search.
use libdrm.Base.{
  ℕ, ◌+◌, ◌<◌, ◌^◌, ◌≡◌, ◌≢◌, refl, ap, sym, inl, inr, ◌==◌, false, Option, none, some, some_inj,
  List, ◌∷◌, if◌then◌else◌, add32, sub32, arith, Bool-cases, Option-cases, Ret, ok, err, Errno,
  Ret-cases,
}
use libdrm.HandleTable.{insert, lookup}
use libdrm.HandleTable.Laws.{IsValid, lookup-insert, lookup-remove}
use libdrm.Bo.State.{Bo, Device, Answer, done, refused, store, bump, drop_ref}
use libdrm.Bo.Create.{Memory, Made, new_bo, bo_create, adopt, bo_alloc}
use libdrm.Bo.Cpu.{map_bo, unmap_bo}
use libdrm.Bo.Share.{
  dma_buf_fd, Imported, import_new, bo_import, reuse, bo_free, unregister, release_cpu,
}
use libdrm.Bo.Sound.{IsObject, IsSound}
use libdrm.Bo.Calls.{Fresh, Small, NewHandle, Countable, Mapping}
use libdrm.Bo.Reach.{without}

-- What a successful creation leaves: one new object at the fresh address, found under its handle.
pub record Entered (m : Memory) (d : Device) (size handle : ℕ) (e : Made) : Type 0 where
  pub returned : e.buf_handle ≡ some m.fresh
  pub object : e.dev.heap m.fresh ≡ some (new_bo size handle)
  pub others : (q : ℕ) → q ≢ m.fresh → e.dev.heap q ≡ d.heap q
  pub table : IsValid e.dev.bo_handles
  pub found :
      (j : ℕ)
      → lookup e.dev.bo_handles j ≡ (if j == handle then some m.fresh else lookup d.bo_handles j)
  pub names : e.dev.bo_flink_names ≡ d.bo_flink_names
  pub not_closed : e.dev.closed ≡ d.closed

module _ (m : Memory) (d : Device) (size handle : ℕ) (i : IsSound d) (f : Fresh m d)
    (small : Small m handle) where
  bo_create-Entered :
      (bo_create m d size handle).ret ≡ ok → Entered m d size handle (bo_create m d size handle)
  unfolding bo_create
  bo_create-Entered e = elim (Bool-cases (m.fresh == 0)) [
    | inl z ↦ absurd (cc (rw (bo_create, z) at e))
    | inr z ↦ elim (Ret-cases (insert m.page_entries m.grows d.bo_handles handle m.fresh).0) [
      | inr (x, y) ↦ absurd (cc (rw (bo_create, z, y) at e))
      | inl y ↦
          let (v, g) =
            lookup-insert m.page_entries m.grows d.bo_handles handle m.fresh i.table f.page small
              y in
          rw (bo_create, z, y)
            (record {
              returned = refl;
              object = ground arith;
              others = λ q n. ground arith;
              table = v;
              found = g;
              names = refl;
              not_closed = refl;
            })
    ]
  ]

  -- A creation that fails writes nothing and changes nothing.
  bo_create-unchanged :
      (e : Errno)
      → (bo_create m d size handle).ret ≡ err e
      → ((bo_create m d size handle).dev ≡ d) × ((bo_create m d size handle).buf_handle ≡ none)
  unfolding bo_create
  bo_create-unchanged e q = elim (Bool-cases (m.fresh == 0)) [
    | inl z ↦ rw (bo_create, z) (refl, refl)
    | inr z ↦ elim (Ret-cases (insert m.page_entries m.grows d.bo_handles handle m.fresh).0) [
      | inr (x, y) ↦ rw (bo_create, z, y) (refl, refl)
      | inl y ↦ absurd (cc (rw (bo_create, z, y) at q))
    ]
  ]

  -- When the object cannot be made, the caller is given nothing, the device is as before, and the
  -- driver was told to close the handle that it had made.
  pub bo_alloc_failed :
      (e : Errno)
      → (bo_alloc m d size (done handle)).ret ≡ err e
      → ((bo_alloc m d size (done handle)).dev ≡ record d { closed = handle ∷ d.closed })
        × ((bo_alloc m d size (done handle)).buf_handle ≡ none)
  unfolding bo_alloc adopt
  bo_alloc_failed e q = elim (Ret-cases (bo_create m d size handle).ret) [
    | inl z ↦ absurd (cc (rw (bo_alloc, adopt, z) at q))
    | inr (x, z) ↦
        let (u, v) = bo_create-unchanged x z in rw (bo_alloc, adopt, z, u, v) (refl, refl)
  ]

  -- A successful allocation enters the object under the driver's handle.
  pub bo_alloc-Entered :
      (bo_alloc m d size (done handle)).ret ≡ ok
      → Entered m d size handle (bo_alloc m d size (done handle))
  unfolding bo_alloc adopt
  bo_alloc-Entered q = elim (Ret-cases (bo_create m d size handle).ret) [
    | inl z ↦ rw (bo_alloc, adopt, z) (bo_create-Entered z)
    | inr (x, z) ↦ absurd (cc (rw (bo_alloc, adopt, z) at q))
  ]

-- The table and the heap of a device hold what they held, and the handles closed since are these.
abbrev pub Restored : Device → List ℕ → Device → Type 0
Restored d closed e =
    ((j : ℕ) → lookup e.bo_handles j ≡ lookup d.bo_handles j)
    × ((q : ℕ) → e.heap q ≡ d.heap q)
    × (e.closed ≡ closed)

-- The release of an object that was just entered.
bo_free-Entered :
    (m : Memory) (d : Device) (size handle : ℕ) (made : Made) (unmapped : Ret)
    → Fresh m d
    → lookup d.bo_handles handle ≡ none
    → Entered m d size handle made
    → (e : Device) × (bo_free made.dev m.fresh unmapped ≡ some e) × Restored d (handle ∷ d.closed) e
unfolding bo_free unregister release_cpu
bo_free-Entered m d size handle made unmapped f n a =
    let (_, g) = lookup-remove made.dev.bo_handles handle a.table in
    (
      without made.dev m.fresh (new_bo size handle),
      rw (bo_free, a.object) refl,
      (
        λ j. ground (arith, g j, a.found j, n),
        λ p. ground (arith, a.others p, f.unused),
        ap (λ hs. handle ∷ hs) a.not_closed,
      ),
    )

-- In a sound device, when calloc gives an address without an object, and the driver a handle that no
-- object has and that leaves room for another page of the table below 2^32: freeing an object just
-- allocated finds it, tells the driver to close its handle, and leaves every entry of the table and of
-- the heap as before the allocation.
pub bo_free-bo_alloc :
    (m : Memory) (d : Device) (size handle : ℕ) (unmapped : Ret)
    → IsSound d
    → Fresh m d
    → NewHandle m d handle
    → (bo_alloc m d size (done handle)).ret ≡ ok
    → (e : Device) × (bo_free (bo_alloc m d size (done handle)).dev m.fresh unmapped ≡ some e)
      × ((j : ℕ) → lookup e.bo_handles j ≡ lookup d.bo_handles j)
      × ((q : ℕ) → e.heap q ≡ d.heap q)
      × (e.closed ≡ handle ∷ d.closed)
bo_free-bo_alloc m d size handle unmapped i f n q =
    let (e, freed, restored) =
      bo_free-Entered m d size handle _ unmapped f n.absent
        (bo_alloc-Entered m d size handle i f n.small q) in
    (e, freed, restored.0, restored.1, restored.2)

-- An object with one more reference is freed: the reference is dropped again.
bo_free-bump :
    (d : Device) (p : ℕ) (b : Bo) (unmapped : Ret)
    → d.heap p ≡ some b
    → 0 < b.refcount
    → b.refcount + 1 < 2 ^ 32
    → (e : Device) × (bo_free (store d p (some (bump b))) p unmapped ≡ some e)
      × Restored d d.closed e
unfolding bo_free
bo_free-bump d p b unmapped h c l =
    let t = store d p (some (bump b)) in
    let here : t.heap p ≡ some (bump b) = ground arith in
    let nz : (add32 b.refcount 1 == 0) ≡ false = ground arith in
    let more : (add32 b.refcount 1 == 1) ≡ false = ground arith in
    let count : sub32 (add32 b.refcount 1) 1 ≡ b.refcount = omega arith in
    let back : drop_ref (bump b) ≡ b = ap (λ n. record b { refcount = n }) count in
    (
      store t p (some (drop_ref (bump b))),
      rw (bo_free, here, nz, more) refl,
      (λ j. refl, λ q. rw back (ground (arith, h)), refl),
    )

-- A successful import of a handle without an object enters one.
import_new-Entered :
    (m : Memory) (d : Device) (size handle p given : ℕ)
    → IsSound d
    → Fresh m d
    → Small m handle
    → (import_new m d size handle).ret ≡ ok
    → (import_new m d size handle).output ≡ some (p, given)
    → (p ≡ m.fresh)
      × ((import_new m d size handle).dev ≡ (bo_create m d size handle).dev)
      × Entered m d size handle (bo_create m d size handle)
unfolding import_new
import_new-Entered m d size handle p given i f small e o =
    elim (Ret-cases (bo_create m d size handle).ret) [
      | inr (x, z) ↦ absurd (cc (rw (import_new, z) at e))
      | inl z ↦
          let a = bo_create-Entered m d size handle i f small z in
          let o' = rw (import_new, z, a.returned) at o in
          (sym (ap (λ (w : ℕ × ℕ). w.0) (some_inj o')), rw (import_new, z, a.returned) refl, a)
    ]

-- A descriptor is imported with success, and the object that this gives is freed. The free finds the
-- object, every entry of the table and of the heap is then as before the import, and the driver was
-- told to close the handle exactly if no object had it: so two imports of one buffer share an object,
-- and one release does not take it from the other. This asks that the device is sound, that calloc
-- gives an address without an object, that no count wraps by one more reference, and that the handle
-- leaves room for another page of the table below 2^32.
pub bo_free-bo_import :
    (m : Memory) (d : Device) (shared handle size p given : ℕ) (x : Imported) (unmapped : Ret)
    → IsSound d
    → Fresh m d
    → Small m handle
    → Countable d
    → bo_import m d dma_buf_fd shared (done handle) (done size) ≡ some x
    → x.ret ≡ ok
    → x.output ≡ some (p, given)
    → (e : Device) × (bo_free x.dev p unmapped ≡ some e)
      × Restored d
          (elim (lookup d.bo_handles handle) [ some q ↦ d.closed | none ↦ handle ∷ d.closed ])
          e
unfolding bo_import reuse
bo_free-bo_import m d shared handle size p given x unmapped i f small count e r o =
    elim (Option-cases (lookup d.bo_handles handle)) [
      | inr (p', l) ↦
          let (b, h, _) = i.live handle p' l in
          let q = some_inj (rw (bo_import, l, reuse, h) at e) in
          let k : p' ≡ p = ap (λ (w : ℕ × ℕ). w.0) (some_inj (rw (← q) at o)) in
          let (_, ob) = i.listed p' b h in
          rw (← q, ← k, l) (bo_free-bump d p' b unmapped h ob.counted (count p' b h))
      | inl l ↦
          let q = some_inj (rw (bo_import, l) at e) in
          let (k, v, a) =
            import_new-Entered m d size handle p given i f small (rw (← q) at r) (rw (← q) at o) in
          rw (← q, k, v, l) (bo_free-Entered m d size handle _ unmapped f l a)
    ]

-- Of an object in use: a mapping that succeeds returns the object's CPU address, and the unmapping
-- after it restores the object. It asks for the memory to be unmapped exactly when the object was
-- not mapped before.
pub unmap_bo-map_bo :
    (b b' : Bo) (answer : Answer ℕ) (cpu : Option ℕ) (unmapped : Ret)
    → IsObject b
    → Mapping answer
    → map_bo b answer ≡ some (ok, cpu, b')
    → (cpu ≡ some b'.cpu_ptr)
      × (b'.cpu_ptr ≢ 0)
      × (unmap_bo b' unmapped ≡ (if b.cpu_map_count == 0 then (unmapped, b) else (ok, b)))
unfolding map_bo unmap_bo
unmap_bo-map_bo b b' (done q) cpu unmapped o m e = ground (arith, m q refl)
unmap_bo-map_bo b b' (refused x) cpu unmapped o m e = ground arith
