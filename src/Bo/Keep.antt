-- ===== src/Bo/Keep.antt =====
-- Each call keeps the invariant of the device's objects.
use libdrm.Base.{
  ℕ, ◌≡◌, refl, sym, ◌∙◌, inl, inr, ◌==◌, Option, some, some_inj, arith, Bool-cases, Option-cases,
  Ret, ok, Ret-cases,
}
use libdrm.HandleTable.{insert, lookup}
use libdrm.HandleTable.Laws.{lookup-insert}
use libdrm.Bo.State.{Bo, Device, Answer, done, refused, store, bump}
use libdrm.Bo.Create.{Memory, new_bo, bo_create, adopt}
use libdrm.Bo.Cpu.{map_bo, unmap_bo}
use libdrm.Bo.Share.{
  HandleType, dma_buf_fd, gem_flink_name, kms, kms_noimport, unknown, Imported, bo_import, reuse,
  import_new,
}
use libdrm.Bo.Sound.{IsObject, IsSound, store-IsSound, closed-IsSound, insert-IsSound}
use libdrm.Bo.Calls.{Fresh, Small, NewHandle, Countable, Mapping}

pub bump-IsSound :
    (d : Device) (p : ℕ) (b : Bo)
    → IsSound d
    → Countable d
    → d.heap p ≡ some b
    → IsSound (store d p (some (bump b)))
bump-IsSound d p b i c e =
    let o = (i.listed p b e).1 in
    store-IsSound d p b (bump b) i e refl (record {
      counted = omega (arith, c p b e, o.counted);
      bounded = omega (arith, c p b e);
      unnamed = o.unnamed;
      mapped = o.mapped;
    })

-- On one object, mapping and unmapping keep the count and the pointer in step.
pub map_bo-IsObject :
    (b b' : Bo) (answer : Answer ℕ) (r : Ret) (cpu : Option ℕ)
    → Mapping answer
    → IsObject b
    → map_bo b answer ≡ some (r, cpu, b')
    → IsObject b' × (b'.handle ≡ b.handle)
unfolding map_bo
map_bo-IsObject b b' (done q) r cpu m o e = ground (arith, m q refl)
map_bo-IsObject b b' (refused x) r cpu m o e = ground arith

pub unmap_bo-IsObject :
    (b : Bo) (unmapped : Ret)
    → IsObject b
    → IsObject (unmap_bo b unmapped).1 × ((unmap_bo b unmapped).1.handle ≡ b.handle)
unfolding unmap_bo
unmap_bo-IsObject b unmapped o = ground arith

module _ (m : Memory) (d : Device) (size handle : ℕ) (i : IsSound d) (f : Fresh m d)
    (n : NewHandle m d handle) where
  -- A new object, or, on failure, nothing changed.
  bo_create-IsSound : IsSound (bo_create m d size handle).dev
  unfolding bo_create
  bo_create-IsSound =
      elim (Ret-cases (insert m.page_entries m.grows d.bo_handles handle m.fresh).0) [
        | inl e ↦ elim (Bool-cases (m.fresh == 0)) [
          | inl z ↦ rw z i
          | inr z ↦
              let (v, g) =
                lookup-insert m.page_entries m.grows d.bo_handles handle m.fresh i.table f.page
                  n.small e in
              rw (z, e)
                (insert-IsSound d m.fresh (new_bo size handle) _ i f.unused (ground arith) n.absent
                  (record {
                    counted = omega arith;
                    bounded = omega arith;
                    unnamed = refl;
                    mapped = refl;
                  })
                  v g)
        ]
        | inr (x, e) ↦ elim (Bool-cases (m.fresh == 0)) [ inl z ↦ rw z i | inr z ↦ rw (z, e) i ]
      ]

pub adopt-IsSound :
    (m : Memory) (d : Device) (size : ℕ) (answer : Answer ℕ)
    → IsSound d
    → Fresh m d
    → ((handle : ℕ) → answer ≡ done handle → NewHandle m d handle)
    → IsSound (adopt m d size answer).dev
unfolding adopt
adopt-IsSound m d size (refused e) i f n = i
adopt-IsSound m d size (done handle) i f n =
    let j = bo_create-IsSound m d size handle i f (n handle refl) in
    elim (Ret-cases (bo_create m d size handle).ret) [
      | inl e ↦ rw (adopt, e) j
      | inr (_, e) ↦ rw (adopt, e) (closed-IsSound _ _ j)
    ]

-- What the calls on an object do, when they do not fault.
pub reuse-cases :
    (d : Device) (p : ℕ) (x : Imported)
    → reuse d p ≡ some x
    → (b : Bo) × (d.heap p ≡ some b)
      × (x ≡ record { ret = ok; output = some (p, b.alloc_size); dev = store d p (some (bump b)) })
unfolding reuse
reuse-cases d p x e = elim (Option-cases (d.heap p)) [
  | inl h ↦ absurd (cc)
  | inr (b, h) ↦ (b, h, some_inj (sym e ∙ rw (reuse, h) refl))
]

pub reuse-IsSound :
    (d : Device) (p : ℕ) (x : Imported)
    → IsSound d
    → Countable d
    → reuse d p ≡ some x
    → IsSound x.dev
reuse-IsSound d p x i c e = let (b, h, q) = reuse-cases d p x e in rw q (bump-IsSound d p b i c h)

import_new-IsSound :
    (m : Memory) (d : Device) (size handle : ℕ)
    → IsSound d
    → Fresh m d
    → NewHandle m d handle
    → IsSound (import_new m d size handle).dev
unfolding import_new
import_new-IsSound m d size handle i f n =
    let j = bo_create-IsSound m d size handle i f n in
    elim (Ret-cases (bo_create m d size handle).ret) [
      | inr (_, e) ↦ rw (import_new, e) (closed-IsSound _ _ j)
      | inl e ↦ elim (Option-cases (bo_create m d size handle).buf_handle) [
        | inl h ↦ rw (import_new, e, h) j
        | inr (_, h) ↦ rw (import_new, e, h) j
      ]
    ]

module _ (m : Memory) (d : Device) (shared : ℕ) (x : Imported) (i : IsSound d) (f : Fresh m d)
    (c : Countable d) where
  pub bo_import-IsSound :
      (type : HandleType) (to_handle info : Answer ℕ)
      → ((handle : ℕ) → to_handle ≡ done handle → Small m handle)
      → bo_import m d type shared to_handle info ≡ some x
      → IsSound x.dev
  unfolding bo_import
  bo_import-IsSound dma_buf_fd (refused e) info s q = rw (← some_inj q) i
  bo_import-IsSound dma_buf_fd (done handle) (refused e) s q = rw (← some_inj q) i
  bo_import-IsSound dma_buf_fd (done handle) (done size) s q =
      elim (Option-cases (lookup d.bo_handles handle)) [
        | inr (p, h) ↦ reuse-IsSound d p x i c (rw (bo_import, h) at q)
        | inl h ↦
            rw (← some_inj (rw (bo_import, h) at q)) (
              import_new-IsSound m d size handle i f (record { absent = h; small = s handle refl }))
      ]
  bo_import-IsSound gem_flink_name to_handle info s q =
      rw (← some_inj (rw (bo_import, i.no_names shared) at q)) i
  bo_import-IsSound kms to_handle info s q = rw (← some_inj q) i
  bo_import-IsSound kms_noimport to_handle info s q = rw (← some_inj q) i
  bo_import-IsSound (unknown n) to_handle info s q = rw (← some_inj q) i
