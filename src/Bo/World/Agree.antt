-- ===== src/Bo/World/Agree.antt =====
-- Every state that calls and the driver reach together.
use libdrm.Base.{
  ℕ, ◌⊎◌, ◌≡◌, refl, ap, sym, ◌∙◌, inl, inr, ◌==◌, false, Option, none, some, [], ◌∷◌, arith,
  if◌then◌else◌, Ret, Ret-cases, ok, err, Errno,
}
use libdrm.HandleTable.{lookup}
use libdrm.HandleTable.Laws.{lookup-remove}
use libdrm.Bo.State.{Device, Answer, done, refused}
use libdrm.Bo.Create.{Memory, bo_alloc, adopt}
use libdrm.Bo.Share.{bo_free}
use libdrm.Bo.Sound.{IsSound, closed-IsSound}
use libdrm.Bo.Calls
use libdrm.Bo.Calls.{Fresh, Small, NewHandle, Call}
use libdrm.Bo.Reach.{Call-IsSound, bo_free-cases}
use libdrm.Bo.Laws.{bo_alloc_failed, bo_alloc-Entered}
use libdrm.Bo.Driver.{Driver, is_some}
use libdrm.Bo.World.{
  World, settle, close_all, world_alloc, Step, alloc, inc_ref, map, unmap, find, free, Steps, start,
  next, Agrees, Keeps-Agrees, bo_inc_ref-Keeps, bo_cpu_map-Keeps, bo_cpu_unmap-Keeps,
  find_bo_by_cpu_mapping-Keeps,
}

Answer-cases : (x : Answer ℕ) → ((h : ℕ) × (x ≡ done h)) ⊎ ((e : Errno) × (x ≡ refused e))
Answer-cases (done h) = inl (h, refl)
Answer-cases (refused e) = inr (e, refl)

-- No entry, hence no object under a handle that the driver has not given.
unlisted : (o : Option ℕ) → is_some o ≡ false → o ≡ none
unlisted none e = refl
unlisted (some p) e = absurd (cc)

module _ (D : Driver) (w : World D) (a : Agrees D w) where
  module _ (m : Memory) (size : ℕ) (f : Fresh m w.device) (room : D.Room w.state)
      (small : (h : ℕ) → (D.create w.state size).0 ≡ done h → Small m h) where
    new_handle : (h : ℕ) → (D.create w.state size).0 ≡ done h → NewHandle m w.device h
    new_handle h q = record {
      absent = unlisted _ (sym (a.same h) ∙ D.create_new w.state size h a.sane q);
      small = small h q;
    }

    -- The three outcomes of an allocation: refused, failed after the driver's part, and done.
    alloc_refused :
        (e : Errno) → (D.create w.state size).0 ≡ refused e → Agrees D (world_alloc D m w size)
    unfolding world_alloc settle close_all bo_alloc adopt
    alloc_refused e q =
        rw (world_alloc, settle, bo_alloc, q, adopt, a.settled, close_all)
          (record {
            sound = closed-IsSound w.device [] a.sound;
            sane = D.create-IsSane w.state size a.sane room;
            settled = refl;
            same = λ j. D.create_refused w.state size e a.sane q j ∙ a.same j;
          })

    alloc_failed :
        (h : ℕ) (e : Errno)
        → (D.create w.state size).0 ≡ done h
        → (bo_alloc m w.device size (done h)).ret ≡ err e
        → Agrees D (world_alloc D m w size)
    unfolding world_alloc settle close_all
    alloc_failed h e q r =
        let (u, _) = bo_alloc_failed m w.device size h a.sound f (small h q) e r in
        let sane = D.create-IsSane w.state size a.sane room in
        rw (world_alloc, settle, q, u, a.settled, close_all, close_all)
          (record {
            sound = closed-IsSound w.device [] a.sound;
            sane = D.close-IsSane _ h sane;
            settled = refl;
            same = λ j. ground (
              arith,
              D.close_owned (D.create w.state size).1 h j sane,
              D.create_owned w.state size h a.sane q j,
              D.create_new w.state size h a.sane q,
              a.same j,
            );
          })

    alloc_done :
        (h : ℕ)
        → (D.create w.state size).0 ≡ done h
        → (bo_alloc m w.device size (done h)).ret ≡ ok
        → Agrees D (world_alloc D m w size)
    unfolding world_alloc settle close_all
    alloc_done h q r =
        let t = bo_alloc-Entered m w.device size h a.sound f (small h q) r in
        let z : (bo_alloc m w.device size (done h)).dev.closed ≡ [] = t.not_closed ∙ a.settled in
        let i : IsSound (bo_alloc m w.device size (done h)).dev =
          Call-IsSound (Calls.alloc m w.device size (done h) f (λ k x. new_handle k (q ∙ x)))
            a.sound in
        rw (world_alloc, settle, q, z, close_all)
          (record {
            sound = closed-IsSound _ [] i;
            sane = D.create-IsSane w.state size a.sane room;
            settled = refl;
            same =
                λ j. ground (arith, D.create_owned w.state size h a.sane q j, a.same j, t.found j);
          })

    alloc-Agrees : Agrees D (world_alloc D m w size)
    alloc-Agrees = elim (Answer-cases (D.create w.state size).0) [
      | inr (e, q) ↦ alloc_refused e q
      | inl (h, q) ↦ elim (Ret-cases (bo_alloc m w.device size (done h)).ret) [
        | inl r ↦ alloc_done h q r
        | inr (e, r) ↦ alloc_failed h e q r
      ]
    ]

  -- A call that takes an object from the table and has its handle closed.
  removed-Agrees :
      (d : Device) (k : ℕ)
      → IsSound d
      → d.closed ≡ k ∷ []
      → ((j : ℕ) → lookup d.bo_handles j ≡ (if j == k then none else lookup w.device.bo_handles j))
      → Agrees D (settle D d w.state)
  unfolding settle close_all
  removed-Agrees d k i z g =
      rw (settle, z, close_all, close_all)
        (record {
          sound = closed-IsSound d [] i;
          sane = D.close-IsSane w.state k a.sane;
          settled = refl;
          same = λ j. ground (arith, D.close_owned w.state k j a.sane, a.same j, g j);
        })

  free-Agrees :
      (d : Device) (p : ℕ) (unmapped : Ret)
      → bo_free w.device p unmapped ≡ some d
      → Agrees D (settle D d w.state)
  free-Agrees d p unmapped e =
      let i : IsSound d = Call-IsSound (Calls.free w.device d p unmapped e) a.sound in
      let (b, h, x) = bo_free-cases w.device d p unmapped a.sound e in
      elim x [
        | inr (_, q) ↦ Keeps-Agrees D w d a i (rw q (record { table = refl; closed = refl }))
        | inl (_, q) ↦
            let (_, g) = lookup-remove w.device.bo_handles b.handle a.sound.table in
            removed-Agrees d b.handle i (ap (λ y. y.closed) q ∙ ap (λ hs. b.handle ∷ hs) a.settled)
              (λ j. ap (λ y. lookup y.bo_handles j) q ∙ g j)
      ]

Step-Agrees : (D : Driver) (w v : World D) → Step D w v → Agrees D w → Agrees D v
Step-Agrees D w v (alloc m _ size f room small) a = alloc-Agrees D w a m size f room small
Step-Agrees D w v (inc_ref _ d p c e) a =
    Keeps-Agrees D w d a (Call-IsSound (Calls.inc_ref w.device d p c e) a.sound)
      (bo_inc_ref-Keeps w.device d p e)
Step-Agrees D w v (map _ d p answer r cpu m e) a =
    Keeps-Agrees D w d a (Call-IsSound (Calls.map w.device d p answer r cpu m e) a.sound)
      (bo_cpu_map-Keeps w.device d p answer r cpu e)
Step-Agrees D w v (unmap _ d p unmapped r e) a =
    Keeps-Agrees D w d a (Call-IsSound (Calls.unmap w.device d p unmapped r e) a.sound)
      (bo_cpu_unmap-Keeps w.device d p unmapped r e)
Step-Agrees D w v (find _ cpu size old_handle old_offset c) a =
    Keeps-Agrees D w _ a
      (Call-IsSound (Calls.find w.device cpu size old_handle old_offset c) a.sound)
      (find_bo_by_cpu_mapping-Keeps w.device cpu size old_handle old_offset)
Step-Agrees D w v (free _ d p unmapped e) a = free-Agrees D w a d p unmapped e

-- Of a device whose objects are made, referenced, mapped, unmapped, searched and freed by calls, with
-- any driver that keeps the laws of `Driver`, and from a state where they agree: in every state that is
-- reached, the handles that are open at the driver are exactly those under which the device's
-- table has an object, and the device's invariant holds. So no failed or last call leaves a handle
-- open, and none closes the handle of an object in use. This asks that calloc gives an address without
-- an object, that handles leave room for another page of the table below 2^32, that the driver has a
-- handle left, that no count wraps by one more reference, and that no mapping is at address 0.
pub Steps-Agrees :
    (D : Driver) (u v : World D)
    → Agrees D u
    → Steps D u v
    → IsSound v.device × ((j : ℕ) → D.owned v.state j ≡ is_some (lookup v.device.bo_handles j))
Steps-Agrees D u v a s = let b = reached D u v a s in (b.sound, b.same)
  where
    reached : (D : Driver) (u v : World D) → Agrees D u → Steps D u v → Agrees D v
    reached D u v a start = a
    reached D u v a (next {u = t} s x) = Step-Agrees D t v x (reached D u t a s)
