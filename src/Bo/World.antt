-- ===== src/Bo/World.antt =====
-- A device's buffer objects together with the driver that makes and closes their handles.
pub mod Agree
use libdrm.Base.{
  ℕ, ◌≡◌, refl, ap, sym, ◌∙◌, inl, inr, ◌==◌, ◌||◌, false, Option, none, some, some_inj, List, [],
  ◌∷◌, arith, if◌then◌else◌, Bool-cases, Option-cases, Ret, Ret-cases, ok, err,
}
use libdrm.HandleTable.{lookup}
use libdrm.HandleTable.Laws.{lookup-remove}
use libdrm.Bo.State.{Device, Answer, done, refused}
use libdrm.Bo.Create.{Memory, bo_alloc, adopt}
use libdrm.Bo.Cpu.{bo_cpu_map, bo_cpu_unmap, find_bo_by_cpu_mapping, scan, map_bo, unmap_bo}
use libdrm.Bo.Share.{bo_inc_ref, bo_free}
use libdrm.Bo.Sound.{IsSound, closed-IsSound}
use libdrm.Bo.Calls.{Fresh, Small, Countable, Mapping, Call}
use libdrm.Bo.Reach.{Call-IsSound, without, bo_free-cases}
use libdrm.Bo.Laws.{bo_alloc_failed, bo_alloc-Entered}
use libdrm.Bo.Driver.{Driver, is_some}

pub record World (D : Driver) : Type 0 where
  pub device : Device
  pub state : D.State

module _ (D : Driver) where
  -- The driver closes the handles that a call told it to, the first one first.
  unfoldable pub close_all : List ℕ → D.State → D.State
  close_all [] s = s
  close_all (h ∷ hs) s = D.close (close_all hs s) h

  unfoldable pub settle : Device → D.State → World D
  unfolding close_all
  settle d s = record { device = record d { closed = [] }; state = close_all d.closed s }

  unfoldable pub world_alloc : Memory → World D → ℕ → World D
  unfolding settle
  world_alloc m w size =
      let (answer, s) = D.create w.state size in settle (bo_alloc m w.device size answer).dev s

-- The calls, each with what the driver then does. Importing from another process, and memory of the
-- user's own, are left out.
pub data Step (D : Driver) : World D → World D → Type 0 where
  alloc :
      (m : Memory) (w : World D) (size : ℕ)
      → Fresh m w.device
      → D.Room w.state
      → ((h : ℕ) → (D.create w.state size).0 ≡ done h → Small m h)
      → Step D w (world_alloc D m w size)
  inc_ref :
      (w : World D) (d : Device) (p : ℕ)
      → Countable w.device
      → bo_inc_ref w.device p ≡ some d
      → Step D w (settle D d w.state)
  map :
      (w : World D) (d : Device) (p : ℕ) (answer : Answer ℕ) (r : Ret) (cpu : Option ℕ)
      → Mapping answer
      → bo_cpu_map w.device p answer ≡ some (r, cpu, d)
      → Step D w (settle D d w.state)
  unmap :
      (w : World D) (d : Device) (p : ℕ) (unmapped r : Ret)
      → bo_cpu_unmap w.device p unmapped ≡ some (r, d)
      → Step D w (settle D d w.state)
  find :
      (w : World D) (cpu size old_handle old_offset : ℕ)
      → Countable w.device
      → Step D w
          (settle D (find_bo_by_cpu_mapping w.device cpu size old_handle old_offset).dev w.state)
  free :
      (w : World D) (d : Device) (p : ℕ) (unmapped : Ret)
      → bo_free w.device p unmapped ≡ some d
      → Step D w (settle D d w.state)

pub data Steps (D : Driver) (w : World D) : World D → Type 0 where
  start : Steps D w w
  next : {u v : World D} → Steps D w u → Step D u v → Steps D w v

-- The driver's open handles are exactly those of the device's objects.
pub record Agrees (D : Driver) (w : World D) : Type 0 where
  pub sound : IsSound w.device
  pub sane : D.IsSane w.state
  pub settled : w.device.closed ≡ []
  pub same : (j : ℕ) → D.owned w.state j ≡ is_some (lookup w.device.bo_handles j)

-- A call that closes no handle and keeps the table.
record Keeps (d e : Device) : Type 0 where
  table : e.bo_handles ≡ d.bo_handles
  closed : e.closed ≡ d.closed

bo_inc_ref-Keeps : (d e : Device) (p : ℕ) → bo_inc_ref d p ≡ some e → Keeps d e
unfolding bo_inc_ref
bo_inc_ref-Keeps d e p q = elim (Option-cases (d.heap p)) [
  | inl h ↦ absurd (cc)
  | inr (b, h) ↦ rw (← some_inj (rw (bo_inc_ref, h) at q)) (record { table = refl; closed = refl })
]

bo_cpu_map-Keeps :
    (d e : Device) (p : ℕ) (answer : Answer ℕ) (r : Ret) (cpu : Option ℕ)
    → bo_cpu_map d p answer ≡ some (r, cpu, e)
    → Keeps d e
unfolding bo_cpu_map
bo_cpu_map-Keeps d e p answer r cpu q = elim (Option-cases (d.heap p)) [
  | inl h ↦ absurd (cc)
  | inr (b, h) ↦ elim (Option-cases (map_bo b answer)) [
    | inl z ↦ absurd (cc (rw (bo_cpu_map, h, z) at q))
    | inr ((r', cpu', b'), z) ↦
        rw (← ap (λ x. x.2) (some_inj (rw (bo_cpu_map, h, z) at q)))
          (record { table = refl; closed = refl })
  ]
]

bo_cpu_unmap-Keeps :
    (d e : Device) (p : ℕ) (unmapped r : Ret) → bo_cpu_unmap d p unmapped ≡ some (r, e) → Keeps d e
unfolding bo_cpu_unmap
bo_cpu_unmap-Keeps d e p unmapped r q = elim (Option-cases (d.heap p)) [
  | inl h ↦ absurd (cc)
  | inr (b, h) ↦
      rw (← ap (λ x. x.1) (some_inj (rw (bo_cpu_unmap, h) at q)))
        (record { table = refl; closed = refl })
]

find_bo_by_cpu_mapping-Keeps :
    (d : Device) (cpu size old_handle old_offset : ℕ)
    → Keeps d (find_bo_by_cpu_mapping d cpu size old_handle old_offset).dev
unfolding find_bo_by_cpu_mapping
find_bo_by_cpu_mapping-Keeps d cpu size old_handle old_offset =
    elim (Bool-cases ((cpu == 0) || (size == 0))) [
      | inl z ↦ rw (find_bo_by_cpu_mapping, z) (record { table = refl; closed = refl })
      | inr z ↦ elim (Option-cases (scan d cpu size d.bo_handles.max_key 0)) [
        | inl h ↦ rw (find_bo_by_cpu_mapping, z, h) (record { table = refl; closed = refl })
        | inr (x, h) ↦ rw (find_bo_by_cpu_mapping, z, h) (record { table = refl; closed = refl })
      ]
    ]

module _ (D : Driver) where
  Keeps-Agrees :
      (w : World D) (e : Device)
      → Agrees D w
      → IsSound e
      → Keeps w.device e
      → Agrees D (settle D e w.state)
  unfolding settle close_all
  Keeps-Agrees w e a i k =
      let z : e.closed ≡ [] = k.closed ∙ a.settled in
      rw (settle, z)
        (record {
          sound = closed-IsSound e [] i;
          sane = a.sane;
          settled = refl;
          same = λ j. a.same j ∙ ap (λ t. is_some (lookup t j)) (sym k.table);
        })
