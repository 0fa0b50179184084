-- ===== src/Bo/Tests.antt =====
-- Buffer objects at concrete values: a device without objects, and one with an object.
use libdrm.Base.{
  ℕ, ◌≡◌, ◌≢◌, ◌==◌, refl, true, false, none, some, some_inj, [], ◌∷◌, arith, IsPow2, RoundsUp,
  if◌then◌else◌, ok, err, einval, align32,
}
use libdrm.HandleTable.{insert, lookup, grow}
use libdrm.Bo.State.{Bo, Device, Answer, done, store, bump}
use libdrm.Bo.Create.{Memory, new_bo, bo_alloc, adopt, bo_create}
use libdrm.Bo.Cpu.{scan, candidate, holds, map_bo, unmap_bo, find_bo_by_cpu_mapping}
use libdrm.Bo.Share.{reuse, bo_import, bo_free}
use libdrm.Bo.Sound.{IsObject, IsSound}
use libdrm.Bo.Calls.{NewHandle, start, next, alloc}
use libdrm.Bo.Reach.{Calls-IsSound}
use libdrm.Bo.Laws.{Restored, bo_free-bo_alloc, bo_free-bo_import, unmap_bo-map_bo}
use libdrm.Bo.Search.{Outcome, find_bo_by_cpu_mapping-Outcome}
use libdrm.Bo.VaOp.{VaRequest, va_op, va_op-RoundsUp}

abbrev four_entries : IsPow2 4
four_entries = record { log = 2; log_lt = omega arith; is_pow = refl }

-- The next object is at address 100.
abbrev memory : Memory
memory = record { fresh = 100; page_entries = 4; grows = true }

abbrev no_memory : Memory
no_memory = record { fresh = 100; page_entries = 4; grows = false }

abbrev no_objects : Device
no_objects = record {
  bo_handles = record { max_key = 0; values = [] };
  bo_flink_names = record { max_key = 0; values = [] };
  heap = λ p. none;
  closed = [];
}

lookup_empty : (j : ℕ) → lookup no_objects.bo_handles j ≡ none
unfolding lookup
lookup_empty j = ground arith

no_objects-IsSound : IsSound no_objects
no_objects-IsSound = record {
  table = refl;
  listed = λ p b e. absurd (cc);
  live = λ h p e. absurd (cc (rw (lookup_empty h) at e));
  no_names = lookup_empty;
  no_null = refl;
}

abbrev answer : Answer ℕ
answer = done 1

abbrev one_object : Device
one_object = (bo_alloc memory no_objects 4096 answer).dev

handle_fits :
    (m : Memory) → m.page_entries ≡ 4 → (h : ℕ) → answer ≡ done h → NewHandle m no_objects h
handle_fits m p h e = record { absent = lookup_empty h; small = ground arith }

Calls-IsSound_example : IsSound one_object
Calls-IsSound_example =
    Calls-IsSound
      (next start (
        alloc memory no_objects 4096 answer (record { unused = refl; page = four_entries })
          (handle_fits memory refl)))
      no_objects-IsSound

-- The object's bytes are mapped at 8192.
abbrev plain : Bo
plain = new_bo 4096 1

abbrev mapped : Bo
mapped = record plain { cpu_ptr = 8192; cpu_map_count = 1 }

plain-IsObject : IsObject plain
plain-IsObject = record {
  counted = omega arith;
  bounded = omega arith;
  unnamed = refl;
  mapped = refl;
}

abbrev mapped_object : Device
mapped_object = record {
  bo_handles = record { max_key = 4; values = none ∷ some 100 ∷ none ∷ none ∷ [] };
  bo_flink_names = record { max_key = 0; values = [] };
  heap = λ p. if p == 100 then some mapped else none;
  closed = [];
}

-- An address in the middle of the mapping is found, eight bytes behind its start.
found_inside :
    (find_bo_by_cpu_mapping mapped_object 8200 16 0 0).buf_handle ≡ 100
    × (find_bo_by_cpu_mapping mapped_object 8200 16 0 0).offset_in_bo ≡ 8
unfolding find_bo_by_cpu_mapping scan candidate holds lookup
found_inside = (refl, refl)

bo_free-bo_alloc_example :
    (e : Device) × (bo_free one_object 100 ok ≡ some e)
    × ((j : ℕ) → lookup e.bo_handles j ≡ lookup no_objects.bo_handles j)
    × ((q : ℕ) → e.heap q ≡ no_objects.heap q)
    × (e.closed ≡ 1 ∷ [])
unfolding bo_alloc adopt bo_create insert align32
bo_free-bo_alloc_example =
    bo_free-bo_alloc memory no_objects 4096 1 ok no_objects-IsSound
      (record { unused = refl; page = four_entries }) (handle_fits memory refl 1 refl) refl

-- The next object would be at address 200.
abbrev next_memory : Memory
next_memory = record memory { fresh = 200 }

-- The descriptor's buffer has the object at 100 already.
bo_free-bo_import_example :
    (e : Device) × (bo_free (store one_object 100 (some (bump plain))) 100 ok ≡ some e)
    × Restored one_object [] e
unfolding bo_alloc adopt bo_create insert align32 lookup grow bo_import reuse
bo_free-bo_import_example =
    bo_free-bo_import next_memory one_object 7 1 4096 100 4096
      (record {
        ret = ok;
        output = some (100, 4096);
        dev = store one_object 100 (some (bump plain));
      })
      ok Calls-IsSound_example (record { unused = refl; page = four_entries }) (omega arith)
      (λ p b e. ground (arith, some_inj {a = plain} {b = b})) refl refl refl

unmap_bo-map_bo_example :
    (some 8192 ≡ some mapped.cpu_ptr)
    × (mapped.cpu_ptr ≢ 0)
    × (unmap_bo mapped (err einval) ≡ (err einval, plain))
unfolding map_bo
unmap_bo-map_bo_example =
    unmap_bo-map_bo plain mapped (done 8192) (some 8192) (err einval) plain-IsObject
      (λ p e. ground arith) refl

find_bo_by_cpu_mapping-Outcome_example :
    Outcome mapped_object 8200 16 (find_bo_by_cpu_mapping mapped_object 8200 16 0 0)
find_bo_by_cpu_mapping-Outcome_example =
    find_bo_by_cpu_mapping-Outcome mapped_object 8200 16 0 0 (omega arith) (omega arith)
      (omega arith) (λ p b e. ground (arith, some_inj {a = mapped} {b = b}))

abbrev four_kilobytes : IsPow2 4096
four_kilobytes = record { log = 12; log_lt = omega arith; is_pow = refl }

va_op-RoundsUp_example :
    ((va_op 4096 plain 0 5000 0x20_0000 2 1 ok).0 ≡ ok)
    × ((q : VaRequest) × ((va_op 4096 plain 0 5000 0x20_0000 2 1 ok).1 ≡ some q)
        × RoundsUp q.size 4096 5000
        × (q.bo_handle ≡ 1)
        × (q.offset ≡ 0)
        × (q.addr ≡ 0x20_0000)
        × (q.ops ≡ 1)
        × (q.flags ≡ 14))
va_op-RoundsUp_example =
    va_op-RoundsUp 4096 plain 0 5000 0x20_0000 2 1 ok four_kilobytes (omega arith)
