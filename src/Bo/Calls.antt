-- ===== src/Bo/Calls.antt =====
-- The calls on a device as a step relation, and the states that they reach.
use libdrm.Base.{ℕ, ◌+◌, ◌≤◌, ◌<◌, ◌^◌, ◌≡◌, ◌≢◌, Option, none, some, Ret, IsPow2}
use libdrm.HandleTable.{lookup}
use libdrm.Bo.State.{Bo, Device, Answer, done}
use libdrm.Bo.Create.{Memory, bo_alloc, create_bo_from_user_mem}
use libdrm.Bo.Cpu.{bo_cpu_map, bo_cpu_unmap, find_bo_by_cpu_mapping}
use libdrm.Bo.Share.{HandleType, Imported, bo_import, bo_inc_ref, bo_free}

-- calloc returns memory that is not in use, or NULL, and a page holds a power of two of pointers.
pub record Fresh (m : Memory) (d : Device) : Type 0 where
  pub unused : d.heap m.fresh ≡ none
  pub page : IsPow2 m.page_entries

-- A handle from the driver leaves room for the next page boundary.
abbrev pub Small : Memory → ℕ → Type 0
Small m handle = handle + 1 + m.page_entries ≤ 2 ^ 32

-- The driver makes a handle that no object has.
pub record NewHandle (m : Memory) (d : Device) (handle : ℕ) : Type 0 where
  pub absent : lookup d.bo_handles handle ≡ none
  pub small : Small m handle

-- The count of an object that a call raises does not wrap.
abbrev pub Countable : Device → Type 0
Countable d = (p : ℕ) (b : Bo) → d.heap p ≡ some b → b.refcount + 1 < 2 ^ 32

-- A mapping that the driver makes is not at address 0.
abbrev pub Mapping : Answer ℕ → Type 0
Mapping answer = (p : ℕ) → answer ≡ done p → p ≢ 0

pub data Call : Device → Device → Type 0 where
  alloc :
      (m : Memory) (d : Device) (size : ℕ) (answer : Answer ℕ)
      → Fresh m d
      → ((handle : ℕ) → answer ≡ done handle → NewHandle m d handle)
      → Call d (bo_alloc m d size answer).dev
  from_user_mem :
      (m : Memory) (d : Device) (size : ℕ) (answer : Answer ℕ)
      → Fresh m d
      → ((handle : ℕ) → answer ≡ done handle → NewHandle m d handle)
      → Call d (create_bo_from_user_mem m d size answer).dev
  -- The driver's handle may be one that an object already has.
  import :
      (m : Memory) (d : Device) (type : HandleType) (shared : ℕ) (to_handle info : Answer ℕ)
      → Fresh m d
      → ((handle : ℕ) → to_handle ≡ done handle → Small m handle)
      → Countable d
      → (x : Imported) → bo_import m d type shared to_handle info ≡ some x
      → Call d x.dev
  inc_ref : (d d' : Device) (p : ℕ) → Countable d → bo_inc_ref d p ≡ some d' → Call d d'
  map :
      (d d' : Device) (p : ℕ) (answer : Answer ℕ) (r : Ret) (cpu : Option ℕ)
      → Mapping answer
      → bo_cpu_map d p answer ≡ some (r, cpu, d')
      → Call d d'
  unmap :
      (d d' : Device) (p : ℕ) (unmapped r : Ret)
      → bo_cpu_unmap d p unmapped ≡ some (r, d')
      → Call d d'
  find :
      (d : Device) (cpu size old_handle old_offset : ℕ)
      → Countable d
      → Call d (find_bo_by_cpu_mapping d cpu size old_handle old_offset).dev
  free : (d d' : Device) (p : ℕ) (unmapped : Ret) → bo_free d p unmapped ≡ some d' → Call d d'

pub data Calls (d : Device) : Device → Type 0 where
  start : Calls d d
  next : {e f : Device} → Calls d e → Call e f → Calls d f
