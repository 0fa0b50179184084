-- ===== src/Bo/State.antt =====
-- `struct amdgpu_bo`, the part of `struct amdgpu_device` that finds the objects, and their heap.
use libdrm.Base.{ℕ, ◌==◌, Bool, Option, List, if◌then◌else◌, sub32, add32, Errno}
use libdrm.HandleTable.{HandleTable}

pub record Bo : Type 0 where
  pub refcount : ℕ
  pub alloc_size : ℕ
  pub handle : ℕ
  pub flink_name : ℕ
  pub cpu_ptr : ℕ
  pub cpu_map_count : ℕ

pub record Device : Type 0 where
  pub bo_handles : HandleTable ℕ
  pub bo_flink_names : HandleTable ℕ
  pub heap : ℕ → Option Bo
  pub closed : List ℕ

-- The answer of a driver call that has a result.
pub data Answer (A : Type 0) : Type 0 where
  done : A → Answer A
  refused : Errno → Answer A

abbrev pub update : (ℕ → Option Bo) → ℕ → Option Bo → ℕ → Option Bo
update heap p v q = if q == p then v else heap q

abbrev pub store : Device → ℕ → Option Bo → Device
store d p v = record d { heap = update d.heap p v }

-- `atomic_add` on a reference count, and `update_references(&refcount, NULL)`: whether the count
-- that it lowered was 1.
abbrev pub bump : Bo → Bo
bump b = record b { refcount = add32 b.refcount 1 }

abbrev pub is_last : Bo → Bool
is_last b = b.refcount == 1

abbrev pub drop_ref : Bo → Bo
drop_ref b = record b { refcount = sub32 b.refcount 1 }
