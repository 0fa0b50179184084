-- ===== src/Cs/State.antt =====
-- `struct amdgpu_context`, `struct amdgpu_semaphore`, `struct amdgpu_cs_fence`, and their heaps.
use libdrm.Base.{ℕ, ◌==◌, Bool, ◌&&◌, Option, some, List, if◌then◌else◌}

-- An index into the arrays of a context.
pub record Ring : Type 0 where
  pub ip_type : ℕ
  pub ip_instance : ℕ
  pub ring : ℕ

-- `context` is an address.
pub record Fence : Type 0 where
  pub context : ℕ
  pub at : Ring
  pub fence : ℕ

abbrev pub no_ring : Ring
no_ring = record { ip_type = 0; ip_instance = 0; ring = 0 }

abbrev pub no_fence : Fence
no_fence = record { context = 0; at = no_ring; fence = 0 }

-- `listed` says whether the node `list` is linked into the list of a context.
pub record Semaphore : Type 0 where
  pub refcount : ℕ
  pub listed : Bool
  pub signal_fence : Fence

pub record Context : Type 0 where
  pub id : ℕ
  pub last_seq : Ring → ℕ
  pub sem_list : Ring → List ℕ

pub record State : Type 0 where
  pub contexts : ℕ → Option Context
  pub sems : ℕ → Option Semaphore

abbrev pub same_ring : Ring → Ring → Bool
same_ring a b = (a.ip_type == b.ip_type) && ((a.ip_instance == b.ip_instance) && (a.ring == b.ring))

-- AMDGPU_HW_IP_NUM, AMDGPU_HW_IP_INSTANCE_MAX_COUNT and AMDGPU_CS_MAX_RINGS.
abbrev pub hw_ip_num : ℕ
hw_ip_num = 9

abbrev pub instance_max_count : ℕ
instance_max_count = 1

abbrev pub max_rings : ℕ
max_rings = 8

module _ {A : Type 0} where
  abbrev pub put_at : (ℕ → Option A) → ℕ → Option A → ℕ → Option A
  put_at heap p v q = if q == p then v else heap q

  abbrev pub put_ring : (Ring → A) → Ring → A → Ring → A
  put_ring f r v s = if same_ring s r then v else f s

abbrev pub set_sem : State → ℕ → Option Semaphore → State
set_sem s p v = record s { sems = put_at s.sems p v }

abbrev pub set_context : State → ℕ → Context → State
set_context s p c = record s { contexts = put_at s.contexts p (some c) }
