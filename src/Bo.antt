-- ===== src/Bo.antt =====
-- Buffer objects, amdgpu/amdgpu_bo.c: the objects that a device shares by reference count and the
-- tables that find them. The objects are on an explicit heap, and a pointer is its address (0 is
-- NULL). Each call runs under `bo_table_mutex` or `cpu_access_mutex`, so it is one step. `none` is a
-- fault: a dangling pointer or a failed assertion. What the driver answers is an argument, and the
-- handles that it was told to close are kept in `closed`, the last one first.
pub mod State
pub mod Create
pub mod Share
pub mod Cpu
pub mod Sound
pub mod Calls
pub mod Keep
pub mod Reach
pub mod Laws
pub mod Search
pub mod VaOp
pub mod Metadata
pub mod Driver
pub mod World
mod Tests
use libdrm.Base.{Ret, err, enosys}

-- The calls that this port answers with ENOSYS.
pub data Unsupported : Type 0 where
  export_flink wait_for_idle : Unsupported
  list_create_raw list_destroy_raw list_create list_destroy list_update : Unsupported

pub unsupported : Unsupported → Ret
unsupported c = err enosys
