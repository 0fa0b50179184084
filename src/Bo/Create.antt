-- ===== src/Bo/Create.antt =====
-- Making a buffer object: `amdgpu_bo_create`, `amdgpu_bo_alloc`, `amdgpu_create_bo_from_user_mem`.
use libdrm.Base.{ℕ, ◌==◌, Bool, Option, none, some, ◌∷◌, if◌then◌else◌, Ret, ok, err, enomem}
use libdrm.HandleTable.{insert}
use libdrm.Bo.State.{Bo, Device, Answer, done, refused, store}

-- What the C library answers: the address that calloc returns (0: NULL), the pointers in a page, and
-- whether realloc succeeds.
pub record Memory : Type 0 where
  pub fresh : ℕ
  pub page_entries : ℕ
  pub grows : Bool

-- `none` for `buf_handle`: nothing is written to it.
pub record Made : Type 0 where
  pub ret : Ret
  pub buf_handle : Option ℕ
  pub dev : Device

abbrev pub new_bo : ℕ → ℕ → Bo
new_bo size handle = record {
  refcount = 1;
  alloc_size = size;
  handle = handle;
  flink_name = 0;
  cpu_ptr = 0;
  cpu_map_count = 0;
}

unfoldable pub bo_create : Memory → Device → ℕ → ℕ → Made
bo_create m d size handle =
    let (r, table) = insert m.page_entries m.grows d.bo_handles handle m.fresh in
    let made = record d { bo_handles = table } in
    if m.fresh == 0 then record { ret = err enomem; buf_handle = none; dev = d } else elim r [
      | ok ↦ record {
        ret = ok;
        buf_handle = some m.fresh;
        dev = store made m.fresh (some (new_bo size handle));
      }
      | err e ↦ record { ret = err e; buf_handle = none; dev = d }
    ]

-- DrmCloseBufferHandle.
abbrev pub close_handle : Device → ℕ → Device
close_handle d handle = record d { closed = handle ∷ d.closed }

-- The shared end of the two calls: the driver has answered with a handle for the memory.
unfoldable pub adopt : Memory → Device → ℕ → Answer ℕ → Made
adopt m d size (refused e) = record { ret = err e; buf_handle = none; dev = d }
adopt m d size (done handle) =
    let made = bo_create m d size handle in
    elim made.ret [ ok ↦ made | err e ↦ record made { dev = close_handle made.dev handle } ]

-- The answer is that of AmdgpuBoAlloc.
unfoldable pub bo_alloc : Memory → Device → ℕ → Answer ℕ → Made
unfolding adopt
bo_alloc m d alloc_size answer = adopt m d alloc_size answer

-- The answer is that of AmdgpuCreateBoFromUserMem.
unfoldable pub create_bo_from_user_mem : Memory → Device → ℕ → Answer ℕ → Made
unfolding adopt
create_bo_from_user_mem m d size answer = adopt m d size answer
