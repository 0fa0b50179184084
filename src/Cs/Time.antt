-- ===== src/Cs/Time.antt =====
-- Timeouts and fences: `amdgpu_cs_calculate_timeout`, `amdgpu_ioctl_wait_cs` and
-- `amdgpu_cs_query_fence_status`.
use libdrm.Base.{
  ℕ, ◌*◌, ◌%◌, ◌^◌, ◌==◌, Bool, true, false, ◌||◌, not, Option, none, some, if◌then◌else◌, ltb,
  add64, bit_and, Ret, ok, err, einval,
}
use libdrm.Bo.State.{Answer, done, refused}
use libdrm.Cs.State.{Fence}
use libdrm.Cs.Semaphore.{bad_ring}

abbrev pub timeout_infinite : ℕ
timeout_infinite = 0xffff_ffff_ffff_ffff

-- `clock` is what clock_gettime gives, seconds and nanoseconds, `none` if it fails.
unfoldable pub calculate_timeout : Option (ℕ × ℕ) → ℕ → ℕ
calculate_timeout none timeout = timeout_infinite
calculate_timeout (some (sec, nsec)) timeout =
    let current_ns = add64 ((sec * 1_000_000_000) % 2 ^ 64) nsec in
    let sum = add64 timeout current_ns in
    if timeout == timeout_infinite
    then timeout
    else if ltb sum current_ns
    then timeout_infinite
    else sum

-- The absolute timeout that AmdgpuWaitCs is given. Bit 0 of the flags says that it is absolute.
unfoldable pub wait_timeout : Option (ℕ × ℕ) → ℕ → ℕ → ℕ
unfolding calculate_timeout
wait_timeout clock timeout flags =
    if bit_and flags 1 == 0 then calculate_timeout clock timeout else timeout

-- What `amdgpu_cs_query_fence_status` returns, what it writes to `*expired`, and the timeout of the
-- call to the driver, if it makes one.
pub record Status : Type 0 where
  pub ret : Ret
  pub expired : Option Bool
  pub waited : Option ℕ

-- The answer of AmdgpuWaitCs is whether the fence is busy.
unfoldable pub query_fence_status : Fence → Option (ℕ × ℕ) → ℕ → ℕ → Answer Bool → Status
unfolding wait_timeout
query_fence_status f clock timeout flags answer =
    if (f.context == 0) || bad_ring f.at
    then record { ret = err einval; expired = none; waited = none }
    else if f.fence == 0
    then record { ret = ok; expired = some true; waited = none }
    else elim answer [
      | done busy ↦ record {
        ret = ok;
        expired = some (not busy);
        waited = some (wait_timeout clock timeout flags);
      }
      | refused e ↦ record {
        ret = err e;
        expired = some false;
        waited = some (wait_timeout clock timeout flags);
      }
    ]
