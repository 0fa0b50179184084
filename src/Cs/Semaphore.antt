-- ===== src/Cs/Semaphore.antt =====
-- Semaphores: `amdgpu_cs_create_semaphore`, `_signal_semaphore`, `_wait_semaphore`,
-- `_destroy_semaphore`, and `amdgpu_cs_reset_sem`.
use libdrm.Base.{
  ℕ, ◌==◌, Bool, true, false, ◌||◌, Option, none, some, ◌∷◌, if◌then◌else◌, leb, add32, sub32, Ret,
  ok, err, einval, enomem,
}
use libdrm.Cs.State.{
  Ring, no_fence, Semaphore, State, hw_ip_num, instance_max_count, max_rings, put_ring, set_sem,
  set_context,
}

-- The answer of calloc is the address `fresh`. The result is what `*sem` receives.
pub create_semaphore : State → ℕ → Ret × Option ℕ × State
create_semaphore s fresh = if fresh == 0 then (err enomem, none, s) else (
  ok,
  some fresh,
  set_sem s fresh (some (record { refcount = 1; listed = false; signal_fence = no_fence })),
)

-- The guards that the calls share.
abbrev pub bad_ring : Ring → Bool
bad_ring r = leb hw_ip_num r.ip_type || leb max_rings r.ring

-- `update_references(NULL, &refcount)` asserts that the count is positive.
unfoldable pub signal_semaphore : State → ℕ → Ring → ℕ → Option (Ret × State)
signal_semaphore s ctx r sem =
    if ((ctx == 0) || (sem == 0)) || bad_ring r then some (err einval, s) else elim (s.sems sem) [
      | none ↦ none
      | some x ↦
          if x.signal_fence.context == 0
          then if leb instance_max_count r.ip_instance || (x.refcount == 0)
            then none
            else elim (s.contexts ctx) [
              | none ↦ none
              | some c ↦ some (
                ok,
                set_sem s sem (
                    some (record x {
                      refcount = add32 x.refcount 1;
                      signal_fence = record { context = ctx; at = r; fence = c.last_seq r };
                    })),
              )
            ]
          else some (err einval, s)
    ]

unfoldable pub wait_semaphore : State → ℕ → Ring → ℕ → Option (Ret × State)
wait_semaphore s ctx r sem =
    if ((ctx == 0) || (sem == 0)) || bad_ring r then some (err einval, s) else elim (s.sems sem) [
      | none ↦ none
      | some x ↦
          if x.signal_fence.context == 0
          then some (err einval, s)
          else if leb instance_max_count r.ip_instance || x.listed
          then none
          else elim (s.contexts ctx) [
            | none ↦ none
            | some c ↦ some (
              ok,
              set_context (set_sem s sem (some (record x { listed = true }))) ctx
                  (record c { sem_list = put_ring c.sem_list r (sem ∷ c.sem_list r) }),
            )
          ]
    ]

unfoldable pub reset_sem : Semaphore → Semaphore
reset_sem x = if x.signal_fence.context == 0 then x else record x { signal_fence = no_fence }

-- On the node: `none` in the pair, if it was freed; a count of 0 fails the assertion.
unfoldable pub unreference_sem : Semaphore → Option (Option Semaphore)
unreference_sem x =
    if x.refcount == 0
    then none
    else if x.refcount == 1
    then some none
    else some (some (record x { refcount = sub32 x.refcount 1 }))

unfoldable pub destroy_semaphore : State → ℕ → Option (Ret × State)
unfolding unreference_sem
destroy_semaphore s sem = if sem == 0 then some (err einval, s) else elim (s.sems sem) [
  | none ↦ none
  | some x ↦ elim (unreference_sem x) [ none ↦ none | some v ↦ some (ok, set_sem s sem v) ]
]
