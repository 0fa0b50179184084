-- ===== src/Cs/Context.antt =====
-- Contexts: `amdgpu_cs_ctx_create2`, `_ctx_create`, `_ctx_free`, `_ctx_stable_pstate`,
-- `_query_reset_state` and `_query_reset_state2`.
use libdrm.Base.{
  ℕ, suc, zero, ◌+◌, ◌*◌, ◌^◌, ◌==◌, Bool, false, not, ◌||◌, Option, none, some, List, [], ◌∷◌,
  ◌++◌, if◌then◌else◌, Ret, ok, err, einval, enomem,
}
use libdrm.Cs.State.{
  Ring, Context, State, hw_ip_num, instance_max_count, max_rings, put_at, set_sem, set_context,
}
use libdrm.Cs.Semaphore.{reset_sem, unreference_sem}

-- `union drm_amdgpu_ctx` is four words; the fields of `in` name them.
pub record CtxArgs : Type 0 where
  pub op : ℕ
  pub flags : ℕ
  pub ctx_id : ℕ
  pub priority : ℕ

-- The same words as `out`: alloc.ctx_id, pstate.flags, state.flags, state.hangs, state.reset_status.
abbrev pub out_ctx_id : CtxArgs → ℕ
out_ctx_id a = a.op

abbrev pub out_pstate_flags : CtxArgs → ℕ
out_pstate_flags a = a.op

abbrev pub out_flags : CtxArgs → ℕ
out_flags a = a.op + a.flags * 2 ^ 32

abbrev pub out_hangs : CtxArgs → ℕ
out_hangs a = a.ctx_id

abbrev pub out_reset_status : CtxArgs → ℕ
out_reset_status a = a.priority

-- AMDGPU_CTX_OP_*.
abbrev pub op_alloc_ctx : ℕ
op_alloc_ctx = 1

abbrev pub op_free_ctx : ℕ
op_free_ctx = 2

abbrev pub op_query_state : ℕ
op_query_state = 3

abbrev pub op_query_state2 : ℕ
op_query_state2 = 4

-- k, k + 1, ... up to n numbers, and the rings in the order of the three loops.
abbrev count_up : (n k : ℕ) → List ℕ
count_up zero k = []
count_up (suc n) k = k ∷ count_up n (suc k)

abbrev rings_of : (i j : ℕ) → List ℕ → List Ring
rings_of i j [] = []
rings_of i j (k ∷ ks) = record { ip_type = i; ip_instance = j; ring = k } ∷ rings_of i j ks

abbrev instances_of : (i : ℕ) → List ℕ → List Ring
instances_of i [] = []
instances_of i (j ∷ js) = rings_of i j (count_up max_rings 0) ++ instances_of i js

abbrev types_of : List ℕ → List Ring
types_of [] = []
types_of (i ∷ is) = instances_of i (count_up instance_max_count 0) ++ types_of is

abbrev pub all_rings : List Ring
all_rings = types_of (count_up hw_ip_num 0)

-- The body of the loop over one list, and its step: the node is read for the next one after its
-- semaphore was released, so that a semaphore whose last reference this was is a fault.
unfoldable pub free_one : State → ℕ → Option State
free_one s sem = elim (s.sems sem) [
  | none ↦ none
  | some x ↦ elim (unreference_sem (reset_sem (record x { listed = false }))) [
    | none ↦ none
    | some none ↦ none
    | some (some y) ↦ some (set_sem s sem (some y))
  ]
]

unfoldable pub free_sems : State → List ℕ → Option State
free_sems s [] = some s
free_sems s (sem ∷ rest) = elim (free_one s sem) [ none ↦ none | some t ↦ free_sems t rest ]

unfoldable pub free_rings : State → Context → List Ring → Option State
free_rings s c [] = some s
free_rings s c (r ∷ rs) = elim (free_sems s (c.sem_list r)) [
  | none ↦ none
  | some t ↦ free_rings t c rs
]

-- `ctx_raw` is AmdgpuCtxRaw on a driver with the state `D`.
module _ {D : Type 0} (ctx_raw : D → CtxArgs → Ret × CtxArgs × D) where
  -- `dev` and `out` are whether the two pointers are not NULL, `fresh` what calloc gives, and `mutex`
  -- what pthread_mutex_init does.
  unfoldable pub ctx_create2 :
      State
      → D
      → (dev out : Bool) (fresh : ℕ) (mutex : Ret) (priority : ℕ) → Ret × Option ℕ × State × D
  ctx_create2 s d dev out fresh mutex priority =
      let (r, args, d') =
        ctx_raw d (record { op = op_alloc_ctx; flags = 0; ctx_id = 0; priority = priority }) in
      if not dev || not out
      then (err einval, none, s, d)
      else if fresh == 0
      then (err enomem, none, s, d)
      else elim mutex [
        | err e ↦ (err e, none, s, d)
        | ok ↦ elim r [
          | err e ↦ (err e, none, s, d')
          | ok ↦ (
            ok,
            some fresh,
            set_context s fresh
                (record { id = out_ctx_id args; last_seq = λ k. 0; sem_list = λ k. [] }),
            d',
          )
        ]
      ]

  unfoldable pub ctx_create :
      State → D → (dev out : Bool) (fresh : ℕ) (mutex : Ret) → Ret × Option ℕ × State × D
  unfolding ctx_create2
  ctx_create s d dev out fresh mutex = ctx_create2 s d dev out fresh mutex 0

  -- A request about the context at an address.
  unfoldable pub ask : D → Context → (op flags : ℕ) → Ret × CtxArgs × D
  ask d c op flags = ctx_raw d (record { op = op; flags = flags; ctx_id = c.id; priority = 0 })

  unfoldable pub ctx_free : State → D → (context : ℕ) → Option (Ret × State × D)
  unfolding ask free_rings free_sems
  ctx_free s d context =
      if context == 0 then some (err einval, s, d) else elim (s.contexts context) [
        | none ↦ none
        | some c ↦
            let (r, args, d') = ask d c op_free_ctx 0 in
            elim (free_rings s c all_rings) [
              | none ↦ none
              | some t ↦ some (r, record t { contexts = put_at t.contexts context none }, d')
            ]
      ]

  -- The result, and what the output parameter receives.
  unfoldable pub ctx_stable_pstate :
      State → D → (context op flags : ℕ) → Option (Ret × Option ℕ × D)
  unfolding ask
  ctx_stable_pstate s d context op flags =
      if context == 0 then some (err einval, none, d) else elim (s.contexts context) [
        | none ↦ none
        | some c ↦
            let (r, args, d') = ask d c op flags in
            some (r, elim r [ ok ↦ some (out_pstate_flags args) | err e ↦ none ], d')
      ]

  unfoldable pub query_reset_state : State → D → (context : ℕ) → Option (Ret × Option (ℕ × ℕ) × D)
  unfolding ask
  query_reset_state s d context =
      if context == 0 then some (err einval, none, d) else elim (s.contexts context) [
        | none ↦ none
        | some c ↦
            let (r, args, d') = ask d c op_query_state 0 in
            some
              (r, elim r [ ok ↦ some (out_reset_status args, out_hangs args) | err e ↦ none ], d')
      ]

  unfoldable pub query_reset_state2 : State → D → (context : ℕ) → Option (Ret × Option ℕ × D)
  unfolding ask
  query_reset_state2 s d context =
      if context == 0 then some (err einval, none, d) else elim (s.contexts context) [
        | none ↦ none
        | some c ↦
            let (r, args, d') = ask d c op_query_state2 0 in
            some (r, elim r [ ok ↦ some (out_flags args) | err e ↦ none ], d')
      ]
