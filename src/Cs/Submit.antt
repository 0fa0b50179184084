-- ===== src/Cs/Submit.antt =====
-- `amdgpu_cs_submit_one` and `amdgpu_cs_submit`.
use libdrm.Base.{
  ℕ, ◌*◌, ◌%◌, ◌^◌, ◌==◌, false, Option, none, some, List, [], ◌∷◌, ◌++◌, map, if◌then◌else◌, leb,
  Ret, ok, err, einval,
}
use libdrm.Bo.State.{Answer, done, refused}
use libdrm.Cs.State.{
  Ring, Fence, Semaphore, Context, State, instance_max_count, put_at, put_ring, set_context,
}
use libdrm.Cs.Semaphore.{bad_ring, reset_sem, unreference_sem}

-- `struct amdgpu_cs_ib_info`.
pub record IbInfo : Type 0 where
  pub ib_mc_address : ℕ
  pub size : ℕ
  pub flags : ℕ

-- `struct amdgpu_cs_request`: the handle of `resources`, if there are any, and the handle of the
-- buffer object and the offset of `fence_info`, if there is one.
pub record Request : Type 0 where
  pub at : Ring
  pub ibs : List IbInfo
  pub resources : Option ℕ
  pub fence_info : Option (ℕ × ℕ)
  pub dependencies : List Fence

-- `struct drm_amdgpu_cs_chunk_ib` and `struct drm_amdgpu_cs_chunk_dep`.
pub record ChunkIb : Type 0 where
  pub va_start : ℕ
  pub ib_bytes : ℕ
  pub at : Ring
  pub flags : ℕ

pub record ChunkDep : Type 0 where
  pub at : Ring
  pub ctx_id : ℕ
  pub handle : ℕ

-- A chunk with what its pointer leads to.
pub data Chunk : Type 0 where
  ib : ChunkIb → Chunk
  fence : ℕ → ℕ → Chunk
  dependencies : List ChunkDep → Chunk

unfoldable pub ib_chunk : Request → IbInfo → Chunk
ib_chunk q i = ib (record {
  va_start = i.ib_mc_address;
  ib_bytes = (i.size * 4) % 2 ^ 32;
  at = q.at;
  flags = i.flags;
})

unfoldable pub fence_chunks : Option (ℕ × ℕ) → List Chunk
fence_chunks none = []
fence_chunks (some (handle, offset)) = fence handle ((offset * 8) % 2 ^ 32) ∷ []

unfoldable pub fence_to_dep : (ℕ → Option Context) → Fence → Option ChunkDep
fence_to_dep contexts f = elim (contexts f.context) [
  | none ↦ none
  | some c ↦ some (record { at = f.at; ctx_id = c.id; handle = f.fence })
]

-- The loop on the request's dependencies.
unfoldable pub request_deps : (ℕ → Option Context) → List Fence → Option (List ChunkDep)
request_deps contexts [] = some []
request_deps contexts (f ∷ fs) = elim (fence_to_dep contexts f) [
  | none ↦ none
  | some d ↦ elim (request_deps contexts fs) [ none ↦ none | some ds ↦ some (d ∷ ds) ]
]

-- One round of the loop on the waiting semaphores: what is depended on, and what is left of the node.
unfoldable pub consume_one : (ℕ → Option Context) → Semaphore → Option (ChunkDep × Option Semaphore)
unfolding reset_sem unreference_sem
consume_one contexts x = elim (fence_to_dep contexts x.signal_fence) [
  | none ↦ none
  | some d ↦ elim (unreference_sem (reset_sem (record x { listed = false }))) [
    | none ↦ none
    | some v ↦ some (d, v)
  ]
]

unfoldable pub consume :
    (ℕ → Option Context)
    → (ℕ → Option Semaphore)
    → List ℕ
    → Option (List ChunkDep × (ℕ → Option Semaphore))
unfolding consume_one
consume contexts sems [] = some ([], sems)
consume contexts sems (p ∷ ps) = elim (sems p) [
  | none ↦ none
  | some x ↦ elim (consume_one contexts x) [
    | none ↦ none
    | some (d, v) ↦ elim (consume contexts (put_at sems p v) ps) [
      | none ↦ none
      | some (ds, sems') ↦ some (d ∷ ds, sems')
    ]
  ]
]

-- A chunk of dependencies is only added when there are any.
unfoldable pub dep_chunks : List ChunkDep → List Chunk
dep_chunks [] = []
dep_chunks (d ∷ ds) = dependencies (d ∷ ds) ∷ []

-- What is sent to AmdgpuCsSubmitRaw.
pub record Sent : Type 0 where
  pub ctx_id : ℕ
  pub bo_list_handle : ℕ
  pub chunks : List Chunk

-- `seq_no` is what is written to the request.
pub record Submitted : Type 0 where
  pub ret : Ret
  pub seq_no : Option ℕ
  pub sent : Option Sent
  pub state : State

-- The state and the result after the driver's answer, the semaphores being consumed already.
unfoldable pub complete : State → ℕ → Context → Ring → Sent → Answer ℕ → Submitted
complete s ctx c r sent (refused e) = record {
  ret = err e;
  seq_no = none;
  sent = some sent;
  state = set_context s ctx c;
}
complete s ctx c r sent (done seq) = record {
  ret = ok;
  seq_no = some seq;
  sent = some sent;
  state = set_context s ctx (record c { last_seq = put_ring c.last_seq r seq });
}

-- The part under the lock. The list of the ring is empty behind the loop.
unfoldable pub submit_locked : State → ℕ → Context → Request → Answer ℕ → Option Submitted
unfolding request_deps consume dep_chunks complete
submit_locked s ctx c q answer = elim (request_deps s.contexts q.dependencies) [
  | none ↦ none
  | some deps ↦ elim (consume s.contexts s.sems (c.sem_list q.at)) [
    | none ↦ none
    | some (sem_deps, sems) ↦
        let sent : Sent = record {
          ctx_id = c.id;
          bo_list_handle = elim q.resources [ none ↦ 0 | some h ↦ h ];
          chunks =
              map (ib_chunk q) q.ibs
              ++ (fence_chunks q.fence_info ++ (dep_chunks deps ++ dep_chunks sem_deps));
        } in
        let c' : Context = record c { sem_list = put_ring c.sem_list q.at [] } in
        some (complete (record s { sems = sems }) ctx c' q.at sent answer)
  ]
]

abbrev pub early : State → Ret → Option ℕ → Submitted
early s r seq = record { ret = r; seq_no = seq; sent = none; state = s }

unfoldable pub submit_one : State → ℕ → Request → Answer ℕ → Option Submitted
unfolding submit_locked
submit_one s ctx q answer = if bad_ring q.at then some (early s (err einval) none) else elim q.ibs [
  | [] ↦ some (early s ok (some 0))
  | _ ∷ _ ↦
      if leb instance_max_count q.at.ip_instance
      then none
      else elim (s.contexts ctx) [ none ↦ none | some c ↦ submit_locked s ctx c q answer ]
]

-- The loop of `amdgpu_cs_submit`, with the driver's answer for each request: the sequence numbers
-- written so far, and the result of the last request submitted.
unfoldable pub submit :
    State → ℕ → List (Request × Answer ℕ) → Option (Ret × List (Option ℕ) × State)
submit s ctx [] = some (if ctx == 0 then err einval else ok, [], s)
submit s ctx ((q, answer) ∷ qs) =
    if ctx == 0 then some (err einval, [], s) else elim (submit_one s ctx q answer) [
      | none ↦ none
      | some x ↦ elim x.ret [
        | err e ↦ some (err e, x.seq_no ∷ [], x.state)
        | ok ↦ elim (submit x.state ctx qs) [
          | none ↦ none
          | some (r, seqs, s') ↦ some (r, x.seq_no ∷ seqs, s')
        ]
      ]
    ]
