-- ===== src/Cs/Handoff.antt =====
-- A semaphore from its signal over the wait to the submission that depends on it.
use libdrm.Base.{
  ℕ, ◌+◌, ◌<◌, ◌^◌, ◌≡◌, ◌≢◌, refl, ap, sym, ◌∙◌, ◌==◌, true, false, ◌||◌, add32, sub32, Option,
  none, some, some_inj, List, [], ◌∷◌, ◌++◌, map, arith, leb, ok,
}
use libdrm.Bo.State.{Answer, done, refused}
use native.Mathlib.Decide.{ℕ_discrete}
use libdrm.Cs.State.{
  Ring, no_fence, Semaphore, Context, State, hw_ip_num, max_rings, instance_max_count, put_at,
  put_ring, set_sem, set_context,
}
use libdrm.Cs.Semaphore.{bad_ring, signal_semaphore, wait_semaphore, reset_sem, unreference_sem}
use libdrm.Cs.Submit.{
  IbInfo, Request, Sent, Submitted, Chunk, ChunkDep, dependencies, ib_chunk, fence_chunks,
  dep_chunks, fence_to_dep, consume_one, request_deps, consume, complete, submit_locked, submit_one,
}

-- A ring within the arrays of a context.
pub record InBounds (r : Ring) : Type 0 where
  pub ip_type : r.ip_type < hw_ip_num
  pub ip_instance : r.ip_instance < instance_max_count
  pub ring : r.ring < max_rings

InBounds-good : (r : Ring) → InBounds r → bad_ring r ≡ false
InBounds-good r b = ground arith

InBounds-instance : (r : Ring) → InBounds r → leb instance_max_count r.ip_instance ≡ false
InBounds-instance r b = ground arith

-- A semaphore that no fence has signalled and no context waits for.
pub record Idle (x : Semaphore) : Type 0 where
  pub counted : 0 < x.refcount
  pub bounded : x.refcount + 1 < 2 ^ 32
  pub unsignalled : x.signal_fence ≡ no_fence
  pub unlisted : x.listed ≡ false

abbrev signalled : ℕ → Ring → ℕ → Semaphore → Semaphore
signalled ctx r seq x = record x {
  refcount = x.refcount + 1;
  signal_fence = record { context = ctx; at = r; fence = seq };
}

signal-state :
    (s : State) (ctx : ℕ) (r : Ring) (sem : ℕ) (c : Context) (x : Semaphore)
    → ctx ≢ 0
    → sem ≢ 0
    → InBounds r
    → s.contexts ctx ≡ some c
    → s.sems sem ≡ some x
    → Idle x
    → signal_semaphore s ctx r sem
      ≡ some (ok, set_sem s sem (some (signalled ctx r (c.last_seq r) x)))
unfolding signal_semaphore
signal-state s ctx r sem c x n m b hc hx i =
    let g : ((ctx == 0) || (sem == 0) || bad_ring r) ≡ false = ground (arith, InBounds-good r b) in
    let u : (x.signal_fence.context == 0) ≡ true = rw i.unsignalled refl in
    let o : (leb instance_max_count r.ip_instance || (x.refcount == 0)) ≡ false =
      ground (arith, InBounds-instance r b, i.counted) in
    let w : add32 x.refcount 1 ≡ x.refcount + 1 = omega (arith, i.bounded) in
    rw (signal_semaphore, g, hx, u, o, hc, w) refl

wait-state :
    (s : State) (ctx : ℕ) (r : Ring) (sem : ℕ) (c : Context) (x : Semaphore)
    → ctx ≢ 0
    → sem ≢ 0
    → InBounds r
    → s.contexts ctx ≡ some c
    → s.sems sem ≡ some x
    → x.signal_fence.context ≢ 0
    → x.listed ≡ false
    → wait_semaphore s ctx r sem
      ≡ some (
        ok,
        set_context
            (set_sem s sem (some (record x { listed = true })))
            ctx
            (record c { sem_list = put_ring c.sem_list r (sem ∷ c.sem_list r) }),
      )
unfolding wait_semaphore
wait-state s ctx r sem c x n m b hc hx k l =
    let g : ((ctx == 0) || (sem == 0) || bad_ring r) ≡ false = ground (arith, InBounds-good r b) in
    let u : (x.signal_fence.context == 0) ≡ false = ground (arith, k) in
    let o : (leb instance_max_count r.ip_instance || x.listed) ≡ false =
      rw l (ground (arith, InBounds-instance r b)) in
    rw (wait_semaphore, g, hx, u, o, hc) refl

-- An idle semaphore is known by its count.
Idle-count :
    (x : Semaphore)
    → Idle x
    → record { refcount = x.refcount; listed = false; signal_fence = no_fence } ≡ x
Idle-count x i =
    ap (λ l. record { refcount = x.refcount; listed = l; signal_fence = no_fence }) (sym i.unlisted)
    ∙ ap (λ f. record { refcount = x.refcount; listed = x.listed; signal_fence = f })
        (sym i.unsignalled)

-- The loop on a list of the one semaphore: the dependency is the signalled fence, and the semaphore
-- is left as it was before it was signalled.
consume-signalled :
    (contexts : ℕ → Option Context) (sems : ℕ → Option Semaphore) (sem ctx : ℕ) (r : Ring) (seq : ℕ)
    (c : Context) (x : Semaphore)
    → ctx ≢ 0
    → contexts ctx ≡ some c
    → sems sem ≡ some (record (signalled ctx r seq x) { listed = true })
    → Idle x
    → consume contexts sems (sem ∷ [])
      ≡ some (record { at = r; ctx_id = c.id; handle = seq } ∷ [], put_at sems sem (some x))
unfolding consume consume_one fence_to_dep reset_sem unreference_sem
consume-signalled contexts sems sem ctx r seq c x n hc hx i =
    let k : (ctx == 0) ≡ false = ground (arith, n) in
    let p : (x.refcount + 1 == 0) ≡ false = ground arith in
    let q : (x.refcount + 1 == 1) ≡ false = ground (arith, i.counted) in
    let w : sub32 (x.refcount + 1) 1 ≡ x.refcount = omega (arith, i.bounded) in
    let one : consume_one contexts (record (signalled ctx r seq x) { listed = true })
        ≡ some (record { at = r; ctx_id = c.id; handle = seq }, some x) =
      (rw (consume_one, fence_to_dep, hc, reset_sem, k, unreference_sem, p, q, w)
        (ap (λ y. some (record { at = r; ctx_id = c.id; handle = seq }, some y))
          (Idle-count x i))) in
    rw (consume, hx, one) refl

-- The chunks of what was sent.
abbrev pub sent_chunks : Option Sent → Option (List Chunk)
sent_chunks none = none
sent_chunks (some x) = some x.chunks

-- The request's chunks: its commands, its fence, and one dependency.
abbrev pub chunks_with : Request → ChunkDep → List Chunk
chunks_with q d =
    map (ib_chunk q) q.ibs ++ (fence_chunks q.fence_info ++ (dependencies (d ∷ []) ∷ []))

abbrev pub sent_with : Context → Request → ChunkDep → Sent
sent_with c q d = record {
  ctx_id = c.id;
  bo_list_handle = elim q.resources [ none ↦ 0 | some h ↦ h ];
  chunks = chunks_with q d;
}

-- The driver's answer decides neither what was sent nor what became of the semaphores.
complete-same :
    (s : State) (ctx : ℕ) (c : Context) (r : Ring) (sent : Sent) (answer : Answer ℕ)
    → ((complete s ctx c r sent answer).state.sems ≡ s.sems)
      × ((complete s ctx c r sent answer).sent ≡ some sent)
unfolding complete
complete-same s ctx c r sent (done seq) = (refl, refl)
complete-same s ctx c r sent (refused e) = (refl, refl)

-- With commands, and a ring in bounds, a submission takes the lock.
pub submit_one-locked :
    (s : State) (ctx : ℕ) (c : Context) (q : Request) (i : IbInfo) (is : List IbInfo)
    (answer : Answer ℕ)
    → InBounds q.at
    → q.ibs ≡ i ∷ is
    → s.contexts ctx ≡ some c
    → submit_one s ctx q answer ≡ submit_locked s ctx c q answer
unfolding submit_one
submit_one-locked s ctx c q i is answer b hi hc =
    simp (submit_one, InBounds-good q.at b, hi, InBounds-instance q.at b, hc)

-- A submission that finds one waiting semaphore and has no dependencies of its own.
submit_one-signalled :
    (s : State) (ctx ctx' sem seq : ℕ) (r : Ring) (c c' : Context) (x : Semaphore) (q : Request)
    (i : IbInfo) (is : List IbInfo) (answer : Answer ℕ)
    → ctx' ≢ 0
    → InBounds q.at
    → q.ibs ≡ i ∷ is
    → q.dependencies ≡ []
    → s.contexts ctx ≡ some c
    → c.sem_list q.at ≡ sem ∷ []
    → s.contexts ctx' ≡ some c'
    → s.sems sem ≡ some (record (signalled ctx' r seq x) { listed = true })
    → Idle x
    → (y : Submitted) × (submit_one s ctx q answer ≡ some y)
      × (y.state.sems sem ≡ some x)
      × (y.sent ≡ some (sent_with c q (record { at = r; ctx_id = c'.id; handle = seq })))
unfolding submit_locked request_deps dep_chunks
submit_one-signalled s ctx ctx' sem seq r c c' x q i is answer n b hi hd hc hl hc' hx idle =
    let one = consume-signalled s.contexts s.sems sem ctx' r seq c' x n hc' hx idle in
    let s' : State = record s { sems = put_at s.sems sem (some x) } in
    let c'' : Context = record c { sem_list = put_ring c.sem_list q.at [] } in
    let sent = sent_with c q (record { at = r; ctx_id = c'.id; handle = seq }) in
    let (v, w) = complete-same s' ctx c'' q.at sent answer in
    let no_deps : request_deps s.contexts q.dependencies ≡ some [] =
      ap (request_deps s.contexts) hd in
    let here : put_at s.sems sem (some x) sem ≡ some x = ground arith in
    (
      complete s' ctx c'' q.at sent answer,
      submit_one-locked s ctx c q i is answer b hi hc ∙ rw (submit_locked, no_deps, hl, one) refl,
      ap (λ f. f sem) v ∙ here,
      w,
    )

-- A context after a change of its lists has its number.
changed-id :
    (contexts : ℕ → Option Context) (p q : ℕ) (c c' e : Context)
    → contexts p ≡ some c
    → contexts q ≡ some e
    → c'.id ≡ e.id
    → (d : Context) × (put_at contexts q (some c') p ≡ some d) × (d.id ≡ c.id)
changed-id contexts p q c c' e h k l = elim (ℕ_discrete p q) [
  | yes z ↦ (
    c',
    ground arith,
    l ∙ ap (λ x. x.id) (some_inj {a = e} {b = c} (sym k ∙ ap contexts (sym z) ∙ h)),
  )
  | no z ↦ (c, ground (arith, h), refl)
]

-- An idle semaphore, whose count does not wrap by one more reference, is signalled on one ring and then
-- waited for on a second one, of the same or another context, where no other semaphore waits; both
-- rings are within the arrays of a context. Then both calls return 0, and the next submission on the
-- second ring, of a request with commands and without dependencies of its own, sends as its only
-- dependency the last submission of the first ring, and leaves the semaphore idle as it was, with the
-- count that it had, whatever the driver answers.
pub submit_one-wait-signal :
    (s : State) (ctx ctx' sem : ℕ) (r : Ring) (c c' : Context) (x : Semaphore) (q : Request)
    (i : IbInfo) (is : List IbInfo) (answer : Answer ℕ)
    → ctx ≢ 0
    → ctx' ≢ 0
    → sem ≢ 0
    → InBounds r
    → InBounds q.at
    → q.ibs ≡ i ∷ is
    → q.dependencies ≡ []
    → s.contexts ctx ≡ some c
    → s.contexts ctx' ≡ some c'
    → c.sem_list q.at ≡ []
    → s.sems sem ≡ some x
    → Idle x
    → (t u : State) × (signal_semaphore s ctx' r sem ≡ some (ok, t))
      × (wait_semaphore t ctx q.at sem ≡ some (ok, u))
      × (y : Submitted) × (submit_one u ctx q answer ≡ some y)
      × (y.state.sems sem ≡ some x)
      × (y.sent ≡ some (sent_with c q (record { at = r; ctx_id = c'.id; handle = c'.last_seq r })))
submit_one-wait-signal s ctx ctx' sem r c c' x q i is answer n n' m br bq hi hd hc hc' hl hx idle =
    let sig = signalled ctx' r (c'.last_seq r) x in
    let t = set_sem s sem (some sig) in
    let l : Context = record c { sem_list = put_ring c.sem_list q.at (sem ∷ c.sem_list q.at) } in
    let u = set_context (set_sem t sem (some (record sig { listed = true }))) ctx l in
    let list : l.sem_list q.at ≡ sem ∷ [] = ground (arith, hl) in
    let (d, hd', e) = changed-id s.contexts ctx' ctx c' l c hc' hc refl in
    let (y, a, b, w) =
      submit_one-signalled u ctx ctx' sem (c'.last_seq r) r l d x q i is answer n' bq hi hd
        (ground arith) list hd' (ground arith) idle in
    (
      t,
      u,
      signal-state s ctx' r sem c' x n' m br hc' hx idle,
      wait-state t ctx q.at sem c sig n m bq hc (ground arith) n' idle.unlisted,
      y,
      a,
      b,
      w ∙ ap (λ n. some (sent_with c q (record { at = r; ctx_id = n; handle = c'.last_seq r }))) e,
    )
