-- ===== src/Cs/Batch.antt =====
-- `amdgpu_cs_submit` with several requests: where it stops, what it reports, and the sequence numbers
-- that the context keeps.
use libdrm.Base.{
  ℕ, ◌≡◌, ◌≢◌, refl, ap, ◌∙◌, ◌==◌, false, Option, none, some, List, [], ◌∷◌, ◌++◌, map,
  if◌then◌else◌, arith, Ret, ok, err,
}
use libdrm.Bo.State.{Answer, done, refused}
use libdrm.Cs.State.{Ring, Context, State, same_ring, put_ring, set_context}
use libdrm.Cs.Submit.{
  IbInfo, Request, Sent, ib_chunk, fence_chunks, dep_chunks, request_deps, consume, complete,
  submit_locked, submit_one, submit,
}
use libdrm.Cs.Handoff.{InBounds, submit_one-locked}

-- A request with commands, for a ring within the arrays, that depends on no fence.
pub record Ready (q : Request) : Type 0 where
  pub bounds : InBounds q.at
  pub first : IbInfo
  pub others : List IbInfo
  pub commands : q.ibs ≡ first ∷ others
  pub independent : q.dependencies ≡ []

abbrev pub AllReady : List (Request × Answer ℕ) → Type 0
AllReady [] = Unit {0}
AllReady ((q, answer) ∷ qs) = Ready q × AllReady qs

-- The first error among the driver's answers, or success.
abbrev pub first_error : List (Request × Answer ℕ) → Ret
first_error [] = ok
first_error ((q, done seq) ∷ qs) = first_error qs
first_error ((q, refused e) ∷ qs) = err e

-- What the requests receive: their numbers up to the first error, and nothing for the failed one.
abbrev pub numbers : List (Request × Answer ℕ) → List (Option ℕ)
numbers [] = []
numbers ((q, done seq) ∷ qs) = some seq ∷ numbers qs
numbers ((q, refused e) ∷ qs) = none ∷ []

-- The last number on a ring before the first error, `n` being the one from before.
abbrev pub last_on : Ring → ℕ → List (Request × Answer ℕ) → ℕ
last_on r n [] = n
last_on r n ((q, done seq) ∷ qs) = last_on r (if same_ring r q.at then seq else n) qs
last_on r n ((q, refused e) ∷ qs) = n

abbrev emptied : Context → Ring → Context
emptied c r = record c { sem_list = put_ring c.sem_list r [] }

-- One request on a context without waiting semaphores.
submit_one-Ready :
    (s : State) (ctx : ℕ) (c : Context) (q : Request) (answer : Answer ℕ)
    → s.contexts ctx ≡ some c
    → ((r : Ring) → c.sem_list r ≡ [])
    → Ready q
    → (sent : Sent) × (submit_one s ctx q answer
        ≡ some (complete s ctx (emptied c q.at) q.at sent answer))
unfolding submit_locked request_deps consume dep_chunks
submit_one-Ready s ctx c q answer h w ready =
    let no_deps : request_deps s.contexts q.dependencies ≡ some [] =
      ap (request_deps s.contexts) ready.independent in
    let sent : Sent = record {
      ctx_id = c.id;
      bo_list_handle = elim q.resources [ none ↦ 0 | some h ↦ h ];
      chunks = map (ib_chunk q) q.ibs ++ (fence_chunks q.fence_info ++ []);
    } in
    (
      sent,
      submit_one-locked s ctx c q ready.first ready.others answer ready.bounds ready.commands h
          ∙ rw (submit_locked, no_deps, w q.at) refl,
    )

-- What a batch of requests leaves of the state.
pub record Left (s : State) (ctx : ℕ) (c : Context) (qs : List (Request × Answer ℕ)) (t : State)
    : Type 0 where
  pub context : Context
  pub contexts : (p : ℕ) → t.contexts p ≡ (if p == ctx then some context else s.contexts p)
  pub id : context.id ≡ c.id
  pub last_seq : (r : Ring) → context.last_seq r ≡ last_on r (c.last_seq r) qs
  pub sem_list : (r : Ring) → context.sem_list r ≡ []
  pub sems : t.sems ≡ s.sems

-- A context without waiting semaphores, and requests with commands and without dependencies, for rings
-- within the arrays. The submission of them all returns. Its result is the first error of the driver,
-- or 0; up to that error each request receives its number, and none after it; the context keeps for
-- each ring the number of the last request on it that the driver took, and nothing else changes.
pub submit-Ready :
    (s : State) (ctx : ℕ) (c : Context) (qs : List (Request × Answer ℕ))
    → ctx ≢ 0
    → s.contexts ctx ≡ some c
    → ((r : Ring) → c.sem_list r ≡ [])
    → AllReady qs
    → (t : State) × (submit s ctx qs ≡ some (first_error qs, numbers qs, t)) × Left s ctx c qs t
unfolding submit complete
submit-Ready s ctx c [] n h w a =
    let z : (ctx == 0) ≡ false = ground arith in
    (
      s,
      rw (submit, z) refl,
      record {
        context = c;
        contexts = λ p. ground (arith, h);
        id = refl;
        last_seq = λ r. refl;
        sem_list = w;
        sems = refl;
      },
    )
submit-Ready s ctx c ((q, refused e) ∷ qs) n h w (ready, a) =
    let z : (ctx == 0) ≡ false = ground arith in
    let (sent, k) = submit_one-Ready s ctx c q (refused e) h w ready in
    (
      set_context s ctx (emptied c q.at),
      rw (submit, z, k) refl,
      record {
        context = emptied c q.at;
        contexts = λ p. refl;
        id = refl;
        last_seq = λ r. refl;
        sem_list = λ r. ground (arith, w r);
        sems = refl;
      },
    )
submit-Ready s ctx c ((q, done seq) ∷ qs) n h w (ready, a) =
    let z : (ctx == 0) ≡ false = ground arith in
    let (sent, k) = submit_one-Ready s ctx c q (done seq) h w ready in
    let c' : Context = record (emptied c q.at) { last_seq = put_ring c.last_seq q.at seq } in
    let s' = set_context s ctx c' in
    let (t, e, left) = submit-Ready s' ctx c' qs n (ground arith) (λ r. ground (arith, w r)) a in
    (
      t,
      rw (submit, z, k, e) refl,
      record {
        context = left.context;
        contexts = λ p. ground (arith, left.contexts p);
        id = left.id;
        last_seq = left.last_seq;
        sem_list = left.sem_list;
        sems = left.sems;
      },
    )
