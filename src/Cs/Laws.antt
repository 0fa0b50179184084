-- ===== src/Cs/Laws.antt =====
-- What a submission leaves, and the saturation of timeouts.
use libdrm.Base.{
  ℕ, ◌+◌, ◌*◌, ◌<◌, ◌^◌, ◌≡◌, ◌≢◌, refl, Option, none, some, some_inj, List, [], ◌∷◌, if◌then◌else◌,
  arith, Bool-cases, Option-cases, inl, inr, leb, min2, ok, err, einval,
}
use libdrm.Bo.State.{Answer, done, refused}
use libdrm.Cs.State.{Ring, Semaphore, Context, State, same_ring, instance_max_count, put_ring}
use libdrm.Cs.Semaphore.{bad_ring}
use libdrm.Cs.Submit.{
  IbInfo, Request, Sent, Submitted, request_deps, consume, complete, submit_locked, submit_one,
}
use libdrm.Cs.Time.{timeout_infinite, calculate_timeout}

-- The context after the driver's answer: the sequence number of the request's ring is the one that
-- the driver gave, and after an error it is the old one; the ring's list of waiting semaphores is
-- empty. The other rings are as before.
record After (c : Context) (r : Ring) (answer : Answer ℕ) (c' : Context) : Type 0 where
  pub id : c'.id ≡ c.id
  pub last_seq :
      (s : Ring)
      → c'.last_seq s ≡ elim answer [
        | done seq ↦ if same_ring s r then seq else c.last_seq s
        | refused e ↦ c.last_seq s
      ]
  pub sem_list : (s : Ring) → c'.sem_list s ≡ (if same_ring s r then [] else c.sem_list s)

-- What a submission that reached the driver reports and leaves.
record Reported (s : State) (ctx : ℕ) (c : Context) (q : Request) (answer : Answer ℕ)
    (x : Submitted) : Type 0 where
  pub ret : x.ret ≡ elim answer [ done seq ↦ ok | refused e ↦ err e ]
  pub seq_no : x.seq_no ≡ elim answer [ done seq ↦ some seq | refused e ↦ none ]
  pub others : (p : ℕ) → p ≢ ctx → x.state.contexts p ≡ s.contexts p
  pub after : (c' : Context) × (x.state.contexts ctx ≡ some c') × After c q.at answer c'

complete-Reported :
    (s : State) (sems : ℕ → Option Semaphore) (ctx : ℕ) (c : Context) (q : Request) (sent : Sent)
    (answer : Answer ℕ)
    → Reported s ctx c q answer (
        complete
          (record s { sems = sems })
          ctx
          (record c { sem_list = put_ring c.sem_list q.at [] })
          q.at
          sent
          answer)
unfolding complete
complete-Reported s sems ctx c q sent (done seq) = record {
  ret = refl;
  seq_no = refl;
  others = λ p n. ground arith;
  after = (_, ground arith, record { id = refl; last_seq = λ r. refl; sem_list = λ r. refl });
}
complete-Reported s sems ctx c q sent (refused e) = record {
  ret = refl;
  seq_no = refl;
  others = λ p n. ground arith;
  after = (_, ground arith, record { id = refl; last_seq = λ r. refl; sem_list = λ r. refl });
}

submit_locked-Reported :
    (s : State) (ctx : ℕ) (c : Context) (q : Request) (answer : Answer ℕ) (x : Submitted)
    → submit_locked s ctx c q answer ≡ some x
    → Reported s ctx c q answer x
unfolding submit_locked
submit_locked-Reported s ctx c q answer x e =
    elim (Option-cases (request_deps s.contexts q.dependencies)) [
      | inl z ↦ absurd (cc (rw (submit_locked, z) at e))
      | inr (deps, z) ↦ elim (Option-cases (consume s.contexts s.sems (c.sem_list q.at))) [
        | inl y ↦ absurd (cc (rw (submit_locked, z, y) at e))
        | inr ((d, sems), y) ↦
            rw (← some_inj (rw (submit_locked, z, y) at e))
              (complete-Reported s sems ctx c q _ answer)
      ]
    ]

-- A submission of a request with commands that returns has told the driver's result, and leaves the
-- context as `After` says and every other context as it was; an IP type or a ring index outside the
-- arrays gives EINVAL and changes nothing.
submit_one-Reported :
    (s : State) (ctx : ℕ) (c : Context) (q : Request) (i : IbInfo) (is : List IbInfo)
    (answer : Answer ℕ) (x : Submitted)
    → s.contexts ctx ≡ some c
    → q.ibs ≡ i ∷ is
    → submit_one s ctx q answer ≡ some x
    → if bad_ring q.at then (x.ret ≡ err einval) × (x.state ≡ s) else Reported s ctx c q answer x
unfolding submit_one
submit_one-Reported s ctx c q i is answer x h n e = elim (Bool-cases (bad_ring q.at)) [
  | inl b ↦ rw b (rw (← some_inj (rw (submit_one, b) at e)) (refl, refl))
  | inr b ↦ elim (Bool-cases (leb instance_max_count q.at.ip_instance)) [
    | inl z ↦ absurd (cc (rw (submit_one, b, n, z) at e))
    | inr z ↦ rw b (submit_locked-Reported s ctx c q answer x (rw (submit_one, b, n, z, h) at e))
  ]
]

-- A relative timeout is added to the clock, and saturates at the infinite one; the infinite one stays.
pub calculate_timeout-eq-min :
    (sec nsec timeout : ℕ)
    → sec * 1_000_000_000 + nsec < 2 ^ 64
    → timeout < 2 ^ 64
    → calculate_timeout (some (sec, nsec)) timeout
      ≡ min2 (timeout + (sec * 1_000_000_000 + nsec)) timeout_infinite
unfolding calculate_timeout
calculate_timeout-eq-min sec nsec timeout l m = ground arith
