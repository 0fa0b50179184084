-- ===== src/Cs/Tests.antt =====
-- Command submission at concrete values: one context, and a semaphore on its way between two rings.
use libdrm.Base.{
  ℕ, contains, ◌+◌, Ret, ◌≡◌, ◌==◌, refl, ◌⊎◌, true, false, none, some, List, [], ◌∷◌, arith,
  if◌then◌else◌, ok, err, einval,
}
use libdrm.Bo.State.{Answer, done, refused}
use libdrm.Cs.State.{Ring, no_fence, Semaphore, Context, State, same_ring}
use libdrm.Cs.Semaphore.{signal_semaphore, wait_semaphore}
use libdrm.Cs.Submit.{IbInfo, Request, Submitted, submit_one, submit}
use libdrm.Cs.Batch.{Left, Ready, submit-Ready}
use libdrm.Cs.Handoff.{sent_with, submit_one-wait-signal}
use libdrm.Cs.SyncFile.{
  Answers, export_sync_file2, import_sync_file2, destroyed, created, destroyed-eq-created,
}
use libdrm.Cs.Context.{CtxArgs, ask, ctx_free}
use libdrm.Cs.Release.{ctx_free-last, waiting, released_at, ctx_free-Held}

abbrev graphics : Ring
graphics = record { ip_type = 0; ip_instance = 0; ring = 0 }

abbrev copy : Ring
copy = record { ip_type = 2; ip_instance = 0; ring = 1 }

-- The last submission of every ring is number 3.
abbrev context : Context
context = record { id = 5; last_seq = λ r. 3; sem_list = λ r. [] }

abbrev semaphore : Semaphore
semaphore = record { refcount = 1; listed = false; signal_fence = no_fence }

abbrev state : State
state = record {
  contexts = λ p. if p == 1 then some context else none;
  sems = λ p. if p == 9 then some semaphore else none;
}

abbrev command : IbInfo
command = record { ib_mc_address = 0x10_0000; size = 16; flags = 0 }

abbrev request : Request
request = record {
  at = copy;
  ibs = command ∷ [];
  resources = none;
  fence_info = some (4, 8);
  dependencies = [];
}

submit_one-wait-signal_example :
    (t u : State) × (signal_semaphore state 1 graphics 9 ≡ some (ok, t))
    × (wait_semaphore t 1 copy 9 ≡ some (ok, u))
    × (y : Submitted) × (submit_one u 1 request (done 4) ≡ some y)
    × (y.state.sems 9 ≡ some semaphore)
    × (y.sent ≡ some (sent_with context request (record { at = graphics; ctx_id = 5; handle = 3 })))
submit_one-wait-signal_example =
    submit_one-wait-signal state 1 1 9 graphics context context semaphore request command []
      (done 4) (omega arith) (omega arith) (omega arith)
      (record { ip_type = omega arith; ip_instance = omega arith; ring = omega arith })
      (record { ip_type = omega arith; ip_instance = omega arith; ring = omega arith }) refl refl
      refl refl refl refl
      (record { counted = omega arith; bounded = omega arith; unsignalled = refl; unlisted = refl })

abbrev draw : Request
draw = record request { at = graphics }

request-Ready : Ready request
request-Ready = record {
  bounds = record { ip_type = omega arith; ip_instance = omega arith; ring = omega arith };
  first = command;
  others = [];
  commands = refl;
  independent = refl;
}

draw-Ready : Ready draw
draw-Ready = record {
  bounds = record { ip_type = omega arith; ip_instance = omega arith; ring = omega arith };
  first = command;
  others = [];
  commands = refl;
  independent = refl;
}

-- The driver takes the first two requests and refuses the third; the fourth is not sent.
abbrev batch : List (Request × Answer ℕ)
batch = (request, done 4) ∷ (draw, done 5) ∷ (request, refused einval) ∷ (draw, done 6) ∷ []

submit-Ready_example :
    (t : State) × (submit state 1 batch ≡ some (err einval, some 4 ∷ some 5 ∷ none ∷ [], t))
    × Left state 1 context batch t
submit-Ready_example =
    submit-Ready state 1 context batch (omega arith) refl (λ r. refl)
      (request-Ready, (draw-Ready, (request-Ready, (draw-Ready, tt))))

abbrev answers : Answers
answers = record {
  create = done 30;
  transfer = err einval;
  export_sync_file = done 12;
  import_sync_file = ok;
}

-- The transfer fails on the way, and the temporary object 30 is destroyed.
destroyed-eq-created_example :
    let e = export_sync_file2 answers true 7 2 0 in
    let i = import_sync_file2 answers true 7 2 12 in
    (destroyed e.requests ≡ created answers.create e.requests)
    × (destroyed i.requests ≡ created answers.create i.requests)
    × ((e.sync_file_fd ≡ none)
        ⊎ ((e.ret ≡ ok)
            × (x : ℕ) × (e.sync_file_fd ≡ some x)
            × (answers.export_sync_file ≡ done x)))
destroyed-eq-created_example = destroyed-eq-created answers true 7 2 0 12

-- The driver keeps a count of the requests, and refuses none.
abbrev counting : ℕ → CtxArgs → Ret × CtxArgs × ℕ
counting d a = (ok, a, d + 1)

-- The semaphore at 9 waits on the copy ring, and its owner has it still.
abbrev held_semaphore : Semaphore
held_semaphore = record {
  refcount = 2;
  listed = true;
  signal_fence = record { context = 1; at = graphics; fence = 3 };
}

abbrev waiting_context : Context
waiting_context = record {
  id = 5;
  last_seq = λ r. 3;
  sem_list = λ r. if same_ring r copy then 9 ∷ [] else [];
}

abbrev waiting_state : Semaphore → State
waiting_state x = record {
  contexts = λ p. if p == 1 then some waiting_context else none;
  sems = λ p. if p == 9 then some x else none;
}

ctx_free-Held_example :
    (t : State) × (ctx_free counting (waiting_state held_semaphore) 0 1 ≡ some (ok, t, 1))
    × ((q : ℕ)
        → t.contexts q ≡ (if q == 1 then none else (waiting_state held_semaphore).contexts q))
    × ((p : ℕ)
        → t.sems p ≡ (
            if contains (waiting waiting_context) p
            then released_at ((waiting_state held_semaphore).sems p)
            else (waiting_state held_semaphore).sems p))
unfolding ask
ctx_free-Held_example =
    ctx_free-Held counting (waiting_state held_semaphore) 0 1 waiting_context (omega arith) refl
      ((held_semaphore, refl, omega arith, omega arith), (refl, tt))

abbrev destroyed_semaphore : Semaphore
destroyed_semaphore = record held_semaphore { refcount = 1 }

ctx_free-last_example : ctx_free counting (waiting_state destroyed_semaphore) 0 1 ≡ none
ctx_free-last_example =
    ctx_free-last counting (waiting_state destroyed_semaphore) 0 1 waiting_context 9
      destroyed_semaphore (omega arith) refl refl refl refl
