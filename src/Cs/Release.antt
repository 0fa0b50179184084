-- ===== src/Cs/Release.antt =====
-- The release of a context with the semaphores that wait in it.
use libdrm.Base.{
  ℕ, contains, ◌-◌, ◌<◌, ◌≡◌, ◌≢◌, refl, ap, sym, ◌∙◌, inl, inr, ◌==◌, ◌^◌, true, false, Option,
  none, some, List, [], ◌∷◌, ◌++◌, if◌then◌else◌, sub32, arith, Bool-cases, Option-cases, Ret,
}
use libdrm.Cs.State.{Ring, no_fence, Semaphore, Context, State, put_at, set_sem}
use libdrm.Cs.Semaphore.{reset_sem, unreference_sem}
use libdrm.Cs.Context.{
  CtxArgs, all_rings, free_one, free_sems, free_rings, ask, ctx_free, op_free_ctx,
}

-- The semaphores that wait on some rings of a context, in the order of the loops.
abbrev pub waiting_on : Context → List Ring → List ℕ
waiting_on c [] = []
waiting_on c (r ∷ rs) = c.sem_list r ++ waiting_on c rs

abbrev pub waiting : Context → List ℕ
waiting c = waiting_on c all_rings

-- Each semaphore is there once, and somebody else has a reference to it.
abbrev pub Held : (ℕ → Option Semaphore) → List ℕ → Type 0
Held sems [] = Unit {0}
Held sems (p ∷ l) =
    ((x : Semaphore) × (sems p ≡ some x) × (1 < x.refcount) × (x.refcount < 2 ^ 32))
    × ((contains l p ≡ false) × Held sems l)

-- A semaphore after the context's reference is gone: it has one reference less, waits nowhere, and its
-- fence, if it had one, is cleared.
abbrev pub released : Semaphore → Semaphore
released x = record {
  refcount = x.refcount - 1;
  listed = false;
  signal_fence = if x.signal_fence.context == 0 then x.signal_fence else no_fence;
}

abbrev pub released_at : Option Semaphore → Option Semaphore
released_at none = none
released_at (some x) = some (released x)

free_sems-append :
    (s : State) (l m : List ℕ)
    → free_sems s (l ++ m) ≡ elim (free_sems s l) [ none ↦ none | some t ↦ free_sems t m ]
unfolding free_sems
free_sems-append s [] m = refl
free_sems-append s (p ∷ l) m = elim (Option-cases (free_one s p)) [
  | inl z ↦ rw (free_sems, z) refl
  | inr (t, z) ↦ rw (free_sems, z) (free_sems-append t l m)
]

-- The three loops run through one list.
free_rings-waiting_on :
    (s : State) (c : Context) (rs : List Ring) → free_rings s c rs ≡ free_sems s (waiting_on c rs)
unfolding free_rings free_sems
free_rings-waiting_on s c [] = refl
free_rings-waiting_on s c (r ∷ rs) = elim (Option-cases (free_sems s (c.sem_list r))) [
  | inl z ↦ rw (free_rings, z, free_sems-append s (c.sem_list r) (waiting_on c rs), z) refl
  | inr (t, z) ↦
      rw (free_rings, z, free_sems-append s (c.sem_list r) (waiting_on c rs), z)
        (free_rings-waiting_on t c rs)
]

free_one-held :
    (s : State) (p : ℕ) (x : Semaphore)
    → s.sems p ≡ some x
    → 1 < x.refcount
    → x.refcount < 2 ^ 32
    → free_one s p ≡ some (set_sem s p (some (released x)))
unfolding free_one reset_sem unreference_sem
free_one-held s p x e g l =
    let a : (x.refcount == 0) ≡ false = ground arith in
    let b : (x.refcount == 1) ≡ false = ground arith in
    let c : sub32 x.refcount 1 ≡ x.refcount - 1 = omega arith in
    elim (Bool-cases (x.signal_fence.context == 0)) [
      | inl z ↦ rw (free_one, e, reset_sem, z, unreference_sem, a, b, c) refl
      | inr z ↦ rw (free_one, e, reset_sem, z, unreference_sem, a, b, c) refl
    ]

free_one-last :
    (s : State) (p : ℕ) (x : Semaphore) → s.sems p ≡ some x → x.refcount ≡ 1 → free_one s p ≡ none
unfolding free_one reset_sem unreference_sem
free_one-last s p x e g = elim (Bool-cases (x.signal_fence.context == 0)) [
  | inl z ↦ rw (free_one, e, reset_sem, z, unreference_sem, g) refl
  | inr z ↦ rw (free_one, e, reset_sem, z, unreference_sem, g) refl
]

-- A semaphore other than the one that is released stays.
free_one-other : (s t : State) (p q : ℕ) → free_one s q ≡ some t → q ≢ p → t.sems p ≡ s.sems p
unfolding free_one
free_one-other s t p q e n = ground arith

free_sems-last :
    (s : State) (l : List ℕ) (p : ℕ) (x : Semaphore)
    → contains l p ≡ true
    → s.sems p ≡ some x
    → x.refcount ≡ 1
    → free_sems s l ≡ none
unfolding free_sems
free_sems-last s [] p x m e g = absurd (cc)
free_sems-last s (q ∷ l) p x m e g = elim (Bool-cases (q == p)) [
  | inl z ↦
      let k : q ≡ p = ground arith in rw (free_sems, free_one-last s q x (ap s.sems k ∙ e) g) refl
  | inr z ↦ elim (Option-cases (free_one s q)) [
    | inl w ↦ rw (free_sems, w) refl
    | inr (t, w) ↦
        rw (free_sems, w)
          (free_sems-last t l p x (ground arith) (free_one-other s t p q w (ground arith) ∙ e) g)
  ]
]

Held-put :
    (sems : ℕ → Option Semaphore) (l : List ℕ) (p : ℕ) (v : Option Semaphore)
    → contains l p ≡ false
    → Held sems l
    → Held (put_at sems p v) l
Held-put sems [] p v n h = tt
Held-put sems (q ∷ l) p v n ((x, e, g, u), (m, h)) =
    let k : (q == p) ≡ false = ground arith in
    ((x, rw k e, g, u), (m, Held-put sems l p v (ground arith) h))

free_sems-Held :
    (s : State) (l : List ℕ)
    → Held s.sems l
    → (t : State) × (free_sems s l ≡ some t)
      × (t.contexts ≡ s.contexts)
      × ((p : ℕ) → t.sems p ≡ (if contains l p then released_at (s.sems p) else s.sems p))
unfolding free_sems
free_sems-Held s [] h = (s, refl, refl, λ p. refl)
free_sems-Held s (q ∷ l) ((x, e, g, u), (m, h)) =
    let s' = set_sem s q (some (released x)) in
    let (t, f, c, k) = free_sems-Held s' l (Held-put s.sems l q _ m h) in
    let qq : (q == q) ≡ true = ground arith in
    let here : t.sems q ≡ released_at (s.sems q) = rw (k q, m, qq, e) refl in
    (
      t,
      rw (free_sems, free_one-held s q x e g u) f,
      c,
      λ p. elim (Bool-cases (q == p)) [
        | inl z ↦
            let r : q ≡ p = ground arith in
            rw z (ap t.sems (sym r) ∙ here ∙ ap (λ i. released_at (s.sems i)) r)
        | inr z ↦ let pq : (p == q) ≡ false = ground arith in rw (z, k p, pq) refl
      ],
    )

-- A context whose waiting semaphores each wait once and are held elsewhere too is released: the result
-- is the driver's, its address is free, each of its semaphores has one reference less, waits nowhere
-- and has no fence (its fence's context is NULL), and every other context and semaphore is what it was.
pub ctx_free-Held :
    {D : Type 0} (ctx_raw : D → CtxArgs → Ret × CtxArgs × D) (s : State) (d : D) (context : ℕ)
    (c : Context)
    → context ≢ 0
    → s.contexts context ≡ some c
    → Held s.sems (waiting c)
    → let a = ask ctx_raw d c op_free_ctx 0 in
      (t : State) × (ctx_free ctx_raw s d context ≡ some (a.0, t, a.2))
      × ((q : ℕ) → t.contexts q ≡ (if q == context then none else s.contexts q))
      × ((p : ℕ) → t.sems p ≡ (if contains (waiting c) p then released_at (s.sems p) else s.sems p))
unfolding ctx_free
ctx_free-Held ctx_raw s d context c n e h =
    let (t, f, k, m) = free_sems-Held s (waiting c) h in
    let z : (context == 0) ≡ false = ground arith in
    (
      record t { contexts = put_at t.contexts context none },
      rw (ctx_free, z, e, free_rings-waiting_on s c all_rings, f) refl,
      λ q. ap (λ (g : ℕ → Option Context). if q == context then none else g q) k,
      m,
    )

-- If a semaphore waits in a context, and its owner has destroyed it, which leaves it with one
-- reference, then the release of the context uses it after it was freed.
pub ctx_free-last :
    {D : Type 0} (ctx_raw : D → CtxArgs → Ret × CtxArgs × D) (s : State) (d : D) (context : ℕ)
    (c : Context) (p : ℕ) (x : Semaphore)
    → context ≢ 0
    → s.contexts context ≡ some c
    → contains (waiting c) p ≡ true
    → s.sems p ≡ some x
    → x.refcount ≡ 1
    → ctx_free ctx_raw s d context ≡ none
unfolding ctx_free
ctx_free-last ctx_raw s d context c p x n e m f g =
    let z : (context == 0) ≡ false = ground arith in
    rw (ctx_free, z, e, free_rings-waiting_on s c all_rings, free_sems-last s (waiting c) p x m f g)
      refl
