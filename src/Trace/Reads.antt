-- ===== src/Trace/Reads.antt =====
-- Which memory a printing program reads: it succeeds where that memory may be read.
use Prim.Native.String.{String}
use libdrm.Base.{
  ℕ, zero, suc, ◌+◌, ◌*◌, ◌≤◌, ◌<◌, ◌≡◌, refl, ap, ◌∙◌, none, some, List, [], ◌∷◌, ◌++◌, arith,
  ◌==◌, if◌then◌else◌, Bool-cases, inl, inr,
}
use libdrm.Trace.Output.{
  Memory, Printf, printf, M, ◌>>=◌, ◌>>◌, nothing, say, print, load, Field, write_fields,
}
use libdrm.Trace.Post.{commas, print_at}

abbrev pub Readable : Memory → ℕ → ℕ → Type 0
Readable m a n = (i : ℕ) → i < n → (byte : ℕ) × (m (a + i) ≡ some byte)

-- The program does not fault: its result and its output.
pub data Succeeds {A : Type 0} (p : M A) (m : Memory) : Type 0 where
  outcome : (x : A × List Printf) → p m ≡ some x → Succeeds p m

pub say-Succeeds : (s : String) (m : Memory) → Succeeds (say s) m
say-Succeeds s m = outcome _ refl

pub part-Readable : (m : Memory) (a n k l : ℕ) → Readable m a n → k + l ≤ n → Readable m (a + k) l
part-Readable m a n k l r h i u =
    let (b, e) = r (k + i) (omega arith) in (b, ap m (omega arith) ∙ e)

pub load-Succeeds : (n a : ℕ) (m : Memory) → Readable m a n → Succeeds (load n a) m
unfolding load
load-Succeeds zero a m r = outcome _ refl
load-Succeeds (suc n) a m r =
    let (b, e) = r 0 (omega arith) in
    let e' : m a ≡ some b = ap m (omega arith) ∙ e in
    elim (load-Succeeds n (a + 1) m (part-Readable m a (suc n) 1 n r (omega arith))) [
      | outcome (v, out) f ↦ outcome (b + 256 * v, []) (rw (load, e', f) refl)
    ]

pub bind-Succeeds :
    {A B : Type 0} (p : M A) (f : A → M B) (m : Memory)
    → Succeeds p m
    → ((v : A) → Succeeds (f v) m)
    → Succeeds (p >>= f) m
bind-Succeeds p f m (outcome (v, out) e) s = elim (s v) [
  | outcome (w, out') e' ↦ outcome (w, out ++ out') (rw (e, ◌>>=◌, e') refl)
]

pub then-Succeeds :
    {B : Type 0} (p : M (Unit {0})) (q : M B) (m : Memory)
    → Succeeds p m
    → Succeeds q m
    → Succeeds (p >> q) m
then-Succeeds p q m s t = bind-Succeeds p (λ _. q) m s (λ _. t)

-- Every field lies in the first `n` bytes.
abbrev pub Within : ℕ → List Field → Type 0
Within n [] = Unit {0}
Within n (f ∷ fs) = (f.offset + f.bytes ≤ n) × Within n fs

pub write_fields-Succeeds :
    (base n : ℕ) (fs : List Field) (m : Memory)
    → Within n fs
    → Readable m base n
    → Succeeds (write_fields base fs) m
unfolding write_fields
write_fields-Succeeds base n [] m w r = outcome _ refl
write_fields-Succeeds base n (f ∷ fs) m (w, ws) r =
    bind-Succeeds (load f.bytes (base + f.offset))
      (λ v. print f.format (v ∷ []) >> write_fields base fs) m
      (load-Succeeds f.bytes (base + f.offset) m (part-Readable m base n f.offset f.bytes r w))
      (λ v.
        then-Succeeds (print f.format (v ∷ [])) (write_fields base fs) m (outcome _ refl)
          (write_fields-Succeeds base n fs m ws r))

pub commas-Succeeds :
    (n i : ℕ) (body : ℕ → M (Unit {0})) (m : Memory)
    → ((j : ℕ) → j < i + n → Succeeds (body j) m)
    → Succeeds (commas n i body) m
unfolding commas
commas-Succeeds zero i body m s = outcome _ refl
commas-Succeeds (suc n) i body m s =
    then-Succeeds (if i == 0 then nothing else say ", ") (body i >> commas n (i + 1) body) m
      (separator i)
      (then-Succeeds (body i) (commas n (i + 1) body) m (s i (omega arith))
        (commas-Succeeds n (i + 1) body m (λ j u. s j (omega arith))))
  where
    separator : (i : ℕ) → Succeeds (if i == 0 then nothing else say ", ") m
    separator i = elim (Bool-cases (i == 0)) [
      | inl e ↦ outcome (tt, []) (rw e refl)
      | inr e ↦ outcome (tt, printf ", " [] ∷ []) (rw e refl)
    ]

pub print_at-Succeeds :
    (base n i : ℕ) (f : Field) (m : Memory)
    → i * f.bytes + f.bytes ≤ n
    → Readable m base n
    → Succeeds (print_at base i f) m
print_at-Succeeds base n i f m h r =
    bind-Succeeds (load f.bytes (base + i * f.bytes)) (λ v. print f.format (v ∷ [])) m
      (load-Succeeds f.bytes _ m (part-Readable m base n (i * f.bytes) f.bytes r h))
      (λ v. outcome (tt, printf f.format (v ∷ []) ∷ []) refl)

-- A load faults where its first byte may not be read.
pub load_unreadable : (n a : ℕ) (m : Memory) → m a ≡ none → load (suc n) a m ≡ none
unfolding load
load_unreadable n a m e = rw (load, e) refl
