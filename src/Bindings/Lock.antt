-- ===== src/Bindings/Lock.antt =====
-- backend/src/application/enforcement/IpBindingMutationLock.ts: the chain of promises as a state
-- machine. The operations are numbered in the order of their calls; `tail` is the promise that the
-- next call waits for, which the operation that made it resolves when it settles, also by a throw.
use ayad_network_manager.Base.{
  ℕ, zero, suc, ◌+◌, ◌-◌, ◌≤◌, ◌<◌, false, Option, none, some, ◌≡◌, refl, ◌∙◌, ap, ◌==◌, nat_eq,
  if◌then◌else◌, ltb, Bool-cases, inl, inr, ◌⊎◌, arith,
}

pub data Phase : Type 0 where
  -- called, and behind another promise
  waiting : Phase
  -- its operation runs
  running : Phase
  -- its operation settled, and its promise is resolved
  settled : Phase

pub record Lock : Type 0 where
  -- how many operations were called
  pub called : ℕ
  -- the operation that made `tail`; none for the promise that is resolved from the start
  pub tail : Option ℕ
  -- what each operation waits for, and how far it is
  pub previous : ℕ → Option ℕ
  pub phase : ℕ → Phase

abbrev pub update {ℓ} : {A : Type ℓ} → (ℕ → A) → ℕ → A → ℕ → A
update f i a j = if i == j then a else f j

unfoldable pub initial : Lock
initial = record { called = 0; tail = none; previous = λ n. none; phase = λ n. waiting }

-- `withIpBindingMutationLock(operation)`, up to its return.
unfoldable pub call : Lock → Lock
call l = record {
  called = l.called + 1;
  tail = some l.called;
  previous = update l.previous l.called l.tail;
  phase = update l.phase l.called waiting;
}

abbrev pub Resolved : Lock → Option ℕ → Type 0
Resolved l none = Unit {0}
Resolved l (some n) = l.phase n ≡ settled

-- What the event loop may do: take a call, start an operation behind a resolved promise, settle one
-- that runs.
pub data Step : Lock → Lock → Type 0 where
  calls : (l : Lock) → Step l (call l)
  starts :
      (l : Lock) (n : ℕ)
      → n < l.called
      → l.phase n ≡ waiting
      → Resolved l (l.previous n)
      → Step l (record l { phase = update l.phase n running })
  settles :
      (l : Lock) (n : ℕ)
      → l.phase n ≡ running
      → Step l (record l { phase = update l.phase n settled })

pub data Reach : Lock → Type 0 where
  start : Reach initial
  later : {l m : Lock} → Reach l → Step l m → Reach m

-- Every operation waits for the one before it, and an operation is past waiting only behind
-- operations that are settled.
pub record IsChain (l : Lock) : Type 0 where
  pub tail_of : (n : ℕ) → l.called ≡ n + 1 → l.tail ≡ some n
  pub no_tail : l.called ≡ 0 → l.tail ≡ none
  pub links : (n : ℕ) → n + 1 < l.called → l.previous (n + 1) ≡ some n
  pub first : 0 < l.called → l.previous 0 ≡ none
  pub known : (n : ℕ) → l.called ≤ n → l.phase n ≡ waiting
  pub behind : (n : ℕ) → (l.phase (n + 1) ≡ waiting) ⊎ (l.phase n ≡ settled)

initial-IsChain : IsChain initial
unfolding initial
initial-IsChain = record {
  tail_of = λ n h. absurd (omega arith);
  no_tail = λ h. refl;
  links = λ n h. absurd (omega arith);
  first = λ h. absurd (omega arith);
  known = λ n h. refl;
  behind = λ n. inl refl;
}

call-IsChain : (l : Lock) → IsChain l → IsChain (call l)
unfolding call
call-IsChain l c = record {
  tail_of = λ n h. ground arith;
  no_tail = λ h. absurd (omega arith);
  links = λ n h. ground (arith, c.tail_of n, c.links n);
  first = λ h. ground (arith, c.no_tail, c.first);
  known = λ n h. ground (arith, c.known n);
  behind = λ n. ground (arith, c.behind n, c.known n);
}

start-IsChain :
    (l : Lock) (n : ℕ)
    → n < l.called
    → l.phase n ≡ waiting
    → Resolved l (l.previous n)
    → IsChain l
    → IsChain (record l { phase = update l.phase n running })
start-IsChain l n lt ready resolved c = record {
  tail_of = c.tail_of;
  no_tail = c.no_tail;
  links = c.links;
  first = c.first;
  known = λ k h. ground (arith, c.known k);
  behind = λ k. ground (arith, c.behind k, before k);
}
  where
    before : (k : ℕ) → n ≡ k + 1 → l.phase k ≡ settled
    before k e =
        let link : l.previous n ≡ some k = ap l.previous e ∙ c.links k (omega arith) in
        rw link at resolved

settle-IsChain :
    (l : Lock) (n : ℕ)
    → l.phase n ≡ running
    → IsChain l
    → IsChain (record l { phase = update l.phase n settled })
settle-IsChain l n runs c = record {
  tail_of = c.tail_of;
  no_tail = c.no_tail;
  links = c.links;
  first = c.first;
  known = λ k h. ground (arith, c.known k);
  behind = λ k. ground (arith, c.behind k);
}

Step-IsChain : {l m : Lock} → Step l m → IsChain l → IsChain m
Step-IsChain (calls l) c = call-IsChain l c
Step-IsChain (starts l n lt ready resolved) c = start-IsChain l n lt ready resolved c
Step-IsChain (settles l n runs) c = settle-IsChain l n runs c

Reach-IsChain : {l : Lock} → Reach l → IsChain l
Reach-IsChain start = initial-IsChain
Reach-IsChain (later r step) = Step-IsChain step (Reach-IsChain r)

-- What is past waiting has only settled operations before it.
earlier-settled :
    {l : Lock}
    → IsChain l
    → (gap n : ℕ) → (l.phase (n + 1 + gap) ≡ waiting → ⊥)
    → l.phase n ≡ settled
earlier-settled {l} c zero n past = elim (c.behind n) [
  | inl w ↦ absurd (past (ap l.phase (omega arith) ∙ w))
  | inr s ↦ s
]
earlier-settled {l} c (suc gap) n past = elim (c.behind n) [
  | inr s ↦ s
  | inl w ↦
      let next : l.phase (n + 1) ≡ settled =
        earlier-settled c gap (n + 1) (λ w'. past (ap l.phase (omega arith) ∙ w')) in
      absurd (cc (w, next))
]

past_waiting : (p : Phase) → (p ≡ waiting) ⊎ (p ≡ waiting → ⊥)
past_waiting waiting = inl refl
past_waiting running = inr (λ e. absurd (cc))
past_waiting settled = inr (λ e. absurd (cc))

-- In every reachable state of the lock, while an operation runs, all that were called before it are
-- settled and all others wait: no two run together, and they run in the order of their calls.
pub exclusive_in_order :
    {l : Lock}
    → Reach l
    → (n k : ℕ) → l.phase n ≡ running
    → (k == n) ≡ false
    → l.phase k ≡ (if ltb k n then settled else waiting)
exclusive_in_order {l} r n k runs apart = elim (Bool-cases (ltb k n)) [
  | inl before ↦
      let up : n ≡ k + 1 + (n - (k + 1)) = ground arith in
      rw before (earlier-settled c (n - (k + 1)) k (λ w. absurd (cc (ap l.phase up ∙ w, runs))))
  | inr after ↦
      let up : k ≡ n + 1 + (k - (n + 1)) = ground arith in
      rw after (elim (past_waiting (l.phase k)) [
        | inl w ↦ w
        | inr past ↦
            let done : l.phase n ≡ settled =
              earlier-settled c (k - (n + 1)) n (λ w. past (ap l.phase up ∙ w)) in
            absurd (cc (done, runs))
      ])
]
  where
    c : IsChain l
    c = Reach-IsChain r
