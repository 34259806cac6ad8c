-- ===== src/Accounting/Bytes.antt =====
-- No byte is lost or counted twice between the counters, the pending buckets and the history.
use ayad_network_manager.Base.{
  ℕ, ◌+◌, ◌-◌, Bool, true, false, ◌≡◌, refl, some, List, [], ◌∷◌, arith, ◌==◌, nat_eq, text_eq,
  if◌then◌else◌, Bool-cases, ◌⊎◌, inl, inr, not, leb,
}
use ayad_network_manager.Base.Map.{lookup}
use ayad_network_manager.Base.Effects.{Result, ok, err, Result-cases}
use ayad_network_manager.Errors.{Error}
use ayad_network_manager.Domain.TcClassId.{Direction}
use ayad_network_manager.Domain.Device.{Device}
use ayad_network_manager.Accounting.{
  Usage, PreviousUsage, PendingBucket, Accounting, Services, bucket_start_of, flush_history_bucket,
  flush_entry, flush_where, flush_pending, flush_expired_history_buckets, stop,
}
use ayad_network_manager.Accounting.Ledger.{bytes, pending_bytes, IsLedger}

-- What a counter counted between two readings; one that shows less than before started again at 0.
abbrev pub counted : ℕ → ℕ → ℕ
counted before now = if leb before now then now - before else now

module _ {S : Type 0} (env : Services S) {dir : Direction} {stored : S → ℕ}
    (ledger : IsLedger env dir stored) where
  -- What is accounted for: stored in the history or waiting for it.
  abbrev pub balance : Accounting × S → ℕ
  balance (a, s) = stored s + pending_bytes dir (a.pending_buckets)

  flush_entry-balance :
      (due : PendingBucket → Bool) (id : ℕ) (b : PendingBucket) (s : S)
      → stored (flush_entry env due id b s).1
          + (if (flush_entry env due id b s).0 then bytes dir (b.usage) else 0)
        ≡ stored s + bytes dir (b.usage)
  unfolding flush_entry flush_history_bucket
  flush_entry-balance due id b s = elim (Bool-cases (due b)) [
    | inr early ↦ rw early refl
    | inl late ↦ elim (Result-cases (flush_history_bucket env id b s).0) [
      | inl (done, e) ↦ rw (late, e) (omega (arith, ledger.taken _ s e))
      | inr (x, e) ↦ rw (late, e) (omega (arith, ledger.refused _ s x e))
    ]
  ]

  flush_where-balance :
      (due : PendingBucket → Bool) (m : List (ℕ × PendingBucket)) (s : S)
      → stored (flush_where env due m s).1 + pending_bytes dir (flush_where env due m s).0
        ≡ stored s + pending_bytes dir m
  unfolding flush_where pending_bytes
  flush_where-balance due [] s = refl
  flush_where-balance due ((id, b) ∷ m) s =
      let one = flush_entry-balance due id b s in
      let rest = flush_where-balance due m (flush_entry env due id b s).1 in
      elim (Bool-cases (flush_entry env due id b s).0) [
        | inl stays ↦ let one' = rw stays at one in rw stays (omega (arith, one', rest))
        | inr goes ↦ let one' = rw goes at one in rw goes (omega (arith, one', rest))
      ]

  -- With a history that keeps the laws of IsLedger, and whatever flushes fail, the loops over the
  -- pending buckets lose no byte and count none twice: the one after every collection and the one
  -- of a stop.
  pub flush-balance :
      (now : ℕ) (t : Accounting × S)
      → (balance (flush_expired_history_buckets env now t).1 ≡ balance t)
        × (balance (stop env t).1 ≡ balance t)
  unfolding flush_expired_history_buckets stop flush_pending
  flush-balance now (a, s) = (
    flush_where-balance (λ b. not (leb (bucket_start_of now) b.bucket_start)) a.pending_buckets s,
    flush_where-balance (λ b. true) a.pending_buckets s,
  )

  -- Why a sample may fail: the history refuses the bucket of an earlier minute that waits.
  abbrev pub Refused : ℕ → ℕ → Error → Accounting × S → Type 0
  Refused id timestamp e (a, s) =
      (b : PendingBucket) × (lookup id a.pending_buckets ≡ some b)
      × ((b.bucket_start == bucket_start_of timestamp) ≡ false)
      × ((flush_history_bucket env id b s).0 ≡ err e)

  -- How a call that accounts for some bytes may end: it has, or it throws and has not, and the last
  -- samples are as they were.
  abbrev Accounts : ℕ → ℕ → ℕ → Accounting × S → Result Error (Unit {0}) × (Accounting × S) → Type 0
  Accounts id timestamp amount (a, s) (r, t) =
      ((r ≡ ok tt) × (balance t ≡ balance (a, s) + amount))
      ⊎ ((e : Error) × (r ≡ err e)
          × (balance t ≡ balance (a, s))
          × (t.0.previous ≡ a.previous)
          × Refused id timestamp e (a, s))

  -- How a sample may end: it is remembered and its bytes are accounted for, or the history refuses a
  -- bucket, and the sample before is remembered and nothing is accounted for.
  pub data Sampled (id timestamp : ℕ) (p : PreviousUsage) (current : Usage) (t : Accounting × S)
      (q : Result Error (Unit {0}) × (Accounting × S)) : Type 0 where
    sampled :
        q.0 ≡ ok tt
        → lookup id (q.1.0).previous ≡ some (record { usage = current; timestamp = timestamp })
        → balance q.1 ≡ balance t + counted (bytes dir p.usage) (bytes dir current)
        → Sampled id timestamp p current t q
    refused :
        (e : Error)
        → q.0 ≡ err e
        → lookup id (q.1.0).previous ≡ some p
        → balance q.1 ≡ balance t
        → Refused id timestamp e t
        → Sampled id timestamp p current t q
