-- ===== src/Accounting/Ledger.antt =====
-- The bytes of samples and buckets, and what the accounting relies on of the history.
use ayad_network_manager.Base.{
  ℕ, ◌+◌, false, ◌≡◌, refl, Option, none, some, List, [], ◌∷◌, Text, arith, ◌==◌, nat_eq, text_eq,
  Bool-cases, inl, inr,
}
use ayad_network_manager.Base.Map.{lookup, insert}
use ayad_network_manager.Base.Effects.{ok, err}
use ayad_network_manager.Errors.{Error}
use ayad_network_manager.Domain.TcClassId.{Direction, download, upload}
use ayad_network_manager.Accounting.{
  Usage, PendingBucket, TrafficSample, Services, plus, is_traffic,
}

abbrev pub bytes : Direction → Usage → ℕ
bytes download u = u.download_bytes
bytes upload u = u.upload_bytes

pub bytes-plus : (dir : Direction) (a b : Usage) → bytes dir (plus a b) ≡ bytes dir a + bytes dir b
bytes-plus download a b = refl
bytes-plus upload a b = refl

pub no_traffic-bytes : (dir : Direction) (u : Usage) → is_traffic u ≡ false → bytes dir u ≡ 0
no_traffic-bytes download u h = ground arith
no_traffic-bytes upload u h = ground arith

-- The bytes that the buckets hold.
unfoldable pub pending_bytes : Direction → List (ℕ × PendingBucket) → ℕ
pending_bytes dir [] = 0
pending_bytes dir ((id, b) ∷ m) = bytes dir (b.usage) + pending_bytes dir m

abbrev pub held : Direction → Option PendingBucket → ℕ
held dir none = 0
held dir (some b) = bytes dir (b.usage)

pub pending_bytes-insert :
    (dir : Direction) (id : ℕ) (b : PendingBucket) (m : List (ℕ × PendingBucket))
    → pending_bytes dir (insert id b m) + held dir (lookup id m)
      ≡ pending_bytes dir m + bytes dir (b.usage)
unfolding pending_bytes insert lookup
pending_bytes-insert dir id b [] = omega arith
pending_bytes-insert dir id b ((j, c) ∷ m) = elim (Bool-cases (j == id)) [
  | inl same ↦ rw same (omega arith)
  | inr other ↦ rw other (omega (arith, pending_bytes-insert dir id b m))
]

-- The bytes of the history, as `stored s`: a bucket that is taken adds its own, one that is refused
-- adds none, and the quota's records are other tables. `IsLedger env dir stored` says so.
pub record IsLedger {S : Type 0} (env : Services S) (dir : Direction) (stored : S → ℕ)
    : Type 0 where
  pub taken :
      (x : TrafficSample) (s : S)
      → (env.accumulate_bucket x s).0 ≡ ok tt
      → stored (env.accumulate_bucket x s).1 ≡ stored s + bytes dir (x.usage)
  pub refused :
      (x : TrafficSample) (s : S) (e : Error)
      → (env.accumulate_bucket x s).0 ≡ err e
      → stored (env.accumulate_bucket x s).1 ≡ stored s
  pub usage_apart :
      (mac : Text) (d u timestamp : ℕ) (s : S)
      → stored (env.record_usage mac d u timestamp s).1 ≡ stored s
