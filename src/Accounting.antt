-- ===== src/Accounting.antt =====
-- backend/src/application/monitoring/TrafficAccountingService.ts. The timer only calls `collect`, and a
-- call while another runs returns at once, so `running` has no place in a run of whole calls.
pub mod Ledger
pub mod Bytes
mod Tests
use ayad_network_manager.Base.{
  ℕ, zero, suc, ◌+◌, ◌-◌, ◌*◌, ◌/◌, Bool, true, false, not, ◌||◌, Option, none, some, List, [], ◌∷◌,
  Text, ltb, leb, ◌==◌, nat_eq, text_eq, if◌then◌else◌, map, get_or,
}
use ayad_network_manager.Base.Map.{lookup, insert, has, add}
use ayad_network_manager.Base.Effects.{ok, err, pure, ◌>>◌}
use ayad_network_manager.Domain.MacAddress
use ayad_network_manager.Domain.MacAddress.{MacAddress}
use ayad_network_manager.Domain.Device.{Device, ValidatedDeviceIdentity}
use ayad_network_manager.Ports.{Call, Read}

pub record Usage : Type 0 where
  pub download_bytes : ℕ
  pub upload_bytes : ℕ

pub record PreviousUsage : Type 0 where
  pub usage : Usage
  pub timestamp : ℕ

pub record PendingBucket : Type 0 where
  pub bucket_start : ℕ
  pub usage : Usage
  pub first_timestamp : ℕ
  pub last_timestamp : ℕ

pub record LiveTraffic : Type 0 where
  pub download_rate_bps : ℕ
  pub upload_rate_bps : ℕ
  pub usage : Usage
  pub sampled_at : ℕ

pub record TrafficSample : Type 0 where
  pub device_id : ℕ
  pub timestamp : ℕ
  pub usage : Usage
  pub download_rate : ℕ
  pub upload_rate : ℕ

abbrev pub accounting_reconcile_interval_ms : ℕ
accounting_reconcile_interval_ms = 10000

abbrev pub history_bucket_ms : ℕ
history_bucket_ms = 60000

-- The maps of the service, and the time of the last rebuild of the rules.
pub record Accounting : Type 0 where
  pub previous : List (ℕ × PreviousUsage)
  pub pending_buckets : List (ℕ × PendingBucket)
  pub live : List (Text × LiveTraffic)
  pub last_accounting_reconcile_at : ℕ

-- What the service is given; `record_usage mac download upload timestamp` is the quota service's.
pub record Services (S : Type 0) : Type 0 where
  pub find_by_mac : MacAddress → Read S (Option Device)
  pub discover : Call S (List ValidatedDeviceIdentity)
  pub reconcile_device_accounting : List (Text × Text) → Call S (Unit {0})
  pub read_device_usage : Text → Read S Usage
  pub accumulate_bucket : TrafficSample → Call S (Unit {0})
  pub record_usage : Text → ℕ → ℕ → ℕ → Call S (Unit {0})

unfoldable pub calculate_delta : ℕ → ℕ → ℕ
calculate_delta current previous = if ltb current previous then current else current - previous

-- A clock that stood still or ran back gives an elapsed time of 0 here, and no rate.
unfoldable pub calculate_rate : ℕ → ℕ → Option ℕ
calculate_rate bytes elapsed_ms = if elapsed_ms == 0 then none else some (bytes * 1000 / elapsed_ms)

abbrev pub delta : Usage → Usage → Usage
delta current previous = record {
  download_bytes = calculate_delta current.download_bytes previous.download_bytes;
  upload_bytes = calculate_delta current.upload_bytes previous.upload_bytes;
}

abbrev pub plus : Usage → Usage → Usage
plus a b = record {
  download_bytes = a.download_bytes + b.download_bytes;
  upload_bytes = a.upload_bytes + b.upload_bytes;
}

abbrev pub is_traffic : Usage → Bool
is_traffic d = ltb 0 d.download_bytes || ltb 0 d.upload_bytes

abbrev pub bucket_start_of : ℕ → ℕ
bucket_start_of timestamp = timestamp / history_bucket_ms * history_bucket_ms

-- `Math.max(1, last - first)`
abbrev pub at_least_one : ℕ → ℕ
at_least_one zero = 1
at_least_one (suc n) = suc n

-- `for (const key of map.keys()) if (!active.has(key)) map.delete(key);`
pub keep_only : {K V : Type 0} (active : K → Bool) → List (K × V) → List (K × V)
keep_only active [] = []
keep_only active ((k, v) ∷ m) =
    let rest = keep_only active m in if active k then (k, v) ∷ rest else rest

module _ {S : Type 0} (env : Services S) where
  unfoldable pub flush_history_bucket : ℕ → PendingBucket → Call S (Unit {0})
  flush_history_bucket id b =
      let elapsed_ms = at_least_one (b.last_timestamp - b.first_timestamp) in
      env.accumulate_bucket (record {
        device_id = id;
        timestamp = b.bucket_start;
        usage = b.usage;
        download_rate = b.usage.download_bytes * 1000 / elapsed_ms;
        upload_rate = b.usage.upload_bytes * 1000 / elapsed_ms;
      })

  abbrev new_bucket : ℕ → Usage → PendingBucket
  new_bucket timestamp bytes = record {
    bucket_start = bucket_start_of timestamp;
    usage = bytes;
    first_timestamp = timestamp;
    last_timestamp = timestamp;
  }

  abbrev set_bucket : ℕ → PendingBucket → Accounting → Accounting
  set_bucket id b a = record a { pending_buckets = insert id b a.pending_buckets }

  unfoldable pub add_to_history_bucket : ℕ → ℕ → Usage → Call (Accounting × S) (Unit {0})
  unfolding flush_history_bucket
  add_to_history_bucket id timestamp bytes (a, s) = elim (lookup id a.pending_buckets) [
    | none ↦ (ok tt, (set_bucket id (new_bucket timestamp bytes) a, s))
    | some pending ↦
        if pending.bucket_start == bucket_start_of timestamp
        then (
          ok tt,
          (
            set_bucket id
                (record pending { usage = plus pending.usage bytes; last_timestamp = timestamp }) a,
            s,
          ),
        )
        else let (r, t) = flush_history_bucket id pending s in
          elim r [
            | ok done ↦ (ok tt, (set_bucket id (new_bucket timestamp bytes) a, t))
            | err e ↦ (err e, (a, t))
          ]
  ]

  -- The entries that a loop of flushes leaves: those that it passes over, and those whose flush
  -- failed, which is logged.
  -- What a loop of flushes does with one entry: whether it stays.
  flush_entry : (PendingBucket → Bool) → ℕ → PendingBucket → S → Bool × S
  unfolding flush_history_bucket
  flush_entry due id b s =
      if due b
      then (
        elim ((flush_history_bucket id b s).0) [ ok done ↦ false | err e ↦ true ],
        (flush_history_bucket id b s).1,
      )
      else (true, s)

  flush_where : (PendingBucket → Bool) → List (ℕ × PendingBucket) → S → List (ℕ × PendingBucket) × S
  unfolding flush_entry
  flush_where due [] s = ([], s)
  flush_where due ((id, b) ∷ m) s =
      let (stays, t) = flush_entry due id b s in
      let (rest, u) = flush_where due m t in (if stays then (id, b) ∷ rest else rest, u)

  flush_pending : (PendingBucket → Bool) → Call (Accounting × S) (Unit {0})
  unfolding flush_where
  flush_pending due (a, s) =
      let (rest, t) = flush_where due a.pending_buckets s in
      (ok tt, (record a { pending_buckets = rest }, t))

  unfoldable pub flush_expired_history_buckets : ℕ → Call (Accounting × S) (Unit {0})
  unfolding flush_pending
  flush_expired_history_buckets now =
      flush_pending (λ b. not (leb (bucket_start_of now) b.bucket_start))

  -- `stop` after the timer is cleared.
  unfoldable pub stop : Call (Accounting × S) (Unit {0})
  unfolding flush_pending
  stop = flush_pending (λ b. true)

  -- `try { await quotaService.recordUsage(...) } catch { log }`
  note_usage : Text → ℕ → Usage → Call (Accounting × S) (Unit {0})
  note_usage mac timestamp d (a, s) =
      (ok tt, (a, (env.record_usage mac d.download_bytes d.upload_bytes timestamp s).1))

  remember : ℕ → ℕ → Usage → Accounting → Accounting
  remember id timestamp current a = record a {
    previous = insert id (record { usage = current; timestamp = timestamp }) a.previous;
  }

  show_live : Text → ℕ → Usage → Usage → ℕ → Accounting → Accounting
  show_live mac timestamp current d elapsed_ms a = record a {
    live =
        insert mac
          (record {
            download_rate_bps = get_or (calculate_rate d.download_bytes elapsed_ms) 0;
            upload_rate_bps = get_or (calculate_rate d.upload_bytes elapsed_ms) 0;
            usage = current;
            sampled_at = timestamp;
          })
          a.live;
  }

  -- The bytes since the last sample, to the history and to the quota.
  account_delta : Device → ℕ → Usage → Call (Accounting × S) (Unit {0})
  unfolding add_to_history_bucket note_usage
  account_delta d timestamp bytes =
      if is_traffic bytes
      then add_to_history_bucket d.id timestamp bytes >> note_usage d.mac.value timestamp bytes
      else pure tt

  -- A sample after the first.
  next_sample : Device → ℕ → Usage → PreviousUsage → Call (Accounting × S) (Unit {0})
  unfolding account_delta remember show_live
  next_sample d timestamp current p (a, s) =
      let bytes = delta current (p.usage) in
      let shown = show_live (d.mac.value) timestamp current bytes (timestamp - p.timestamp) a in
      (account_delta d timestamp bytes >> λ (b, t). (ok tt, (remember d.id timestamp current b, t)))
        (shown, s)

  abbrev no_traffic : Usage
  no_traffic = record { download_bytes = 0; upload_bytes = 0 }

  unfoldable pub collect_device : Device → ℕ → Call (Accounting × S) (Unit {0})
  unfolding next_sample remember show_live
  collect_device d timestamp (a, s) = elim (env.read_device_usage d.mac.value s) [
    | err e ↦ (err e, (a, s))
    | ok current ↦ elim (lookup d.id a.previous) [
      | none ↦ (
        ok tt,
        (
          show_live d.mac.value timestamp current no_traffic 0 (remember d.id timestamp current a),
          s,
        ),
      )
      | some p ↦ next_sample d timestamp current p (a, s)
    ]
  ]

  -- One discovered device of `collect`: what fails is logged, and the next one follows. The answer
  -- adds a device that is known to the active ones.
  collect_discovered :
      ℕ → ValidatedDeviceIdentity → List ℕ → Accounting × S → List ℕ × (Accounting × S)
  unfolding collect_device
  collect_discovered now discovered active (a, s) = elim (MacAddress.create discovered.mac) [
    | err e ↦ (active, (a, s))
    | ok mac ↦ elim (env.find_by_mac mac s) [
      | err e ↦ (active, (a, s))
      | ok found ↦ elim found [
        | none ↦ (active, (a, s))
        | some d ↦ (add d.id active, (collect_device d now (a, s)).1)
      ]
    ]
  ]

  collect_all :
      ℕ → List ValidatedDeviceIdentity → List ℕ → Accounting × S → List ℕ × (Accounting × S)
  unfolding collect_discovered
  collect_all now [] active t = (active, t)
  collect_all now (x ∷ xs) active t =
      let (active', t') = collect_discovered now x active t in collect_all now xs active' t'

  -- `collect` once the devices are discovered and the rules are in place.
  collect_samples : ℕ → List ValidatedDeviceIdentity → Accounting × S → Accounting × S
  unfolding collect_all flush_expired_history_buckets keep_only
  collect_samples now discovered t =
      let (active, (a, s)) = collect_all now discovered [] t in
      let current = record a { previous = keep_only (λ id. has id active) a.previous } in
      let (b, u) = (flush_expired_history_buckets now (current, s)).1 in
      let macs = map (λ x. x.mac) discovered in
      (record b { live = keep_only (λ mac. has mac macs) b.live }, u)

  abbrev is_rule_rebuild_due : ℕ → Accounting → Bool
  is_rule_rebuild_due now a =
      a.last_accounting_reconcile_at == 0
      || leb accounting_reconcile_interval_ms (now - a.last_accounting_reconcile_at)

  rebuild_rules : ℕ → List ValidatedDeviceIdentity → Call (Accounting × S) (Unit {0})
  rebuild_rules now discovered (a, s) =
      if is_rule_rebuild_due now a
      then (let (r, t) = env.reconcile_device_accounting (map (λ x. (x.mac, x.ip)) discovered) s in
          elim r [
            | ok done ↦ (ok tt, (record a { last_accounting_reconcile_at = now }, t))
            | err e ↦ (err e, (a, t))
          ])
      else (ok tt, (a, s))

  -- `now` is the time once discovery has answered. `collect` never throws.
  unfoldable pub collect : ℕ → Accounting × S → Accounting × S
  unfolding rebuild_rules collect_samples
  collect now (a, s) =
      let (r, t) = env.discover s in
      elim r [
        | err e ↦ (a, t)
        | ok discovered ↦
            let (q, u) = rebuild_rules now discovered (a, t) in
            elim q [ ok done ↦ collect_samples now discovered u | err e ↦ u ]
      ]
