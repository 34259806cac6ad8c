-- ===== src/Quota/Operations.antt =====
-- The public operations of backend/src/application/quota/QuotaService.ts. Bytes are
-- never negative here, so the guard on negative usage has no place.
pub mod Current
pub mod Counted
mod Tests
use ayad_network_manager.Base.{
  ℕ, ◌+◌, Bool, true, false, not, ◌||◌, Option, none, some, Text, ◌==◌, nat_eq, text_eq,
  if◌then◌else◌,
}
use ayad_network_manager.Base.Effects.{pure, throw, ◌>>=◌, ◌>>◌}
use ayad_network_manager.Errors.{quota_not_configured}
use ayad_network_manager.Domain.Device.{Device, DevicePolicy}
use ayad_network_manager.Ports.{Call, ask, PolicyChange, no_change}
use ayad_network_manager.Firewall.{resolve_device_identifier}
use ayad_network_manager.Quota.{
  QuotaPeriodData, QuotaView, build_view, empty_view, Services, Notified, outer,
}
use ayad_network_manager.Quota.Period.{calculate_period}
use ayad_network_manager.Quota.Enforcement.{
  enforced, clear_quota_enforcement, clear_stale, enforce_quota_action,
}
use ayad_network_manager.Quota.Notification.{notify_thresholds}

module _ {S : Type 0} (env : Services S) where
  open env use {devices, policies, periods}

  pub get_or_create_current_period : ℕ → Text → ℕ → Call S QuotaPeriodData
  get_or_create_current_period id period_type now = do
    let (start, end) = calculate_period period_type now
    found ← ask (periods.find_current id period_type now)
    elim found [
      | none ↦ periods.create id period_type start end
      | some period ↦
          if not (period.period_start == start) || not (period.period_end == end)
          then periods.reset period.id start end
          else pure period
    ]

  pub known_policy : Text → Call S (Option (Device × DevicePolicy))
  known_policy mac = do
    found ← ask (resolve_device_identifier devices mac)
    elim found [
      | none ↦ pure none
      | some d ↦
          (ask (policies.find_by_device_id d.id) >>= λ policy. elim policy [
            | none ↦ pure none
            | some p ↦ pure (some (d, p))
          ])
    ]

  -- The quota of a policy with its period, when both are set.
  abbrev pub configured : DevicePolicy → Option (ℕ × Text)
  configured policy = elim (policy.quota) [
    | none ↦ none
    | some quota ↦ elim (policy.quota_period) [
      | none ↦ none
      | some period_type ↦ some (quota, period_type)
    ]
  ]

  get_known_quota : ℕ → Text → Device → DevicePolicy → Call S QuotaView
  unfolding clear_stale get_or_create_current_period
  get_known_quota now mac d policy = elim (configured policy) [
    | none ↦ clear_stale env d.id mac policy.quota_enforced_action >> pure (empty_view policy)
    | some (quota, period_type) ↦
        (get_or_create_current_period d.id period_type now >>= λ period.
        pure (build_view quota period_type policy.quota_action period))
  ]

  -- `now` is the time of the call in every operation.
  unfoldable pub get_quota : ℕ → Text → Call S (Option QuotaView)
  unfolding known_policy get_known_quota
  get_quota now mac = do
    found ← known_policy mac
    elim found [
      | none ↦ pure none
      | some (d, policy) ↦ (get_known_quota now mac d policy >>= λ view. pure (some view))
    ]

  -- `if (view.exhausted) await this.enforceQuotaAction(device.id, mac);`
  pub enforce_when : Bool → ℕ → Text → Call (Notified × S) (Unit {0})
  unfolding enforce_quota_action
  enforce_when true id mac = outer (enforce_quota_action env id mac)
  enforce_when false id mac = pure tt

  pub count_usage :
      ℕ → Text → ℕ → ℕ → Device → DevicePolicy → ℕ → Text → Call (Notified × S) (Option QuotaView)
  unfolding get_or_create_current_period notify_thresholds enforce_when
  count_usage now mac download upload d policy quota period_type = do
    period ← outer (get_or_create_current_period d.id period_type now)
    updated ← outer (periods.increment_usage period.id download upload)
    notify_thresholds env d.id mac quota (updated.used_download_bytes + updated.used_upload_bytes)
        updated.period_start
    enforce_when (build_view quota period_type policy.quota_action updated).exhausted d.id mac
    pure (some (build_view quota period_type policy.quota_action updated))

  pub record_known_usage :
      ℕ → Text → ℕ → ℕ → Device → DevicePolicy → Call (Notified × S) (Option QuotaView)
  unfolding count_usage clear_stale
  record_known_usage now mac download upload d policy = elim (configured policy) [
    | none ↦ outer (clear_stale env d.id mac policy.quota_enforced_action) >> pure none
    | some (quota, period_type) ↦ count_usage now mac download upload d policy quota period_type
  ]

  unfoldable pub record_usage : ℕ → Text → ℕ → ℕ → Call (Notified × S) (Option QuotaView)
  unfolding known_policy record_known_usage
  record_usage now mac download upload = do
    found ← outer (known_policy mac)
    elim found [
      | none ↦ pure none
      | some (d, policy) ↦ record_known_usage now mac download upload d policy
    ]

  reconcile_known_policy : ℕ → Text → Device → DevicePolicy → Call S (Unit {0})
  unfolding clear_stale enforce_quota_action
  reconcile_known_policy now mac d policy = elim (configured policy) [
    | none ↦ clear_stale env d.id mac policy.quota_enforced_action
    | some (quota, period_type) ↦
        (ask (periods.find_current d.id period_type now) >>= λ found. elim found [
          | none ↦ clear_stale env d.id mac policy.quota_enforced_action
          | some period ↦
              if (build_view quota period_type policy.quota_action period).exhausted
              then enforce_quota_action env d.id mac
              else clear_stale env d.id mac policy.quota_enforced_action
        ])
  ]

  unfoldable pub reconcile_policy : ℕ → Text → Call S (Unit {0})
  unfolding known_policy reconcile_known_policy
  reconcile_policy now mac = do
    found ← known_policy mac
    elim found [ none ↦ pure tt | some (d, policy) ↦ reconcile_known_policy now mac d policy ]

  restart_period : ℕ → ℕ → Text → Call S QuotaPeriodData
  restart_period now id period_type = do
    let (start, end) = calculate_period period_type now
    found ← ask (periods.find_current id period_type now)
    elim found [
      | none ↦ periods.create id period_type start end
      | some period ↦ periods.reset period.id start end
    ]

  reset_configured : ℕ → Text → Device → DevicePolicy → ℕ → Text → Call S (Option QuotaView)
  unfolding clear_quota_enforcement restart_period enforced
  reset_configured now mac d policy quota period_type = do
    clear_quota_enforcement env d.id mac policy.quota_enforced_action
    period ← restart_period now d.id period_type
    policies.upsert d.id (enforced env none)
    pure (some (build_view quota period_type policy.quota_action period))

  unfoldable pub reset_quota : ℕ → Text → Call S (Option QuotaView)
  unfolding reset_configured
  reset_quota now mac = do
    found ← ask (resolve_device_identifier devices mac)
    elim found [
      | none ↦ pure none
      | some d ↦
          (ask (policies.find_by_device_id d.id) >>= λ policy. elim policy [
            | none ↦ throw quota_not_configured
            | some p ↦ elim (configured p) [
              | none ↦ throw quota_not_configured
              | some (quota, period_type) ↦ reset_configured now mac d p quota period_type
            ]
          ])
    ]

  abbrev no_quota : PolicyChange
  no_quota = record no_change {
    quota = some none;
    quota_period = some none;
    quota_action = some none;
    quota_enforced_action = some none;
  }

  -- The current period, when there is one, starts again.
  reset_current : ℕ → ℕ → Option Text → Call S (Unit {0})
  reset_current now id none = pure tt
  reset_current now id (some period_type) = do
    let (start, end) = calculate_period period_type now
    found ← ask (periods.find_current id period_type now)
    elim found [ none ↦ pure tt | some period ↦ periods.reset period.id start end >> pure tt ]

  unfoldable pub clear_quota : ℕ → Text → Call S (Option QuotaView)
  unfolding known_policy clear_quota_enforcement reset_current get_quota
  clear_quota now mac = do
    found ← known_policy mac
    elim found [
      | none ↦ pure none
      | some (d, policy) ↦
          (clear_quota_enforcement env d.id mac policy.quota_enforced_action
            >> (reset_current now d.id policy.quota_period
                >> (policies.upsert d.id no_quota >> get_quota now mac)))
    ]
