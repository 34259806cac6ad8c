-- ===== src/Quota/Operations/Counted.antt =====
-- What recording the usage of a device counts.
use ayad_network_manager.Base.{
  ℕ, ◌+◌, Option, none, some, ◌≡◌, refl, ◌∙◌, sym, ap, Text, nat_eq, leb,
}
use ayad_network_manager.Base.Effects.{Result, ok, pure, ◌>>=◌, ◌>>◌, bind_step, bind_ok}
use ayad_network_manager.Errors.{Error}
use ayad_network_manager.Domain.Device.{Device, DevicePolicy}
use ayad_network_manager.Ports.{Call, ask}
use ayad_network_manager.Firewall.{resolve_device_identifier}
use ayad_network_manager.Quota.{QuotaPeriodData, QuotaView, build_view, Services, Notified, outer}
use ayad_network_manager.Quota.Period.{calculate_period}
use ayad_network_manager.Quota.Notification.{notify_thresholds}
use ayad_network_manager.Quota.Enforcement.{clear_stale}
use ayad_network_manager.Quota.Operations.{
  get_or_create_current_period, known_policy, configured, enforce_when, count_usage,
  record_known_usage, record_usage,
}
use ayad_network_manager.Quota.Operations.Current.{
  IsPeriodStore, carried, IsCurrent, get_or_create_current_period-IsCurrent,
}

-- The view that is answered for a usage that is counted in the period with these bounds.
pub record Counts (now : ℕ) (found : Option QuotaPeriodData) (quota : ℕ) (period_type : Text)
    (download upload : ℕ) (view : QuotaView) : Type 0 where
  pub starts : view.period_start ≡ some (calculate_period period_type now).0
  pub ends : view.period_end ≡ some (calculate_period period_type now).1
  pub downloaded :
      let (start, end) = calculate_period period_type now in
      view.used_download_bytes ≡ carried start end (λ p. p.used_download_bytes) found + download
  pub uploaded :
      let (start, end) = calculate_period period_type now in
      view.used_upload_bytes ≡ carried start end (λ p. p.used_upload_bytes) found + upload
  pub of_quota : view.quota ≡ some quota
  pub exhausts : view.exhausted ≡ leb quota (view.used_download_bytes + view.used_upload_bytes)

outer_ok :
    {S A : Type 0} (m : Call S A) (keys after : Notified) (s t : S) (a : A)
    → outer m (keys, s) ≡ (ok a, (after, t))
    → m s ≡ (ok a, t)
outer_ok {S} {A} m keys after s t a h = go (m s) h
  where
    go :
        (r : Result Error A × S)
        → ◌≡◌ {A = Result Error A × (Notified × S)} (r.0, (keys, r.1)) (ok a, (after, t))
        → r ≡ (ok a, t)
    go (b, v) e = cc

module _ {S : Type 0} (env : Services S) {stored : S → ℕ → Option QuotaPeriodData}
    (store : IsPeriodStore env stored) where
  build_view-Counts :
      (now : ℕ) (found : Option QuotaPeriodData) (quota : ℕ) (period_type : Text)
      (action : Option Text) (download upload : ℕ) (period updated : QuotaPeriodData) (t : S)
      → let (start, end) = calculate_period period_type now in
        IsCurrent stored start end found period t
        → updated ≡ record period {
          used_download_bytes = period.used_download_bytes + download;
          used_upload_bytes = period.used_upload_bytes + upload;
        }
        → Counts now found quota period_type download upload
            (build_view quota period_type action updated)
  unfolding build_view
  build_view-Counts now found quota period_type action download upload period updated t current e =
      rw e (record {
        starts = ap (λ n. some n) current.starts;
        ends = ap (λ n. some n) current.ends;
        downloaded = ap (λ n. n + download) current.downloaded;
        uploaded = ap (λ n. n + upload) current.uploaded;
        of_quota = refl;
        exhausts = refl;
      })

  count_usage-Counts :
      (now : ℕ) (mac : Text) (download upload : ℕ) (d : Device) (p : DevicePolicy) (quota : ℕ)
      (period_type : Text) (found : Option QuotaPeriodData) (keys after : Notified) (s u : S)
      (answer : Option QuotaView)
      → env.periods.find_current (d.id) period_type now s ≡ ok found
      → count_usage env now mac download upload d p quota period_type (keys, s)
        ≡ (ok answer, (after, u))
      → (view : QuotaView) × (answer ≡ some view)
        × Counts now found quota period_type download upload view
  unfolding count_usage
  count_usage-Counts now mac download upload d p quota period_type found keys after s u answer read
        h =
      let (period, (k1, s1), got, h1) =
        bind_ok (outer (get_or_create_current_period env d.id period_type now)) counted h in
      let (updated, (k2, s2), added, h2) =
        bind_ok (outer (env.periods.increment_usage period.id download upload)) notified h1 in
      let (_, w3, _, h3) =
        bind_ok
          (notify_thresholds env d.id mac quota
            (updated.used_download_bytes + updated.used_upload_bytes) updated.period_start)
          (λ _. enforced updated) h2 in
      let (_, w4, _, h4) =
        bind_ok (enforce_when env (view_of updated).exhausted d.id mac)
          (λ _. pure (some (view_of updated))) h3 in
      let current =
        get_or_create_current_period-IsCurrent env store d.id period_type now found period s s1 read
          (outer_ok (get_or_create_current_period env d.id period_type now) keys k1 s s1 period
            got) in
      let sum =
        store.increment_stored period.id download upload s1 s2 period updated current.is_stored (
          outer_ok (env.periods.increment_usage period.id download upload) k1 k2 s1 s2 updated
            added) in
      (
        view_of updated,
        answered (some (view_of updated)) w4 h4,
        build_view-Counts now found quota period_type p.quota_action download upload period updated
            s1 current sum,
      )
    where
      view_of : QuotaPeriodData → QuotaView
      view_of updated = build_view quota period_type p.quota_action updated

      enforced : QuotaPeriodData → Call (Notified × S) (Option QuotaView)
      enforced updated =
          enforce_when env (view_of updated).exhausted d.id mac >> pure (some (view_of updated))

      notified : QuotaPeriodData → Call (Notified × S) (Option QuotaView)
      notified updated =
          notify_thresholds env d.id mac quota
            (updated.used_download_bytes + updated.used_upload_bytes) updated.period_start
          >> enforced updated

      counted : QuotaPeriodData → Call (Notified × S) (Option QuotaView)
      counted period = outer (env.periods.increment_usage period.id download upload) >>= notified

      answered :
          (o : Option QuotaView) (w : Notified × S)
          → ◌≡◌ {A = Result Error (Option QuotaView) × (Notified × S)}
              (ok o, w)
              (ok answer, (after, u))
          → answer ≡ o
      answered o w e = cc

  -- When recording usage ends well for a known device whose policy has a quota and a period, the
  -- view that it answers has the bounds of the period of the time and, in each direction, the new
  -- bytes on top of those that the stored period counted so far, if that has these bounds, and is
  -- exhausted exactly when their sum reaches the quota.
  pub record_usage-Counts :
      (now : ℕ) (mac : Text) (download upload : ℕ) (d : Device) (p : DevicePolicy) (quota : ℕ)
      (period_type : Text) (found : Option QuotaPeriodData) (keys after : Notified) (s u : S)
      (answer : Option QuotaView)
      → resolve_device_identifier (env.devices) mac s ≡ ok (some d)
      → env.policies.find_by_device_id (d.id) s ≡ ok (some p)
      → configured env p ≡ some (quota, period_type)
      → env.periods.find_current (d.id) period_type now s ≡ ok found
      → record_usage env now mac download upload (keys, s) ≡ (ok answer, (after, u))
      → (view : QuotaView) × (answer ≡ some view)
        × Counts now found quota period_type download upload view
  unfolding record_usage known_policy record_known_usage
  record_usage-Counts now mac download upload d p quota period_type found keys after s u answer
        resolved known set read h =
      count_usage-Counts now mac download upload d p quota period_type found keys after s u answer
        read (sym to_count ∙ h)
    where
      by_policy : Option DevicePolicy → Call S (Option (Device × DevicePolicy))
      by_policy none = pure none
      by_policy (some q) = pure (some (d, q))

      by_device : Option Device → Call S (Option (Device × DevicePolicy))
      by_device none = pure none
      by_device (some e) = ask (env.policies.find_by_device_id e.id) >>= λ policy. elim policy [
        | none ↦ pure none
        | some q ↦ pure (some (e, q))
      ]

      found_policy : known_policy env mac s ≡ (ok (some (d, p)), s)
      found_policy =
          bind_step (ask (resolve_device_identifier env.devices mac)) by_device
            (ap (λ r. (r, s)) resolved)
          ∙ bind_step (ask (env.policies.find_by_device_id d.id)) by_policy (ap (λ r. (r, s)) known)

      by_known : Option (Device × DevicePolicy) → Call (Notified × S) (Option QuotaView)
      by_known none = pure none
      by_known (some (e, q)) = record_known_usage env now mac download upload e q

      by_quota : Option (ℕ × Text) → Call (Notified × S) (Option QuotaView)
      by_quota none = outer (clear_stale env d.id mac p.quota_enforced_action) >> pure none
      by_quota (some (q, kind)) = count_usage env now mac download upload d p q kind

      to_count :
          record_usage env now mac download upload (keys, s)
          ≡ count_usage env now mac download upload d p quota period_type (keys, s)
      to_count =
          bind_step (outer (known_policy env mac)) by_known
            (ap (λ r. (r.0, (keys, r.1))) found_policy)
          ∙ ap (λ o. by_quota o (keys, s)) set
