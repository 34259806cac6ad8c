-- ===== src/Policies/Limits.antt =====
-- What the schedules do to traffic limits.
use ayad_network_manager.Base.{
  ℕ, true, Option, none, some, ◌≡◌, refl, ◌∙◌, ap, Text, nat_eq, text_eq, if◌then◌else◌,
  Option-cases, inl, inr, eq_refl,
}
use ayad_network_manager.Base.Int.{pos}
use ayad_network_manager.Base.Effects.{Result, ok, err, pure, ◌>>◌}
use ayad_network_manager.Errors.{Error}
use ayad_network_manager.Rate.{validate}
use ayad_network_manager.Domain.IpAddress.{IpAddress}
use ayad_network_manager.Domain.Device.{Device, DevicePolicy}
use ayad_network_manager.Domain.TcClassId.{download}
use ayad_network_manager.Ports.{Call}
use ayad_network_manager.Firewall.{ip_text}
use ayad_network_manager.Traffic.{change_limit}
use ayad_network_manager.Traffic.Enforcement
use ayad_network_manager.Traffic.Enforcement.{resolve_fresh_device, set_limit}
use ayad_network_manager.Traffic.Limits.{IsLimitView, set_limit_persists}
use ayad_network_manager.Policies.{ScheduleRuleRecord, TrafficLimits}
use ayad_network_manager.Policies.Schedule.{Services, settle_limit, rule_limit, settle_limits}

settle_limit-set :
    {S : Type 0} (env : Services S) (of_rule of_policy : Option ℕ) (set_it : ℕ → Call S (Unit {0}))
    (clear_it other : Call S (Unit {0}))
    → settle_limit env of_rule of_policy set_it clear_it
      ≡ settle_limit env of_rule of_policy set_it other
unfolding settle_limit
settle_limit-set env none none set_it clear_it other = refl
settle_limit-set env none (some rate) set_it clear_it other = refl
settle_limit-set env (some rate) of_policy set_it clear_it other = refl

-- What the limits' part of a run calls does not depend on how limits are cleared: it never clears
-- one, in a window or after it.
pub limits_never_cleared :
    {S : Type 0} (env : Services S) (clear_download clear_upload : Text → Call S (Unit {0}))
    (d : Device) (p : DevicePolicy) (active : Option ScheduleRuleRecord)
    → settle_limits
        (record env {
          traffic = record env.traffic {
            clear_download = clear_download;
            clear_upload = clear_upload;
          };
        })
        d
        p
        active
      ≡ settle_limits env d p active
unfolding settle_limits settle_limit
limits_never_cleared env clear_download clear_upload d p active =
    let download_of =
      settle_limit-set env (rule_limit env active (λ r. r.download_limit)) (p.download_limit)
        (env.traffic.limit_download d.mac.value) (clear_download d.mac.value)
        (env.traffic.clear_download d.mac.value) in
    let upload_of =
      settle_limit-set env (rule_limit env active (λ r. r.upload_limit)) (p.upload_limit)
        (env.traffic.limit_upload d.mac.value) (clear_upload d.mac.value)
        (env.traffic.clear_upload d.mac.value) in
    elim (Option-cases (d.ip)) [
      | inl without ↦ rw (without, settle_limits) refl
      | inr (address, known) ↦ rw (known, settle_limits) (λ i. download_of i >> upload_of i)
    ]

-- The calls of `TrafficEnforcementService` as the schedules make them.
abbrev pub limits_of : {S : Type 0} → Enforcement.Services S → ℕ → TrafficLimits S
limits_of traffic now = record {
  limit_download = λ m rate. Enforcement.limit_download traffic now m (pos rate);
  limit_upload = λ m rate. Enforcement.limit_upload traffic now m (pos rate);
  clear_download = Enforcement.clear_download traffic;
  clear_upload = Enforcement.clear_upload traffic;
}

module _ {S : Type 0} (env : Services S) (traffic : Enforcement.Services S) (now : ℕ)
    (wired : env.traffic ≡ limits_of traffic now) {limit_of : S → ℕ → Option ℕ}
    (view : IsLimitView traffic download limit_of) where
  -- With stores that keep the laws of IsLimitView, and the schedules wired to the traffic service: for
  -- a validated device with an address, whose active rule limits the download by a rate that the
  -- validator accepts and whose rule and policy have no limit of the upload, the limits' part of a run
  -- writes the rule's rate into the device's policy, once the policy store takes the write, whether
  -- or not tc or the audit fails.
  pub window_limit_persists :
      (d e : Device) (p : DevicePolicy) (rule : ScheduleRuleRecord) (address : IpAddress) (rate : ℕ)
      (s u t : S)
      → d.ip ≡ some address
      → rule.download_limit ≡ some rate
      → rule.upload_limit ≡ none
      → p.upload_limit ≡ none
      → resolve_fresh_device traffic now (d.mac.value) s ≡ (ok (some e), u)
      → e.identity_validated ≡ true
      → validate (traffic.uplink) (e.mac.value) (ip_text e) (pos rate) ≡ ok tt
      → traffic.policies.upsert (e.id) (change_limit download (some rate)) u ≡ (ok tt, t)
      → limit_of (settle_limits env d p (some rule) s).1 (e.id) ≡ some rate
  unfolding settle_limits settle_limit Enforcement.limit_download
  window_limit_persists d e p rule address rate s u t known limited unlimited free resolved
        validated accepted taken =
      let set_it = set_limit traffic download now d.mac.value (pos rate) in
      ap (λ m. limit_of (m s).1 e.id)
        (only_download known limited unlimited free
          ∙ ap (λ (l : TrafficLimits S). l.limit_download d.mac.value rate >> pure tt) wired)
      ∙ ended (set_it s)
      ∙ set_limit_persists traffic view now (d.mac.value) (pos rate) e s u t resolved validated
          accepted taken e.id
      ∙ ap (λ b. if b then some rate else limit_of u e.id) (eq_refl e.id)
    where
      parts : Option IpAddress → Option ℕ → Option ℕ → Option ℕ → Call S (Unit {0})
      parts at of_rule of_rule_up of_policy_up = elim at as (λ _. Call S (Unit {0})) [
        | none ↦ pure tt
        | some _ ↦
            settle_limit env of_rule p.download_limit (env.traffic.limit_download d.mac.value)
              (env.traffic.clear_download d.mac.value)
            >> settle_limit env of_rule_up of_policy_up (env.traffic.limit_upload d.mac.value)
                (env.traffic.clear_upload d.mac.value)
      ]

      only_download :
          d.ip ≡ some address
          → rule.download_limit ≡ some rate
          → rule.upload_limit ≡ none
          → p.upload_limit ≡ none
          → settle_limits env d p (some rule)
            ≡ (env.traffic.limit_download d.mac.value rate >> pure tt)
      only_download e1 e2 e3 e4 = λ i. parts (e1 i) (e2 i) (e3 i) (e4 i)

      ended :
          (r : Result Error (Unit {0}) × S)
          → limit_of
              (elim (r.0) as (λ _. Result Error (Unit {0}) × S) [
                | ok a ↦ pure tt r.1
                | err x ↦ (err x, r.1)
              ]).1
              e.id
            ≡ limit_of (r.1) e.id
      ended (ok a, v) = refl
      ended (err x, v) = refl
