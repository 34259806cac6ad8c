-- ===== src/Traffic/Limits.antt =====
-- What setting and clearing a limit persist, and when the base state is cleared.
use ayad_network_manager.Base.{
  ℕ, Bool, true, false, not, ◌||◌, Option, none, some, ◌≡◌, refl, ◌∙◌, ap, Text, ◌==◌, nat_eq,
  text_eq, if◌then◌else◌,
}
use ayad_network_manager.Base.Int.{ℤ, pos_part}
use ayad_network_manager.Base.Effects.{Result, ok, err, pure, catch, ◌>>=◌, ◌>>◌, bind_step}
use ayad_network_manager.Base.Frame.{Keeps, Keeps-bind, Keeps-catch, throw-Keeps, pure-Keeps}
use ayad_network_manager.Errors.{Error, device_not_found, identity_not_validated}
use ayad_network_manager.Rate.{validate}
use ayad_network_manager.Domain.Device.{Device, DevicePolicy}
use ayad_network_manager.Domain.TcClassId.{Direction}
use ayad_network_manager.Ports.{Call, ask, or_throw, throw_if, Details, success, failure, limited}
use ayad_network_manager.Firewall.{ip_text}
use ayad_network_manager.Traffic.{is_some, change_limit, limit, clear}
use ayad_network_manager.Traffic.Enforcement.{
  Services, resolve_fresh_device, audit, audit_throw, check_rate, set_action, clear_action,
  limit_known, set_limit, any_limited, clear_base_state_when_unused, clear_known,
}

-- The limit of every device in one direction, as `limit_of s`: only a write of the policy store
-- changes it, and one that ends well does. `IsLimitView env direction limit_of` says so.
pub record IsLimitView {S : Type 0} (env : Services S) (direction : Direction)
    (limit_of : S → ℕ → Option ℕ) : Type 0 where
  pub upsert_limit :
      (id : ℕ) (new : Option ℕ) (s t : S)
      → env.policies.upsert id (change_limit direction new) s ≡ (ok tt, t)
      → (k : ℕ) → limit_of t k ≡ (if id == k then new else limit_of s k)
  pub limit_keeps : (d : Device) (rate : ℤ) → Keeps limit_of (limit (env.enforcer) direction d rate)
  pub clear_keeps : (d : Device) → Keeps limit_of (clear (env.enforcer) direction d)
  pub clear_base_keeps : Keeps limit_of (env.enforcer.clear_base_state)
  pub audit_keeps :
      (action : Text) (d : Device) (details : Details) → Keeps limit_of (audit env action d details)

-- A sequence in a `try` whose first part is known.
catch_step :
    {S A B : Type 0} (m : Call S A) (f : A → Call S B) (handler : Error → Call S B) {s t : S}
    {a : A}
    → m s ≡ (ok a, t)
    → catch (m >>= f) handler s ≡ catch (f a) handler t
catch_step {S} {A} {B} m f handler e =
    ap (λ p. elim (p.0) as (λ _. Result Error B × S) [ ok b ↦ (ok b, p.1) | err x ↦ handler x p.1 ])
      (bind_step m f e)

module _ {S : Type 0} (env : Services S) {direction : Direction} {limit_of : S → ℕ → Option ℕ}
    (view : IsLimitView env direction limit_of) where
  audit_throw-Keeps :
      (action : Text) (d : Device) (details : Error → Details) (e : Error)
      → Keeps limit_of (audit_throw env action d details e)
  audit_throw-Keeps action d details e =
      Keeps-bind limit_of (view.audit_keeps action d (details e)) (λ _. throw-Keeps limit_of e)

  limit_known-limit :
      (d : Device) (rate : ℤ) (s t : S)
      → env.policies.upsert (d.id) (change_limit direction (some (pos_part rate))) s ≡ (ok tt, t)
      → (k : ℕ)
      → limit_of (limit_known env direction d rate s).1 k
        ≡ (if d.id == k then some (pos_part rate) else limit_of s k)
  unfolding limit_known
  limit_known-limit d rate s t taken k =
      ap (λ p. limit_of (p.1) k)
        (catch_step (env.policies.upsert d.id (change_limit direction (some (pos_part rate))))
          (λ _.
            limit env.enforcer direction d rate
            >> audit env (set_action direction) d (limited (pos_part rate)))
          (audit_throw env (set_action direction) d failure) taken)
      ∙ (Keeps-catch limit_of
            (Keeps-bind limit_of (view.limit_keeps d rate) (λ _. view.audit_keeps _ d _))
            (audit_throw-Keeps (set_action direction) d failure)).kept
          t k
      ∙ view.upsert_limit (d.id) (some (pos_part rate)) s t taken k

  -- With stores that keep the laws of IsLimitView: once the device is resolved, its identity is
  -- validated and the rate passes the validator, setting a limit makes the policy say it when the
  -- policy store has taken the write, whether or not tc or the audit fails, and no other device's
  -- limit changes.
  pub set_limit_persists :
      (now : ℕ) (mac : Text) (rate : ℤ) (d : Device) (s u t : S)
      → resolve_fresh_device env now mac s ≡ (ok (some d), u)
      → d.identity_validated ≡ true
      → validate (env.uplink) (d.mac.value) (ip_text d) rate ≡ ok tt
      → env.policies.upsert (d.id) (change_limit direction (some (pos_part rate))) u ≡ (ok tt, t)
      → (k : ℕ)
      → limit_of (set_limit env direction now mac rate s).1 k
        ≡ (if d.id == k then some (pos_part rate) else limit_of u k)
  unfolding set_limit
  set_limit_persists now mac rate d s u t resolved validated accepted taken k =
      ap (λ p. limit_of (p.1) k)
        (bind_step (resolve_fresh_device env now mac)
            (λ found. or_throw found (device_not_found mac) >>= λ e.
              throw_if (not e.identity_validated) (identity_not_validated mac)
              >> (check_rate env e rate >> limit_known env direction e rate))
            resolved
          ∙ bind_step (throw_if (not d.identity_validated) (identity_not_validated mac))
              (λ _. check_rate env d rate >> limit_known env direction d rate) {s = u} {t = u}
              (ap (λ b. throw_if {S = S} (not b) (identity_not_validated mac) u) validated)
          ∙ bind_step (check_rate env d rate) (λ _. limit_known env direction d rate)
              (ap (λ r. (r, u)) accepted))
      ∙ limit_known-limit d rate u t taken k

  clear_base_state_when_unused-Keeps : Keeps limit_of (clear_base_state_when_unused env)
  unfolding clear_base_state_when_unused
  clear_base_state_when_unused-Keeps =
      Keeps-bind limit_of (record { kept = λ s k. refl })
        (λ all_devices.
          Keeps-bind limit_of {m = ask (any_limited env all_devices)}
            (record { kept = λ s k. refl }) unless_used)
    where
      unless_used :
          (b : Bool) → Keeps limit_of (if b then pure tt else env.enforcer.clear_base_state)
      unless_used true = pure-Keeps limit_of tt
      unless_used false = view.clear_base_keeps

  -- With stores that keep the laws of IsLimitView: clearing the limit of a known device makes the
  -- policy say that it has none when the policy store has taken the write, whether or not tc, the
  -- base state or the audit fails, and no other device's limit changes.
  pub clear_limit_persists :
      (d : Device) (s t : S)
      → env.policies.upsert (d.id) (change_limit direction none) s ≡ (ok tt, t)
      → (k : ℕ)
      → limit_of (clear_known env direction d s).1 k ≡ (if d.id == k then none else limit_of s k)
  unfolding clear_known
  clear_limit_persists d s t taken k =
      ap (λ p. limit_of (p.1) k)
        (catch_step (env.policies.upsert d.id (change_limit direction none))
          (λ _.
            clear env.enforcer direction d
            >> (clear_base_state_when_unused env >> audit env (clear_action direction) d success))
          (audit_throw env (clear_action direction) d failure) taken)
      ∙ (Keeps-catch limit_of
            (Keeps-bind limit_of (view.clear_keeps d) (λ _.
              Keeps-bind limit_of clear_base_state_when_unused-Keeps (λ _. view.audit_keeps _ d _)))
            (audit_throw-Keeps (clear_action direction) d failure)).kept
          t k
      ∙ view.upsert_limit (d.id) none s t taken k

-- Whether a policy has a limit of its own; a quota's throttle is none.
abbrev pub has_limit : Option DevicePolicy → Bool
has_limit none = false
has_limit (some p) = is_some p.download_limit || is_some p.upload_limit
