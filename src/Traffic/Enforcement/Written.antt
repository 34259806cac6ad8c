-- ===== src/Traffic/Enforcement/Written.antt =====
-- A limit that is set or cleared, and ends well, is in the device's policy.
use ayad_network_manager.Base.{
  ℕ, Bool, true, false, not, Option, none, some, ◌≡◌, refl, ◌∙◌, sym, ap, ◌==◌, nat_eq, text_eq,
  if◌then◌else◌,
}
use ayad_network_manager.Base.Int.{pos}
use ayad_network_manager.Base.Effects.{Result, ok, err, pure, throw, catch, ◌>>=◌, ◌>>◌, bind_ok}
use ayad_network_manager.Base.Frame.{Keeps, Keeps-bind}
use ayad_network_manager.Errors.{Error, device_not_found, identity_not_validated}
use ayad_network_manager.Domain.Device.{Device, DevicePolicy}
use ayad_network_manager.Domain.TcClassId.{Direction}
use ayad_network_manager.Rate.{validate}
use ayad_network_manager.Ports.{Call, ask, ask_ok, or_throw, throw_if, success, failure, limited}
use ayad_network_manager.Firewall.{resolve_device_identifier, ip_text}
use ayad_network_manager.Traffic.{change_limit, limit, clear}
use ayad_network_manager.Traffic.Enforcement.{
  Services, set_action, clear_action, audit, resolve_fresh_device, check_rate, limit_known,
  set_limit, any_limited, clear_base_state_when_unused, clear_known, clear_limit,
}
use ayad_network_manager.Traffic.Enforcement.Rows.{
  put_limit, IsPolicyRows, or_throw_ok, throw_if_ok, lift_ok, resolve_own, resolve_fresh_device-own,
}

-- What ends well under a handler that throws again has not failed.
catch_ok :
    {S : Type 0} (m : Call S (Unit {0})) (note : Error → Call S (Unit {0})) {s t : S}
    → catch m (λ e. note e >> throw e) s ≡ (ok tt, t)
    → m s ≡ (ok tt, t)
catch_ok {S} m note {s} {t} h = go (m s) h
  where
    go :
        (r : Result Error (Unit {0}) × S)
        → elim (r.0) as (λ _. Result Error (Unit {0}) × S) [
          | ok a ↦ (ok a, r.1)
          | err e ↦ (note e >> throw e) r.1
        ]
          ≡ (ok tt, t)
        → r ≡ (ok tt, t)
    go (ok a, u) k = k
    go (err e, u) k =
        let (_, v, _, thrown) = bind_ok (note e) (λ _. throw e) k in absurd (cc (thrown))

module _ {S : Type 0} (env : Services S) {row : S → ℕ → Option DevicePolicy} (d : Device)
    (rows : IsPolicyRows env row d) where
  -- A write of a limit and what keeps the policies after it.
  write-row :
      (direction : Direction) (new : Option ℕ) (id : ℕ) (rest : Call S (Unit {0}))
      (p : DevicePolicy) (s t : S)
      → id ≡ d.id
      → row s d.id ≡ some p
      → Keeps row rest
      → (env.policies.upsert id (change_limit direction new) >> rest) s ≡ (ok tt, t)
      → (k : ℕ) → row t k ≡ (if d.id == k then put_limit direction new (row s k) else row s k)
  write-row direction new id rest p s t own at keeps h k =
      let (_, u, wrote, ended) =
        bind_ok (env.policies.upsert id (change_limit direction new)) (λ _. rest) h in
      ap (λ r. row (r.1) k) (sym ended)
      ∙ keeps.kept u k
      ∙ rows.write_row direction new s u p at
          (ap (λ i. env.policies.upsert i (change_limit direction new) s) (sym own) ∙ wrote) k

  -- What of the policies is known in one state holds in another with the same.
  from_same :
      (direction : Direction) (new : Option ℕ) (s u t : S)
      → ((k : ℕ) → row u k ≡ row s k)
      → ((k : ℕ) → row t k ≡ (if d.id == k then put_limit direction new (row u k) else row u k))
      → (k : ℕ) → row t k ≡ (if d.id == k then put_limit direction new (row s k) else row s k)
  from_same direction new s u t same h k =
      h k ∙ ap (λ o. if d.id == k then put_limit direction new o else o) (same k)

  pub set_limit-row :
      (direction : Direction) (now rate : ℕ) (p : DevicePolicy) (s t : S)
      → row s d.id ≡ some p
      → set_limit env direction now d.mac.value (pos rate) s ≡ (ok tt, t)
      → (k : ℕ)
      → row t k ≡ (if d.id == k then put_limit direction (some rate) (row s k) else row s k)
  unfolding set_limit limit_known
  set_limit-row direction now rate p s t at h =
      let mac = d.mac.value in
      let (found, s1, resolved, h1) = bind_ok (resolve_fresh_device env now mac) with_found h in
      let (e, s2, known, h2) = bind_ok (or_throw found (device_not_found mac)) with_device h1 in
      let (_, s3, valid, h3) =
        bind_ok (throw_if (not e.identity_validated) (identity_not_validated mac)) (λ _. checked e)
          h2 in
      let (_, s4, accepted, h4) =
        bind_ok (check_rate env e (pos rate)) (λ _. limit_known env direction e (pos rate)) h3 in
      let (is, e2) = or_throw_ok found (device_not_found mac) s1 s2 e known in
      let e3 = throw_if_ok (not e.identity_validated) (identity_not_validated mac) s2 s3 valid in
      let (_, e4) =
        lift_ok (validate env.uplink e.mac.value (ip_text e) (pos rate)) s3 s4 tt accepted in
      let (own, kept) =
        resolve_fresh_device-own env d rows now s s1 e (resolved ∙ ap (λ o. (ok o, s1)) is) in
      let here : s4 ≡ s1 = e4 ∙ e3 ∙ e2 in
      let same : (k : ℕ) → row s4 k ≡ row s k = λ k. ap (λ v. row v k) here ∙ kept k in
      from_same direction (some rate) s s4 t same (
        write-row direction (some rate) e.id (limited_after e) p s4 t own (same d.id ∙ at)
          (Keeps-bind row (rows.limit_keeps direction e (pos rate))
            (λ _. rows.audit_keeps (set_action direction) e (limited rate)))
          (catch_ok
            (env.policies.upsert e.id (change_limit direction (some rate)) >> limited_after e)
            (λ x. audit env (set_action direction) e (failure x)) h4))
    where
      limited_after : Device → Call S (Unit {0})
      limited_after e =
          limit env.enforcer direction e (pos rate)
          >> audit env (set_action direction) e (limited rate)

      checked : Device → Call S (Unit {0})
      checked e = check_rate env e (pos rate) >> limit_known env direction e (pos rate)

      with_device : Device → Call S (Unit {0})
      with_device e =
          throw_if (not e.identity_validated) (identity_not_validated d.mac.value) >> checked e

      with_found : Option Device → Call S (Unit {0})
      with_found found = or_throw found (device_not_found d.mac.value) >>= with_device

  clear_base_state_when_unused-rows : Keeps row (clear_base_state_when_unused env)
  unfolding clear_base_state_when_unused
  clear_base_state_when_unused-rows =
      Keeps-bind row (record { kept = λ s k. refl })
        (λ ds.
          Keeps-bind row {m = ask (any_limited env ds)} (record { kept = λ s k. refl }) unless_used)
    where
      unless_used : (b : Bool) → Keeps row (if b then pure tt else env.enforcer.clear_base_state)
      unless_used true = record { kept = λ s k. refl }
      unless_used false = rows.clear_base_keeps

  pub clear_limit-row :
      (direction : Direction) (p : DevicePolicy) (s t : S)
      → row s d.id ≡ some p
      → clear_limit env direction d.mac.value s ≡ (ok tt, t)
      → (k : ℕ) → row t k ≡ (if d.id == k then put_limit direction none (row s k) else row s k)
  unfolding clear_limit clear_known
  clear_limit-row direction p s t at h =
      let mac = d.mac.value in
      let (found, answered, h1) =
        ask_ok (resolve_device_identifier env.devices mac)
          (λ o. or_throw o (device_not_found mac) >>= clear_known env direction) h in
      let (e, s2, known, h2) =
        bind_ok (or_throw found (device_not_found mac)) (clear_known env direction) h1 in
      let (is, e2) = or_throw_ok found (device_not_found mac) s s2 e known in
      let (own, _) = resolve_own env d rows s e (answered ∙ ap (λ o. ok o) is) in
      let same : (k : ℕ) → row s2 k ≡ row s k = λ k. ap (λ v. row v k) e2 in
      from_same direction none s s2 t same (
        write-row direction none e.id (cleared_after e) p s2 t own (same d.id ∙ at)
          (Keeps-bind row (rows.clear_keeps direction e) (λ _.
            Keeps-bind row clear_base_state_when_unused-rows
              (λ _. rows.audit_keeps (clear_action direction) e success)))
          (catch_ok (env.policies.upsert e.id (change_limit direction none) >> cleared_after e)
            (λ x. audit env (clear_action direction) e (failure x)) h2))
    where
      cleared_after : Device → Call S (Unit {0})
      cleared_after e =
          clear env.enforcer direction e
          >> (clear_base_state_when_unused env >> audit env (clear_action direction) e success)
