-- ===== src/Traffic/Returns.antt =====
-- A cycle ends well although limits and cleanups fail.
use ayad_network_manager.Base.{
  ℕ, true, not, Option, none, some, List, [], ◌∷◌, ◌++◌, ◌≡◌, refl, ◌∙◌, ap, Bool-cases, inl, inr,
}
use ayad_network_manager.Base.Effects.{Result, ok, err, ◌>>=◌, bind_step}
use ayad_network_manager.Base.Returns.{Returns, Returns-bind}
use ayad_network_manager.Errors.{
  Error, invalid_throttle_rate, traffic_policy_failed, stale_download_failed, stale_upload_failed,
}
use ayad_network_manager.Domain.Device.{Device, DevicePolicy}
use ayad_network_manager.Domain.TcClassId.{download, upload}
use ayad_network_manager.Ports.{Call, ask, throw_if}
use ayad_network_manager.Traffic.Reconciliation.{
  Services, is_enforceable, expected, enforceable, limit_device, attempt, limit_all, converge,
  reconcile_targets, reconcile,
}

-- Stores that answer, a base state that can be made and cleared, and a valid throttle rate; nothing
-- is said of limits and cleanups.
pub record IsReady {S : Type 0} (env : Services S) : Type 0 where
  pub find_all_answers : (s : S) → (ds : List Device) × (env.devices.find_all s ≡ ok ds)
  pub policy_answers :
      (id : ℕ) (s : S) → (p : Option DevicePolicy) × (env.policies.find_by_device_id id s ≡ ok p)
  pub initialize_returns : Returns (env.enforcer.initialize_base_state)
  pub clear_returns : Returns (env.enforcer.clear_base_state)
  pub rate_is_valid : env.throttle_rate.is_valid ≡ true

module _ {S : Type 0} (env : Services S) (ready : IsReady env) where
  enforceable-answers :
      (ds : List Device) (s : S)
      → (targets : List (Device × DevicePolicy)) × (enforceable env ds s ≡ ok targets)
  unfolding enforceable
  enforceable-answers [] s = ([], refl)
  enforceable-answers (d ∷ ds) s =
      let (policy, e) = ready.policy_answers (d.id) s in
      let (rest, e') = enforceable-answers ds s in choose policy rest e e'
    where
      choose :
          (policy : Option DevicePolicy) (rest : List (Device × DevicePolicy))
          → env.policies.find_by_device_id d.id s ≡ ok policy
          → enforceable env ds s ≡ ok rest
          → (targets : List (Device × DevicePolicy)) × (enforceable env (d ∷ ds) s ≡ ok targets)
      choose none rest e e' = (rest, rw (e, e', enforceable) refl)
      choose (some p) rest e e' = elim (Bool-cases (is_enforceable d p)) [
        | inl good ↦ ((d, p) ∷ rest, rw (e, e', good, enforceable) refl)
        | inr unfit ↦ (rest, rw (e, e', unfit, enforceable) refl)
      ]

  attempt-Returns :
      (m : Call S (Unit {0})) (wrap : Error → Error) (failures : List Error)
      → Returns (attempt env m wrap failures)
  attempt-Returns m wrap failures s = go (m s)
    where
      go :
          (r : Result Error (Unit {0}) × S)
          → (l : List Error) × (t : S) × (elim (r.0) as (λ _. Result Error (List Error) × S) [
            | ok done ↦ (ok failures, r.1)
            | err e ↦ (ok (failures ++ wrap e ∷ []), r.1)
          ]
              ≡ (ok l, t))
      go (ok done, t) = (failures, t, refl)
      go (err e, t) = (failures ++ wrap e ∷ [], t, refl)

  limit_all-Returns :
      (targets : List (Device × DevicePolicy)) (failures : List Error)
      → Returns (limit_all env targets failures)
  unfolding limit_all
  limit_all-Returns [] failures = λ s. (failures, s, refl)
  limit_all-Returns ((d, p) ∷ rest) failures =
      Returns-bind (attempt env (limit_device env d p) (traffic_policy_failed d.mac.value) failures)
        (limit_all env rest)
        (attempt-Returns (limit_device env d p) (traffic_policy_failed d.mac.value) failures)
        (limit_all-Returns rest)

  converge-Returns : (targets : List (Device × DevicePolicy)) → Returns (converge env targets)
  unfolding converge
  converge-Returns targets =
      Returns-bind (throw_if (not env.throttle_rate.is_valid) invalid_throttle_rate) _
        (λ s. rw (ready.rate_is_valid) (tt, s, refl))
        (λ _. Returns-bind (limit_all env targets []) _ (limit_all-Returns targets []) (λ limiting.
          Returns-bind
            (attempt env (env.enforcer.reconcile_download_state (expected env download targets []))
              stale_download_failed limiting)
            _ (attempt-Returns _ stale_download_failed limiting)
            (attempt-Returns (env.enforcer.reconcile_upload_state (expected env upload targets []))
              stale_upload_failed)))

  reconcile_targets-Returns :
      (targets : List (Device × DevicePolicy)) → Returns (reconcile_targets env targets)
  unfolding reconcile_targets
  reconcile_targets-Returns [] =
      Returns-bind (env.enforcer.clear_base_state) _ (ready.clear_returns) (λ _ s. ([], s, refl))
  reconcile_targets-Returns (target ∷ rest) =
      Returns-bind (env.enforcer.initialize_base_state) _ (ready.initialize_returns)
        (λ _. converge-Returns (target ∷ rest))

  -- When the stores answer, the base state can be made and cleared and the throttle rate is valid, a
  -- cycle ends well, with the failures that it met, whichever limits and cleanups fail.
  pub reconcile_isolates :
      (s : S) → (failures : List Error) × (t : S) × (reconcile env s ≡ (ok failures, t))
  unfolding reconcile
  reconcile_isolates s =
      let (ds, e) = ready.find_all_answers s in
      let (targets, e') = enforceable-answers ds s in
      let (failures, t, run) = reconcile_targets-Returns targets s in
      (
        failures,
        t,
        bind_step (ask (env.devices.find_all))
              (λ l. ask (enforceable env l) >>= reconcile_targets env) (ap (λ r. (r, s)) e)
            ∙ bind_step (ask (enforceable env ds)) (reconcile_targets env) (ap (λ r. (r, s)) e')
            ∙ run,
      )
