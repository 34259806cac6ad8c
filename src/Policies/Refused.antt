-- ===== src/Policies/Refused.antt =====
-- A refused upsert of a device's policy stores nothing.
use ayad_network_manager.Base.{
  ℕ, Bool, true, false, not, Option, none, some, Text, ◌≡◌, refl, ◌==◌, nat_eq, any, if◌then◌else◌,
}
use ayad_network_manager.Base.Int.{ℤ, pos_part}
use ayad_network_manager.Base.Effects.{err, pure, ◌>>=◌}
use ayad_network_manager.Base.Returns.{Returns, Returns-bind}
use ayad_network_manager.Errors.{
  Error, device_not_found, negative_quota, invalid_profile_id, invalid_schedule_id,
  catalog_unavailable, profile_not_found, schedule_not_found,
}
use ayad_network_manager.Ports.{Call, Read, ask, or_throw, throw_if, call_if, PolicyChange}
use ayad_network_manager.Firewall.{resolve_device_identifier}
use ayad_network_manager.Policies.{find}
use ayad_network_manager.Policies.Patch.{
  Services, Patch, given, is_id, is_negative, with_profile, to_repository_data, to_policy_data,
  check_quota, check_profile, check_schedule, validate_input, find_profile, updates_of,
  touches_quota, reconcile_quota, upsert_device_policy,
}
use ayad_network_manager.Base.Clean.{
  Reads, Reads-bind, ThrowsClean-bind, Returns-ThrowsClean, pure-Reads,
}

module _ {S A : Type 0} where
  ask-Reads : (r : Read S A) → Reads (ask r)
  ask-Reads r = record { unchanged = λ s. refl }

  or_throw-Reads : (o : Option A) (e : Error) → Reads {S = S} (or_throw o e)
  or_throw-Reads none e = record { unchanged = λ s. refl }
  or_throw-Reads (some a) e = record { unchanged = λ s. refl }

throw_if-Reads : {S : Type 0} (c : Bool) (e : Error) → Reads {S = S} (throw_if c e)
throw_if-Reads true e = record { unchanged = λ s. refl }
throw_if-Reads false e = record { unchanged = λ s. refl }

module _ {S : Type 0} (env : Services S) where
  check_quota-Reads : (quota : Option ℤ) → Reads (check_quota env quota)
  unfolding check_quota
  check_quota-Reads none = pure-Reads tt
  check_quota-Reads (some quota) = throw_if-Reads (is_negative quota) negative_quota

  check_profile-Reads : (id : Option ℤ) → Reads (check_profile env id)
  unfolding check_profile
  check_profile-Reads none = pure-Reads tt
  check_profile-Reads (some id) =
      Reads-bind (throw_if-Reads (not (is_id id)) invalid_profile_id) (λ _.
        Reads-bind (or_throw-Reads env.catalog catalog_unavailable) (λ known.
          Reads-bind (ask-Reads known.profiles) (λ profiles.
            throw_if-Reads (not (any (λ profile. profile.id == pos_part id) profiles))
              (profile_not_found id))))

  check_schedule-Reads : (id : Option ℤ) → Reads (check_schedule env id)
  unfolding check_schedule
  check_schedule-Reads none = pure-Reads tt
  check_schedule-Reads (some id) =
      Reads-bind (throw_if-Reads (not (is_id id)) invalid_schedule_id) (λ _.
        Reads-bind (or_throw-Reads env.catalog catalog_unavailable) (λ known.
          Reads-bind (ask-Reads known.schedules) (λ schedules.
            throw_if-Reads (not (any (λ schedule. schedule.id == pos_part id) schedules))
              (schedule_not_found id))))

  validate_input-Reads : (patch : Patch) → Reads (validate_input env patch)
  unfolding validate_input
  validate_input-Reads patch = Reads-bind (check_quota-Reads (given patch.quota)) (λ _.
      Reads-bind (check_profile-Reads (given patch.profile_id))
        (λ _. check_schedule-Reads (given patch.schedule_id)))

  find_profile-Reads : (id : ℤ) → Reads (find_profile env id)
  unfolding find_profile
  find_profile-Reads id = Reads-bind (or_throw-Reads env.catalog catalog_unavailable) (λ known.
      Reads-bind (ask-Reads known.profiles) (λ profiles.
        or_throw-Reads (find (λ profile. profile.id == pos_part id) profiles)
          (profile_not_found id)))

  updates_of-Reads : (patch : Patch) → Reads (updates_of env patch)
  unfolding updates_of
  updates_of-Reads patch = by_id (given patch.profile_id)
    where
      by_id :
          (id : Option ℤ)
          → Reads (elim id as (λ _. Call S PolicyChange) [
            | none ↦ pure (to_repository_data patch)
            | some id ↦ find_profile env id >>= λ profile.
                pure (with_profile profile (to_repository_data patch))
          ])
      by_id none = pure-Reads (to_repository_data patch)
      by_id (some id) =
          Reads-bind (find_profile-Reads id)
            (λ profile. pure-Reads (with_profile profile (to_repository_data patch)))

  reconcile_quota-Returns :
      (mac : Text) (patch : Patch)
      → ((f : Text → Call S (Unit {0})) → env.reconcile_policy ≡ some f → Returns (f mac))
      → Returns (reconcile_quota env mac patch)
  unfolding reconcile_quota
  reconcile_quota-Returns mac patch ends = go (touches_quota patch) (env.reconcile_policy) refl
    where
      go :
          (b : Bool) (f : Option (Text → Call S (Unit {0})))
          → env.reconcile_policy ≡ f
          → Returns (if b then call_if f mac else pure tt)
      go true none e s = (tt, s, refl)
      go true (some f) e s = ends f e s
      go false f e s = (tt, s, refl)

  -- While neither the write of the policy nor the quota's reconciliation fails, an upsert that throws
  -- has changed nothing: every refusal comes before the first write.
  pub refused_writes_nothing :
      (mac : Text) (patch : Patch) (s : S) (e : Error)
      → ((id : ℕ) (change : PolicyChange) → Returns (env.upsert id change))
      → ((f : Text → Call S (Unit {0})) → env.reconcile_policy ≡ some f → Returns (f mac))
      → (upsert_device_policy env mac patch s).0 ≡ err e
      → (upsert_device_policy env mac patch s).1 ≡ s
  unfolding upsert_device_policy
  refused_writes_nothing mac patch s e writes reconciles =
      (ThrowsClean-bind (ask-Reads (resolve_device_identifier env.devices mac)) (λ found.
          ThrowsClean-bind (or_throw-Reads found (device_not_found mac)) (λ d.
            ThrowsClean-bind (validate_input-Reads patch) (λ _.
              ThrowsClean-bind (updates_of-Reads patch) (λ updates. Returns-ThrowsClean (
                Returns-bind (env.upsert d.id updates) _ (writes d.id updates) (λ policy.
                  Returns-bind (reconcile_quota env mac patch) _
                    (reconcile_quota-Returns mac patch reconciles)
                    (λ _ t. (to_policy_data policy, t, refl))))))))).clean
        s e
