-- ===== src/Policies/Patch.antt =====
-- backend/src/application/policies/DevicePolicyService.ts. An id is an integer here; a number that is
-- none is refused by the same test.
use ayad_network_manager.Base.{
  ℕ, ◌^◌, Bool, true, false, ◌&&◌, ◌||◌, not, Option, none, some, Text, ◌==◌, nat_eq, ltb,
  if◌then◌else◌, any,
}
use ayad_network_manager.Base.Int.{ℤ, pos, negsuc, pos_part}
use ayad_network_manager.Base.Effects.{ok, err, pure, ◌>>=◌, ◌>>◌}
use ayad_network_manager.Errors.{
  device_not_found, negative_quota, invalid_profile_id, invalid_schedule_id, catalog_unavailable,
  profile_not_found, schedule_not_found,
}
use ayad_network_manager.Domain.Device.{DevicePolicy}
use ayad_network_manager.Ports.{
  Call, Read, ask, or_throw, throw_if, call_if, PolicyChange, DeviceRepository,
  DevicePolicyRepository,
}
use ayad_network_manager.Firewall.{resolve_device_identifier}
use ayad_network_manager.Policies.{ProfileRecord, PolicyCatalogRepository, find}

-- `DevicePolicyData`
pub record DevicePolicyData : Type 0 where
  pub blocked : Bool
  pub download_limit : Option ℕ
  pub upload_limit : Option ℕ
  pub quota : Option ℕ
  pub quota_period : Option Text
  pub quota_action : Option Text
  pub quota_enforced_action : Option Text
  pub profile_id : Option ℕ
  pub schedule_id : Option ℕ

-- `Partial<DevicePolicyData>`: outside `undefined`, inside `null`. The limits are those of a rate.
pub record Patch : Type 0 where
  pub blocked : Option Bool
  pub download_limit : Option (Option ℕ)
  pub upload_limit : Option (Option ℕ)
  pub quota : Option (Option ℤ)
  pub quota_period : Option (Option Text)
  pub quota_action : Option (Option Text)
  pub quota_enforced_action : Option (Option Text)
  pub profile_id : Option (Option ℤ)
  pub schedule_id : Option (Option ℤ)

-- The services that it is given; `upsert` is the policy repository's, with its answer.
pub record Services (S : Type 0) : Type 0 where
  pub devices : DeviceRepository S
  pub policies : DevicePolicyRepository S
  pub upsert : ℕ → PolicyChange → Call S DevicePolicy
  pub catalog : Option (PolicyCatalogRepository S)
  pub reconcile_policy : Option (Text → Call S (Unit {0}))

abbrev pub default_policy : DevicePolicyData
default_policy = record {
  blocked = false;
  download_limit = none;
  upload_limit = none;
  quota = none;
  quota_period = none;
  quota_action = none;
  quota_enforced_action = none;
  profile_id = none;
  schedule_id = none;
}

abbrev pub to_policy_data : DevicePolicy → DevicePolicyData
to_policy_data p = record {
  blocked = p.blocked;
  download_limit = p.download_limit;
  upload_limit = p.upload_limit;
  quota = p.quota;
  quota_period = p.quota_period;
  quota_action = p.quota_action;
  quota_enforced_action = p.quota_enforced_action;
  profile_id = p.profile_id;
  schedule_id = p.schedule_id;
}

abbrev pub natural : Option (Option ℤ) → Option (Option ℕ)
natural none = none
natural (some none) = some none
natural (some (some n)) = some (some (pos_part n))

-- `toRepositoryData`, of data that passed the checks: no quota or id is negative then.
abbrev pub to_repository_data : Patch → PolicyChange
to_repository_data patch = record {
  blocked = patch.blocked;
  download_limit = patch.download_limit;
  upload_limit = patch.upload_limit;
  quota = natural patch.quota;
  quota_period = patch.quota_period;
  quota_action = patch.quota_action;
  quota_enforced_action = patch.quota_enforced_action;
  profile_id = natural patch.profile_id;
  schedule_id = natural patch.schedule_id;
}

-- `data.x === undefined ? { x: default } : {}`
abbrev pub unless_given {ℓ} : {A : Type ℓ} → Option A → A → Option A
unless_given none default = some default
unless_given (some a) default = some a

-- The values of a profile are defaults; those of the patch win.
unfoldable pub with_profile : ProfileRecord → PolicyChange → PolicyChange
with_profile profile change = record change {
  download_limit = unless_given change.download_limit profile.download_limit;
  upload_limit = unless_given change.upload_limit profile.upload_limit;
  quota = unless_given change.quota profile.quota;
  quota_period = unless_given change.quota_period profile.quota_period;
}

-- `Number.isSafeInteger(id) && id > 0`
unfoldable pub is_id : ℤ → Bool
is_id (pos n) = ltb 0 n && ltb n (2 ^ 53)
is_id (negsuc n) = false

abbrev pub is_negative : ℤ → Bool
is_negative (pos n) = false
is_negative (negsuc n) = true

-- A field that is neither `undefined` nor `null`.
abbrev pub given {ℓ} : {A : Type ℓ} → Option (Option A) → Option A
given none = none
given (some a) = a

abbrev pub is_given {ℓ} : {A : Type ℓ} → Option A → Bool
is_given none = false
is_given (some a) = true

-- Whether the quota service is asked to reconcile the policy.
unfoldable pub touches_quota : Patch → Bool
touches_quota patch =
    is_given patch.quota
    || is_given patch.quota_period
    || is_given patch.quota_action
    || is_given patch.quota_enforced_action
    || is_given (given patch.profile_id)

module _ {S : Type 0} (env : Services S) where
  open env use {devices, policies, upsert, catalog, reconcile_policy}

  unfoldable pub get_device_policy : Text → Read S (Option DevicePolicyData)
  get_device_policy mac s = elim (resolve_device_identifier devices mac s) [
    | err e ↦ err e
    | ok none ↦ ok none
    | ok (some d) ↦ elim (policies.find_by_device_id d.id s) [
      | err e ↦ err e
      | ok none ↦ ok (some default_policy)
      | ok (some p) ↦ ok (some (to_policy_data p))
    ]
  ]

  -- The profile of an id.
  unfoldable pub find_profile : ℤ → Call S ProfileRecord
  find_profile id = do
    known ← or_throw catalog catalog_unavailable
    profiles ← ask (known.profiles)
    or_throw (find (λ profile. profile.id == pos_part id) profiles) (profile_not_found id)

  unfoldable pub check_quota : Option ℤ → Call S (Unit {0})
  check_quota none = pure tt
  check_quota (some quota) = throw_if (is_negative quota) negative_quota

  unfoldable pub check_profile : Option ℤ → Call S (Unit {0})
  check_profile none = pure tt
  check_profile (some id) = do
    throw_if (not (is_id id)) invalid_profile_id
    known ← or_throw catalog catalog_unavailable
    profiles ← ask (known.profiles)
    throw_if (not (any (λ profile. profile.id == pos_part id) profiles)) (profile_not_found id)

  unfoldable pub check_schedule : Option ℤ → Call S (Unit {0})
  check_schedule none = pure tt
  check_schedule (some id) = do
    throw_if (not (is_id id)) invalid_schedule_id
    known ← or_throw catalog catalog_unavailable
    schedules ← ask (known.schedules)
    throw_if (not (any (λ schedule. schedule.id == pos_part id) schedules)) (schedule_not_found id)

  unfoldable pub validate_input : Patch → Call S (Unit {0})
  unfolding check_quota check_profile check_schedule
  validate_input patch = do
    check_quota (given patch.quota)
    check_profile (given patch.profile_id)
    check_schedule (given patch.schedule_id)

  -- The change that is written.
  unfoldable pub updates_of : Patch → Call S PolicyChange
  unfolding find_profile with_profile
  updates_of patch = elim (given patch.profile_id) as (λ _. Call S PolicyChange) [
    | none ↦ pure (to_repository_data patch)
    | some id ↦
        find_profile id >>= λ profile. pure (with_profile profile (to_repository_data patch))
  ]

  unfoldable pub reconcile_quota : Text → Patch → Call S (Unit {0})
  unfolding touches_quota
  reconcile_quota mac patch = if touches_quota patch then call_if reconcile_policy mac else pure tt

  unfoldable pub upsert_device_policy : Text → Patch → Call S DevicePolicyData
  unfolding validate_input updates_of reconcile_quota
  upsert_device_policy mac patch = do
    found ← ask (resolve_device_identifier devices mac)
    d ← or_throw found (device_not_found mac)
    validate_input patch
    updates ← updates_of patch
    policy ← upsert d.id updates
    reconcile_quota mac patch
    pure (to_policy_data policy)
