-- ===== src/Policies/Profile.antt =====
-- A run of backend/src/application/policies/ProfileEnforcementService.ts: every device takes the
-- limits of its profile.
use ayad_network_manager.Base.{ℕ, Option, none, some, List, ◌==◌, nat_eq, if◌then◌else◌}
use ayad_network_manager.Base.Effects.{pure, ◌>>=◌, ◌>>◌, for_each}
use ayad_network_manager.Domain.Device.{Device, DevicePolicy}
use ayad_network_manager.Ports.{Call, ask, DeviceRepository, DevicePolicyRepository}
use ayad_network_manager.Policies.{ProfileRecord, PolicyCatalogRepository, TrafficLimits, find}

pub record Services (S : Type 0) : Type 0 where
  pub devices : DeviceRepository S
  pub policies : DevicePolicyRepository S
  pub catalog : PolicyCatalogRepository S
  pub traffic : TrafficLimits S

-- `policy?.profileId ? profiles.find(...) : undefined`, where 0 is none
unfoldable pub profile_of : List ProfileRecord → Option DevicePolicy → Option ProfileRecord
profile_of profiles none = none
profile_of profiles (some p) = elim (p.profile_id) [
  | none ↦ none
  | some id ↦ if id == 0 then none else find (λ value. value.id == id) profiles
]

-- One direction: the profile's limit, or none if it has none and the policy has one.
unfoldable pub follow_limit :
    {S : Type 0}
    → Option ℕ
    → Option ℕ
    → (ℕ → Call S (Unit {0}))
    → Call S (Unit {0})
    → Call S (Unit {0})
follow_limit (some rate) of_policy set_it clear_it = set_it rate
follow_limit none none set_it clear_it = pure tt
follow_limit none (some rate) set_it clear_it = clear_it

module _ {S : Type 0} (env : Services S) where
  open env use {devices, policies, catalog, traffic}

  unfoldable pub follow_profile : Device → DevicePolicy → ProfileRecord → Call S (Unit {0})
  unfolding follow_limit
  follow_profile d p profile =
      follow_limit profile.download_limit p.download_limit (traffic.limit_download d.mac.value)
        (traffic.clear_download d.mac.value)
      >> follow_limit profile.upload_limit p.upload_limit (traffic.limit_upload d.mac.value)
          (traffic.clear_upload d.mac.value)

  -- `if (!profile || !device.ip) continue;`, for a policy that is found
  unfoldable pub follow_known : List ProfileRecord → Device → DevicePolicy → Call S (Unit {0})
  unfolding profile_of follow_profile
  follow_known profiles d p = elim (profile_of profiles (some p)) [
    | none ↦ pure tt
    | some profile ↦ elim (d.ip) [ none ↦ pure tt | some address ↦ follow_profile d p profile ]
  ]

  -- One round of the loop over the devices.
  unfoldable pub follow : List ProfileRecord → Device → Call S (Unit {0})
  unfolding follow_known
  follow profiles d = ask (policies.find_by_device_id d.id) >>= λ policy. elim policy [
    | none ↦ pure tt
    | some p ↦ follow_known profiles d p
  ]

  unfoldable pub reconcile : Call S (Unit {0})
  unfolding follow
  reconcile = do
    profiles ← ask (catalog.profiles)
    all_devices ← ask (devices.find_all)
    for_each all_devices (follow profiles)
