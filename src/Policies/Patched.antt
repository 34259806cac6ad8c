-- ===== src/Policies/Patched.antt =====
-- What an upsert of a device's policy answers.
use ayad_network_manager.Base.{
  ℕ, Option, none, some, List, Text, ◌≡◌, refl, ◌∙◌, sym, ap, ◌==◌, nat_eq, get_or,
}
use ayad_network_manager.Base.Int.{ℤ, pos_part}
use ayad_network_manager.Base.Effects.{Result, ok, pure, ◌>>=◌, ◌>>◌, bind_step, bind_ok}
use ayad_network_manager.Errors.{Error, device_not_found, catalog_unavailable, profile_not_found}
use ayad_network_manager.Domain.Device.{Device, DevicePolicy}
use ayad_network_manager.Ports.{Call, ask, or_throw, PolicyChange}
use ayad_network_manager.Firewall.{resolve_device_identifier}
use ayad_network_manager.Policies.{ProfileRecord, PolicyCatalogRepository, find}
use ayad_network_manager.Policies.Patch.{
  Services, Patch, DevicePolicyData, natural, unless_given, given, with_profile, to_repository_data,
  to_policy_data, validate_input, find_profile, updates_of, reconcile_quota, upsert_device_policy,
}

-- What a change makes of a policy; `undefined` leaves a column as it is.
unfoldable pub patched : PolicyChange → DevicePolicy → DevicePolicy
patched change p = record p {
  blocked = get_or change.blocked p.blocked;
  download_limit = get_or change.download_limit p.download_limit;
  upload_limit = get_or change.upload_limit p.upload_limit;
  quota = get_or change.quota p.quota;
  quota_period = get_or change.quota_period p.quota_period;
  quota_action = get_or change.quota_action p.quota_action;
  quota_enforced_action = get_or change.quota_enforced_action p.quota_enforced_action;
  profile_id = get_or change.profile_id p.profile_id;
  schedule_id = get_or change.schedule_id p.schedule_id;
}

-- The policy of every device, as `row s`, a new one's being made first: an upsert that ends well
-- answers the policy as the change makes it.
pub record IsPolicyStore {S : Type 0} (env : Services S) (row : S → ℕ → DevicePolicy) : Type 0 where
  pub upsert_answers :
      (id : ℕ) (change : PolicyChange) (s t : S) (p : DevicePolicy)
      → env.upsert id change s ≡ (ok p, t)
      → p ≡ patched change (row s id)

-- The values of a patch and, where it says nothing, of its profile.
pub record Follows (patch : Patch) (profile : ProfileRecord) (answer : DevicePolicyData)
    : Type 0 where
  pub download_limit : answer.download_limit ≡ get_or patch.download_limit profile.download_limit
  pub upload_limit : answer.upload_limit ≡ get_or patch.upload_limit profile.upload_limit
  pub quota : answer.quota ≡ get_or (natural patch.quota) profile.quota
  pub quota_period : answer.quota_period ≡ get_or patch.quota_period profile.quota_period

get_or-unless_given :
    {A : Type 0} (o : Option A) (default old : A)
    → get_or (unless_given o default) old ≡ get_or o default
get_or-unless_given none default old = refl
get_or-unless_given (some a) default old = refl

module _ {S : Type 0} (env : Services S) {row : S → ℕ → DevicePolicy}
    (store : IsPolicyStore env row) where
  find_profile-found :
      (id : ℤ) (known : PolicyCatalogRepository S) (profiles : List ProfileRecord)
      (profile : ProfileRecord) (s : S)
      → env.catalog ≡ some known
      → known.profiles s ≡ ok profiles
      → find (λ p. p.id == pos_part id) profiles ≡ some profile
      → find_profile env id s ≡ (ok profile, s)
  unfolding find_profile
  find_profile-found id known profiles profile s catalog read found =
      bind_step (or_throw env.catalog catalog_unavailable)
        (λ k. ask k.profiles >>= λ ps.
          or_throw (find (λ p. p.id == pos_part id) ps) (profile_not_found id))
        (ap (λ o. or_throw o catalog_unavailable s) catalog)
      ∙ bind_step (ask known.profiles)
          (λ ps. or_throw (find (λ p. p.id == pos_part id) ps) (profile_not_found id))
          (ap (λ r. (r, s)) read)
      ∙ ap (λ o. or_throw o (profile_not_found id) s) found

  updates_of-profile :
      (patch : Patch) (id : ℤ) (known : PolicyCatalogRepository S) (profiles : List ProfileRecord)
      (profile : ProfileRecord) (s : S)
      → given patch.profile_id ≡ some id
      → env.catalog ≡ some known
      → known.profiles s ≡ ok profiles
      → find (λ p. p.id == pos_part id) profiles ≡ some profile
      → updates_of env patch s ≡ (ok (with_profile profile (to_repository_data patch)), s)
  unfolding updates_of
  updates_of-profile patch id known profiles profile s named catalog read found =
      ap
        (λ o.
          elim o as (λ _. Call S PolicyChange) [
            | none ↦ pure (to_repository_data patch)
            | some id ↦ find_profile env id >>= λ profile.
                pure (with_profile profile (to_repository_data patch))
          ]
            s)
        named
      ∙ bind_step (find_profile env id)
          (λ profile. pure (with_profile profile (to_repository_data patch)))
          (find_profile-found id known profiles profile s catalog read found)

  patched-Follows :
      (patch : Patch) (profile : ProfileRecord) (old p : DevicePolicy) (updates : PolicyChange)
      (answer : DevicePolicyData)
      → updates ≡ with_profile profile (to_repository_data patch)
      → p ≡ patched updates old
      → answer ≡ to_policy_data p
      → Follows patch profile answer
  unfolding with_profile patched
  patched-Follows patch profile old p updates answer e1 e2 e3 =
      rw (e3, e2, e1)
        (record {
          download_limit = get_or-unless_given (patch.download_limit) (profile.download_limit) _;
          upload_limit = get_or-unless_given (patch.upload_limit) (profile.upload_limit) _;
          quota = get_or-unless_given (natural patch.quota) (profile.quota) _;
          quota_period = get_or-unless_given (patch.quota_period) (profile.quota_period) _;
        })

  -- When an upsert that names a profile of the catalog ends well, it answers a policy whose limits,
  -- quota and period are the patch's and, where the patch says nothing of them, the profile's.
  pub explicit_values_win :
      (mac : Text) (patch : Patch) (id : ℤ) (known : PolicyCatalogRepository S)
      (profiles : List ProfileRecord) (profile : ProfileRecord) (s t : S)
      (answer : DevicePolicyData)
      → given patch.profile_id ≡ some id
      → env.catalog ≡ some known
      → ((u : S) → known.profiles u ≡ ok profiles)
      → find (λ p. p.id == pos_part id) profiles ≡ some profile
      → upsert_device_policy env mac patch s ≡ (ok answer, t)
      → Follows patch profile answer
  unfolding upsert_device_policy
  explicit_values_win mac patch id known profiles profile s t answer named catalog read found h =
      let (o, s1, _, h1) =
        bind_ok (ask (resolve_device_identifier env.devices mac)) known_device h in
      let (d, s2, _, h2) = bind_ok (or_throw o (device_not_found mac)) checked h1 in
      let (_, s3, _, h3) = bind_ok (validate_input env patch) (λ _. updating d) h2 in
      let (updates, s4, asked, h4) = bind_ok (updates_of env patch) (written d) h3 in
      let (p, s5, wrote, h5) = bind_ok (env.upsert d.id updates) reconciled h4 in
      let (_, s6, _, h6) =
        bind_ok (reconcile_quota env mac patch) (λ _. pure (to_policy_data p)) h5 in
      patched-Follows patch profile (row s4 d.id) p updates answer
        (same (with_profile profile (to_repository_data patch)) updates s3 s4 (
          sym (updates_of-profile patch id known profiles profile s3 named catalog (read s3) found)
          ∙ asked))
        (store.upsert_answers d.id updates s4 s5 p wrote) (data_of p answer s6 t h6)
    where
      reconciled : DevicePolicy → Call S DevicePolicyData
      reconciled p = reconcile_quota env mac patch >> pure (to_policy_data p)

      written : Device → PolicyChange → Call S DevicePolicyData
      written d updates = env.upsert d.id updates >>= reconciled

      updating : Device → Call S DevicePolicyData
      updating d = updates_of env patch >>= written d

      checked : Device → Call S DevicePolicyData
      checked d = validate_input env patch >> updating d

      known_device : Option Device → Call S DevicePolicyData
      known_device o = or_throw o (device_not_found mac) >>= checked

      same :
          (c e : PolicyChange) (u v : S)
          → ◌≡◌ {A = Result Error PolicyChange × S} (ok c, u) (ok e, v)
          → e ≡ c
      same c e u v h = cc

      data_of :
          (p : DevicePolicy) (a : DevicePolicyData) (u v : S)
          → ◌≡◌ {A = Result Error DevicePolicyData × S} (ok (to_policy_data p), u) (ok a, v)
          → a ≡ to_policy_data p
      data_of p a u v h = cc
