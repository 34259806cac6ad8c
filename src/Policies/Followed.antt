-- ===== src/Policies/Followed.antt =====
-- A run of the profiles gives every device's policy the limits of its profile.
use ayad_network_manager.Base.{ℕ, Option, List, [], ◌∷◌, ◌≡◌, ◌∙◌, sym, ap, nat_eq, All}
use ayad_network_manager.Base.Effects.{
  Result, ok, ◌>>=◌, for_each, bind_step, changes, Changes, for_each-changes,
}
use ayad_network_manager.Errors.{Error}
use ayad_network_manager.Domain.Device.{Device, DevicePolicy}
use ayad_network_manager.Ports.{Call, ask}
use ayad_network_manager.Policies.{ProfileRecord}
use ayad_network_manager.Policies.Profile.{Services, follow, reconcile}
use ayad_network_manager.Domain.TcClassId.{download, upload}
use ayad_network_manager.Traffic.Enforcement
use ayad_network_manager.Traffic.Enforcement.Rows.{IsPolicyRows}
use ayad_network_manager.Traffic.Enforcement.Written.{set_limit-row, clear_limit-row}
use ayad_network_manager.Policies.{TrafficLimits}
use ayad_network_manager.Policies.Limits.{limits_of}
use ayad_network_manager.Policies.Taken.{IsRowStore, change, follow-change}

module _ {S : Type 0} (env : Services S) (traffic : Enforcement.Services S) (now : ℕ)
    (wired : env.traffic ≡ limits_of traffic now) (row : S → ℕ → Option DevicePolicy)
    (reads : (id : ℕ) (s : S) (o : Option DevicePolicy)
      → env.policies.find_by_device_id id s ≡ ok o
      → o ≡ row s id) where
  rows-IsRowStore : (d : Device) → IsPolicyRows traffic row d → IsRowStore env row d
  unfolding Enforcement.limit_download Enforcement.limit_upload Enforcement.clear_download
      Enforcement.clear_upload
  rows-IsRowStore d rows = record {
    find_row = reads d.id;
    limit_download_row = λ rate s t p at h.
        set_limit-row traffic d rows download now rate p s t at
          (ap (λ (l : TrafficLimits S). l.limit_download d.mac.value rate s) (sym wired) ∙ h);
    limit_upload_row = λ rate s t p at h.
        set_limit-row traffic d rows upload now rate p s t at
          (ap (λ (l : TrafficLimits S). l.limit_upload d.mac.value rate s) (sym wired) ∙ h);
    clear_download_row = λ s t p at h.
        clear_limit-row traffic d rows download p s t at
          (ap (λ (l : TrafficLimits S). l.clear_download d.mac.value s) (sym wired) ∙ h);
    clear_upload_row = λ s t p at h.
        clear_limit-row traffic d rows upload p s t at
          (ap (λ (l : TrafficLimits S). l.clear_upload d.mac.value s) (sym wired) ∙ h);
  }

  -- With the profiles wired to the traffic service, reads of policies that answer what is stored, and
  -- stores that keep the laws of IsPolicyRows for each listed device: when a run of the profiles ends
  -- well, the policies are what one makes of them device by device, in the order of the list: a device
  -- with an address whose policy names a known profile takes both limits of the profile, none where
  -- the profile has none, and every other policy stays.
  pub reconcile-change :
      (profiles : List ProfileRecord) (ds : List Device) (s t : S)
      → env.catalog.profiles s ≡ ok profiles
      → env.devices.find_all s ≡ ok ds
      → All (IsPolicyRows traffic row) ds
      → reconcile env s ≡ (ok tt, t)
      → (k : ℕ) → row t k ≡ changes (change profiles) ds k (row s k)
  unfolding reconcile
  reconcile-change profiles ds s t read listed stores h k =
      for_each-changes row (follow env profiles) (change profiles) ds s t (rounds ds stores)
        (sym (
            bind_step (ask env.catalog.profiles) with_profiles (ap (λ r. (r, s)) read)
            ∙ bind_step (ask env.devices.find_all) (λ es. for_each es (follow env profiles))
                (ap (λ r. (r, s)) listed))
          ∙ h)
        k
    where
      with_profiles : List ProfileRecord → Call S (Unit {0})
      with_profiles ps = ask env.devices.find_all >>= λ es. for_each es (follow env ps)

      rounds :
          (es : List Device)
          → All (IsPolicyRows traffic row) es
          → All (Changes row (follow env profiles) (change profiles)) es
      rounds [] all = tt
      rounds (d ∷ es) (store, all) = (round d (rows-IsRowStore d store), rounds es all)
        where
          round :
              (d : Device)
              → IsRowStore env row d
              → Changes row (follow env profiles) (change profiles) d
          round d store u e j =
              follow-change env d store profiles u _ (ended (follow env profiles d u) e) j
            where
              ended : (r : Result Error (Unit {0}) × S) → r.0 ≡ ok tt → r ≡ (ok tt, r.1)
              ended (a, v) e = λ i. (e i, v)
