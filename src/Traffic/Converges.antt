-- ===== src/Traffic/Converges.antt =====
-- A cycle without failures leaves in the kernel what the stores ask for.
use ayad_network_manager.Base.{
  ℕ, Bool, not, ◌||◌, Option, none, some, List, [], ◌∷◌, ◌≡◌, refl, ◌∙◌, sym, ap, Text, nat_eq,
  text_eq, if◌then◌else◌, arith,
}
use ayad_network_manager.Base.Map.{has}
use ayad_network_manager.Base.Effects.{ok, pure, ◌>>=◌, bind_ok}
use ayad_network_manager.Errors.{invalid_throttle_rate, stale_download_failed, stale_upload_failed}
use ayad_network_manager.Domain.Device.{Device, DevicePolicy}
use ayad_network_manager.Domain.TcClassId.{Direction, download, upload}
use ayad_network_manager.Ports.{ask, ask_ok, throw_if}
use ayad_network_manager.Traffic.{is_some}
use ayad_network_manager.Traffic.Reconciliation.{
  Services, expected, enforceable, attempt, limit_all, converge, reconcile_targets, reconcile,
}
use ayad_network_manager.Traffic.Kernel.{same_direction, IsEnforcer, wanted, wanted_of}
use ayad_network_manager.Traffic.Wanted.{expected-has, wanted_of-enforceable}
use ayad_network_manager.Traffic.Rates.{attempt-clean, or_before, limit_all-rate}

module _ {S : Type 0} (env : Services S) {rate : S → Direction → Text → Option ℕ}
    (kernel : IsEnforcer env rate) where
  cleaned :
      (targets : List (Device × DevicePolicy)) (dir : Direction) (c : Text) (before : Option ℕ)
      → (if has c (expected env dir targets [])
          then or_before (wanted_of env dir c targets) before
          else none)
        ≡ wanted_of env dir c targets
  cleaned targets dir c before =
      ap (λ b. if b then or_before (wanted_of env dir c targets) before else none)
        (expected-has env dir c targets [] ∙ no_more (is_some (wanted_of env dir c targets)))
      ∙ kept (wanted_of env dir c targets)
    where
      no_more : (b : Bool) → (b || has c []) ≡ b
      no_more b = unfold has in ground arith

      kept : (o : Option ℕ) → (if is_some o then or_before o before else none) ≡ o
      kept none = refl
      kept (some n) = refl

  converge-rate :
      (targets : List (Device × DevicePolicy)) (s t : S)
      → converge env targets s ≡ (ok [], t)
      → (dir : Direction) (c : Text) → rate t dir c ≡ wanted_of env dir c targets
  unfolding converge
  converge-rate targets s t h =
      let downs = env.enforcer.reconcile_download_state (expected env download targets []) in
      let ups = env.enforcer.reconcile_upload_state (expected env upload targets []) in
      let (_, s0, valid, after) =
        bind_ok (throw_if (not env.throttle_rate.is_valid) invalid_throttle_rate)
          (λ _. limit_all env targets [] >>= λ limiting.
            attempt env downs stale_download_failed limiting
            >>= attempt env ups stale_upload_failed)
          h in
      let (limiting, s1, limits, k1) =
        bind_ok (limit_all env targets [])
          (λ limiting.
            attempt env downs stale_download_failed limiting
            >>= attempt env ups stale_upload_failed)
          after in
      let (downloads, s2, down, up) =
        bind_ok (attempt env downs stale_download_failed limiting)
          (attempt env ups stale_upload_failed) k1 in
      let (clean_up, run_up) = attempt-clean env ups stale_upload_failed downloads s2 t up in
      let (clean_down, run_down) =
        attempt-clean env downs stale_download_failed limiting s1 s2
          (down ∙ ap (λ l. (ok l, s2)) clean_up) in
      let (_, rates) =
        limit_all-rate env kernel targets [] s0 s1 (limits ∙ ap (λ l. (ok l, s1)) clean_down) in
      finish s0 s1 s2 rates run_down run_up
    where
      by_direction :
          (s0 s1 s2 : S) (dir : Direction) (c : Text)
          → rate s1 dir c ≡ or_before (wanted_of env dir c targets) (rate s0 dir c)
          → rate s2 dir c ≡ (
              if same_direction download dir
              then (if has c (expected env download targets []) then rate s1 dir c else none)
              else rate s1 dir c)
          → rate t dir c ≡ (
              if same_direction upload dir
              then (if has c (expected env upload targets []) then rate s2 dir c else none)
              else rate s2 dir c)
          → rate t dir c ≡ wanted_of env dir c targets
      by_direction s0 s1 s2 download c limited down up =
          up
          ∙ down
          ∙ ap (λ o. if has c (expected env download targets []) then o else none) limited
          ∙ cleaned targets download c (rate s0 download c)
      by_direction s0 s1 s2 upload c limited down up =
          up
          ∙ ap (λ o. if has c (expected env upload targets []) then o else none) (down ∙ limited)
          ∙ cleaned targets upload c (rate s0 upload c)

      finish :
          (s0 s1 s2 : S)
          → ((dir : Direction) (c : Text)
              → rate s1 dir c ≡ or_before (wanted_of env dir c targets) (rate s0 dir c))
          → env.enforcer.reconcile_download_state (expected env download targets []) s1
            ≡ (ok tt, s2)
          → env.enforcer.reconcile_upload_state (expected env upload targets []) s2 ≡ (ok tt, t)
          → (dir : Direction) (c : Text) → rate t dir c ≡ wanted_of env dir c targets
      finish s0 s1 s2 rates run_down run_up dir c =
          let down =
            ap (λ r. rate (r.1) dir c) (sym run_down)
            ∙ kernel.reconcile_rate download (expected env download targets []) s1
                (ap (λ r. r.0) run_down) dir c in
          let up =
            ap (λ r. rate (r.1) dir c) (sym run_up)
            ∙ kernel.reconcile_rate upload (expected env upload targets []) s2
                (ap (λ r. r.0) run_up) dir c in
          by_direction s0 s1 s2 dir c (rates dir c) down up

  reconcile_targets-rate :
      (targets : List (Device × DevicePolicy)) (s t : S)
      → reconcile_targets env targets s ≡ (ok [], t)
      → (dir : Direction) (c : Text) → rate t dir c ≡ wanted_of env dir c targets
  unfolding reconcile_targets wanted_of
  reconcile_targets-rate [] s t h dir c =
      let (_, u, cleared, k) = bind_ok (env.enforcer.clear_base_state) (λ _. pure []) h in
      ap (λ r. rate (r.1) dir c) (sym (cleared ∙ ap (λ u'. (ok tt, u')) (ap (λ r. r.1) k)))
      ∙ kernel.clear_base_rate s (ap (λ r. r.0) cleared) dir c
  reconcile_targets-rate (target ∷ rest) s t h dir c =
      let (_, u, ready, k) =
        bind_ok (env.enforcer.initialize_base_state) (λ _. converge env (target ∷ rest)) h in
      converge-rate (target ∷ rest) u t k dir c

  -- With an enforcer that keeps the laws of IsEnforcer: when a cycle ends without a failure, the
  -- rate of every class in both directions is the one that the stores ask for, the throttle's or a
  -- policy's own limit of a validated device with an address, and a class that no such device asks
  -- for has none, whatever the kernel held before.
  pub reconcile-wanted :
      (ds : List Device) (s t : S)
      → env.devices.find_all s ≡ ok ds
      → reconcile env s ≡ (ok [], t)
      → (dir : Direction) (c : Text) → rate t dir c ≡ wanted env s dir c ds
  unfolding reconcile
  reconcile-wanted ds s t found h dir c =
      let (ds', found', k) =
        ask_ok (env.devices.find_all) (λ l. ask (enforceable env l) >>= reconcile_targets env) h in
      let (targets, chosen, run) = ask_ok (enforceable env ds') (reconcile_targets env) k in
      let same_devices : ds' ≡ ds = cc in
      reconcile_targets-rate targets s t run dir c
      ∙ wanted_of-enforceable env dir c ds' s targets chosen
      ∙ ap (wanted env s dir c) same_devices
