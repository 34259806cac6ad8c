-- ===== src/Traffic/Rates.antt =====
-- What the limits of a cycle do to the rates of the kernel, when none fails.
use ayad_network_manager.Base.{
  ℕ, Bool, true, false, ◌&&◌, Option, none, some, List, [], ◌∷◌, ◌++◌, ◌≡◌, refl, ◌∙◌, sym, ap,
  Text, ◌==◌, nat_eq, text_eq, if◌then◌else◌, Bool-cases, Option-cases, inl, inr,
}
use ayad_network_manager.Base.Effects.{Result, ok, err, bind_ok}
use ayad_network_manager.Errors.{Error, traffic_policy_failed}
use ayad_network_manager.Domain.Device.{Device, DevicePolicy}
use ayad_network_manager.Domain.TcClassId.{Direction, download, upload}
use ayad_network_manager.Ports.{Call}
use ayad_network_manager.Traffic.{is_throttled, limit_in}
use ayad_network_manager.Traffic.Reconciliation.{
  Services, class_of, limit_direction, limit_device, attempt, limit_all,
}
use ayad_network_manager.Traffic.Kernel.{same_direction, IsEnforcer, effective, wanted_of}

-- An attempt that leaves no failure ended well, and there was none before.
pub attempt-clean :
    {S : Type 0} (env : Services S) (m : Call S (Unit {0})) (wrap : Error → Error)
    (failures : List Error) (s t : S)
    → attempt env m wrap failures s ≡ (ok [], t)
    → (failures ≡ []) × (m s ≡ (ok tt, t))
attempt-clean {S} env m wrap failures s t h = go (m s) h
  where
    no_snoc : (l : List Error) (e : Error) → l ++ e ∷ [] ≡ [] → ⊥
    no_snoc [] e k = absurd (cc)
    no_snoc (x ∷ l) e k = absurd (cc)

    go :
        (r : Result Error (Unit {0}) × S)
        → elim (r.0) as (λ _. Result Error (List Error) × S) [
          | ok done ↦ (ok failures, r.1)
          | err e ↦ (ok (failures ++ wrap e ∷ []), r.1)
        ]
          ≡ (ok [], t)
        → (failures ≡ []) × (r ≡ (ok tt, t))
    go (ok done, u) k = (cc, cc)
    go (err e, u) k = absurd (no_snoc failures (wrap e) (cc))

-- `o`, or else `p`.
abbrev pub or_before : Option ℕ → Option ℕ → Option ℕ
or_before none p = p
or_before (some n) p = some n

module _ {S : Type 0} (env : Services S) {rate : S → Direction → Text → Option ℕ}
    (kernel : IsEnforcer env rate) where
  -- What one direction of one device does to the rates.
  limit_direction-rate :
      (direction : Direction) (d : Device) (p : DevicePolicy) (s t : S)
      → limit_direction env direction d p s ≡ (ok tt, t)
      → (dir : Direction) (c : Text)
      → rate t dir c ≡ (
          if same_direction direction dir && class_of env direction d == c
          then or_before (effective env direction p) (rate s dir c)
          else rate s dir c)
  unfolding limit_direction
  limit_direction-rate direction d p s t h dir c = elim (Bool-cases (is_throttled p)) [
    | inl throttled ↦
        let run = rw (throttled, limit_direction) at h in
        rw throttled (
          ap (λ r. rate (r.1) dir c) (sym run)
          ∙ kernel.limit_bits_rate direction d (env.throttle_rate.bits) s (ap (λ r. r.0) run) dir c)
    | inr free ↦ elim (Option-cases (limit_in direction p)) [
      | inl unlimited ↦
          rw (free, unlimited)
            (ap (λ r. rate (r.1) dir c) (sym (rw (free, unlimited, limit_direction) at h))
              ∙ same_either (same_direction direction dir && class_of env direction d == c))
      | inr (milli, limited) ↦
          let run = rw (free, limited, limit_direction) at h in
          rw (free, limited)
            (ap (λ r. rate (r.1) dir c) (sym run)
              ∙ kernel.limit_rate direction d milli s (ap (λ r. r.0) run) dir c)
    ]
  ]
    where
      same_either : (b : Bool) → rate s dir c ≡ (if b then rate s dir c else rate s dir c)
      same_either true = refl
      same_either false = refl

  limit_device-rate :
      (d : Device) (p : DevicePolicy) (s t : S)
      → limit_device env d p s ≡ (ok tt, t)
      → (dir : Direction) (c : Text)
      → rate t dir c ≡ (
          if class_of env dir d == c
          then or_before (effective env dir p) (rate s dir c)
          else rate s dir c)
  unfolding limit_device
  limit_device-rate d p s t h dir c =
      let (_, u, down, up) =
        bind_ok (limit_direction env download d p) (λ _. limit_direction env upload d p) h in
      by_direction s u dir (limit_direction-rate download d p s u down dir c)
        (limit_direction-rate upload d p u t up dir c)
    where
      by_direction :
          (v w : S) (dir : Direction)
          → rate w dir c ≡ (
              if same_direction download dir && class_of env download d == c
              then or_before (effective env download p) (rate v dir c)
              else rate v dir c)
          → rate t dir c ≡ (
              if same_direction upload dir && class_of env upload d == c
              then or_before (effective env upload p) (rate w dir c)
              else rate w dir c)
          → rate t dir c ≡ (
              if class_of env dir d == c
              then or_before (effective env dir p) (rate v dir c)
              else rate v dir c)
      by_direction v w download a b = b ∙ a
      by_direction v w upload a b =
          b
          ∙ ap (λ o. if class_of env upload d == c then or_before (effective env upload p) o else o)
              a

  -- The limits of all chosen devices, when none fails: the last device of a class decides.
  pub limit_all-rate :
      (targets : List (Device × DevicePolicy)) (failures : List Error) (s t : S)
      → limit_all env targets failures s ≡ (ok [], t)
      → (failures ≡ [])
        × ((dir : Direction) (c : Text)
            → rate t dir c ≡ or_before (wanted_of env dir c targets) (rate s dir c))
  unfolding limit_all wanted_of
  limit_all-rate [] failures s t h = (cc, λ dir c. ap (λ r. rate (r.1) dir c) (sym h))
  limit_all-rate ((d, p) ∷ rest) failures s t h =
      let (failures', u, first, later) =
        bind_ok (attempt env (limit_device env d p) (traffic_policy_failed d.mac.value) failures)
          (limit_all env rest) h in
      let (clean, rates) = limit_all-rate rest failures' u t later in
      let (clean', run) =
        attempt-clean env (limit_device env d p) (traffic_policy_failed d.mac.value) failures s u
          (first ∙ ap (λ l. (ok l, u)) clean) in
      (
        clean',
        λ dir c.
            rates dir c
            ∙ decide (rate s dir c) (rate u dir c) (wanted_of env dir c rest)
                (class_of env dir d == c) (effective env dir p)
                (limit_device-rate d p s u run dir c),
      )
    where
      decide :
          (before after o : Option ℕ) (here : Bool) (asked : Option ℕ)
          → after ≡ (if here then or_before asked before else before)
          → or_before o after
            ≡ or_before
                (elim o as (λ _. Option ℕ) [
                  | some bits ↦ some bits
                  | none ↦ if here then asked else none
                ])
                before
      decide before after (some bits) here asked e = refl
      decide before after none true asked e = e
      decide before after none false asked e = e
