-- ===== src/Firewall/Desired.antt =====
-- What the policies ask `reconcile` to block.
use ayad_network_manager.Base.{
  Bool, false, not, ◌&&◌, ◌||◌, ◌≡◌, Option, some, none, List, [], ◌∷◌, Text, ◌==◌, text_eq, All,
  arith, any, Option-cases, inl, inr,
}
use ayad_network_manager.Base.Map.{has, has-add, All-add}
use ayad_network_manager.Base.Effects.{ok, err, Result-cases}
use ayad_network_manager.Domain.Device.{Device, DevicePolicy}
use ayad_network_manager.Firewall.{Collaborators, is_blocked, want, desired}
use ayad_network_manager.Firewall.Kernel.{IsCanonical}

-- What the policies ask for: a device's hardware address, or its IP address behind a proxy.
module _ {S : Type 0} (env : Collaborators S) where
  asks : Device → S → Bool
  asks d s = elim (env.policies.find_by_device_id (d.id) s) [
    | ok policy ↦ is_blocked policy && d.identity_validated
    | err e ↦ false
  ]

  pub asks_mac : S → Text → Device → Bool
  asks_mac s x d = asks d s && d.l2_visible && d.mac.value == x

  pub asks_ip : S → Text → Device → Bool
  asks_ip s x d =
      asks d s && not d.l2_visible && elim (d.ip) [ none ↦ false | some ip ↦ ip.value == x ]

  asks_ok :
      (d : Device) (s : S) (policy : Option DevicePolicy)
      → env.policies.find_by_device_id d.id s ≡ ok policy
      → asks d s ≡ (is_blocked policy && d.identity_validated)
  unfolding asks
  asks_ok d s policy e = rw (e, asks)

  want-has :
      (d : Device) (s : S) (policy : Option DevicePolicy) (sets : List Text × List Text) (x : Text)
      → env.policies.find_by_device_id d.id s ≡ ok policy
      → (has x (want env d policy sets).0 ≡ (asks_mac s x d || has x sets.0))
        × (has x (want env d policy sets).1 ≡ (asks_ip s x d || has x sets.1))
  unfolding asks_mac asks_ip want
  want-has d s policy sets x e = elim (Option-cases (d.ip)) [
    | inl without ↦ ground (arith, asks_ok d s policy e, has-add (d.mac.value) x sets.0)
    | inr (ip, known) ↦
        ground
          (arith, asks_ok d s policy e, has-add (d.mac.value) x sets.0, has-add (ip.value) x sets.1)
  ]

  want-IsCanonical :
      (d : Device) (policy : Option DevicePolicy) (sets : List Text × List Text)
      → IsCanonical (d.mac.value)
      → All IsCanonical sets.0
      → All IsCanonical (want env d policy sets).0
  unfolding want
  want-IsCanonical d policy sets c cs = elim (Option-cases (d.ip)) [
    | inl without ↦ ground (arith, All-add IsCanonical (d.mac.value) sets.0 c cs)
    | inr (ip, known) ↦ ground (arith, All-add IsCanonical (d.mac.value) sets.0 c cs)
  ]

  pub desired-IsCanonical :
      (ds : List Device) (s : S) (sets r : List Text × List Text)
      → All (λ d. IsCanonical (d.mac.value)) ds
      → All IsCanonical sets.0
      → desired env ds sets s ≡ ok r
      → All IsCanonical r.0
  unfolding desired
  desired-IsCanonical [] s sets r c cs h = ground (arith, cs)
  desired-IsCanonical (d ∷ ds) s sets r (c, c') cs h =
      elim (Result-cases (env.policies.find_by_device_id d.id s)) [
        | inl (policy, e) ↦
            desired-IsCanonical ds s (want env d policy sets) r c'
              (want-IsCanonical d policy sets c cs) (rw (e, desired) at h)
        | inr (x, e) ↦ absurd (cc (rw (e, desired) at h))
      ]

  pub desired-has :
      (ds : List Device) (s : S) (sets r : List Text × List Text) (x : Text)
      → desired env ds sets s ≡ ok r
      → (has x r.0 ≡ (any (asks_mac s x) ds || has x sets.0))
        × (has x r.1 ≡ (any (asks_ip s x) ds || has x sets.1))
  unfolding desired
  desired-has [] s sets r x h = ground arith
  desired-has (d ∷ ds) s sets r x h = elim (Result-cases (env.policies.find_by_device_id d.id s)) [
    | inl (policy, e) ↦
        let (m, i) = want-has d s policy sets x e in
        let (ms, is) = desired-has ds s (want env d policy sets) r x (rw (e, desired) at h) in
        (ground (arith, m, ms), ground (arith, i, is))
    | inr (x', e) ↦ absurd (cc (rw (e, desired) at h))
  ]
