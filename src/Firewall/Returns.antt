-- ===== src/Firewall/Returns.antt =====
-- `reconcile` ends well when its collaborators do.
use ayad_network_manager.Base.{
  ℕ, Bool, ◌≡◌, refl, ◌∙◌, ap, Option, none, List, [], ◌∷◌, Text, text_eq, All, All-map, All-every,
  Bool-cases, inl, inr,
}
use ayad_network_manager.Base.Map.{has}
use ayad_network_manager.Base.Effects.{ok, ◌>>=◌, ◌>>◌, for_each, bind_step}
use ayad_network_manager.Base.Returns.{Returns, Returns-bind, Returns-for_each}
use ayad_network_manager.Domain.MacAddress.{MacAddress}
use ayad_network_manager.Domain.Device.{Device, DevicePolicy}
use ayad_network_manager.Ports.{Call, Read, ask, call_if}
use ayad_network_manager.Firewall.{
  Collaborators, want, desired, block_text, unblock_unless, unblock_ip_unless, blocked_macs,
  blocked_ips, for_existing, install, reconcile,
}
use ayad_network_manager.Firewall.Desired.{desired-IsCanonical}
use ayad_network_manager.Firewall.Kernel.{IsCanonical, IsBlocker}

-- Collaborators none of whose calls fails while `reconcile` runs.
pub record IsReliable {S : Type 0} (env : Collaborators S) : Type 0 where
  pub find_all_answers : (s : S) → (ds : List Device) × (env.devices.find_all s ≡ ok ds)
  pub policy_answers :
      (id : ℕ) (s : S) → (p : Option DevicePolicy) × (env.policies.find_by_device_id id s ≡ ok p)
  pub macs_answer : (s : S) → (l : List Text) × (blocked_macs env s ≡ ok l)
  pub ips_answer : (s : S) → (l : List Text) × (blocked_ips env s ≡ ok l)
  pub block_returns : (m : MacAddress) → IsCanonical m.value → Returns (env.blocker.block m none)
  pub unblock_returns : (m : MacAddress) → Returns (env.blocker.unblock m none)
  pub block_ip_returns : (ip : Text) → Returns (call_if (env.blocker.block_ip) ip)
  pub unblock_ip_returns : (ip : Text) → Returns (call_if (env.blocker.unblock_ip) ip)

module _ {S : Type 0} (env : Collaborators S) (reliable : IsReliable env)
    {macs ips : S → Text → Bool} (kernel : IsBlocker (env.blocker) macs ips) where
  desired-answers :
      (ds : List Device) (sets : List Text × List Text) (s : S)
      → (r : List Text × List Text) × (desired env ds sets s ≡ ok r)
  unfolding desired
  desired-answers [] sets s = (sets, refl)
  desired-answers (d ∷ ds) sets s =
      let (policy, e) = reliable.policy_answers (d.id) s in
      let (r, e') = desired-answers ds (want env d policy sets) s in (r, rw (e, desired) e')

  block_text-Returns : (m : Text) → IsCanonical m → Returns (block_text env m)
  unfolding block_text
  block_text-Returns m c s = rw (c, block_text) (reliable.block_returns (record { value = m }) c s)

  unblock_unless-Returns :
      (keep : List Text) (m : Text) → IsCanonical m → Returns (unblock_unless env keep m)
  unfolding unblock_unless
  unblock_unless-Returns keep m c s = elim (Bool-cases (has m keep)) [
    | inl kept ↦ rw (kept, unblock_unless) (tt, s, refl)
    | inr dropped ↦
        rw (dropped, c, unblock_unless) (reliable.unblock_returns (record { value = m }) s)
  ]

  unblock_ip_unless-Returns :
      (keep : List Text) (ip : Text) → Returns (unblock_ip_unless env keep ip)
  unfolding unblock_ip_unless
  unblock_ip_unless-Returns keep ip s = elim (Bool-cases (has ip keep)) [
    | inl kept ↦ rw (kept, unblock_ip_unless) (tt, s, refl)
    | inr dropped ↦ rw (dropped, unblock_ip_unless) (reliable.unblock_ip_returns ip s)
  ]

  for_existing-Returns :
      (existing : Read S (List Text)) (body : Text → Call S (Unit {0}))
      → ((s : S) → (l : List Text) × (existing s ≡ ok l) × All (λ x. Returns (body x)) l)
      → Returns (for_existing env existing body)
  for_existing-Returns existing body answers s =
      let (l, e, every) = answers s in
      let (a, t, loop) = Returns-for_each l body every s in
      (a, t, bind_step (ask existing) (λ found. for_each found body) (ap (λ r. (r, s)) e) ∙ loop)

  existing-IsCanonical : (s : S) (l : List Text) → blocked_macs env s ≡ ok l → All IsCanonical l
  unfolding blocked_macs
  existing-IsCanonical s l e = (kernel.read_macs_all s l (rw (kernel.has_read_macs) at e)).0

  install-Returns : (ms is : List Text) → All IsCanonical ms → Returns (install env (ms, is))
  unfolding install
  install-Returns ms is c =
      let block_ip = call_if (env.blocker.block_ip) in
      let unblock_macs = for_existing env (blocked_macs env) (unblock_unless env ms) in
      let unblock_ips = for_existing env (blocked_ips env) (unblock_ip_unless env is) in
      Returns-bind (for_each ms (block_text env))
        (λ _. for_each is block_ip >> (unblock_macs >> unblock_ips))
        (Returns-for_each ms (block_text env) (All-map ms block_text-Returns c))
        (λ _.
          Returns-bind (for_each is block_ip) (λ _. unblock_macs >> unblock_ips)
            (Returns-for_each is block_ip (All-every is reliable.block_ip_returns))
            (λ _.
              Returns-bind unblock_macs (λ _. unblock_ips)
                (for_existing-Returns (blocked_macs env) (unblock_unless env ms) (λ s.
                  let (l, e) = reliable.macs_answer s in
                  (l, e, All-map l (unblock_unless-Returns ms) (existing-IsCanonical s l e))))
                (λ _. for_existing-Returns (blocked_ips env) (unblock_ip_unless env is) (λ s.
                  let (l, e) = reliable.ips_answer s in
                  (l, e, All-every l (unblock_ip_unless-Returns is))))))

  -- With a blocker that keeps the laws of IsBlocker, known devices whose addresses are in normal
  -- form, and collaborators none of whose calls fails, `reconcile` ends well.
  pub reconcile-Returns :
      (s : S)
      → ((ds : List Device)
          → env.devices.find_all s ≡ ok ds
          → All (λ d. IsCanonical d.mac.value) ds)
      → (t : S) × (reconcile env s ≡ (ok tt, t))
  unfolding reconcile
  reconcile-Returns s canonical =
      let (ds, e) = reliable.find_all_answers s in
      let (r, e') = desired-answers ds ([], []) s in
      let (done, t, e'') =
        install-Returns r.0 r.1 (desired-IsCanonical env ds s ([], []) r (canonical ds e) tt e')
          s in
      (
        t,
        bind_step (ask env.devices.find_all) (λ l. ask (desired env l ([], [])) >>= install env)
              (ap (λ x. (x, s)) e)
            ∙ bind_step (ask (desired env ds ([], []))) (install env) (ap (λ x. (x, s)) e')
            ∙ e'',
      )
