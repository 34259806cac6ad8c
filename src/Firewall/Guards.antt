-- ===== src/Firewall/Guards.antt =====
-- The guards of `blockDevice`, and what a block and an unblock persist.
use ayad_network_manager.Base.{
  ℕ, Bool, true, false, not, ◌&&◌, ◌||◌, ◌≡◌, refl, ◌∙◌, ap, Option, some, List, Text, ◌==◌, nat_eq,
  text_eq, arith, Bool-cases, inl, inr,
}
use ayad_network_manager.Base.Effects.{ok, err, ◌>>◌, bind_step, bind_err}
use ayad_network_manager.Base.Frame.{Keeps, Keeps-bind, Keeps-catch, Keeps-for_each, bind-view}
use ayad_network_manager.Errors.{
  Error, refusing_proxy_mac, refusing_requester, identity_not_validated,
}
use ayad_network_manager.Errors.{device_not_found, pending_enforcement}
use ayad_network_manager.Domain.Device.{Device}
use ayad_network_manager.Ports.{ask, or_throw, no_change}
use ayad_network_manager.Firewall.{
  Collaborators, resolve_device_identifier, resolve, audit, block_known, check_block, block_device,
  unblock_found, enforce_unblock, unblock_known, unblock_device, active_ips, ip_text,
  is_proxy_request, is_requester,
}
use ayad_network_manager.Firewall.Stores.{IsPolicyView}
use ayad_network_manager.Firewall.PolicyKept.{enforce_block-Keeps, audit_throw-Keeps, ask-Keeps}

-- `blockDevice` goes on for a device whose identity is validated, unless the request names a proxy's
-- address or comes from the device itself.
unfoldable pub may_block : Text → Option Text → Device → List Device → Bool
may_block mac requester_ip d ds =
    d.identity_validated && (not (is_proxy_request mac ds) && not (is_requester d requester_ip))

module _ {S : Type 0} (env : Collaborators S) where
  pub resolve-known :
      (mac : Text) {d : Device} {s : S}
      → resolve_device_identifier (env.devices) mac s ≡ ok (some d)
      → resolve env mac s ≡ (ok d, s)
  unfolding resolve
  resolve-known mac {s = s} known =
      bind_step (ask (resolve_device_identifier env.devices mac))
        (λ found. or_throw found (device_not_found mac)) (ap (λ r. (r, s)) known)

  check_block-passes :
      (mac : Text) (requester_ip : Option Text) (d : Device) {ds : List Device} {s : S}
      → env.devices.find_all s ≡ ok ds
      → may_block mac requester_ip d ds ≡ true
      → check_block env mac requester_ip d s ≡ (ok tt, s)
  unfolding check_block may_block is_requester
  check_block-passes mac requester_ip d {ds} found passed =
      let validated : d.identity_validated ≡ true = ground arith in
      let direct : is_proxy_request mac ds ≡ false = ground arith in
      let other : is_requester d requester_ip ≡ false = ground arith in
      rw (validated, found, direct, other) refl

  check_block-refuses :
      (mac : Text) (requester_ip : Option Text) (d : Device) {ds : List Device} {s : S}
      → env.devices.find_all s ≡ ok ds
      → may_block mac requester_ip d ds ≡ false
      → (e : Error) × (check_block env mac requester_ip d s ≡ (err e, s))
  unfolding check_block may_block is_requester
  check_block-refuses mac requester_ip d {ds} found refused =
      elim (Bool-cases (d.identity_validated)) [
        | inr unvalidated ↦ (identity_not_validated mac, rw unvalidated refl)
        | inl validated ↦ elim (Bool-cases (is_proxy_request mac ds)) [
          | inl proxy ↦ (refusing_proxy_mac mac, rw (validated, found, proxy) refl)
          | inr direct ↦
              let requester : is_requester d requester_ip ≡ true = ground arith in
              (refusing_requester, rw (validated, found, direct, requester) refl)
        ]
      ]

module _ {S : Type 0} (env : Collaborators S) {blocked : S → ℕ → Bool}
    (view : IsPolicyView env blocked) (d : Device) (s : S) where
  pub block_known-view :
      (env.policies.upsert (d.id) (record no_change { blocked = some true }) s).0 ≡ ok tt
      → (k : ℕ) → blocked (block_known env d s).1 k ≡ (d.id == k || blocked s k)
  unfolding block_known audit
  block_known-view taken k =
      bind-view blocked (env.policies.upsert d.id (record no_change { blocked = some true })) taken
        (λ _.
          Keeps-catch blocked
            (Keeps-bind blocked (enforce_block-Keeps env view d) (λ _.
              Keeps-bind blocked (view.record_keeps d.id _ (ip_text d) _)
                (λ _. view.audit_keeps _)))
            (λ e. audit_throw-Keeps env view _ (pending_enforcement d.id true e)))
        k
      ∙ view.upsert_blocked (d.id) true s taken k
      ∙ ground arith

  enforce_unblock-Keeps : Keeps blocked (enforce_unblock env d)
  unfolding enforce_unblock
  enforce_unblock-Keeps = elim (Bool-cases (d.l2_visible)) [
    | inl seen ↦ rw seen (view.unblock_keeps d.mac (ip_text d))
    | inr hidden ↦ rw hidden (
        Keeps-bind blocked (ask-Keeps env view (active_ips env d.id))
          (λ ips. Keeps-for_each blocked ips view.unblock_ip_keeps))
  ]

  pub unblock_known-view :
      (env.policies.upsert (d.id) (record no_change { blocked = some false }) s).0 ≡ ok tt
      → (k : ℕ) → blocked (unblock_known env d s).1 k ≡ (not (d.id == k) && blocked s k)
  unfolding unblock_known audit
  unblock_known-view taken k =
      bind-view blocked (env.policies.upsert d.id (record no_change { blocked = some false })) taken
        (λ _.
          Keeps-catch blocked
            (Keeps-bind blocked enforce_unblock-Keeps
              (λ _. Keeps-bind blocked (view.release_keeps d.id) (λ _. view.audit_keeps _)))
            (λ e. audit_throw-Keeps env view _ (pending_enforcement d.id false e)))
        k
      ∙ view.upsert_blocked (d.id) false s taken k
      ∙ ground arith

module _ {S : Type 0} (env : Collaborators S) (mac : Text) (requester_ip : Option Text) (d : Device)
    (ds : List Device) (s : S) where
  -- A block of a known device that the guards refuse is an error and writes nothing at all.
  pub block_device_refuses :
      resolve_device_identifier (env.devices) mac s ≡ ok (some d)
      → env.devices.find_all s ≡ ok ds
      → may_block mac requester_ip d ds ≡ false
      → (e : Error) × (block_device env mac requester_ip s ≡ (err e, s))
  unfolding block_device
  block_device_refuses known found refused =
      let (e, h) = check_block-refuses env mac requester_ip d found refused in
      (
        e,
        bind_step (resolve env mac) (λ d. check_block env mac requester_ip d >> block_known env d)
              (resolve-known env mac known)
            ∙ bind_err (check_block env mac requester_ip d) (λ _. block_known env d) h,
      )

  block_device_passes :
      resolve_device_identifier (env.devices) mac s ≡ ok (some d)
      → env.devices.find_all s ≡ ok ds
      → may_block mac requester_ip d ds ≡ true
      → block_device env mac requester_ip s ≡ block_known env d s
  unfolding block_device
  block_device_passes known found passed =
      bind_step (resolve env mac) (λ d. check_block env mac requester_ip d >> block_known env d)
        (resolve-known env mac known)
      ∙ bind_step (check_block env mac requester_ip d) (λ _. block_known env d)
          (check_block-passes env mac requester_ip d found passed)

  -- With stores that keep the laws of IsPolicyView, a block of a known device that the guards let
  -- through makes the policy say that the device is blocked once the policy store has taken the
  -- write, whether or not the kernel's part, the records or the audit end well, and changes no
  -- other device's block.
  pub block_device_persists :
      {blocked : S → ℕ → Bool} (view : IsPolicyView env blocked)
      → resolve_device_identifier (env.devices) mac s ≡ ok (some d)
      → env.devices.find_all s ≡ ok ds
      → may_block mac requester_ip d ds ≡ true
      → (env.policies.upsert (d.id) (record no_change { blocked = some true }) s).0 ≡ ok tt
      → (k : ℕ) → blocked (block_device env mac requester_ip s).1 k ≡ (d.id == k || blocked s k)
  block_device_persists {blocked} view known found passed taken k =
      ap (λ p. blocked (p.1) k) (block_device_passes known found passed)
      ∙ block_known-view env view d s taken k

  -- With stores that keep the laws of IsPolicyView, an unblock of a known device makes the policy
  -- say that it is not blocked once the policy store has taken the write, whether or not the rest
  -- ends well, and changes no other device's block.
  pub unblock_device_persists :
      {blocked : S → ℕ → Bool} (view : IsPolicyView env blocked)
      → resolve_device_identifier (env.devices) mac s ≡ ok (some d)
      → (env.policies.upsert (d.id) (record no_change { blocked = some false }) s).0 ≡ ok tt
      → (k : ℕ) → blocked (unblock_device env mac s).1 k ≡ (not (d.id == k) && blocked s k)
  unfolding unblock_device
  unblock_device_persists {blocked} view known taken k =
      ap (λ p. blocked (p.1) k)
        (bind_step (ask (resolve_device_identifier env.devices mac)) (unblock_found env mac)
          (ap (λ r. (r, s)) known))
      ∙ unblock_known-view env view d s taken k
