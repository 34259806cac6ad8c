-- ===== src/Traffic/Enforcement/Rows.antt =====
-- What a limit that is set or cleared, and ends well, makes of the policies.
use ayad_network_manager.Base.{
  ℕ, Bool, true, false, Option, none, some, List, [], ◌∷◌, ◌≡◌, refl, ◌∙◌, sym, ap, Text, ◌==◌,
  nat_eq, text_eq, if◌then◌else◌, ◌⊎◌, inl, inr, arith,
}
use ayad_network_manager.Base.Int.{ℤ}
use ayad_network_manager.Base.Effects.{Result, ok, err, pure, ◌>>=◌, bind_ok}
use ayad_network_manager.Base.Frame.{Keeps}
use ayad_network_manager.Errors.{Error}
use ayad_network_manager.Domain.MacAddress
use ayad_network_manager.Domain.MacAddress.{MacAddress}
use ayad_network_manager.Domain.IpAddress
use ayad_network_manager.Domain.Device.{Device, DevicePolicy, ValidatedDeviceIdentity}
use ayad_network_manager.Domain.TcClassId.{Direction, download, upload}
use ayad_network_manager.Identity.{reconcile_identity_observation}
use ayad_network_manager.Ports.{Call, ask_ok, lift, or_throw, throw_if, Details}
use ayad_network_manager.Firewall.{resolve_device_identifier, is_resource_id}
use ayad_network_manager.Traffic.{change_limit, limit, clear}
use ayad_network_manager.Traffic.Enforcement.{
  DeviceData, Services, find_observed, audit, proxy_of, store_observed, refresh,
  resolve_fresh_device,
}

-- A policy with another limit; a device without a policy stays without one here.
abbrev pub put_limit : Direction → Option ℕ → Option DevicePolicy → Option DevicePolicy
put_limit direction new none = none
put_limit download new (some p) = some (record p { download_limit = new })
put_limit upload new (some p) = some (record p { upload_limit = new })

-- The policy of every device, as `row s`, and what is relied on for the device `d`: its address is in
-- normal form and finds the device with its id, an observation and a stored device with its address
-- are its own, a write of a limit that the policy store takes is in its policy, if it has one, and in
-- no other, and no other collaborator changes a policy.
pub record IsPolicyRows {S : Type 0} (env : Services S) (row : S → ℕ → Option DevicePolicy)
    (d : Device) : Type 0 where
  pub is_normal : MacAddress.create d.mac.value ≡ ok d.mac
  pub is_address : is_resource_id d.mac.value ≡ false
  pub find_own :
      (s : S) (e : Device)
      → env.devices.find_by_mac d.mac s ≡ ok (some e)
      → (e.id ≡ d.id) × (e.mac ≡ d.mac)
  pub discover_own :
      (discover : Call S (List ValidatedDeviceIdentity))
      → env.discover ≡ some discover
      → (s t : S) (os : List ValidatedDeviceIdentity) (o : ValidatedDeviceIdentity)
      → discover s ≡ (ok os, t)
      → find_observed d.mac.value os ≡ some o
      → MacAddress.create o.mac ≡ ok d.mac
  pub upsert_own :
      (input : DeviceData) (s t : S) (e : Device)
      → env.upsert input s ≡ (ok e, t)
      → input.mac ≡ d.mac
      → e.id ≡ d.id
  pub write_row :
      (direction : Direction) (new : Option ℕ) (s t : S) (p : DevicePolicy)
      → row s d.id ≡ some p
      → env.policies.upsert d.id (change_limit direction new) s ≡ (ok tt, t)
      → (k : ℕ) → row t k ≡ (if d.id == k then put_limit direction new (row s k) else row s k)
  pub discover_keeps :
      (discover : Call S (List ValidatedDeviceIdentity))
      → env.discover ≡ some discover
      → Keeps row discover
  pub upsert_keeps : (input : DeviceData) → Keeps row (env.upsert input)
  pub limit_keeps :
      (direction : Direction) (e : Device) (rate : ℤ)
      → Keeps row (limit env.enforcer direction e rate)
  pub clear_keeps :
      (direction : Direction) (e : Device) → Keeps row (clear env.enforcer direction e)
  pub clear_base_keeps : Keeps row env.enforcer.clear_base_state
  pub audit_keeps :
      (action : Text) (e : Device) (details : Details) → Keeps row (audit env action e details)

-- What ends well without touching the state.
pub or_throw_ok :
    {S A : Type 0} (o : Option A) (e : Error) (s t : S) (a : A)
    → or_throw o e s ≡ (ok a, t)
    → (o ≡ some a) × (t ≡ s)
or_throw_ok none e s t a h = absurd (cc)
or_throw_ok (some b) e s t a h = (cc, cc)

pub throw_if_ok :
    {S : Type 0} (b : Bool) (e : Error) (s t : S) → throw_if b e s ≡ (ok tt, t) → t ≡ s
throw_if_ok true e s t h = absurd (cc)
throw_if_ok false e s t h = cc

pub lift_ok :
    {S A : Type 0} (r : Result Error A) (s t : S) (a : A)
    → lift r s ≡ (ok a, t)
    → (r ≡ ok a) × (t ≡ s)
lift_ok r s t a h = (ap (λ q. q.0) h, sym (ap (λ q. q.1) h))

reconciled-mac :
    (c : Device) (o : ValidatedDeviceIdentity)
    → let r = reconcile_identity_observation (some c) o in (r.mac ≡ c.mac.value) ⊎ (r.mac ≡ o.mac)
unfolding reconcile_identity_observation
reconciled-mac c o = ground arith

module _ {S : Type 0} (env : Services S) {row : S → ℕ → Option DevicePolicy} (d : Device)
    (rows : IsPolicyRows env row d) where
  pub resolve_own :
      (s : S) (e : Device)
      → resolve_device_identifier env.devices d.mac.value s ≡ ok (some e)
      → (e.id ≡ d.id) × (e.mac ≡ d.mac)
  unfolding resolve_device_identifier
  resolve_own s e h = rows.find_own s e (
      sym (
        ap
          (λ r. elim r as (λ _. Result Error (Option Device)) [
            | ok mac ↦ env.devices.find_by_mac mac s
            | err x ↦ err x
          ])
          rows.is_normal)
      ∙ (rw rows.is_address at h))

  proxy_of-state :
      (o : Option Text) (s t : S) (m : Option MacAddress) → proxy_of env o s ≡ (ok m, t) → t ≡ s
  unfolding proxy_of
  proxy_of-state none s t m h = cc
  proxy_of-state (some []) s t m h = cc
  proxy_of-state (some (c ∷ o)) s t m h =
      let (a, u, made, rest) = bind_ok (lift (MacAddress.create (c ∷ o))) (λ a. pure (some a)) h in
      let (_, same) = lift_ok (MacAddress.create (c ∷ o)) s u a made in
      sym (ap (λ r. r.1) rest) ∙ same

  -- A device that is stored as observed.
  store_observed-own :
      (now : ℕ) (c e : Device) (o : ValidatedDeviceIdentity) (s t : S)
      → c.mac ≡ d.mac
      → MacAddress.create o.mac ≡ ok d.mac
      → store_observed env now c o s ≡ (ok (some e), t)
      → (e.id ≡ d.id) × ((k : ℕ) → row t k ≡ row s k)
  unfolding store_observed
  store_observed-own now c e o s t same normal h =
      let r = reconcile_identity_observation (some c) o in
      let (mac, s1, made, h1) = bind_ok (lift (MacAddress.create r.mac)) with_mac h in
      let (ip, s2, read, h2) = bind_ok (lift (IpAddress.create env.is_ip r.ip)) (with_ip mac) h1 in
      let (proxy, s3, hidden, h3) = bind_ok (proxy_of env r.proxy_mac) (with_proxy mac ip) h2 in
      let (stored, s4, wrote, h4) =
        bind_ok (env.upsert (input mac ip proxy)) (λ x. pure (some x)) h3 in
      let (of_mac, e1) = lift_ok (MacAddress.create r.mac) s s1 mac made in
      let (_, e2) = lift_ok (IpAddress.create env.is_ip r.ip) s1 s2 ip read in
      let e3 = proxy_of-state r.proxy_mac s2 s3 proxy hidden in
      let start : s3 ≡ s = e3 ∙ e2 ∙ e1 in
      let ends : t ≡ s4 = sym (ap (λ q. q.1) h4) in
      let answer : e ≡ stored = some_of stored e s4 t h4 in
      let own : mac ≡ d.mac = mac_of mac (reconciled-mac c o) of_mac in
      (
        ap (λ x. x.id) answer ∙ rows.upsert_own (input mac ip proxy) s3 s4 stored wrote own,
        λ k.
            ap (λ v. row v k) ends
            ∙ ap (λ q. row (q.1) k) (sym wrote)
            ∙ (rows.upsert_keeps (input mac ip proxy)).kept s3 k
            ∙ ap (λ v. row v k) start,
      )
    where
      input : MacAddress → IpAddress.IpAddress → Option MacAddress → DeviceData
      input mac ip proxy =
          let r = reconcile_identity_observation (some c) o in
          record {
            mac = mac;
            ip = ip;
            hostname = r.hostname;
            l2_visible = r.l2_visible;
            proxy_mac = proxy;
            identity_validated = r.identity_validated;
            identity_source = r.identity_source;
            seen_at = now;
          }

      with_proxy : MacAddress → IpAddress.IpAddress → Option MacAddress → Call S (Option Device)
      with_proxy mac ip proxy = env.upsert (input mac ip proxy) >>= λ x. pure (some x)

      with_ip : MacAddress → IpAddress.IpAddress → Call S (Option Device)
      with_ip mac ip =
          proxy_of env (reconcile_identity_observation (some c) o).proxy_mac >>= with_proxy mac ip

      with_mac : MacAddress → Call S (Option Device)
      with_mac mac =
          lift (IpAddress.create env.is_ip (reconcile_identity_observation (some c) o).ip)
          >>= with_ip mac

      some_of :
          (x e : Device) (u v : S)
          → ◌≡◌ {A = Result Error (Option Device) × S} (ok (some x), u) (ok (some e), v)
          → e ≡ x
      some_of x e u v h = cc

      ok_of :
          (mac : MacAddress) → ◌≡◌ {A = Result Error MacAddress} (ok mac) (ok d.mac) → mac ≡ d.mac
      ok_of mac h = cc

      mac_of :
          (mac : MacAddress)
          → ((reconcile_identity_observation (some c) o).mac ≡ c.mac.value)
            ⊎ ((reconcile_identity_observation (some c) o).mac ≡ o.mac)
          → MacAddress.create (reconcile_identity_observation (some c) o).mac ≡ ok mac
          → mac ≡ d.mac
      mac_of mac (inl kept) made =
          ok_of mac
            (sym made ∙ ap MacAddress.create (kept ∙ ap (λ m. m.value) same) ∙ rows.is_normal)
      mac_of mac (inr seen) made = ok_of mac (sym made ∙ ap MacAddress.create seen ∙ normal)

  refresh-own :
      (now : ℕ) (c e : Device) (s t : S)
      → c.id ≡ d.id
      → c.mac ≡ d.mac
      → refresh env now (some c) s ≡ (ok (some e), t)
      → (e.id ≡ d.id) × ((k : ℕ) → row t k ≡ row s k)
  unfolding refresh
  refresh-own now c e s t same_id same h = by_discovery (env.discover) refl h
    where
      unchanged :
          (u : S)
          → ◌≡◌ {A = Result Error (Option Device) × S} (ok (some c), u) (ok (some e), t)
          → (e.id ≡ d.id) × ((k : ℕ) → row t k ≡ row u k)
      unchanged u h' =
          (ap (λ x. x.id) (same_device u h') ∙ same_id, λ k. ap (λ q. row (q.1) k) (sym h'))
        where
          same_device :
              (u : S)
              → ◌≡◌ {A = Result Error (Option Device) × S} (ok (some c), u) (ok (some e), t)
              → e ≡ c
          same_device u h' = cc

      after : Option ValidatedDeviceIdentity → Call S (Option Device)
      after o = elim o [ none ↦ pure (some c) | some observed ↦ store_observed env now c observed ]

      by_observed :
          (discover : Call S (List ValidatedDeviceIdentity))
          → env.discover ≡ some discover
          → (os : List ValidatedDeviceIdentity) (u : S) → discover s ≡ (ok os, u)
          → (o : Option ValidatedDeviceIdentity) → find_observed c.mac.value os ≡ o
          → after o u ≡ (ok (some e), t)
          → (e.id ≡ d.id) × ((k : ℕ) → row t k ≡ row u k)
      by_observed discover given os u seen none at h' = unchanged u h'
      by_observed discover given os u seen (some o) at h' =
          store_observed-own now c e o u t same
            (rows.discover_own discover given s u os o seen
              (ap (λ m. find_observed (m.value) os) (sym same) ∙ at))
            h'

      by_discovery :
          (o : Option (Call S (List ValidatedDeviceIdentity)))
          → env.discover ≡ o
          → (elim o as (λ _. Call S (Option Device)) [
            | none ↦ pure (some c)
            | some discover ↦ discover >>= λ os. after (find_observed c.mac.value os)
          ])
              s
            ≡ (ok (some e), t)
          → (e.id ≡ d.id) × ((k : ℕ) → row t k ≡ row s k)
      by_discovery none given h' = unchanged s h'
      by_discovery (some discover) given h' =
          let (os, u, seen, rest) =
            bind_ok discover (λ os. after (find_observed c.mac.value os)) h' in
          let (own, kept) =
            by_observed discover given os u seen (find_observed c.mac.value os) refl rest in
          (
            own,
            λ k.
                kept k
                ∙ ap (λ q. row (q.1) k) (sym seen)
                ∙ (rows.discover_keeps discover given).kept s k,
          )

  pub resolve_fresh_device-own :
      (now : ℕ) (s t : S) (e : Device)
      → resolve_fresh_device env now d.mac.value s ≡ (ok (some e), t)
      → (e.id ≡ d.id) × ((k : ℕ) → row t k ≡ row s k)
  unfolding resolve_fresh_device refresh
  resolve_fresh_device-own now s t e h =
      let (found, at, rest) =
        ask_ok (resolve_device_identifier env.devices d.mac.value) (refresh env now) h in
      by_found found at rest
    where
      by_found :
          (found : Option Device)
          → resolve_device_identifier env.devices d.mac.value s ≡ ok found
          → refresh env now found s ≡ (ok (some e), t)
          → (e.id ≡ d.id) × ((k : ℕ) → row t k ≡ row s k)
      by_found none at h' = absurd (cc)
      by_found (some c) at h' =
          let (same_id, same) = resolve_own s c at in refresh-own now c e s t same_id same h'
