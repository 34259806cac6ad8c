-- ===== src/Identity/Trust.antt =====
-- Identities that were confirmed once are not lost to the absence of evidence.
use ayad_network_manager.Base.{
  true, false, ◌≡◌, ◌≢◌, none, some, [], arith, text_eq, if◌then◌else◌, ◌⊎◌,
}
use ayad_network_manager.Domain.Device.{Device, ValidatedDeviceIdentity}
use ayad_network_manager.Identity.{
  truthy, is_trusted, is_weak, is_positive, proxy_text, same_proxy, reconcile_identity_observation,
}

-- A validated identity becomes unvalidated only by an observation that is not validated itself, and
-- that is positive evidence or is of an untrusted identity through no proxy or another one.
pub validation_lost :
    (d : Device) (o : ValidatedDeviceIdentity)
    → d.identity_validated ≡ true
    → (reconcile_identity_observation (some d) o).identity_validated ≡ false
    → (o.identity_validated ≡ false)
      × ((is_positive o ≡ true)
          ⊎ ((is_trusted d.identity_source ≡ false)
              × (same_proxy (proxy_text d) o.proxy_mac ≡ false)))
unfolding reconcile_identity_observation
validation_lost d o v h = ground arith

-- The device as the repository keeps it after an observation.
abbrev pub stored : Device → ValidatedDeviceIdentity → Device
stored d r = record d {
  mac = record { value = r.mac };
  ip = some (record { value = r.ip });
  hostname = r.hostname;
  l2_visible = r.l2_visible;
  proxy_mac =
      if truthy r.proxy_mac
      then elim (r.proxy_mac) [ none ↦ none | some p ↦ some (record { value = p }) ]
      else none;
  identity_validated = r.identity_validated;
  identity_source = r.identity_source;
}

-- `deferred` only marks an observation for the next round, and is not stored.
abbrev pub undeferred : ValidatedDeviceIdentity → ValidatedDeviceIdentity
undeferred r = record r { deferred = none }

-- Where neither proxy address is the empty text: once an observation is stored, the same
-- observation again gives the same identity.
pub reconcile_idempotent :
    (d : Device) (o : ValidatedDeviceIdentity)
    → proxy_text d ≢ some []
    → o.proxy_mac ≢ some []
    → let r = reconcile_identity_observation (some d) o in
      undeferred (reconcile_identity_observation (some (stored d r)) o) ≡ undeferred r
unfolding reconcile_identity_observation proxy_text is_trusted is_weak is_positive same_proxy
reconcile_idempotent d o h k = ground arith
