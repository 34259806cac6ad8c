-- ===== src/Identity/Tests.antt =====
-- The theorems on identities at concrete inputs.
use ayad_network_manager.Base.{
  true, false, ◌≡◌, ◌≢◌, refl, none, some, [], codes, text_eq, text_beq, ◌⊎◌,
}
use ayad_network_manager.Text.{to_lower}
use ayad_network_manager.Domain.Device.{
  Device, ValidatedDeviceIdentity, dhcp, dhcp_confirmed_proxy, proxy_unconfirmed,
}
use ayad_network_manager.Identity.{
  is_trusted, is_positive, proxy_text, same_proxy, reconcile_identity_observation,
}
use ayad_network_manager.Identity.Trust.{validation_lost, reconcile_idempotent, stored, undeferred}

abbrev behind_proxy : Device
behind_proxy = record {
  id = 7;
  mac = record { value = codes "02:00:00:00:00:07" };
  ip = some (record { value = codes "10.0.0.7" });
  hostname = none;
  l2_visible = false;
  proxy_mac = some (record { value = codes "02:00:00:00:00:ff" });
  identity_validated = true;
  identity_source = dhcp_confirmed_proxy;
  first_seen = 0;
  last_seen = 0;
}

abbrev by_lease : Device
by_lease = record behind_proxy { identity_source = dhcp }

-- A lease seen through another proxy, which confirms nothing.
abbrev unconfirmed : ValidatedDeviceIdentity
unconfirmed = record {
  mac = codes "02:00:00:00:00:07";
  ip = codes "10.0.0.9";
  hostname = none;
  client_id = none;
  neighbor_state = codes "STALE";
  l2_visible = false;
  proxy_mac = some (codes "02:00:00:00:00:fe");
  identity_validated = false;
  identity_source = proxy_unconfirmed;
  deferred = some true;
}

lost : (reconcile_identity_observation (some by_lease) unconfirmed).identity_validated ≡ false
unfolding reconcile_identity_observation is_trusted is_positive same_proxy proxy_text to_lower
    text_beq
lost = refl

some_proxy : proxy_text behind_proxy ≢ some []
unfolding proxy_text
some_proxy e = cc

validation_lost_example :
    (unconfirmed.identity_validated ≡ false)
    × ((is_positive unconfirmed ≡ true)
        ⊎ ((is_trusted by_lease.identity_source ≡ false)
            × (same_proxy (proxy_text by_lease) unconfirmed.proxy_mac ≡ false)))
validation_lost_example = validation_lost by_lease unconfirmed refl lost

reconcile_idempotent_example :
    let r = reconcile_identity_observation (some behind_proxy) unconfirmed in
    undeferred (reconcile_identity_observation (some (stored behind_proxy r)) unconfirmed)
    ≡ undeferred r
reconcile_idempotent_example = reconcile_idempotent behind_proxy unconfirmed some_proxy (λ e. cc)
