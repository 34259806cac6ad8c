-- ===== src/Identity.antt =====
-- backend/src/domain/services/IdentityStateReconciler.ts
pub mod Trust
mod Tests
use ayad_network_manager.Base.{
  Bool, true, false, not, ◌&&◌, ◌||◌, Option, none, some, [], ◌∷◌, Text, ◌==◌, text_eq,
  if◌then◌else◌,
}
use mathlib.Core.Option
use ayad_network_manager.Text.{to_lower}
use ayad_network_manager.Domain.Device.{
  Device, ValidatedDeviceIdentity, IdentitySource, dhcp, dhcp_confirmed_proxy, static_arp,
  proxy_unconfirmed, proxy_accepted_by_admin,
}

-- A text in a condition: `null` and "" are false.
abbrev pub truthy : Option Text → Bool
truthy none = false
truthy (some []) = false
truthy (some (c ∷ s)) = true

-- `confirmedProxy || acceptedProxy`
unfoldable pub is_trusted : IdentitySource → Bool
is_trusted dhcp_confirmed_proxy = true
is_trusted proxy_accepted_by_admin = true
is_trusted _ = false

unfoldable pub is_weak : IdentitySource → Bool
is_weak proxy_unconfirmed = true
is_weak _ = false

-- `positiveIdentityObservation`
unfoldable pub is_positive : ValidatedDeviceIdentity → Bool
is_positive observed = elim (observed.identity_source) [
  | dhcp ↦ observed.l2_visible
  | dhcp_confirmed_proxy ↦ true
  | static_arp ↦ true
  | _ ↦ false
]

-- `existing.proxyMac?.toString() ?? null`
unfoldable pub proxy_text : Device → Option Text
proxy_text d = elim (d.proxy_mac) [ none ↦ none | some m ↦ some (m.value) ]

unfoldable pub same_proxy : Option Text → Option Text → Bool
same_proxy none q = false
same_proxy (some p) none = false
same_proxy (some p) (some q) = truthy (some q) && to_lower p == to_lower q

merge : Device → ValidatedDeviceIdentity → ValidatedDeviceIdentity
merge existing observed =
    if is_trusted existing.identity_source
      && (not (is_positive observed) || is_weak observed.identity_source)
    then record observed {
      deferred = none;
      mac = existing.mac.value;
      identity_source = existing.identity_source;
      identity_validated = existing.identity_validated;
      proxy_mac = if truthy observed.proxy_mac then observed.proxy_mac else proxy_text existing;
    }
    else if existing.identity_validated
        && same_proxy (proxy_text existing) observed.proxy_mac
        && not (is_positive observed)
    then record observed {
      deferred = none;
      mac = existing.mac.value;
      identity_source = existing.identity_source;
      identity_validated = true;
      proxy_mac = elim (proxy_text existing) [ none ↦ observed.proxy_mac | some p ↦ some p ];
    }
    else observed

unfoldable pub reconcile_identity_observation :
    Option Device → ValidatedDeviceIdentity → ValidatedDeviceIdentity
unfolding merge
reconcile_identity_observation none observed = observed
reconcile_identity_observation (some existing) observed = merge existing observed
