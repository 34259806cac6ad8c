-- ===== src/Firewall/Memory.antt =====
-- A firewall whose kernel and stores are lists in memory, for the runs of Tests.
use ayad_network_manager.Base.{
  ◌&&◌, ◌||◌, ℕ, Bool, true, false, ◌≡◌, refl, ◌∙◌, Option, none, some, List, [], ◌∷◌, Text, codes,
  ◌==◌, nat_eq, text_eq, text_beq_iff, eq_refl, ap, arith, if◌then◌else◌, All, Bool-cases, inl, inr,
}
use ayad_network_manager.Base.Map.{has, add, delete, has-add, has-delete}
use ayad_network_manager.Base.Effects.{Result, ok, err, pure, Result-cases}
use ayad_network_manager.Errors.{Error, call_failed}
use ayad_network_manager.Domain.MacAddress
use ayad_network_manager.Domain.MacAddress.{MacAddress}
use ayad_network_manager.Domain.Device.{Device, DevicePolicy, dhcp, proxy_accepted_by_admin}
use ayad_network_manager.Firewall.{
  Collaborators, audited, record_block, release_block, blocked_macs, blocked_ips,
}
use ayad_network_manager.Firewall.Kernel.{IsCanonical, IsBlocker}
use ayad_network_manager.Firewall.Returns.{IsReliable}
use ayad_network_manager.Firewall.Stores.{IsPolicyView}

pub record World : Type 0 where
  pub devices : List Device
  pub blocked_ids : List ℕ
  pub macs : List Text
  pub ips : List Text

abbrev pub laptop : Device
laptop = record {
  id = 7;
  mac = record { value = codes "02:00:00:00:00:07" };
  ip = some (record { value = codes "10.0.0.7" });
  hostname = none;
  l2_visible = true;
  proxy_mac = none;
  identity_validated = true;
  identity_source = dhcp;
  first_seen = 0;
  last_seen = 0;
}

abbrev pub phone : Device
phone = record laptop {
  id = 8;
  mac = record { value = codes "02:00:00:00:00:08" };
  ip = some (record { value = codes "10.0.0.8" });
  l2_visible = false;
  proxy_mac = some (record { value = codes "02:00:00:00:00:ff" });
  identity_source = proxy_accepted_by_admin;
}

-- Both devices are blocked, and the kernel still blocks an address of a device that is gone.
abbrev pub world : World
world = record {
  devices = laptop ∷ phone ∷ [];
  blocked_ids = 7 ∷ 8 ∷ [];
  macs = codes "02:00:00:00:00:09" ∷ [];
  ips = [];
}

abbrev policy : ℕ → Bool → DevicePolicy
policy id blocked = record {
  id = id;
  device_id = id;
  blocked = blocked;
  download_limit = none;
  upload_limit = none;
  quota = none;
  quota_period = none;
  quota_action = none;
  quota_enforced_action = none;
  profile_id = none;
  schedule_id = none;
}

abbrev set_blocked : ℕ → Option Bool → List ℕ → List ℕ
set_blocked id none l = l
set_blocked id (some true) l = add id l
set_blocked id (some false) l = delete id l

abbrev with_id : ℕ → List Device → Option Device
with_id id [] = none
with_id id (d ∷ ds) = if d.id == id then some d else with_id id ds

abbrev with_mac : MacAddress → List Device → Option Device
with_mac mac [] = none
with_mac mac (d ∷ ds) = if d.mac.value == mac.value then some d else with_mac mac ds

abbrev is_canonical : Text → Bool
is_canonical x = elim (MacAddress.create x) [ ok m ↦ m.value == x | err e ↦ false ]

abbrev canonical_of : List Text → List Text
canonical_of [] = []
canonical_of (x ∷ l) = if is_canonical x then x ∷ canonical_of l else canonical_of l

-- Only an address in normal form is blocked.
abbrev block_mac : MacAddress → World → Result Error (Unit {0}) × World
block_mac m w =
    if is_canonical (m.value)
    then (ok tt, record w { macs = add (m.value) w.macs })
    else (err (call_failed (codes "malformed")), w)

abbrev pub memory : Collaborators World
memory = record {
  blocker = record {
    block = λ m ip. block_mac m;
    unblock = λ m ip w. (ok tt, record w { macs = delete (m.value) w.macs });
    block_ip = some (λ ip w. (ok tt, record w { ips = add ip w.ips }));
    unblock_ip = some (λ ip w. (ok tt, record w { ips = delete ip w.ips }));
    get_blocked_macs = some (λ w. ok (canonical_of w.macs));
    get_blocked_ips = some (λ w. ok w.ips);
  };
  devices = record {
    find_by_mac = λ m w. ok (with_mac m w.devices);
    find_by_id = λ id w. ok (with_id id w.devices);
    find_all = λ w. ok w.devices;
    update = λ id change. pure tt;
  };
  policies = record {
    find_by_device_id = λ id w. ok (some (policy id (has id w.blocked_ids)));
    upsert = λ id change w.
        (ok tt, record w { blocked_ids = set_blocked id change.blocked w.blocked_ids });
  };
  operations = none;
  blocked_devices = none;
  admin = codes "admin";
}

is_canonical-IsCanonical : (x : Text) → is_canonical x ≡ true → IsCanonical x
is_canonical-IsCanonical x h = elim (Result-cases (MacAddress.create x)) [
  | inl (m, e) ↦
      let same : m.value ≡ x = (text_beq_iff (m.value) x).0 (rw (e, is_canonical) at h) in
      rw same at e
  | inr (x', e) ↦ absurd (cc (rw (e, is_canonical) at h))
]

is_canonical-of : (x : Text) → IsCanonical x → is_canonical x ≡ true
is_canonical-of x c = rw (c, is_canonical) (eq_refl x)

canonical_of-IsCanonical : (l : List Text) → All IsCanonical (canonical_of l)
canonical_of-IsCanonical [] = tt
canonical_of-IsCanonical (x ∷ l) = elim (Bool-cases (is_canonical x)) [
  | inl good ↦ rw good (is_canonical-IsCanonical x good, canonical_of-IsCanonical l)
  | inr bad ↦ rw bad (canonical_of-IsCanonical l)
]

has-canonical_of : (x : Text) (l : List Text) → has x (canonical_of l) ≡ (is_canonical x && has x l)
unfolding has
has-canonical_of x [] = ground arith
has-canonical_of x (y ∷ l) = elim (Bool-cases (y == x)) [
  | inl same ↦
      let e : y ≡ x = (text_beq_iff y x).0 same in
      rw e (elim (Bool-cases (is_canonical x)) [
        | inl good ↦ rw good (ground (arith, eq_refl x))
        | inr bad ↦ rw bad (has-canonical_of x l ∙ rw bad refl)
      ])
  | inr other ↦ elim (Bool-cases (is_canonical y)) [
    | inl good ↦ rw (good, other) (has-canonical_of x l)
    | inr bad ↦ rw (bad, other) (has-canonical_of x l)
  ]
]

abbrev pub macs_of : World → Text → Bool
macs_of w x = is_canonical x && has x (w.macs)

abbrev pub ips_of : World → Text → Bool
ips_of w x = has x (w.ips)

abbrev pub blocked_of : World → ℕ → Bool
blocked_of w id = has id (w.blocked_ids)

block_mac-macs :
    (m : MacAddress) (w : World)
    → (block_mac m w).0 ≡ ok tt
    → (x : Text) → macs_of (block_mac m w).1 x ≡ (m.value == x || macs_of w x)
block_mac-macs m w e x = elim (Bool-cases (is_canonical (m.value))) [
  | inr bad ↦ absurd (cc (rw bad at e))
  | inl good ↦ rw good (
      ap (λ b. is_canonical x && b) (has-add (m.value) x w.macs)
      ∙ elim (Bool-cases (m.value == x)) [
        | inl same ↦
            let here : is_canonical x ≡ true = rw ((text_beq_iff (m.value) x).0 same) at good in
            rw (same, here) refl
        | inr other ↦ rw other refl
      ])
]

-- A block leaves what it does not write.
block_mac-apart :
    {V : Type 0} (view : World → V) (m : MacAddress) (w : World)
    → ((l : List Text) → view (record w { macs = l }) ≡ view w)
    → view (block_mac m w).1 ≡ view w
block_mac-apart view m w apart = elim (Bool-cases (is_canonical (m.value))) [
  | inl good ↦ rw good (apart (add (m.value) w.macs))
  | inr bad ↦ rw bad refl
]

read_macs-IsCanonical :
    (w : World) (l : List Text)
    → ◌≡◌ {A = Result Error (List Text)} (ok (canonical_of w.macs)) (ok l)
    → All IsCanonical l × ((x : Text) → has x l ≡ macs_of w x)
read_macs-IsCanonical w l h =
    let e : canonical_of w.macs ≡ l = cc in
    rw⁻¹ e (canonical_of-IsCanonical w.macs, λ x. has-canonical_of x w.macs)

pub memory-IsBlocker : IsBlocker (memory.blocker) macs_of ips_of
memory-IsBlocker = record {
  block_macs = block_mac-macs;
  block_ips = λ m w e x. block_mac-apart (λ w. ips_of w x) m w (λ l. refl);
  unblock_macs = λ m w e x. rw (has-delete m.value x w.macs) (ground arith);
  unblock_ips = λ m w e x. refl;
  block_ip = λ ip w. (ok tt, record w { ips = add ip w.ips });
  has_block_ip = refl;
  block_ip_ips = λ ip w e x. has-add ip x w.ips;
  block_ip_macs = λ ip w e x. refl;
  unblock_ip = λ ip w. (ok tt, record w { ips = delete ip w.ips });
  has_unblock_ip = refl;
  unblock_ip_ips = λ ip w e x. has-delete ip x w.ips;
  unblock_ip_macs = λ ip w e x. refl;
  read_macs = λ w. ok (canonical_of w.macs);
  has_read_macs = refl;
  read_macs_all = read_macs-IsCanonical;
  read_ips = λ w. ok w.ips;
  has_read_ips = refl;
  read_ips_all = λ w l h x. let same : w.ips ≡ l = cc in rw same refl;
}

upserted :
    (id : ℕ) (b : Bool) (w : World) (k : ℕ)
    → has k (set_blocked id (some b) (w.blocked_ids))
      ≡ (if id == k then b else has k (w.blocked_ids))
upserted id true w k = has-add id k (w.blocked_ids) ∙ ground arith
upserted id false w k = has-delete id k (w.blocked_ids) ∙ ground arith

pub memory-IsPolicyView : IsPolicyView memory blocked_of
unfolding audited record_block release_block
memory-IsPolicyView = record {
  upsert_blocked = λ id b w e k. upserted id b w k;
  block_keeps =
      λ m ip. record { kept = λ w k. block_mac-apart (λ w. blocked_of w k) m w (λ l. refl) };
  unblock_keeps = λ m ip. record { kept = λ w k. refl };
  block_ip_keeps = λ ip. record { kept = λ w k. refl };
  unblock_ip_keeps = λ ip. record { kept = λ w k. refl };
  record_keeps = λ id mac ip reason. record { kept = λ w k. refl };
  release_keeps = λ id. record { kept = λ w k. refl };
  audit_keeps = λ entry. record { kept = λ w k. refl };
}

pub memory-IsReliable : IsReliable memory
unfolding blocked_macs blocked_ips
memory-IsReliable = record {
  find_all_answers = λ w. (w.devices, refl);
  policy_answers = λ id w. (some (policy id (has id w.blocked_ids)), refl);
  macs_answer = λ w. (canonical_of w.macs, refl);
  ips_answer = λ w. (w.ips, refl);
  block_returns =
      λ m c w. (tt, record w { macs = add (m.value) w.macs }, rw (is_canonical-of m.value c) refl);
  unblock_returns = λ m w. (tt, record w { macs = delete (m.value) w.macs }, refl);
  block_ip_returns = λ ip w. (tt, record w { ips = add ip w.ips }, refl);
  unblock_ip_returns = λ ip w. (tt, record w { ips = delete ip w.ips }, refl);
}
