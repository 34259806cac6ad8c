-- ===== src/Bindings/Tests.antt =====
-- Runs of the lifecycle and of the lock, and the theorems there.
use ayad_network_manager.Base.{
  ℕ, Bool, true, false, ◌&&◌, ◌||◌, Option, none, some, List, [], ◌∷◌, ◌≡◌, refl, sym, ap, ◌∙◌,
  Text, codes, ◌==◌, nat_eq, text_eq, text_beq, text_beq_iff, if◌then◌else◌, ltb, any, arith,
  eq_refl, Bool-cases, inl, inr, ◌⊎◌,
}
use ayad_network_manager.Base.Map.{has, add, delete, has-add, has-delete, lookup, insert}
use ayad_network_manager.Base.Effects.{Result, ok, pure}
use ayad_network_manager.Errors.{Error}
use ayad_network_manager.Text.{trim, trim_start, strip_end, is_space, to_lower, lower_code}
use ayad_network_manager.Text.Numerals.{to_radix, digit_code}
use ayad_network_manager.Domain.Device.{Device}
use ayad_network_manager.Ports.{Call, Binding}
use ayad_network_manager.Traffic.Memory.{desk, two_megabits}
use ayad_network_manager.Bindings.{DhcpLease, is_lease_active, devices_by_id}
use ayad_network_manager.Bindings.Lifecycle.{
  Services, still_bound, active_leases, evidence, other_than, release_ip, unblock_unbound, give_up,
  follow, settle, check_binding, check_bindings, reconcile,
}
use ayad_network_manager.Bindings.Store.{IsBindingStore, IsCovered}
use ayad_network_manager.Bindings.Covered.{reconcile-IsCovered}
use ayad_network_manager.Bindings.Lock.{
  Lock, waiting, running, settled, initial, call, update, calls, starts, Reach, start, later,
  exclusive_in_order,
}

pub record World : Type 0 where
  pub bindings : List Binding
  pub ips : List Text

abbrev bound : World → ℕ → Text → Bool
bound w k x = any (λ b. b.device_id == k && b.ip == x) (w.bindings)

abbrev pub blocked_ips : World → Text → Bool
blocked_ips w x = has x (w.ips)

abbrev pub without : ℕ → Text → List Binding → List Binding
without id ip [] = []
without id ip (b ∷ bs) =
    if b.device_id == id && b.ip == ip then without id ip bs else b ∷ without id ip bs

abbrev pub add_ip : Text → Call World (Unit {0})
add_ip ip w = (ok tt, record w { ips = add ip w.ips })

-- A phone behind a proxy, which has a new address.
abbrev pub hidden : Device
hidden = record desk { l2_visible = false }

abbrev lease : DhcpLease
lease = record {
  expiry = 0;
  mac = codes "02:00:00:00:00:07";
  ip = codes "10.0.0.9";
  hostname = none;
  client_id = none;
}

abbrev services : Services World
services = record {
  devices = record {
    find_by_mac = λ m s. ok (some hidden);
    find_by_id = λ id s. ok (some hidden);
    find_all = λ s. ok (hidden ∷ []);
    update = λ id change. pure tt;
  };
  policies = record {
    find_by_device_id = λ id s. ok (some (record two_megabits { blocked = true }));
    upsert = λ id change. pure tt;
  };
  read_leases = λ s. ok (lease ∷ []);
  blocked_devices = record {
    record_block = λ id m ip reason w. (
      ok tt,
      elim ip [
        | none ↦ w
        | some x ↦ record w { bindings = record { device_id = id; ip = x } ∷ w.bindings }
      ],
    );
    release_block = λ id. pure tt;
    active_ips = λ id w. ok [];
    active_bindings = λ w. ok w.bindings;
    release_ip = some (λ id ip reason w. (ok tt, record w { bindings = without id ip w.bindings }));
  };
  blocker = record {
    block = λ m ip. pure tt;
    unblock = λ m ip. pure tt;
    block_ip = some add_ip;
    unblock_ip = some (λ ip w. (ok tt, record w { ips = delete ip w.ips }));
    get_blocked_macs = none;
    get_blocked_ips = none;
  };
}

bound-without :
    (id : ℕ) (ip : Text) (k : ℕ) (x : Text) (bs : List Binding)
    → any (λ b. b.device_id == k && b.ip == x) (without id ip bs) ≡ true
    → any (λ b. b.device_id == k && b.ip == x) bs ≡ true
bound-without id ip k x [] h = h
bound-without id ip k x (b ∷ bs) h = elim (Bool-cases (b.device_id == id && b.ip == ip)) [
  | inl gone ↦
      or_right (b.device_id == k && b.ip == x) _ (bound-without id ip k x bs (rw gone at h))
  | inr kept ↦ keep (b.device_id == k && b.ip == x) _ _ (bound-without id ip k x bs) (rw kept at h)
]
  where
    or_right : (a c : Bool) → c ≡ true → (a || c) ≡ true
    or_right a c e = ground arith

    keep : (a c d : Bool) → (c ≡ true → d ≡ true) → (a || c) ≡ true → (a || d) ≡ true
    keep true c d f e = refl
    keep false c d f e = f e

bound-still_bound :
    (k : ℕ) (x : Text) (bs : List Binding)
    → any (λ b. b.device_id == k && b.ip == x) bs ≡ true
    → still_bound x bs ≡ true
bound-still_bound k x [] h = h
bound-still_bound k x (b ∷ bs) h =
    go (b.device_id == k) (b.ip == x) _ _ (bound-still_bound k x bs) h
  where
    go : (a c d e : Bool) → (d ≡ true → e ≡ true) → (a && c || d) ≡ true → (c || e) ≡ true
    go a true d e f h = refl
    go true false d e f h = f h
    go false false d e f h = f h

same_call :
    (block_ip : Text → Call World (Unit {0}))
    → ◌≡◌ {A = Option (Text → Call World (Unit {0}))} (some add_ip) (some block_ip)
    → add_ip ≡ block_ip
same_call block_ip h = cc

either : (a b : Bool) → (a || b) ≡ true → (b ≡ true) ⊎ (a ≡ true)
either true b h = inr refl
either false b h = inl h

second : (a b : Bool) → (a && b) ≡ true → b ≡ true
second true b h = h
second false b h = absurd (cc)

services-IsBindingStore : IsBindingStore services bound blocked_ips
unfolding release_ip
services-IsBindingStore = record {
  block_ip_adds = λ f e ip s h.
      ap (λ g. blocked_ips (g ip s).1 ip) (sym (same_call f e))
      ∙ has-add ip ip (s.ips)
      ∙ ap (λ b. b || has ip s.ips) (eq_refl ip);
  block_ip_keeps = λ f e ip s x h.
      ap (λ g. blocked_ips (g ip s).1 x) (sym (same_call f e))
      ∙ has-add ip x (s.ips)
      ∙ or_true (ip == x) (has x s.ips) h;
  block_ip_bound = λ f e ip s k x. ap (λ g. bound (g ip s).1 k x) (sym (same_call f e));
  unblock_ip_keeps = λ ip s x apart h. has-delete ip x (s.ips) ∙ rw (apart, h) refl;
  unblock_ip_bound = λ ip s k x. refl;
  record_block_adds = λ id ip reason s k x h. elim (either (id == k && ip == x) (bound s k x) h) [
    | inl before ↦ inl before
    | inr new ↦ inr ((text_beq_iff ip x).0 (second (id == k) (ip == x) new))
  ];
  record_block_ips = λ id ip reason s x. refl;
  release_ip_bound = λ id ip reason s k x h. bound-without id ip k x (s.bindings) h;
  release_ip_ips = λ id ip reason s x. refl;
  active_bindings_all = λ s bs h k x b.
      bound-still_bound k x bs
        (ap (any (λ c. c.device_id == k && c.ip == x)) (same_list s bs h) ∙ b);
}
  where
    or_true : (a b : Bool) → b ≡ true → (a || b) ≡ true
    or_true a b e = ground arith

    same_list :
        (s : World) (bs : List Binding)
        → ◌≡◌ {A = Result Error (List Binding)} (ok (s.bindings)) (ok bs)
        → bs ≡ s.bindings
    same_list s bs h = cc

abbrev moved : World
moved = record {
  bindings = record { device_id = 7; ip = codes "10.0.0.7" } ∷ [];
  ips = codes "10.0.0.7" ∷ [];
}

moved-IsCovered : IsCovered bound blocked_ips moved
unfolding has
moved-IsCovered = record { covered = λ k x b. go (7 == k) (codes "10.0.0.7" == x) b }
  where
    go : (a c : Bool) → (a && c || false) ≡ true → (c || false) ≡ true
    go a c h = ground arith

followed : reconcile services 0 moved ≡ (
  ok tt,
  record {
    bindings = record { device_id = 7; ip = codes "10.0.0.9" } ∷ [];
    ips = codes "10.0.0.9" ∷ [];
  },
)
unfolding reconcile check_bindings check_binding evidence active_leases is_lease_active
    devices_by_id settle other_than follow give_up release_ip unblock_unbound lookup insert add
    delete trim trim_start strip_end is_space to_lower lower_code text_beq to_radix digit_code
followed = refl

reconcile-IsCovered_example : IsCovered bound blocked_ips (reconcile services 0 moved).1
reconcile-IsCovered_example =
    reconcile-IsCovered services services-IsBindingStore 0 moved moved-IsCovered

-- Two operations are called, and the first starts.
abbrev first_runs : Lock
first_runs = record (call (call initial)) { phase = update (call (call initial)).phase 0 running }

first_runs-reached : Reach first_runs
unfolding call initial
first_runs-reached =
    later (later (later start (calls initial)) (calls (call initial)))
      (starts (call (call initial)) 0 (omega arith) refl tt)

exclusive_in_order_example : first_runs.phase 1 ≡ (if ltb 1 0 then settled else waiting)
unfolding call initial
exclusive_in_order_example = exclusive_in_order first_runs-reached 0 1 refl refl
