-- ===== src/Tc/Tests.antt =====
-- Runs of the traffic control of one interface.
use ayad_network_manager.Base.{
  inl, ℕ, ◌≤◌, ◌≡◌, refl, true, false, none, some, List, [], ◌∷◌, codes, nat_eq, arith, text_beq,
  text_eq, text_beq_iff, nat_beq_iff, Bool, Text, any, all, map, not, ◌&&◌, ◌||◌, ◌==◌,
  if◌then◌else◌,
}
use ayad_network_manager.Base.Map.{has}
use ayad_network_manager.Base.Effects.{ok, pure}
use ayad_network_manager.Text.{to_lower, trim}
use ayad_network_manager.Text.Numerals.{to_radix}
use ayad_network_manager.Ports.{Call}
use ayad_network_manager.Errors.{call_failed}
use ayad_network_manager.Tc.Builder.{
  TcCommand, add_class, change_class_rate, add_filter_by_ip, delete_filter, delete_class,
  add_htb_root_qdisc, replace_htb_root_qdisc, delete_root_qdisc, add_root_class, change_root_class,
  args,
}
use ayad_network_manager.Tc.{
  TcStateReader, TcDeviceFilterState, TcDeviceClassState, canonical_id, reconcile_interface_state,
  used_priorities, find_available_filter_priority, min_priority, max_priority, is_missing_error,
  includes, starts_with,
}
use ayad_network_manager.Tc.Kernel.{is_valid, IsKernel}
use ayad_network_manager.Tc.Cleanup.{reconcile_interface_state-exact}
use ayad_network_manager.Tc.Returns.{Tolerable, reconcile_interface_state-Returns}
use ayad_network_manager.Tc.Priority.{find_available_filter_priority-free}

abbrev filter : ℕ → TcDeviceFilterState
filter priority = record { class_id = codes "1a"; priority = priority; ip = none }

-- The interface's filters are the state.
abbrev reader : TcStateReader (List TcDeviceFilterState)
reader = record {
  get_class_state = λ i c s. ok (record { exists = false; rate = none; ceil = none });
  get_root_qdisc_state = λ i s. ok (record { exists = false; kind = none });
  get_root_class_state = λ i s. ok (record { exists = false; rate = none; ceil = none });
  get_filter_state = λ i c s. ok (record { exists = false; ip = none; priority = none });
  get_device_classes = λ i s. ok [];
  get_device_filters = λ i s. ok s;
}

abbrev filters : List TcDeviceFilterState
filters = filter 65535 ∷ filter 100 ∷ filter 101 ∷ []

wraps_round :
    find_available_filter_priority reader (λ c. pure tt) (codes "eth0") 65535 (some 101) filters
    ≡ (ok 101, filters)
unfolding find_available_filter_priority used_priorities has
wraps_round = refl

missing_message : is_missing_error (call_failed (codes "Error: Cannot find device")) ≡ true
unfolding is_missing_error includes starts_with to_lower
missing_message = refl

still_free : has 102 (used_priorities none filters) ≡ false
unfolding used_priorities has
still_free = refl

find_available_filter_priority-free_example :
    (p : ℕ) × (find_available_filter_priority reader
        (λ c. pure tt)
        (codes "eth0")
        65535
        none
        filters
      ≡ (ok p, filters))
    × (has p (used_priorities none filters) ≡ false)
    × (min_priority ≤ p)
    × (p ≤ max_priority)
find_available_filter_priority-free_example =
    find_available_filter_priority-free reader (λ c. pure tt) (codes "eth0") 65535 none filters
      filters 102 refl (omega arith) (omega arith) still_free

-- An interface in memory: its classes and its filters.
abbrev Interface : Type 0
Interface = List TcDeviceClassState × List TcDeviceFilterState

abbrev has_id : Text → List TcDeviceClassState → Bool
has_id x cs = any (λ c. canonical_id c.class_id == x) cs

abbrev has_priority : ℕ → List TcDeviceFilterState → Bool
has_priority q fs = any (λ f. f.priority == q) fs

without_priority : ℕ → List TcDeviceFilterState → List TcDeviceFilterState
without_priority p [] = []
without_priority p (f ∷ fs) =
    let rest = without_priority p fs in if p == f.priority then rest else f ∷ rest

without_id : Text → List TcDeviceClassState → List TcDeviceClassState
without_id x [] = []
without_id x (c ∷ cs) =
    let rest = without_id x cs in if x == canonical_id c.class_id then rest else c ∷ rest

abbrev run : TcCommand → Call Interface (Unit {0})
run (delete_filter i p) (cs, fs) = (ok tt, (cs, without_priority p fs))
run (delete_class i x) (cs, fs) = (ok tt, (without_id x cs, fs))
run _ t = (ok tt, t)

has_priority-without :
    (p q : ℕ) (fs : List TcDeviceFilterState)
    → has_priority q (without_priority p fs) ≡ (not (p == q) && has_priority q fs)
unfolding without_priority
has_priority-without p q [] = ground arith
has_priority-without p q (f ∷ fs) = ground (
  arith,
  has_priority-without p q fs,
  nat_beq_iff p q,
  nat_beq_iff p f.priority,
  nat_beq_iff f.priority q,
)

has_id-without :
    (y x : Text) (cs : List TcDeviceClassState)
    → has_id x (without_id y cs) ≡ (not (y == x) && has_id x cs)
unfolding without_id
has_id-without y x [] = ground arith
has_id-without y x (c ∷ cs) = ground (
  arith,
  has_id-without y x cs,
  text_beq_iff y x,
  text_beq_iff y (canonical_id c.class_id),
  text_beq_iff (canonical_id c.class_id) x,
)

abbrev interface_reader : TcStateReader Interface
interface_reader = record {
  get_class_state = λ i c s. ok (record { exists = false; rate = none; ceil = none });
  get_root_qdisc_state = λ i s. ok (record { exists = false; kind = none });
  get_root_class_state = λ i s. ok (record { exists = false; rate = none; ceil = none });
  get_filter_state = λ i c s. ok (record { exists = false; ip = none; priority = none });
  get_device_classes = λ i s. ok s.0;
  get_device_filters = λ i s. ok s.1;
}

interface-IsKernel :
    IsKernel interface_reader run (codes "eth0") (λ s q. has_priority q s.1) (λ s x. has_id x s.0)
interface-IsKernel = record {
  filter_deleted = λ p s h q. has_priority-without p q s.1;
  filter_missing = λ p s e h m q. has_priority-without p q s.1;
  filter_apart = λ p s x. refl;
  class_deleted = λ c s h x. has_id-without c x s.0;
  class_missing = λ c s e h m x. has_id-without c x s.0;
  class_apart = λ c s q. refl;
  read_classes = λ s cs h x. let same : s.0 ≡ cs = cc in rw same refl;
}

abbrev class : Text → TcDeviceClassState
class id = record { class_id = id; rate = none; ceil = none }

-- Class 2b is not expected, and class 3c is expected but gone.
abbrev before : Interface
before = (
  class (codes "1A") ∷ class (codes "2b") ∷ [],
  record { class_id = codes "1a"; priority = 101; ip = none }
      ∷ record { class_id = codes "2b"; priority = 102; ip = none }
      ∷ record { class_id = codes "3c"; priority = 103; ip = none }
      ∷ [],
)

abbrev after : Interface
after = (class (codes "1A") ∷ [], record { class_id = codes "1a"; priority = 101; ip = none } ∷ [])

cleaned :
    reconcile_interface_state interface_reader run
      (codes "eth0")
      (codes "1a" ∷ codes "3c" ∷ [])
      before
    ≡ (ok tt, after)
unfolding reconcile_interface_state without_priority without_id has text_beq to_lower trim
cleaned = refl

reconcile_interface_state-exact_example :
    ((x : Text) → has_id x after.0 ≡ (has_id x before.0 && has x (codes "1a" ∷ codes "3c" ∷ [])))
    × ((q : ℕ)
        → has_priority q after.1 ≡ (
            has_priority q before.1
            && all
                (λ f.
                  is_valid
                    (map (λ c. canonical_id c.class_id) before.0)
                    (codes "1a" ∷ codes "3c" ∷ [])
                    f
                  || not (f.priority == q))
                before.1))
reconcile_interface_state-exact_example =
    reconcile_interface_state-exact interface_reader run (codes "eth0") interface-IsKernel
      (codes "1a" ∷ codes "3c" ∷ []) before.0 before.1 before after refl refl cleaned

always_ends : (command : TcCommand) → Tolerable run command
always_ends (delete_filter i p) s = inl refl
always_ends (delete_class i c) s = inl refl
always_ends (add_class i c r) s = inl refl
always_ends (add_htb_root_qdisc i) s = inl refl
always_ends (replace_htb_root_qdisc i) s = inl refl
always_ends (delete_root_qdisc i) s = inl refl
always_ends (add_root_class i r) s = inl refl
always_ends (change_root_class i r) s = inl refl
always_ends (change_class_rate i c r) s = inl refl
always_ends (add_filter_by_ip d i ip c p) s = inl refl

reconcile_interface_state-Returns_example :
    (t : Interface) × (reconcile_interface_state interface_reader run
        (codes "eth0")
        (codes "1a" ∷ codes "3c" ∷ [])
        before
      ≡ (ok tt, t))
reconcile_interface_state-Returns_example =
    reconcile_interface_state-Returns interface_reader run (codes "eth0")
      (codes "1a" ∷ codes "3c" ∷ []) before.0 before.1 before refl refl
      (λ p. always_ends (delete_filter (codes "eth0") p))
      (λ c. always_ends (delete_class (codes "eth0") c))

delete_arguments :
    args (delete_filter (codes "eth0") 120)
    ≡ codes "filter"
      ∷ codes "del"
      ∷ codes "dev"
      ∷ codes "eth0"
      ∷ codes "parent"
      ∷ codes "1:"
      ∷ codes "pref"
      ∷ codes "120"
      ∷ []
unfolding args to_radix
delete_arguments = refl
