-- ===== src/Tc.antt =====
-- backend/src/infrastructure/enforcement/SingleInterfaceIfbTrafficEnforcer.ts: filters and classes of
-- one interface, over the interface of TcStateReader.ts and the commands of Builder.
pub mod Builder
pub mod Priority
pub mod Kernel
pub mod Cleanup
pub mod Returns
mod Tests
use ayad_network_manager.Base.{
  ℕ, zero, suc, ◌+◌, ◌-◌, ◌%◌, Bool, true, false, not, ◌&&◌, ◌||◌, Option, none, some, List, [],
  ◌∷◌, Text, codes, ◌==◌, nat_eq, text_eq, if◌then◌else◌, map,
}
use ayad_network_manager.Base.Map.{has}
use ayad_network_manager.Base.Effects.{ok, err, pure, throw, catch, ◌>>=◌, ◌>>◌, for_each}
use ayad_network_manager.Errors.{Error, call_failed, no_filter_priority}
use ayad_network_manager.Text.{trim, to_lower, take_while, is_hex}
use ayad_network_manager.Text.Numerals.{read}
use ayad_network_manager.Domain.TcClassId.{Direction}
use ayad_network_manager.Tc.Builder.{
  TcCommand, add_htb_root_qdisc, replace_htb_root_qdisc, add_root_class, change_root_class,
  add_class, change_class_rate, add_filter_by_ip, delete_filter, delete_class,
}
use ayad_network_manager.Rate.{from_whole_mbps, to_tc_rate}
use ayad_network_manager.Base.Int.{ℤ}
use ayad_network_manager.Ports.{Call, Read, ask, lift}

pub record TcClassState : Type 0 where
  pub exists : Bool
  pub rate : Option Text
  pub ceil : Option Text

pub record TcQdiscState : Type 0 where
  pub exists : Bool
  pub kind : Option Text

pub record TcFilterState : Type 0 where
  pub exists : Bool
  pub ip : Option Text
  pub priority : Option ℕ

pub record TcDeviceClassState : Type 0 where
  pub class_id : Text
  pub rate : Option Text
  pub ceil : Option Text

pub record TcDeviceFilterState : Type 0 where
  pub class_id : Text
  pub priority : ℕ
  pub ip : Option Text

-- `interfaceName` comes first everywhere.
pub record TcStateReader (S : Type 0) : Type 0 where
  pub get_class_state : Text → Text → Read S TcClassState
  pub get_root_qdisc_state : Text → Read S TcQdiscState
  -- `TcRootClassState` has the fields of `TcClassState`.
  pub get_root_class_state : Text → Read S TcClassState
  pub get_filter_state : Text → Text → Read S TcFilterState
  pub get_device_classes : Text → Read S (List TcDeviceClassState)
  pub get_device_filters : Text → Read S (List TcDeviceFilterState)

abbrev pub min_priority : ℕ
min_priority = 100

abbrev pub max_priority : ℕ
max_priority = 65535

-- `maxPriority - minPriority + 1`
abbrev pub span : ℕ
span = 65436

-- `Number.parseInt(classId, 16)` of an id that starts with a hexadecimal digit.
unfoldable pub get_filter_priority : Text → ℕ
get_filter_priority class_id = 100 + read 16 (take_while is_hex class_id) % 32000

-- The loop of `findAvailableFilterPriority` at `offset`, with as many rounds left as `rounds`.
pub probe : ℕ → List ℕ → ℕ → ℕ → Option ℕ
probe base used zero offset = none
probe base used (suc rounds) offset =
    let priority = min_priority + (base - min_priority + offset) % span in
    elim (has priority used) [ true ↦ probe base used rounds (suc offset) | false ↦ some priority ]

abbrev pub is_ignored : ℕ → Option ℕ → Bool
is_ignored priority none = false
is_ignored priority (some ignored) = priority == ignored

-- The priorities of the interface's filters, less the one to ignore.
pub used_priorities : Option ℕ → List TcDeviceFilterState → List ℕ
used_priorities ignored [] = []
used_priorities ignored (f ∷ fs) =
    let rest = used_priorities ignored fs in
    if is_ignored f.priority ignored then rest else f.priority ∷ rest

-- `text.includes(part)`
starts_with : Text → Text → Bool
starts_with [] s = true
starts_with (c ∷ p) [] = false
starts_with (c ∷ p) (d ∷ s) = c == d && starts_with p s

includes : Text → Text → Bool
unfolding starts_with
includes part [] = part == []
includes part (c ∷ s) = starts_with part (c ∷ s) || includes part s

-- The message of an error of a command; the program's own errors are thrown by no command.
abbrev pub message_of : Error → Text
message_of (call_failed message) = to_lower message
message_of _ = []

unfoldable pub is_already_exists_error : Error → Bool
unfolding includes
is_already_exists_error e =
    includes (codes "file exists") (message_of e)
    || includes (codes "already exists") (message_of e)

unfoldable pub is_missing_error : Error → Bool
unfolding includes
is_missing_error e =
    includes (codes "cannot find") (message_of e)
    || includes (codes "no such file or directory") (message_of e)
    || includes (codes "not found") (message_of e)

abbrev pub is_text : Option Text → Text → Bool
is_text none x = false
is_text (some y) x = y == x

abbrev pub canonical_id : Text → Text
canonical_id class_id = to_lower (trim class_id)

module _ {S : Type 0} (reader : TcStateReader S) (execute : TcCommand → Call S (Unit {0})) where
  open reader use {
    get_root_qdisc_state, get_root_class_state, get_class_state, get_filter_state,
    get_device_classes, get_device_filters,
  }

  unfoldable pub find_available_filter_priority : Text → ℕ → Option ℕ → Call S ℕ
  unfolding probe used_priorities
  find_available_filter_priority interface_name base_priority ignored_priority s =
      elim (get_device_filters interface_name s) [
        | err e ↦ (err e, s)
        | ok filters ↦
            elim (probe base_priority (used_priorities ignored_priority filters) span 0) [
              | none ↦ (err (no_filter_priority interface_name), s)
              | some priority ↦ (ok priority, s)
            ]
      ]

  abbrev rate_differs : TcClassState → Text → Bool
  rate_differs c rate = not (is_text c.rate rate) || not (is_text c.ceil rate)

  abbrev change_rate : Text → Text → Text → TcClassState → Call S (Unit {0})
  change_rate interface_name class_id rate c =
      if rate_differs c rate
      then execute (change_class_rate interface_name class_id rate)
      else pure tt

  ensure_root_class : Text → Text → Call S (Unit {0})
  ensure_root_class interface_name rate = ask (get_root_class_state interface_name) >>= λ c.
      if c.exists
      then (if rate_differs c rate
          then execute (change_root_class interface_name rate)
          else pure tt)
      else execute (add_root_class interface_name rate)

  ensure_root_qdisc : Text → TcQdiscState → Call S (Unit {0})
  ensure_root_qdisc interface_name q =
      if q.exists
      then (if is_text q.kind (codes "htb")
          then pure tt
          else execute (replace_htb_root_qdisc interface_name))
      else execute (add_htb_root_qdisc interface_name)

  -- `uplinkBandwidthMbps` of the constructor comes first.
  unfoldable pub ensure_root_state : ℤ → Text → Call S (Unit {0})
  unfolding ensure_root_class ensure_root_qdisc
  ensure_root_state uplink_bandwidth_mbps interface_name = do
    q ← ask (get_root_qdisc_state interface_name)
    ensure_root_qdisc interface_name q
    uplink ← lift (from_whole_mbps uplink_bandwidth_mbps)
    ensure_root_class interface_name (to_tc_rate uplink)

  -- The handler of a class that could not be added.
  class_race : Text → Text → Text → Error → Call S (Unit {0})
  class_race interface_name class_id rate e =
      if is_already_exists_error e
      then (ask (get_class_state interface_name class_id) >>= λ refreshed.
          if refreshed.exists then change_rate interface_name class_id rate refreshed else throw e)
      else throw e

  -- An added class was read as missing, so its rate is set once more.
  unfoldable pub ensure_device_class : Text → Text → Text → Call S (Unit {0})
  unfolding class_race
  ensure_device_class interface_name class_id rate s =
      elim (get_class_state interface_name class_id s) [
        | err e ↦ (err e, s)
        | ok c ↦
            if c.exists
            then change_rate interface_name class_id rate c s
            else let (r, t) = execute (add_class interface_name class_id rate) s in
              elim r [
                | ok done ↦ change_rate interface_name class_id rate c t
                | err e ↦ class_race interface_name class_id rate e t
              ]
      ]

  -- The priority of a filter that is to be replaced.
  abbrev replaced : TcFilterState → Option ℕ
  replaced f = if f.exists then f.priority else none

  delete_replaced : Text → Option ℕ → Call S (Unit {0})
  delete_replaced interface_name none = pure tt
  delete_replaced interface_name (some priority) = execute (delete_filter interface_name priority)

  -- The handler of a filter that could not be added at `priority`.
  filter_race : Text → Text → Text → Direction → ℕ → Error → Call S (Unit {0})
  filter_race interface_name ip class_id direction priority e =
      if is_already_exists_error e
      then (ask (get_filter_state interface_name class_id) >>= λ refreshed.
          if refreshed.exists && is_text refreshed.ip ip
          then pure tt
          else (find_available_filter_priority interface_name (suc priority) refreshed.priority
              >>= λ retry. execute (add_filter_by_ip direction interface_name ip class_id retry)))
      else throw e

  add_filter : Text → Text → Text → Direction → TcFilterState → Call S (Unit {0})
  unfolding delete_replaced filter_race
  add_filter interface_name ip class_id direction f = do
    priority ←
        find_available_filter_priority interface_name (get_filter_priority class_id) f.priority
    delete_replaced interface_name (replaced f)
    catch (execute (add_filter_by_ip direction interface_name ip class_id priority))
        (filter_race interface_name ip class_id direction priority)

  unfoldable pub ensure_filter : Text → Text → Text → Direction → Call S (Unit {0})
  unfolding add_filter
  ensure_filter interface_name ip class_id direction =
      ask (get_filter_state interface_name class_id) >>= λ f.
      if f.exists && is_text f.ip ip
      then pure tt
      else add_filter interface_name ip class_id direction f

  -- `try { execute } catch (error) { if (!isMissing(error)) throw error; }`
  execute_unless_missing : TcCommand → Call S (Unit {0})
  execute_unless_missing command =
      catch (execute command) (λ e. if is_missing_error e then pure tt else throw e)

  drop_filter : Text → List Text → List Text → TcDeviceFilterState → Call S (Unit {0})
  unfolding execute_unless_missing
  drop_filter interface_name actual expected f =
      if has (canonical_id f.class_id) actual && has (canonical_id f.class_id) expected
      then pure tt
      else execute_unless_missing (delete_filter interface_name f.priority)

  drop_class : Text → List Text → TcDeviceClassState → Call S (Unit {0})
  unfolding execute_unless_missing
  drop_class interface_name expected c =
      if has (canonical_id c.class_id) expected
      then pure tt
      else execute_unless_missing (delete_class interface_name (canonical_id c.class_id))

  unfoldable pub reconcile_interface_state : Text → List Text → Call S (Unit {0})
  unfolding drop_filter drop_class
  reconcile_interface_state interface_name expected = do
    actual_classes ← ask (get_device_classes interface_name)
    actual_filters ← ask (get_device_filters interface_name)
    for_each actual_filters
        (drop_filter interface_name (map (λ c. canonical_id c.class_id) actual_classes) expected)
    for_each actual_classes (drop_class interface_name expected)

  unfoldable pub clear_class : Text → Text → Call S (Unit {0})
  unfolding execute_unless_missing
  clear_class interface_name class_id = do
    f ← ask (get_filter_state interface_name class_id)
    elim (replaced f) [
      | none ↦ pure tt
      | some priority ↦ execute_unless_missing (delete_filter interface_name priority)
    ]
    c ← ask (get_class_state interface_name class_id)
    if c.exists then execute_unless_missing (delete_class interface_name class_id) else pure tt
