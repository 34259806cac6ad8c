-- ===== src/Tc/Returns.antt =====
-- `reconcileInterfaceState` ends well though others remove filters and classes.
use ayad_network_manager.Base.{
  ℕ, true, ◌≡◌, refl, ◌∙◌, ap, List, Text, text_eq, map, All-every, Bool-cases, ◌⊎◌, inl, inr,
  if◌then◌else◌,
}
use ayad_network_manager.Base.Map.{has}
use ayad_network_manager.Base.Effects.{
  Result, ok, err, pure, throw, ◌>>=◌, ◌>>◌, for_each, bind_step,
}
use ayad_network_manager.Base.Returns.{Returns, Returns-bind, Returns-for_each}
use ayad_network_manager.Errors.{Error}
use ayad_network_manager.Ports.{Call, ask}
use ayad_network_manager.Tc.Builder.{TcCommand, delete_filter, delete_class}
use ayad_network_manager.Tc.{
  TcStateReader, TcDeviceFilterState, TcDeviceClassState, canonical_id, is_missing_error,
  execute_unless_missing, drop_filter, drop_class, reconcile_interface_state,
}
use ayad_network_manager.Tc.Kernel.{is_valid}

-- A command that ends well or finds nothing to act on.
abbrev pub Tolerable : {S : Type 0} → (TcCommand → Call S (Unit {0})) → TcCommand → Type 0
Tolerable {S} execute command =
    (s : S)
    → ((execute command s).0 ≡ ok tt)
      ⊎ ((e : Error) × ((execute command s).0 ≡ err e) × (is_missing_error e ≡ true))

module _ {S : Type 0} (reader : TcStateReader S) (execute : TcCommand → Call S (Unit {0})) where
  execute_unless_missing-Returns :
      (command : TcCommand)
      → Tolerable execute command
      → Returns (execute_unless_missing reader execute command)
  unfolding execute_unless_missing
  execute_unless_missing-Returns command tolerable s = go (execute command s) (tolerable s)
    where
      go :
          (q : Result Error (Unit {0}) × S)
          → (q.0 ≡ ok tt) ⊎ ((e : Error) × (q.0 ≡ err e) × (is_missing_error e ≡ true))
          → (a : Unit {0}) × (t : S) × (elim (q.0) as (λ _. Result Error (Unit {0}) × S) [
            | ok done ↦ (ok done, q.1)
            | err e ↦ (if is_missing_error e then pure tt else throw e) q.1
          ]
              ≡ (ok a, t))
      go (ok done, t) h = (done, t, refl)
      go (err x, t) (inl h) = absurd (cc)
      go (err x, t) (inr (e, h, missing)) =
          let same : x ≡ e = cc in (tt, t, rw (same, missing) refl)

  drop_filter-Returns :
      (interface_name : Text) (actual expected : List Text) (f : TcDeviceFilterState)
      → Tolerable execute (delete_filter interface_name f.priority)
      → Returns (drop_filter reader execute interface_name actual expected f)
  unfolding drop_filter
  drop_filter-Returns interface_name actual expected f tolerable s =
      elim (Bool-cases (is_valid actual expected f)) [
        | inl valid ↦ rw (valid, drop_filter) (tt, s, refl)
        | inr invalid ↦ rw (invalid, drop_filter) (execute_unless_missing-Returns _ tolerable s)
      ]

  drop_class-Returns :
      (interface_name : Text) (expected : List Text) (c : TcDeviceClassState)
      → Tolerable execute (delete_class interface_name (canonical_id c.class_id))
      → Returns (drop_class reader execute interface_name expected c)
  unfolding drop_class
  drop_class-Returns interface_name expected c tolerable s =
      elim (Bool-cases (has (canonical_id c.class_id) expected)) [
        | inl wanted ↦ rw (wanted, drop_class) (tt, s, refl)
        | inr unwanted ↦ rw (unwanted, drop_class) (execute_unless_missing-Returns _ tolerable s)
      ]

  -- When the interface's classes and filters are read, and every delete on it ends well or fails
  -- since its object is gone, `reconcileInterfaceState` ends well.
  pub reconcile_interface_state-Returns :
      (interface_name : Text) (expected : List Text) (cs : List TcDeviceClassState)
      (fs : List TcDeviceFilterState) (s : S)
      → reader.get_device_classes interface_name s ≡ ok cs
      → reader.get_device_filters interface_name s ≡ ok fs
      → ((p : ℕ) → Tolerable execute (delete_filter interface_name p))
      → ((c : Text) → Tolerable execute (delete_class interface_name c))
      → (t : S) × (reconcile_interface_state reader execute interface_name expected s ≡ (ok tt, t))
  unfolding reconcile_interface_state
  reconcile_interface_state-Returns interface_name expected cs fs s known listed filters classes =
      let loops = λ (cs : List TcDeviceClassState) (fs : List TcDeviceFilterState).
        for_each fs (
          drop_filter reader execute interface_name (map (λ c. canonical_id c.class_id) cs)
            expected)
        >> for_each cs (drop_class reader execute interface_name expected) in
      let actual = map (λ c. canonical_id c.class_id) cs in
      let (done, t, e) =
        Returns-bind (for_each fs (drop_filter reader execute interface_name actual expected))
          (λ _. for_each cs (drop_class reader execute interface_name expected))
          (Returns-for_each fs (drop_filter reader execute interface_name actual expected) (
            All-every fs
              (λ f. drop_filter-Returns interface_name actual expected f (filters f.priority))))
          (λ _. Returns-for_each cs (drop_class reader execute interface_name expected) (
            All-every cs (λ c.
              drop_class-Returns interface_name expected c (classes (canonical_id c.class_id)))))
          s in
      (
        t,
        bind_step (ask (reader.get_device_classes interface_name))
              (λ cs. ask (reader.get_device_filters interface_name) >>= loops cs)
              (ap (λ x. (x, s)) known)
            ∙ bind_step (ask (reader.get_device_filters interface_name)) (loops cs)
                (ap (λ x. (x, s)) listed)
            ∙ e,
      )
