-- ===== src/Tc/Cleanup.antt =====
-- What `reconcileInterfaceState` leaves on an interface.
use ayad_network_manager.Base.{
  ℕ, Bool, true, not, ◌&&◌, ◌||◌, ◌≡◌, refl, ap, ◌∙◌, List, [], ◌∷◌, Text, ◌==◌, nat_eq, text_eq,
  text_beq_iff, arith, if◌then◌else◌, map, all, any, All-every, Bool-cases, inl, inr,
}
use ayad_network_manager.Base.Map.{has}
use ayad_network_manager.Base.Effects.{
  Result, ok, err, pure, throw, ◌>>=◌, ◌>>◌, for_each, bind_ok, Changes, changes, for_each-changes,
}
use ayad_network_manager.Errors.{Error}
use ayad_network_manager.Ports.{Call, ask, ask_ok}
use ayad_network_manager.Tc.Builder.{TcCommand, delete_filter, delete_class}
use ayad_network_manager.Tc.{
  TcStateReader, TcDeviceFilterState, TcDeviceClassState, canonical_id, is_missing_error,
  execute_unless_missing, drop_filter, drop_class, reconcile_interface_state,
}
use ayad_network_manager.Tc.Kernel.{is_valid, IsKernel}

module _ {S : Type 0} (reader : TcStateReader S) (execute : TcCommand → Call S (Unit {0}))
    (interface_name : Text) {filters : S → ℕ → Bool} {classes : S → Text → Bool}
    (kernel : IsKernel reader execute interface_name filters classes) where
  abbrev unless_missing : Result Error (Unit {0}) × S → Result Error (Unit {0}) × S
  unless_missing q = elim (q.0) as (λ _. Result Error (Unit {0}) × S) [
    | ok done ↦ (ok done, q.1)
    | err e ↦ (if is_missing_error e then pure tt else throw e) q.1
  ]

  abbrev drop_invalid : List Text → List Text → TcDeviceFilterState → ℕ → Bool → Bool
  drop_invalid actual expected f q b =
      if is_valid actual expected f then b else (not (f.priority == q) && b)

  -- A delete that ends well, whichever way.
  settle :
      {K : Type 0} (view : S → K → Bool) (gone : K → Bool) (command : TcCommand) (s : S)
      → ((execute command s).0 ≡ ok tt
          → (k : K) → view (execute command s).1 k ≡ (not (gone k) && view s k))
      → ((e : Error)
          → (execute command s).0 ≡ err e
          → is_missing_error e ≡ true
          → (k : K) → view (execute command s).1 k ≡ (not (gone k) && view s k))
      → (execute_unless_missing reader execute command s).0 ≡ ok tt
      → (k : K)
      → view (execute_unless_missing reader execute command s).1 k ≡ (not (gone k) && view s k)
  unfolding execute_unless_missing
  settle view gone command s deleted missing h k = go (execute command s) deleted missing h
    where
      go :
          (q : Result Error (Unit {0}) × S)
          → (q.0 ≡ ok tt → (k : _) → view q.1 k ≡ (not (gone k) && view s k))
          → ((e : Error)
              → q.0 ≡ err e
              → is_missing_error e ≡ true
              → (k : _) → view q.1 k ≡ (not (gone k) && view s k))
          → (unless_missing q).0 ≡ ok tt
          → view (unless_missing q).1 k ≡ (not (gone k) && view s k)
      go (ok done, t) d m h = d refl k
      go (err x, t) d m h = elim (Bool-cases (is_missing_error x)) [
        | inl absent ↦ rw absent (m x refl absent k)
        | inr other ↦ absurd (cc (rw other at h))
      ]

  drop_filter-filters :
      (actual expected : List Text) (f : TcDeviceFilterState)
      → Changes filters
          (drop_filter reader execute interface_name actual expected)
          (drop_invalid actual expected)
          f
  unfolding drop_filter
  drop_filter-filters actual expected f s = elim (Bool-cases (is_valid actual expected f)) [
    | inl valid ↦ rw (valid, drop_filter) (λ h q. refl)
    | inr invalid ↦
        rw (invalid, drop_filter)
          (settle filters (λ q. f.priority == q) (delete_filter interface_name f.priority) s
            (kernel.filter_deleted f.priority s) (kernel.filter_missing f.priority s))
  ]

  unless_missing-state : (q : Result Error (Unit {0}) × S) → (unless_missing q).1 ≡ q.1
  unless_missing-state (ok done, t) = refl
  unless_missing-state (err x, t) = elim (Bool-cases (is_missing_error x)) [
    | inl absent ↦ rw absent refl
    | inr other ↦ rw other refl
  ]

  drop_filter-classes :
      (actual expected : List Text) (f : TcDeviceFilterState)
      → Changes classes (drop_filter reader execute interface_name actual expected) (λ f x b. b) f
  unfolding drop_filter execute_unless_missing
  drop_filter-classes actual expected f s = elim (Bool-cases (is_valid actual expected f)) [
    | inl valid ↦ rw (valid, drop_filter) (λ h x. refl)
    | inr invalid ↦
        rw (invalid, drop_filter)
          (λ h x.
            ap (λ t. classes t x)
              (unless_missing-state (execute (delete_filter interface_name f.priority) s))
            ∙ kernel.filter_apart f.priority s x)
  ]

  abbrev drop_unwanted : List Text → TcDeviceClassState → Text → Bool → Bool
  drop_unwanted expected c x b =
      if has (canonical_id c.class_id) expected
      then b
      else (not (canonical_id c.class_id == x) && b)

  drop_class-classes :
      (expected : List Text) (c : TcDeviceClassState)
      → Changes classes
          (drop_class reader execute interface_name expected)
          (drop_unwanted expected)
          c
  unfolding drop_class
  drop_class-classes expected c s =
      let id = canonical_id c.class_id in
      elim (Bool-cases (has id expected)) [
        | inl wanted ↦ rw (wanted, drop_class) (λ h x. refl)
        | inr unwanted ↦
            rw (unwanted, drop_class)
              (settle classes (λ x. id == x) (delete_class interface_name id) s
                (kernel.class_deleted id s) (kernel.class_missing id s))
      ]

  drop_class-filters :
      (expected : List Text) (c : TcDeviceClassState)
      → Changes filters (drop_class reader execute interface_name expected) (λ c q b. b) c
  unfolding drop_class execute_unless_missing
  drop_class-filters expected c s =
      let id = canonical_id c.class_id in
      elim (Bool-cases (has id expected)) [
        | inl wanted ↦ rw (wanted, drop_class) (λ h q. refl)
        | inr unwanted ↦
            rw (unwanted, drop_class)
              (λ h q.
                ap (λ t. filters t q)
                  (unless_missing-state (execute (delete_class interface_name id) s))
                ∙ kernel.class_apart id s q)
      ]

  changes-same : {A K : Type 0} (l : List A) (k : K) (b : Bool) → changes (λ _ _ b. b) l k b ≡ b
  changes-same [] k b = refl
  changes-same (x ∷ l) k b = changes-same l k b

  changes-drop_invalid :
      (actual expected : List Text) (fs : List TcDeviceFilterState) (q : ℕ) (b : Bool)
      → changes (drop_invalid actual expected) fs q b
        ≡ (b && all (λ f. is_valid actual expected f || not (f.priority == q)) fs)
  changes-drop_invalid actual expected [] q b = ground arith
  changes-drop_invalid actual expected (f ∷ fs) q b =
      changes-drop_invalid actual expected fs q (drop_invalid actual expected f q b) ∙ ground arith

  changes-drop_unwanted :
      (expected : List Text) (cs : List TcDeviceClassState) (x : Text) (b : Bool)
      → changes (drop_unwanted expected) cs x b
        ≡ (b && (has x expected || not (any (λ c. canonical_id c.class_id == x) cs)))
  changes-drop_unwanted expected [] x b = ground arith
  changes-drop_unwanted expected (c ∷ cs) x b =
      let id = canonical_id c.class_id in
      elim (Bool-cases (id == x)) [
        | inl here ↦
            let same : has id expected ≡ has x expected =
              ap (λ y. has y expected) ((text_beq_iff id x).0 here) in
            changes-drop_unwanted expected cs x (drop_unwanted expected c x b)
            ∙ rw (here, same) (ground arith)
        | inr other ↦
            changes-drop_unwanted expected cs x (drop_unwanted expected c x b)
            ∙ rw other (ground arith)
      ]

  reconcile-loops :
      (expected : List Text) (cs : List TcDeviceClassState) (fs : List TcDeviceFilterState)
      (s t : S)
      → reader.get_device_classes interface_name s ≡ ok cs
      → reader.get_device_filters interface_name s ≡ ok fs
      → reconcile_interface_state reader execute interface_name expected s ≡ (ok tt, t)
      → (u : S) × (for_each fs
            (drop_filter reader execute interface_name
              (map (λ c. canonical_id c.class_id) cs)
              expected)
            s
          ≡ (ok tt, u))
        × (for_each cs (drop_class reader execute interface_name expected) u ≡ (ok tt, t))
  unfolding reconcile_interface_state
  reconcile-loops expected cs fs s t known listed h =
      let loops = λ (cs : List TcDeviceClassState) (fs : List TcDeviceFilterState).
        for_each fs (
          drop_filter reader execute interface_name (map (λ c. canonical_id c.class_id) cs)
            expected)
        >> for_each cs (drop_class reader execute interface_name expected) in
      let (cs', e, k) =
        ask_ok (reader.get_device_classes interface_name)
          (λ cs. ask (reader.get_device_filters interface_name) >>= loops cs) h in
      let (fs', e', k') = ask_ok (reader.get_device_filters interface_name) (loops cs') k in
      let same : cs' ≡ cs = cc in
      let same' : fs' ≡ fs = cc in
      let (_, u, first, second) =
        bind_ok
          (for_each fs' (
            drop_filter reader execute interface_name (map (λ c. canonical_id c.class_id) cs')
              expected))
          (λ _. for_each cs' (drop_class reader execute interface_name expected)) k' in
      rw⁻¹ same (rw⁻¹ same' (u, first, second))

  -- With an interface that keeps the laws of IsKernel: when `reconcileInterfaceState` ends well,
  -- the classes left are those of before that are expected, and the priorities left are those of
  -- before at which every filter that was listed has a class that was there and is expected.
  pub reconcile_interface_state-exact :
      (expected : List Text) (cs : List TcDeviceClassState) (fs : List TcDeviceFilterState)
      (s t : S)
      → reader.get_device_classes interface_name s ≡ ok cs
      → reader.get_device_filters interface_name s ≡ ok fs
      → reconcile_interface_state reader execute interface_name expected s ≡ (ok tt, t)
      → ((x : Text) → classes t x ≡ (classes s x && has x expected))
        × ((q : ℕ)
            → filters t q ≡ (
                filters s q
                && all
                    (λ f.
                      is_valid (map (λ c. canonical_id c.class_id) cs) expected f
                      || not (f.priority == q))
                    fs))
  unfolding reconcile_interface_state
  reconcile_interface_state-exact expected cs fs s t known listed h =
      let actual = map (λ c. canonical_id c.class_id) cs in
      let drops = drop_filter reader execute interface_name actual expected in
      let (u, first, second) = reconcile-loops expected cs fs s t known listed h in
      (
        λ x.
            for_each-changes classes (drop_class reader execute interface_name expected)
              (drop_unwanted expected) cs u t (All-every cs (drop_class-classes expected)) second x
            ∙ changes-drop_unwanted expected cs x (classes u x)
            ∙ rw
                (
                  for_each-changes classes drops (λ f x b. b) fs s u
                      (All-every fs (drop_filter-classes actual expected)) first x,
                  changes-same fs x (classes s x),
                  kernel.read_classes s cs known x,
                )
                (ground arith),
        λ q.
            for_each-changes filters (drop_class reader execute interface_name expected)
              (λ c q b. b) cs u t (All-every cs (drop_class-filters expected)) second q
            ∙ changes-same cs q (filters u q)
            ∙ for_each-changes filters drops (drop_invalid actual expected) fs s u
                (All-every fs (drop_filter-filters actual expected)) first q
            ∙ changes-drop_invalid actual expected fs q (filters s q),
      )
