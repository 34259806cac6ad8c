-- ===== src/Traffic/Wanted.antt =====
-- The devices that a cycle chooses ask for what the stores ask for.
use ayad_network_manager.Base.{
  ℕ, Bool, true, false, ◌&&◌, ◌||◌, Option, none, some, List, [], ◌∷◌, ◌≡◌, refl, ◌∙◌, sym, ap,
  Text, ◌==◌, nat_eq, text_eq, if◌then◌else◌, Bool-cases, inl, inr, arith,
}
use ayad_network_manager.Base.Map.{has, add, has-add}
use ayad_network_manager.Base.Effects.{Result, ok, err}
use ayad_network_manager.Errors.{Error}
use ayad_network_manager.Domain.Device.{Device, DevicePolicy}
use ayad_network_manager.Domain.TcClassId.{Direction, download, upload}
use ayad_network_manager.Traffic.{is_throttled, is_some, limit_in}
use ayad_network_manager.Traffic.Reconciliation.{
  Services, is_limited, is_enforceable, enforceable, class_of, expected,
}
use ayad_network_manager.Traffic.Kernel.{effective, in_bits, wanted, wanted_of}

module _ {S : Type 0} (env : Services S) where
  effective-is_limited :
      (direction : Direction) (p : DevicePolicy)
      → is_some (effective env direction p) ≡ is_limited direction p
  effective-is_limited direction p = elim (Bool-cases (is_throttled p)) [
    | inl yes_throttled ↦ rw yes_throttled (or_true (is_some (limit_in direction p)))
    | inr not_throttled ↦ rw not_throttled (in_bits-is_some (limit_in direction p))
  ]
    where
      or_true : (b : Bool) → true ≡ (b || true)
      or_true true = refl
      or_true false = refl

      in_bits-is_some : (o : Option ℕ) → is_some (in_bits o) ≡ (is_some o || false)
      in_bits-is_some none = refl
      in_bits-is_some (some n) = refl

  -- A class is expected exactly when a chosen device asks for a rate of it.
  pub expected-has :
      (direction : Direction) (c : Text) (targets : List (Device × DevicePolicy))
      (classes : List Text)
      → has c (expected env direction targets classes)
        ≡ (is_some (wanted_of env direction c targets) || has c classes)
  unfolding expected wanted_of
  expected-has direction c [] classes = refl
  expected-has direction c ((d, p) ∷ rest) classes =
      expected-has direction c rest
        (if is_limited direction p then add (class_of env direction d) classes else classes)
      ∙ split (wanted_of env direction c rest) (is_limited direction p) refl
    where
      split :
          (o : Option ℕ) (limited : Bool)
          → is_limited direction p ≡ limited
          → (is_some o
              || has c (if limited then add (class_of env direction d) classes else classes))
            ≡ (is_some (elim o as (λ _. Option ℕ) [
              | some bits ↦ some bits
              | none ↦ if class_of env direction d == c then effective env direction p else none
            ])
                || has c classes)
      split (some bits) limited e = refl
      split none true e =
          has-add (class_of env direction d) c classes
          ∙ elim (Bool-cases (class_of env direction d == c)) [
            | inl here ↦
                rw here (ap (λ b. b || has c classes) (sym (effective-is_limited direction p ∙ e)))
            | inr other ↦ rw other refl
          ]
      split none false e = elim (Bool-cases (class_of env direction d == c)) [
        | inl here ↦
            rw here (ap (λ b. b || has c classes) (sym (effective-is_limited direction p ∙ e)))
        | inr other ↦ rw other refl
      ]

  is_enforceable-fit :
      (d : Device) (p : DevicePolicy)
      → is_enforceable d p ≡ true
      → (d.identity_validated && is_some d.ip) ≡ true
  unfolding is_enforceable
  is_enforceable-fit d p h =
      first (d.identity_validated && is_some d.ip)
        (is_some p.download_limit || is_some p.upload_limit || is_throttled p) h
    where
      first : (v w : Bool) → (v && w) ≡ true → v ≡ true
      first v w e = ground arith

  unenforceable :
      (direction : Direction) (d : Device) (p : DevicePolicy)
      → is_enforceable d p ≡ false
      → (if d.identity_validated && is_some d.ip then effective env direction p else none) ≡ none
  unfolding is_enforceable
  unenforceable direction d p h = elim (Bool-cases (d.identity_validated && is_some d.ip)) [
    | inr unfit ↦ rw unfit refl
    | inl fit ↦ rw fit (
        unlimited (effective env direction p)
          (effective-is_limited direction p ∙ idle direction fit))
  ]
    where
      without : (v a u t : Bool) → (v && (a || u || t)) ≡ false → v ≡ true → (a || t) ≡ false
      without v a u t e f = ground arith

      without' : (v a u t : Bool) → (v && (a || u || t)) ≡ false → v ≡ true → (u || t) ≡ false
      without' v a u t e f = ground arith

      idle :
          (dir : Direction) → d.identity_validated && is_some d.ip ≡ true → is_limited dir p ≡ false
      idle download fit =
          without (d.identity_validated && is_some d.ip) (is_some p.download_limit)
            (is_some p.upload_limit) (is_throttled p) h fit
      idle upload fit =
          without' (d.identity_validated && is_some d.ip) (is_some p.download_limit)
            (is_some p.upload_limit) (is_throttled p) h fit

      unlimited : (o : Option ℕ) → is_some o ≡ false → o ≡ none
      unlimited none e = refl
      unlimited (some n) e = absurd (cc)

  -- The chosen devices ask for what the stores ask for.
  pub wanted_of-enforceable :
      (direction : Direction) (c : Text) (ds : List Device) (s : S)
      (targets : List (Device × DevicePolicy))
      → enforceable env ds s ≡ ok targets
      → wanted_of env direction c targets ≡ wanted env s direction c ds
  unfolding enforceable wanted_of wanted
  wanted_of-enforceable direction c [] s targets h =
      ap (λ r. elim r as (λ _. Option ℕ) [ ok l ↦ wanted_of env direction c l | err e ↦ none ])
        (sym h)
  wanted_of-enforceable direction c (d ∷ ds) s targets h =
      step (λ l e. wanted_of-enforceable direction c ds s l e)
        (env.policies.find_by_device_id d.id s) (enforceable env ds s) refl h
    where
      fit : Bool
      fit = d.identity_validated && is_some d.ip

      after : Option ℕ → Option ℕ → Option ℕ
      after o p = elim o [
        | some bits ↦ some bits
        | none ↦ if class_of env direction d == c then p else none
      ]

      asks_nothing : (o p : Option ℕ) → p ≡ none → o ≡ after o p
      asks_nothing (some bits) p e = refl
      asks_nothing none p e = elim (Bool-cases (class_of env direction d == c)) [
        | inl same ↦ rw same (sym e)
        | inr other ↦ rw other refl
      ]

      nothing : (b : Bool) → ◌≡◌ {A = Option ℕ} (if b then none else none) none
      nothing true = refl
      nothing false = refl

      step :
          ((l : List (Device × DevicePolicy))
            → enforceable env ds s ≡ ok l
            → wanted_of env direction c l ≡ wanted env s direction c ds)
          → (q : Result Error (Option DevicePolicy))
            (r : Result Error (List (Device × DevicePolicy)))
          → enforceable env ds s ≡ r
          → elim q as (λ _. Result Error (List (Device × DevicePolicy))) [
            | err e ↦ err e
            | ok policy ↦ elim r [
              | err e ↦ err e
              | ok rest ↦ elim policy [
                | none ↦ ok rest
                | some p ↦ if is_enforceable d p then ok ((d, p) ∷ rest) else ok rest
              ]
            ]
          ]
            ≡ ok targets
          → wanted_of env direction c targets
            ≡ after (wanted env s direction c ds) (
                if d.identity_validated && is_some d.ip
                then elim q [
                  | err e ↦ none
                  | ok none ↦ none
                  | ok (some p) ↦ effective env direction p
                ]
                else none)
      step ih (err e) r found k = absurd (cc)
      step ih (ok policy) (err e) found k = absurd (cc)
      step ih (ok none) (ok rest) found k =
          let same : rest ≡ targets = cc in
          rw same at (ih rest found ∙ asks_nothing (wanted env s direction c ds) _ (nothing fit))
      step ih (ok (some p)) (ok rest) found k = elim (Bool-cases (is_enforceable d p)) [
        | inr unfit ↦
            let same : rest ≡ targets = cc (rw unfit at k) in
            rw same at (
              ih rest found
              ∙ asks_nothing (wanted env s direction c ds) _ (unenforceable direction d p unfit))
        | inl good ↦
            let same : (d, p) ∷ rest ≡ targets = cc (rw good at k) in
            ap (wanted_of env direction c) (sym same)
            ∙ ap (λ o. after o (effective env direction p)) (ih rest found)
            ∙ ap
                (λ b.
                  after (wanted env s direction c ds)
                    (if b then effective env direction p else none))
                (sym (is_enforceable-fit d p good))
      ]
