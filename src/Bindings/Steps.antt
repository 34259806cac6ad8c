-- ===== src/Bindings/Steps.antt =====
-- What a binding is done to keeps the bound addresses blocked.
use ayad_network_manager.Base.{
  ℕ, Bool, true, false, Option, none, some, List, ◌++◌, ◌≡◌, refl, ◌∙◌, sym, ap, Text, codes, ◌==◌,
  nat_eq, text_eq, text_beq_iff, if◌then◌else◌, Bool-cases, inl, inr,
}
use ayad_network_manager.Base.Effects.{Result, ok, err, pure, ◌>>=◌, ◌>>◌}
use ayad_network_manager.Base.Outcome.{Outcome, Ensures, Ensures-bind}
use ayad_network_manager.Errors.{Error, ip_blocking_unavailable, ip_unblocking_unavailable}
use ayad_network_manager.Text.Numerals.{to_decimal}
use ayad_network_manager.Domain.Device.{Device}
use ayad_network_manager.Ports.{Call, Read, ask, or_throw, call_if, Binding}
use ayad_network_manager.Bindings.Lifecycle.{
  Services, still_bound, release_ip, unblock_unbound, give_up, follow,
}
use ayad_network_manager.Bindings.Store.{IsBindingStore, IsCovered}

module _ {S : Type 0} (env : Services S) {bound : S → ℕ → Text → Bool} {ips : S → Text → Bool}
    (store : IsBindingStore env bound ips) where
  -- Covered, and this address is blocked too.
  CoveredWith : Text → S → Type 0
  CoveredWith ip s = (IsCovered bound ips) s × (ips s ip ≡ true)

  -- An action whose states are covered however it ends.
  pub keeps :
      {A : Type 0} {P : S → Type 0} (m : Call S A)
      → ((s : S) → P s → (IsCovered bound ips) (m s).1)
      → Ensures P m (λ _. (IsCovered bound ips)) (IsCovered bound ips)
  keeps m h = record { ensured = λ s p. go (m s) (h s p) }
    where
      go :
          {A : Type 0} (r : Result Error A × S)
          → (IsCovered bound ips) (r.1)
          → Outcome (λ (_ : A). (IsCovered bound ips)) (IsCovered bound ips) r
      go (ok a, t) c = c
      go (err e, t) c = c

  release_ip-Covered :
      (id : ℕ) (ip reason : Text)
      → Ensures
          (IsCovered bound ips)
          (release_ip env id ip reason)
          (λ _. (IsCovered bound ips))
          (IsCovered bound ips)
  release_ip-Covered id ip reason = keeps (release_ip env id ip reason) (λ s c. record {
    covered = λ k x b.
        store.release_ip_ips id ip reason s x
        ∙ c.covered k x (store.release_ip_bound id ip reason s k x b);
  })

  unblocked :
      (ip : Text) (s : S) (bindings : List Binding)
      → env.blocked_devices.active_bindings s ≡ ok bindings
      → still_bound ip bindings ≡ false
      → (IsCovered bound ips) s
      → (IsCovered bound ips) (call_if (env.blocker.unblock_ip) ip s).1
  unblocked ip s bindings read free c = record {
    covered = λ k x b.
        let b' : bound s k x ≡ true = sym (store.unblock_ip_bound ip s k x) ∙ b in
        store.unblock_ip_keeps ip s x (apart k x b') (c.covered k x b');
  }
    where
      apart : (k : ℕ) (x : Text) → bound s k x ≡ true → (ip == x) ≡ false
      apart k x b = elim (Bool-cases (ip == x)) [
        | inr other ↦ other
        | inl same ↦
            let e : ip ≡ x = (text_beq_iff ip x).0 same in
            absurd (
              cc (
                store.active_bindings_all s bindings read k x b,
                ap (λ y. still_bound y bindings) e,
                free,
              ))
      ]

  unblock_unbound-Covered :
      (ip : Text)
      → Ensures
          (IsCovered bound ips)
          (unblock_unbound env ip)
          (λ _. (IsCovered bound ips))
          (IsCovered bound ips)
  unfolding unblock_unbound
  unblock_unbound-Covered ip =
      keeps (unblock_unbound env ip) (λ s c. go s c (env.blocked_devices.active_bindings s) refl)
    where
      go :
          (s : S)
          → (IsCovered bound ips) s
          → (r : Result Error (List Binding)) → env.blocked_devices.active_bindings s ≡ r
          → (IsCovered bound ips)
              (elim r as (λ _. Result Error (Unit {0}) × S) [
                | ok remaining ↦
                    (if still_bound ip remaining
                        then pure tt
                        else call_if env.blocker.unblock_ip ip)
                      s
                | err e ↦ (err e, s)
              ]).1
      go s c (err e) read = c
      go s c (ok remaining) read = elim (Bool-cases (still_bound ip remaining)) [
        | inl held ↦ rw held c
        | inr free ↦ rw free (unblocked ip s remaining read free c)
      ]

  pub give_up-Covered :
      (d : Device) (ip claimant : Text)
      → Ensures
          (IsCovered bound ips)
          (give_up env d ip claimant)
          (λ _. (IsCovered bound ips))
          (IsCovered bound ips)
  unfolding give_up
  give_up-Covered d ip claimant =
      Ensures-bind (release_ip env d.id ip (codes "ip_reassigned_to_other_mac:" ++ claimant))
        (λ _. unblock_unbound env ip)
        (release_ip-Covered d.id ip (codes "ip_reassigned_to_other_mac:" ++ claimant))
        (λ _. unblock_unbound-Covered ip)

  Available : Option (Text → Call S (Unit {0})) → (Text → Call S (Unit {0})) → S → Type 0
  Available o call s = (IsCovered bound ips) s × (o ≡ some call)

  or_throw-Available :
      (o : Option (Text → Call S (Unit {0}))) (e : Error)
      → Ensures (IsCovered bound ips) (or_throw o e) (Available o) (IsCovered bound ips)
  unfolding Available
  or_throw-Available none e = record { ensured = λ s c. c }
  or_throw-Available (some call) e = record { ensured = λ s c. (c, refl) }

  block_ip-CoveredWith :
      (block_ip : Text → Call S (Unit {0})) (ip : Text)
      → env.blocker.block_ip ≡ some block_ip
      → Ensures (IsCovered bound ips) (block_ip ip) (λ _. CoveredWith ip) (IsCovered bound ips)
  unfolding CoveredWith
  block_ip-CoveredWith block_ip ip has = record { ensured = λ s c. go s c (block_ip ip s) refl }
    where
      kept : (s : S) → (IsCovered bound ips) s → (IsCovered bound ips) (block_ip ip s).1
      kept s c = record {
        covered = λ k x b.
            store.block_ip_keeps block_ip has ip s x
              (c.covered k x (sym (store.block_ip_bound block_ip has ip s k x) ∙ b));
      }

      go :
          (s : S)
          → (IsCovered bound ips) s
          → (r : Result Error (Unit {0}) × S) → block_ip ip s ≡ r
          → Outcome (λ _. CoveredWith ip) (IsCovered bound ips) r
      go s c (ok a, t) e =
          let e' : (block_ip ip s).1 ≡ t = ap (λ r. r.1) e in
          (
            rw e' at (kept s c),
            ap (λ w. ips w ip) (sym e') ∙ store.block_ip_adds block_ip has ip s (ap (λ r. r.0) e),
          )
      go s c (err x, t) e = rw (ap (λ r. r.1) e) at (kept s c)

  record_block-Covered :
      (id : ℕ) (ip reason : Text)
      → Ensures
          (CoveredWith ip)
          (env.blocked_devices.record_block id none (some ip) (some reason))
          (λ _. (IsCovered bound ips))
          (IsCovered bound ips)
  unfolding CoveredWith
  record_block-Covered id ip reason =
      keeps (env.blocked_devices.record_block id none (some ip) (some reason)) (λ s (c, here).
        record {
          covered = λ k x b.
              store.record_block_ips id ip reason s x
              ∙ elim (store.record_block_adds id ip reason s k x b) [
                | inl before ↦ c.covered k x before
                | inr same ↦ ap (ips s) (sym same) ∙ here
              ];
        })

  pub pure-Covered :
      Ensures {E = Error}
        (IsCovered bound ips)
        (pure tt)
        (λ _. (IsCovered bound ips))
        (IsCovered bound ips)
  pure-Covered = record { ensured = λ s c. c }

  pub ask-Covered :
      {A : Type 0} (r : Read S A)
      → Ensures (IsCovered bound ips) (ask r) (λ _. (IsCovered bound ips)) (IsCovered bound ips)
  ask-Covered r = keeps (ask r) (λ s c. c)

  pub follow-Covered :
      (d : Device) (ip current : Text)
      → Ensures
          (IsCovered bound ips)
          (follow env d ip current)
          (λ _. (IsCovered bound ips))
          (IsCovered bound ips)
  unfolding follow Available
  follow-Covered d ip current =
      Ensures-bind (or_throw env.blocker.block_ip ip_blocking_unavailable) _
        (or_throw-Available env.blocker.block_ip ip_blocking_unavailable)
        (λ block_ip. record { ensured = λ s (c, has). (rebind block_ip has).ensured s c })
    where
      reason : Text
      reason = codes "device " ++ (to_decimal d.id ++ (codes " moved to " ++ current))

      record_it : Call S (Unit {0})
      record_it =
          env.blocked_devices.record_block d.id none (some current)
            (some (codes "ip-enforced-proxy"))

      rebind :
          (block_ip : Text → Call S (Unit {0}))
          → env.blocker.block_ip ≡ some block_ip
          → Ensures
              (IsCovered bound ips)
              (or_throw env.blocker.unblock_ip ip_unblocking_unavailable >>= λ unblock_ip.
                block_ip current
                >> (record_it >> (release_ip env d.id ip reason >> unblock_unbound env ip)))
              (λ _. (IsCovered bound ips))
              (IsCovered bound ips)
      rebind block_ip has =
          Ensures-bind (or_throw env.blocker.unblock_ip ip_unblocking_unavailable) _
            (keeps (or_throw env.blocker.unblock_ip ip_unblocking_unavailable)
              (found env.blocker.unblock_ip))
            (λ unblock_ip.
              Ensures-bind (block_ip current)
                (λ _. record_it >> (release_ip env d.id ip reason >> unblock_unbound env ip))
                (block_ip-CoveredWith block_ip current has)
                (λ _.
                  Ensures-bind record_it
                    (λ _. release_ip env d.id ip reason >> unblock_unbound env ip)
                    (record_block-Covered d.id current (codes "ip-enforced-proxy"))
                    (λ _.
                      Ensures-bind (release_ip env d.id ip reason) (λ _. unblock_unbound env ip)
                        (release_ip-Covered d.id ip reason) (λ _. unblock_unbound-Covered ip))))
        where
          found :
              (o : Option (Text → Call S (Unit {0}))) (s : S)
              → (IsCovered bound ips) s
              → (IsCovered bound ips) (or_throw o ip_unblocking_unavailable s).1
          found none s c = c
          found (some call) s c = c
