-- ===== src/Bindings/Held.antt =====
-- What the reconciliation of blocked addresses writes keeps an address blocked that no lease is of.
use ayad_network_manager.Base.{
  ℕ, Bool, true, false, Option, none, some, List, [], ◌++◌, ◌≡◌, refl, ◌∙◌, ap, Text, codes, ◌==◌,
  text_eq, text_beq_iff, Bool-cases, Option-cases, inl, inr,
}
use ayad_network_manager.Base.Map.{lookup, has}
use ayad_network_manager.Base.Effects.{Result, ok, err, pure, throw, ◌>>=◌, ◌>>◌, for_each}
use ayad_network_manager.Base.Outcome.{Outcome, Ensures, Ensures-bind, Ensures-for_each}
use ayad_network_manager.Errors.{Error, ip_blocking_unavailable, enforcement_adapter_missing}
use ayad_network_manager.Text.Numerals.{to_decimal}
use ayad_network_manager.Domain.Device.{Device}
use ayad_network_manager.Ports.{Call, ask, or_throw, DeviceBlocker}
use ayad_network_manager.Bindings.Blocked.{
  Services, Evidence, Expected, normalize_mac, bound_device, moved_to, reassigned_to, device_id_of,
  forget_binding, release_ip, release_stale, record_block, install_expected, blocked_ips, settle,
}

-- The addresses that the kernel blocks, as `ips s`. A block takes none away and an unblock at most
-- its own; the store of the bindings does not touch them.
pub record IsIpKernel {S : Type 0} (env : Services S) (ips : S → Text → Bool) : Type 0 where
  pub block_ip_keeps :
      (blocker : DeviceBlocker S) (block_ip : Text → Call S (Unit {0}))
      → env.blocker ≡ some blocker
      → blocker.block_ip ≡ some block_ip
      → (ip : Text) (s : S) (x : Text) → ips s x ≡ true
      → ips (block_ip ip s).1 x ≡ true
  pub unblock_ip_keeps :
      (blocker : DeviceBlocker S) (unblock_ip : Text → Call S (Unit {0}))
      → env.blocker ≡ some blocker
      → blocker.unblock_ip ≡ some unblock_ip
      → (ip : Text) (s : S) (x : Text) → (ip == x) ≡ false
      → ips s x ≡ true
      → ips (unblock_ip ip s).1 x ≡ true
  pub record_block_ips :
      (d : Device) (ip : Text) (s : S) (x : Text) → ips (record_block env d ip s).1 x ≡ ips s x
  pub forget_binding_ips :
      (id : ℕ) (ip reason : Text) (s : S) (x : Text)
      → ips (forget_binding env id ip reason s).1 x ≡ ips s x

-- No active lease is of the address, and none of the device that it is bound to.
pub record IsQuiet (known : Evidence) (x : Text) : Type 0 where
  pub unclaimed : lookup x known.lease_mac_by_ip ≡ none
  pub unmoved :
      (d : Device)
      → bound_device known x ≡ some d
      → lookup (normalize_mac d.mac.value) known.lease_ip_by_mac ≡ none

moved_to-IsQuiet :
    (known : Evidence) (x : Text) → IsQuiet known x → moved_to known x (bound_device known x) ≡ none
unfolding moved_to
moved_to-IsQuiet known x quiet = elim (Option-cases (bound_device known x)) [
  | inl unbound ↦ rw unbound (unfold moved_to in refl)
  | inr (d, at) ↦ rw at (rw (moved_to, quiet.unmoved d at) refl)
]

reassigned_to-IsQuiet :
    (known : Evidence) (x : Text) (d : Option Device)
    → IsQuiet known x
    → reassigned_to known x d ≡ none
unfolding reassigned_to
reassigned_to-IsQuiet known x d quiet = rw (reassigned_to, quiet.unclaimed) refl

module _ {S : Type 0} (env : Services S) {ips : S → Text → Bool} (kernel : IsIpKernel env ips)
    (x : Text) where
  -- The address is blocked.
  pub record Held (s : S) : Type 0 where
    pub held : ips s x ≡ true

  abbrev pub Holds : Call S (Unit {0}) → Type 0
  Holds m = Ensures Held m (λ _. Held) Held

  keeps : (m : Call S (Unit {0})) → ((s : S) → Held s → Held (m s).1) → Holds m
  keeps m h = record { ensured = λ s p. go (m s) (h s p) }
    where
      go : (r : Result Error (Unit {0}) × S) → Held (r.1) → Outcome (λ (_ : Unit {0}). Held) Held r
      go (ok a, t) c = c
      go (err e, t) c = c

  pure-Holds : Holds (pure tt)
  pure-Holds = keeps (pure tt) (λ s h. h)

  or_throw-Holds :
      (o : Option (Text → Call S (Unit {0}))) (e : Error)
      (body : (Text → Call S (Unit {0})) → Call S (Unit {0}))
      → ((call : Text → Call S (Unit {0})) → o ≡ some call → Holds (body call))
      → Holds (or_throw o e >>= body)
  or_throw-Holds none e body each = keeps (throw e) (λ s h. h)
  or_throw-Holds (some call) e body each = each call refl

  seq-Holds : (m n : Call S (Unit {0})) → Holds m → Holds n → Holds (m >> n)
  seq-Holds m n first rest = Ensures-bind m (λ _. n) first (λ _. rest)

  module _ (blocker : DeviceBlocker S) (given : env.blocker ≡ some blocker) where
    release_ip-Holds :
        (ip reason : Text) (id : Option ℕ)
        → (ip == x) ≡ false
        → Holds (release_ip env blocker ip reason id)
    unfolding release_ip
    release_ip-Holds ip reason id apart =
        or_throw-Holds (blocker.unblock_ip) enforcement_adapter_missing _ (λ unblock_ip has.
          seq-Holds (unblock_ip ip) _
            (keeps (unblock_ip ip) (λ s h. record {
              held = kernel.unblock_ip_keeps blocker unblock_ip given has ip s x apart h.held;
            }))
            (forget id))
      where
        forget :
            (id : Option ℕ)
            → Holds (elim id as (λ _. Call S (Unit {0})) [
              | none ↦ pure tt
              | some device_id ↦ forget_binding env device_id ip reason
            ])
        forget none = pure-Holds
        forget (some device_id) =
            keeps (forget_binding env device_id ip reason)
              (λ s h. record { held = kernel.forget_binding_ips device_id ip reason s x ∙ h.held })

    install_expected-Holds :
        (devices : List (Text × Device)) (current : List Text) (ip : Text)
        → Holds (install_expected env blocker devices current ip)
    unfolding install_expected
    install_expected-Holds devices current ip = elim (Bool-cases (has ip current)) [
      | inl there ↦ rw there pure-Holds
      | inr absent ↦ rw absent (
          or_throw-Holds (blocker.block_ip) ip_blocking_unavailable _ (λ block_ip is.
            seq-Holds (block_ip ip) _
              (keeps (block_ip ip) (λ s h. record {
                held = kernel.block_ip_keeps blocker block_ip given is ip s x h.held;
              }))
              (recorded (lookup ip devices))))
    ]
      where
        recorded :
            (d : Option Device)
            → Holds (elim d as (λ _. Call S (Unit {0})) [
              | none ↦ pure tt
              | some d ↦ record_block env d ip
            ])
        recorded none = pure-Holds
        recorded (some d) =
            keeps (record_block env d ip)
              (λ s h. record { held = kernel.record_block_ips d ip s x ∙ h.held })

    release_stale-Holds :
        (known : Evidence) (keep : List Text) (ip : Text)
        → IsQuiet known x
        → Holds (release_stale env blocker known keep ip)
    unfolding release_stale
    release_stale-Holds known keep ip quiet = elim (Bool-cases (has ip keep)) [
      | inl kept ↦ rw kept pure-Holds
      | inr free ↦ rw free (
          by_lease (moved_to known ip (bound_device known ip))
            (reassigned_to known ip (bound_device known ip))
            (λ is.
              ap (λ y. moved_to known y (bound_device known y)) is ∙ moved_to-IsQuiet known x quiet)
            (λ is.
              ap (λ y. reassigned_to known y (bound_device known y)) is
              ∙ reassigned_to-IsQuiet known x (bound_device known x) quiet))
    ]
      where
        apart : (o : Option Text) (t : Text) → (ip ≡ x → o ≡ none) → o ≡ some t → (ip == x) ≡ false
        apart o t none_at is = elim (Bool-cases (ip == x)) [
          | inl same ↦ absurd (cc (none_at ((text_beq_iff ip x).0 same), is))
          | inr differ ↦ differ
        ]

        by_lease :
            (moved reassigned : Option Text)
            → (ip ≡ x → moved ≡ none)
            → (ip ≡ x → reassigned ≡ none)
            → Holds (elim moved as (λ _. Call S (Unit {0})) [
              | some current ↦
                  release_ip env blocker ip
                    (codes "device "
                      ++ (elim (bound_device known ip) as (λ _. Text) [
                        | none ↦ []
                        | some e ↦ to_decimal e.id
                      ]
                          ++ (codes " moved to " ++ current)))
                    (elim (bound_device known ip) as (λ _. Option ℕ) [
                      | none ↦ none
                      | some e ↦ some e.id
                    ])
              | none ↦ elim reassigned as (λ _. Call S (Unit {0})) [
                | none ↦ pure tt
                | some owner ↦
                    release_ip env blocker ip
                      (codes "DHCP reassigned to " ++ owner)
                      (device_id_of (lookup ip known.binding_by_ip))
              ]
            ])
        by_lease (some current) reassigned m r =
            release_ip-Holds ip _ _ (apart (some current) current m refl)
        by_lease none (some owner) m r = release_ip-Holds ip _ _ (apart (some owner) owner r refl)
        by_lease none none m r = pure-Holds

    pub settle-Holds :
        (known : Evidence) (wanted : Expected) (blocked : List Text)
        → IsQuiet known x
        → Holds (settle env blocker known wanted blocked)
    unfolding settle
    settle-Holds known (keep, devices) blocked quiet =
        seq-Holds (for_each blocked (release_stale env blocker known keep)) _
          (Ensures-for_each blocked _ (λ ip. release_stale-Holds known keep ip quiet))
          (Ensures-bind {Q = λ _. Held} (ask (blocked_ips env blocker)) _
            (record { ensured = λ s h. asked (blocked_ips env blocker s) s h })
            (λ current. Ensures-for_each keep _ (install_expected-Holds devices current)))
      where
        asked :
            (r : Result Error (List Text)) (s : S)
            → Held s
            → Outcome (λ (_ : List Text). Held) Held (r, s)
        asked (ok a) s h = h
        asked (err e) s h = h
