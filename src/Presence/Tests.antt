-- ===== src/Presence/Tests.antt =====
-- The theorems on presence at concrete inputs.
use ayad_network_manager.Base.{
  ℕ, ◌+◌, ◌≤◌, ◌≡◌, ◌≢◌, refl, true, false, some, [], ◌∷◌, arith, Text, codes, text_eq, text_beq,
  get_or,
}
use ayad_network_manager.Base.Map.{lookup, has}
use ayad_network_manager.Text.{to_upper}
use ayad_network_manager.Presence.{
  get_neighbor_state, States, resolve, initial, failed_confirmation_ms,
}
use ayad_network_manager.Presence.Hysteresis.{
  Observation, observe, observe_all, stays_online, offline_needs_doubt,
}

abbrev seen : ℕ → Text → Text → Observation
seen now mac state = record { now = now; mac = mac; neighbor_state = some state; has_entry = true }

-- A device that was online, doubted since 2000.
abbrev doubted : States
doubted =
    (
      codes "a",
      record {
        last_online_evidence_at = 1000;
        confirmed_online = true;
        offline_candidate_since = some 2000;
      },
    )
    ∷ []

reachable : get_neighbor_state (some (codes "reachable")) ≡ some true
unfolding get_neighbor_state to_upper text_beq has
reachable = refl

stays_online_example :
    (observe get_neighbor_state
      (observe_all get_neighbor_state
        (observe get_neighbor_state [] (seen 1000 (codes "a") (codes "reachable"))).1
        (seen 3000 (codes "a") (codes "FAILED") ∷ []))
      (seen 9000 (codes "a") (codes "FAILED"))).0
    ≡ some true
stays_online_example =
    stays_online get_neighbor_state (codes "a") [] (seen 1000 (codes "a") (codes "reachable"))
      (seen 3000 (codes "a") (codes "FAILED") ∷ []) (seen 9000 (codes "a") (codes "FAILED")) refl
      reachable ((omega arith, omega arith), tt) refl (omega arith) (omega arith)

offline_run :
    (observe get_neighbor_state doubted (seen 12000 (codes "a") (codes "FAILED"))).0 ≡ some false
unfolding resolve get_neighbor_state to_upper text_beq has lookup
offline_run = refl

online_before : (get_or (lookup (codes "a") doubted) initial).confirmed_online ≡ true
unfolding lookup text_beq
online_before = refl

offline_needs_doubt_example :
    (since : ℕ) × ((get_or (lookup (codes "a") doubted) initial).offline_candidate_since
      ≡ some since)
    × (since + failed_confirmation_ms ≤ 12000)
    × (get_neighbor_state (some (codes "FAILED")) ≢ some true)
offline_needs_doubt_example =
    offline_needs_doubt get_neighbor_state doubted (seen 12000 (codes "a") (codes "FAILED"))
      online_before offline_run
