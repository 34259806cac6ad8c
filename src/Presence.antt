-- ===== src/Presence.antt =====
-- backend/src/application/monitoring/PresenceResolver.ts and
-- backend/src/application/monitoring/Reachability.ts
pub mod Hysteresis
mod Tests
use ayad_network_manager.Base.{
  ℕ, ◌-◌, Bool, true, false, Option, none, some, List, [], ◌∷◌, Text, codes, text_eq, leb,
  if◌then◌else◌, get_or,
}
use ayad_network_manager.Base.Map.{lookup, insert, has}
use ayad_network_manager.Text.{to_upper}

-- `true | false | null`
abbrev pub Reachability : Type 0
Reachability = Option Bool

abbrev online_states : List Text
online_states = codes "REACHABLE" ∷ codes "DELAY" ∷ []

abbrev offline_states : List Text
offline_states = codes "FAILED" ∷ codes "INCOMPLETE" ∷ []

unfoldable pub get_neighbor_state : Option Text → Reachability
get_neighbor_state none = none
get_neighbor_state (some []) = none
get_neighbor_state (some (c ∷ s)) =
    let normalized = to_upper (c ∷ s) in
    if has normalized online_states
    then some true
    else if has normalized offline_states
    then some false
    else none

abbrev pub offline_grace_period_ms : ℕ
offline_grace_period_ms = 15000

abbrev pub failed_confirmation_ms : ℕ
failed_confirmation_ms = 10000

-- Times are those of `Date.now()`.
pub record PresenceState : Type 0 where
  pub last_online_evidence_at : ℕ
  pub confirmed_online : Bool
  pub offline_candidate_since : Option ℕ

abbrev pub initial : PresenceState
initial = record {
  last_online_evidence_at = 0;
  confirmed_online = false;
  offline_candidate_since = none;
}

-- The branches for `directState === false` and for no entry, with the time that each waits. The
-- clock does not run backwards, so `-` is the source's.
doubt : ℕ → ℕ → PresenceState → Bool × PresenceState
doubt wait now p =
    let since = get_or p.offline_candidate_since now in
    let p' = record p { offline_candidate_since = some since } in
    if leb wait (now - since)
    then (false, record p' { confirmed_online = false })
    else (p.confirmed_online, p')

-- The changes to one device's state, and the answer.
pub step : ℕ → Reachability → Bool → PresenceState → Bool × PresenceState
unfolding doubt
step now (some true) has_entry p = (
  true,
  record { last_online_evidence_at = now; confirmed_online = true; offline_candidate_since = none },
)
step now (some false) has_entry p = doubt failed_confirmation_ms now p
step now none has_entry p =
    if has_entry then (p.confirmed_online, p) else doubt offline_grace_period_ms now p

abbrev pub States : Type 0
States = List (Text × PresenceState)

unfoldable pub resolve :
    ℕ → Text → Option Text → Bool → (Option Text → Reachability) → States → Reachability × States
unfolding step
resolve now mac neighbor_state has_entry get_state states =
    let presence = get_or (lookup mac states) initial in
    let (answer, presence') = step now (get_state neighbor_state) has_entry presence in
    (some answer, insert mac presence' states)
