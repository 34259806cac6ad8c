-- ===== src/Presence/Hysteresis.antt =====
-- How long a device stays online without evidence, and what makes it offline.
use ayad_network_manager.Base.{
  ℕ, ◌+◌, ◌≤◌, ◌<◌, ◌≡◌, ◌≢◌, refl, Bool, true, false, Option, none, some, List, [], ◌∷◌, arith,
  Text, ◌==◌, text_eq, text_beq_iff, ap, All, get_or, Bool-cases, ◌⊎◌, inl, inr,
}
use ayad_network_manager.Base.Map.{lookup, lookup-insert}
use ayad_network_manager.Presence.{
  Reachability, PresenceState, initial, step, States, resolve, failed_confirmation_ms,
}

-- Since positive evidence at `t` the device is online, and no doubt is older than that.
abbrev OnlineSince : ℕ → PresenceState → Type 0
OnlineSince t p = (p.confirmed_online ≡ true) × (t ≤ get_or p.offline_candidate_since t)

step-OnlineSince :
    (t now : ℕ) (direct : Reachability) (has_entry : Bool) (p : PresenceState)
    → OnlineSince t p
    → t ≤ now
    → now < t + failed_confirmation_ms
    → ((step now direct has_entry p).0 ≡ true) × OnlineSince t (step now direct has_entry p).1
unfolding step
step-OnlineSince t now (some true) has_entry p h le lt = ground arith
step-OnlineSince t now (some false) has_entry p h le lt = ground arith
step-OnlineSince t now none has_entry p h le lt = ground arith

step_offline :
    (now : ℕ) (direct : Reachability) (has_entry : Bool) (p : PresenceState)
    → p.confirmed_online ≡ true
    → (step now direct has_entry p).0 ≡ false
    → (since : ℕ) × (p.offline_candidate_since ≡ some since)
      × (since + failed_confirmation_ms ≤ now)
      × (direct ≢ some true)
unfolding step
step_offline now (some true) has_entry p online h = cc
step_offline now (some false) has_entry p online h =
    (get_or p.offline_candidate_since 0, ground arith, ground arith, λ e. cc)
step_offline now none has_entry p online h =
    (get_or p.offline_candidate_since 0, ground arith, ground arith, λ e. cc)

-- One call of `resolve`, with the time at which it is made.
pub record Observation : Type 0 where
  pub now : ℕ
  pub mac : Text
  pub neighbor_state : Option Text
  pub has_entry : Bool

module _ (get_state : Option Text → Reachability) where
  abbrev pub observe : States → Observation → Reachability × States
  observe states o = resolve o.now o.mac o.neighbor_state o.has_entry get_state states

  -- The states after a run of calls.
  pub observe_all : States → List Observation → States
  observe_all states [] = states
  observe_all states (o ∷ os) = observe_all (observe states o).1 os

  abbrev PresentSince : ℕ → Text → States → Type 0
  PresentSince t mac states = OnlineSince t (get_or (lookup mac states) initial)

  resolve-PresentSince :
      (t : ℕ) (mac : Text) (states : States) (o : Observation)
      → PresentSince t mac states
      → t ≤ o.now
      → o.now < t + failed_confirmation_ms
      → PresentSince t mac (observe states o).1
        × ((o.mac == mac) ≡ true → (observe states o).0 ≡ some true)
  unfolding resolve
  resolve-PresentSince t mac states o h le lt = elim (Bool-cases (o.mac == mac)) [
    | inl same ↦
        let e : o.mac ≡ mac = (text_beq_iff o.mac mac).0 same in
        let before = get_or (lookup o.mac states) initial in
        let known : OnlineSince t before = rw e h in
        let (answer, after) =
          step-OnlineSince t o.now (get_state o.neighbor_state) o.has_entry before known le lt in
        (rw (lookup-insert, same) after, λ _. ap some answer)
    | inr other ↦ (rw (lookup-insert, other) h, λ same. cc)
  ]

  -- The times of the calls since `t`, before the confirmation time has passed.
  abbrev pub Within : ℕ → List Observation → Type 0
  Within t os = All (λ o. (t ≤ o.now) × (o.now < t + failed_confirmation_ms)) os

  observe_all-PresentSince :
      (t : ℕ) (mac : Text) (states : States) (os : List Observation)
      → PresentSince t mac states
      → Within t os
      → PresentSince t mac (observe_all states os)
  unfolding observe_all
  observe_all-PresentSince t mac states [] h w = h
  observe_all-PresentSince t mac states (o ∷ os) h (w, ws) =
      observe_all-PresentSince t mac (observe states o).1 os
        (resolve-PresentSince t mac states o h w.0 w.1).0 ws

  online-PresentSince :
      (mac : Text) (states : States) (o : Observation)
      → (o.mac == mac) ≡ true
      → get_state o.neighbor_state ≡ some true
      → PresentSince o.now mac (observe states o).1
  unfolding resolve step
  online-PresentSince mac states o same online =
      rw (lookup-insert, same, online) (refl, omega arith)

  -- After positive evidence for a device at `o.now`, and calls within ten seconds of it for
  -- whatever devices and evidence, a call for the device within these ten seconds answers online.
  pub stays_online :
      (mac : Text) (states : States) (o : Observation) (os : List Observation) (last : Observation)
      → o.mac ≡ mac
      → get_state o.neighbor_state ≡ some true
      → Within o.now os
      → last.mac ≡ mac
      → o.now ≤ last.now
      → last.now < o.now + failed_confirmation_ms
      → (observe (observe_all (observe states o).1 os) last).0 ≡ some true
  stays_online mac states o os last e online w e' le lt =
      let start = online-PresentSince mac states o ((text_beq_iff o.mac mac).1 e) online in
      let reached = observe_all-PresentSince o.now mac (observe states o).1 os start w in
      (resolve-PresentSince o.now mac _ last reached le lt).1 ((text_beq_iff last.mac mac).1 e')

  -- A call for one device leaves what is known of any other as it was, and answers true or false.
  resolve_others :
      (states : States) (o : Observation) (mac : Text)
      → o.mac ≢ mac
      → (lookup mac (observe states o).1 ≡ lookup mac states)
        × (((observe states o).0 ≡ some true) ⊎ ((observe states o).0 ≡ some false))
  unfolding resolve
  resolve_others states o mac ne =
      (rw lookup-insert (ground (arith, text_beq_iff o.mac mac)), ground arith)

  -- A device that was confirmed online is answered offline only when a doubt about it is set that
  -- began at least ten seconds before, and only without positive evidence.
  pub offline_needs_doubt :
      (states : States) (o : Observation)
      → (get_or (lookup o.mac states) initial).confirmed_online ≡ true
      → (observe states o).0 ≡ some false
      → (since : ℕ) × ((get_or (lookup o.mac states) initial).offline_candidate_since ≡ some since)
        × (since + failed_confirmation_ms ≤ o.now)
        × (get_state o.neighbor_state ≢ some true)
  unfolding resolve
  offline_needs_doubt states o online h =
      step_offline o.now (get_state o.neighbor_state) o.has_entry
        (get_or (lookup o.mac states) initial) online (ground arith)
