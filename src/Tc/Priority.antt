-- ===== src/Tc/Priority.antt =====
-- The priority found for a filter is free, and one is found while one is free.
use ayad_network_manager.Base.{
  ℕ, zero, suc, ◌+◌, ◌-◌, ◌%◌, ◌≤◌, ◌<◌, ◌≡◌, refl, true, false, Option, none, some, List, arith,
  nat_eq, Bool-cases, Option-cases, inl, inr, Text, leb,
}
use ayad_network_manager.Base.Map.{has}
use ayad_network_manager.Base.Effects.{ok}
use ayad_network_manager.Ports.{Call}
use ayad_network_manager.Tc.Builder.{TcCommand}
use ayad_network_manager.Tc.{
  TcStateReader, TcDeviceFilterState, min_priority, max_priority, span, probe, used_priorities,
  find_available_filter_priority,
}

abbrev at_offset : ℕ → ℕ → ℕ
at_offset base offset = min_priority + (base - min_priority + offset) % span

probe-free :
    (base : ℕ) (used : List ℕ) (rounds offset p : ℕ)
    → probe base used rounds offset ≡ some p
    → (has p used ≡ false) × (min_priority ≤ p) × (p ≤ max_priority)
unfolding probe
probe-free base used zero offset p h = absurd (cc)
probe-free base used (suc rounds) offset p h =
    elim (Bool-cases (has (at_offset base offset) used)) [
      | inl taken ↦ probe-free base used rounds (suc offset) p (rw (taken, probe) at h)
      | inr free ↦
          let same : at_offset base offset ≡ p = (let k = rw (free, probe) at h in cc) in
          (rw same at free, omega (arith, same), omega (arith, same))
    ]

probe-none :
    (base : ℕ) (used : List ℕ) (rounds offset : ℕ)
    → probe base used rounds offset ≡ none
    → (k : ℕ) → k < rounds
    → has (at_offset base (offset + k)) used ≡ true
unfolding probe
probe-none base used zero offset h k lt = absurd (omega arith)
probe-none base used (suc rounds) offset h zero lt =
    elim (Bool-cases (has (at_offset base offset) used)) [
      | inl taken ↦ let e : offset + 0 ≡ offset = omega arith in rw e taken
      | inr free ↦ absurd (let k = rw (free, probe) at h in cc)
    ]
probe-none base used (suc rounds) offset h (suc k) lt =
    elim (Bool-cases (has (at_offset base offset) used)) [
      | inl taken ↦
          let e : offset + suc k ≡ suc offset + k = omega arith in
          rw e (probe-none base used rounds (suc offset) (rw (taken, probe) at h) k (omega arith))
      | inr free ↦ absurd (let k = rw (free, probe) at h in cc)
    ]

-- The round that tries `q`.
round_of :
    (base q : ℕ)
    → min_priority ≤ q
    → q ≤ max_priority
    → (k : ℕ) × (k < span) × (at_offset base (0 + k) ≡ q)
round_of base q le le' = elim (Bool-cases (leb ((base - min_priority) % span) (q - min_priority))) [
  | inl fits ↦ ((q - min_priority) - (base - min_priority) % span, ground arith, ground arith)
  | inr wraps ↦
      ((q - min_priority) + span - (base - min_priority) % span, ground arith, ground arith)
]

-- While some priority from 100 to 65535 is used by no filter but those at the priority to ignore,
-- the search from any start finds one in this range that no other filter uses, and changes nothing.
pub find_available_filter_priority-free :
    {S : Type 0} (reader : TcStateReader S) (execute : TcCommand → Call S (Unit {0}))
    (interface_name : Text) (base : ℕ) (ignored : Option ℕ) (s : S)
    (filters : List TcDeviceFilterState) (q : ℕ)
    → reader.get_device_filters interface_name s ≡ ok filters
    → min_priority ≤ q
    → q ≤ max_priority
    → has q (used_priorities ignored filters) ≡ false
    → (p : ℕ) × (find_available_filter_priority reader execute interface_name base ignored s
        ≡ (ok p, s))
      × (has p (used_priorities ignored filters) ≡ false)
      × (min_priority ≤ p)
      × (p ≤ max_priority)
unfolding find_available_filter_priority
find_available_filter_priority-free reader execute interface_name base ignored s filters q read le
      le' free =
    let used = used_priorities ignored filters in
    elim (Option-cases (probe base used span 0)) [
      | inl nothing ↦
          let (k, lt, e) = round_of base q le le' in
          absurd (cc (rw e at (probe-none base used span 0 nothing k lt)))
      | inr (p, found) ↦
          let (free', low, high) = probe-free base used span 0 p found in
          (p, rw (read, found, find_available_filter_priority) refl, free', low, high)
    ]
