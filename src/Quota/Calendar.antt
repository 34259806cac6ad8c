-- ===== src/Quota/Calendar.antt =====
-- The quota periods divide the time.
use ayad_network_manager.Base.{
  ℕ, ◌+◌, ◌-◌, ◌*◌, ◌/◌, ◌≤◌, ◌<◌, ◌≡◌, refl, Text, codes, ◌==◌, nat_eq, text_eq, arith, Bool-cases,
  inl, inr, ap,
}
use ayad_network_manager.Text.{to_lower}
use ayad_network_manager.Quota.Period.{
  day_ms, days_from_monday, period_days, calculate_period, month_of-contains, month_of-same,
}

days_from_monday-bound : (day : ℕ) → days_from_monday day ≤ 6
days_from_monday-bound day = ground arith

monday-same :
    (day day' : ℕ)
    → 4 ≤ day
    → day - days_from_monday day ≤ day'
    → day' < day - days_from_monday day + 7
    → day' - days_from_monday day' ≡ day - days_from_monday day
monday-same day day' le low high = ground arith

period_days-contains :
    (period_type : Text) (day : ℕ)
    → ((period_days period_type day).0 ≤ day) × (day < (period_days period_type day).1)
period_days-contains period_type day = elim (Bool-cases (to_lower period_type == codes "daily")) [
  | inl daily ↦ rw daily (omega arith, omega arith)
  | inr other ↦ elim (Bool-cases (to_lower period_type == codes "weekly")) [
    | inl weekly ↦ rw (other, weekly) (omega arith, omega (arith, days_from_monday-bound day))
    | inr monthly ↦
        rw (other, monthly) (month_of-contains day 1970 0 0 day (omega arith) (omega arith))
  ]
]

period_days-same :
    (period_type : Text) (day day' : ℕ)
    → 4 ≤ day
    → (period_days period_type day).0 ≤ day'
    → day' < (period_days period_type day).1
    → period_days period_type day' ≡ period_days period_type day
period_days-same period_type day day' le low high =
    elim (Bool-cases (to_lower period_type == codes "daily")) [
      | inl daily ↦
          let low' = rw daily at low in
          let high' = rw daily at high in
          let same : day' ≡ day = omega (arith, low', high') in rw same refl
      | inr other ↦ elim (Bool-cases (to_lower period_type == codes "weekly")) [
        | inl weekly ↦
            let low' = rw (other, weekly) at low in
            let high' = rw (other, weekly) at high in
            let same = monday-same day day' le low' high' in rw (other, weekly, same) refl
        | inr monthly ↦
            let low' = rw (other, monthly) at low in
            let high' = rw (other, monthly) at high in
            rw (other, monthly)
              (month_of-same day day' 1970 0 0 day day' (omega arith) (omega arith) low' high')
      ]
    ]

-- A period contains the time that it is calculated for: its start is not after it and its end is.
pub calculate_period-contains :
    (period_type : Text) (now : ℕ)
    → ((calculate_period period_type now).0 ≤ now) × (now < (calculate_period period_type now).1)
unfolding calculate_period
calculate_period-contains period_type now =
    let (low, high) = period_days-contains period_type (now / day_ms) in
    (omega (arith, low), omega (arith, high))

-- From 5 January 1970 on, every time in a period has that same period, for every period type.
pub calculate_period-same :
    (period_type : Text) (now later : ℕ)
    → 4 * day_ms ≤ now
    → (calculate_period period_type now).0 ≤ later
    → later < (calculate_period period_type now).1
    → calculate_period period_type later ≡ calculate_period period_type now
unfolding calculate_period
calculate_period-same period_type now later le low high =
    let same =
      period_days-same period_type (now / day_ms) (later / day_ms) (omega arith)
        (omega (arith, low)) (omega (arith, high)) in
    ap (λ p. (p.0 * day_ms, p.1 * day_ms)) same
