-- ===== src/Quota/Period.antt =====
-- `calculatePeriod` of backend/src/application/quota/QuotaService.ts: the day, week or month of a
-- time, by UTC, in milliseconds since 1970. `Date` walks the Gregorian calendar; so does the walk
-- over the months here, from January 1970.
use ayad_network_manager.Base.{
  ℕ, zero, suc, ◌+◌, ◌-◌, ◌*◌, ◌/◌, ◌%◌, ◌≤◌, ◌<◌, ◌≡◌, refl, Bool, true, false, not, ◌&&◌, ◌||◌,
  Text, codes, ltb, ◌==◌, nat_eq, text_eq, if◌then◌else◌, arith, Bool-cases, inl, inr,
}
use ayad_network_manager.Text.{to_lower}

abbrev pub day_ms : ℕ
day_ms = 86400000

abbrev pub is_leap : ℕ → Bool
is_leap year = year % 4 == 0 && not (year % 100 == 0) || year % 400 == 0

-- Months count from 0, as in `getUTCMonth`.
unfoldable pub month_length : ℕ → ℕ → ℕ
month_length year month =
    if month == 1
    then if is_leap year then 29 else 28
    else if month == 3 || month == 5 || month == 8 || month == 10
    then 30
    else 31

unfoldable pub next_year : ℕ → ℕ → ℕ
next_year year month = if month == 11 then suc year else year

unfoldable pub next_month : ℕ → ℕ
next_month month = if month == 11 then 0 else suc month

-- The first day of the month of `day`, and that of the next month, looked for from the month whose
-- first day is `first`, over `rounds` months.
unfoldable pub month_of : ℕ → ℕ → ℕ → ℕ → ℕ → ℕ × ℕ
unfolding month_length next_year next_month
month_of zero year month first day = (first, first + month_length year month)
month_of (suc rounds) year month first day =
    let next = first + month_length year month in
    elim (ltb day next) [
      | true ↦ (first, next)
      | false ↦ month_of rounds (next_year year month) (next_month month) next day
    ]

-- Days since the Monday of the week: day 0 was a Thursday.
abbrev pub days_from_monday : ℕ → ℕ
days_from_monday day = let d = (day + 4) % 7 in if d == 0 then 6 else d - 1

abbrev pub period_days : Text → ℕ → ℕ × ℕ
period_days period_type day =
    if to_lower period_type == codes "daily"
    then (day, suc day)
    else if to_lower period_type == codes "weekly"
    then (day - days_from_monday day, day - days_from_monday day + 7)
    else month_of day 1970 0 0 day

unfoldable pub calculate_period : Text → ℕ → ℕ × ℕ
unfolding month_of
calculate_period period_type now =
    let (first, next) = period_days period_type (now / day_ms) in (first * day_ms, next * day_ms)

month_length-positive : (year month : ℕ) → 0 < month_length year month
unfolding month_length
month_length-positive year month = ground arith

month_of-from : (rounds year month first day : ℕ) → first ≤ (month_of rounds year month first day).0
unfolding month_of
month_of-from zero year month first day = omega arith
month_of-from (suc rounds) year month first day =
    let len = month_length year month in
    elim (Bool-cases (ltb day (first + len))) [
      | inl here ↦ rw (here, month_of) (omega arith)
      | inr later ↦
          rw (later, month_of)
            (omega (
              arith,
              month_of-from rounds (next_year year month) (next_month month) (first + len) day,
            ))
    ]

pub month_of-contains :
    (rounds year month first day : ℕ)
    → first ≤ day
    → day ≤ first + rounds
    → ((month_of rounds year month first day).0 ≤ day)
      × (day < (month_of rounds year month first day).1)
unfolding month_of
month_of-contains zero year month first day le le' =
    (omega arith, omega (arith, month_length-positive year month))
month_of-contains (suc rounds) year month first day le le' =
    let len = month_length year month in
    elim (Bool-cases (ltb day (first + len))) [
      | inl here ↦ rw (here, month_of) (le, ground arith)
      | inr later ↦
          let past : first + len ≤ day = ground arith in
          rw (later, month_of)
            (month_of-contains rounds (next_year year month) (next_month month) (first + len) day
              past (omega (arith, month_length-positive year month)))
    ]

pub month_of-same :
    (rounds rounds' year month first day day' : ℕ)
    → day ≤ first + rounds
    → day' ≤ first + rounds'
    → (month_of rounds year month first day).0 ≤ day'
    → day' < (month_of rounds year month first day).1
    → month_of rounds' year month first day' ≡ month_of rounds year month first day
unfolding month_of
month_of-same zero zero year month first day day' e e' le lt = refl
month_of-same zero (suc r) year month first day day' e e' le lt =
    let here : ltb day' (first + month_length year month) ≡ true = ground arith in
    rw (here, month_of) refl
month_of-same (suc r) zero year month first day day' e e' le lt =
    let len = month_length year month in
    elim (Bool-cases (ltb day (first + len))) [
      | inl here ↦ rw (here, month_of) refl
      | inr later ↦
          let le2 = rw (later, month_of) at le in
          absurd (
            omega (
              arith,
              le2,
              month_length-positive year month,
              month_of-from r (next_year year month) (next_month month) (first + len) day,
            ))
    ]
month_of-same (suc r) (suc r') year month first day day' e e' le lt =
    let len = month_length year month in
    let y = next_year year month in
    let m = next_month month in
    elim (Bool-cases (ltb day (first + len))) [
      | inl here ↦
          let lt2 = rw (here, month_of) at lt in
          let here' : ltb day' (first + len) ≡ true = ground arith in
          rw (here, here', month_of) refl
      | inr later ↦
          let le2 = rw (later, month_of) at le in
          let lt2 = rw (later, month_of) at lt in
          let past : first + len ≤ day' =
            omega (arith, le2, month_of-from r y m (first + len) day) in
          let later' : ltb day' (first + len) ≡ false = ground arith in
          rw (later, later', month_of)
            (month_of-same r r' y m (first + len) day day'
              (omega (arith, month_length-positive year month))
              (omega (arith, month_length-positive year month)) le2 lt2)
    ]
