-- ===== src/Policies/Window.antt =====
-- The weekly windows of a schedule: `inWindow` of
-- backend/src/application/policies/ScheduleEnforcementService.ts, and the check of times by `rule` of
-- backend/src/application/policies/PolicyCatalogService.ts.
use ayad_network_manager.Base.{
  ℕ, ◌+◌, ◌*◌, ◌-◌, ◌%◌, ◌<◌, Bool, true, false, ◌&&◌, ◌||◌, Option, none, some, List, [], ◌∷◌, ◌≡◌,
  ◌↔◌, Text, all, ltb, leb, ◌==◌, nat_eq, text_eq, if◌then◌else◌, arith,
}
use ayad_network_manager.Text.{is_digit, split}
use ayad_network_manager.Text.Numerals.{read, read_from, digit_value}
use ayad_network_manager.Policies.{ScheduleRuleRecord}

-- `Number(s)` of a text of digits, and of ""; any other text, which the check of times refuses, is
-- not a number here.
unfoldable pub number : Text → Option ℕ
number s = if all is_digit s then some (read 10 s) else none

abbrev both : Option ℕ → Option ℕ → Option ℕ
both (some hours) (some mins) = some (hours * 60 + mins)
both _ _ = none

-- `parse`: the minutes of "hours:minutes", a part that lacks being 0; `none` is NaN.
unfoldable pub minutes_of_parts : List Text → Option ℕ
unfolding number
minutes_of_parts [] = some 0
minutes_of_parts (hours ∷ []) = both (number hours) (some 0)
minutes_of_parts (hours ∷ mins ∷ _) = both (number hours) (number mins)

unfoldable pub parse_time : Text → Option ℕ
unfolding minutes_of_parts
parse_time value = minutes_of_parts (split b':' value)

-- Comparisons, false with a NaN.
abbrev pub le_number : Option ℕ → Option ℕ → Bool
le_number (some a) (some b) = leb a b
le_number _ _ = false

abbrev pub lt_number : Option ℕ → Option ℕ → Bool
lt_number (some a) (some b) = ltb a b
lt_number _ _ = false

unfoldable pub in_window : ScheduleRuleRecord → ℕ → Bool
unfolding parse_time
in_window rule minutes =
    let start = parse_time rule.start_time in
    let end_of = parse_time rule.end_time in
    if le_number start end_of
    then le_number start (some minutes) && lt_number (some minutes) end_of
    else le_number start (some minutes) || lt_number (some minutes) end_of

-- `/^([01]\d|2[0-3]):[0-5]\d$/.test`
unfoldable pub is_time : Text → Bool
is_time (a ∷ b ∷ c ∷ d ∷ e ∷ []) =
    ((a == b'0' || a == b'1') && is_digit b || a == b'2' && leb b'0' b && leb b b'3')
    && c == b':'
    && (leb b'0' d && leb d b'5')
    && is_digit e
is_time _ = false

-- A time that the catalog accepts is a minute of the day, so that no comparison meets a NaN.
parse_time-is_time :
    (t : Text) → is_time t ≡ true → (minutes : ℕ) × (parse_time t ≡ some minutes) × (minutes < 1440)
unfolding is_time parse_time minutes_of_parts number split is_digit read read_from digit_value
parse_time-is_time (a ∷ b ∷ c ∷ d ∷ e ∷ []) h = (
  ((a - b'0') * 10 + (b - b'0')) * 60 + ((d - b'0') * 10 + (e - b'0')),
  ground arith,
  ground arith,
)
parse_time-is_time _ h = absurd (cc)

-- For a rule whose times the catalog accepts, the window is the set of minutes that come, from its
-- start on and round midnight, before its end; a rule that ends when it starts has none.
pub in_window_iff :
    (rule : ScheduleRuleRecord) (start end_of minutes : ℕ)
    → parse_time (rule.start_time) ≡ some start
    → parse_time (rule.end_time) ≡ some end_of
    → start < 1440
    → end_of < 1440
    → minutes < 1440
    → (in_window rule minutes ≡ true)
      ↔ ((minutes + 1440 - start) % 1440 < (end_of + 1440 - start) % 1440)
unfolding in_window
in_window_iff rule start end_of minutes from to s e m =
    rw (from, to) (λ h. ground arith, λ h. ground arith)
