-- ===== src/Deadline/Calendar.antt =====
-- src/cam/core/services/deadline/calendar.py. The walks go no further than the dates of Python, where
-- they raise. SHA-256 and the spelling of dates are parameters.
use case_automation_mcp.Common.{
  ℕ, zero, suc, ◌+◌, ◌-◌, ◌*◌, ◌%◌, String, Bool, true, false, not, ◌&&◌, List, [], ◌∷◌, any, leb,
  ltb, eqb, ◌==◌, Outcome, ok, err, if◌then◌else◌,
}
use case_automation_mcp.Common.Int.{ℤ, pos, negsuc}
use case_automation_mcp.Deadline.Dates.{
  max_ordinal, date, weekday, year_of, month_of, days_in_month,
}
use case_automation_mcp.Deadline.Types.{
  AdjustMode, next_business_day, previous_business_day, no_adjustment,
}
pub mod Walks
pub mod Range
pub mod Bounds
mod Tests

-- `CalendarError`, and Python's `OverflowError`
pub data DateError : Type 0 where
  no_holiday_data : ℕ → DateError
  unknown_calendar : String → DateError
  no_such_weekday : DateError
  overflow : DateError

-- `_nth_weekday_of_month`, for `n` at least 1
nth_weekday_of_month : ℕ → ℕ → ℕ → ℕ → Outcome DateError ℕ
nth_weekday_of_month year month day n =
    let first = date year month 1 in
    let result = first + (day + 7 - weekday first) % 7 + (n - 1) * 7 in
    if not (eqb (month_of result) month) then err no_such_weekday else ok result

-- `_last_weekday_of_month`
last_weekday_of_month : ℕ → ℕ → ℕ → ℕ
last_weekday_of_month year month day =
    let next_month = if ltb month 12 then date year (month % 12 + 1) 1 else date (year + 1) 1 1 in
    let last_day = next_month - 1 in last_day - (weekday last_day + 7 - day) % 7

-- `_observed`
observed : ℕ → ℕ
observed d = if eqb (weekday d) 5 then d - 1 else if eqb (weekday d) 6 then d + 1 else d

-- the dates of a list, unless one raises
collected : List (Outcome DateError ℕ) → Outcome DateError (List ℕ)
collected [] = ok []
collected (err e ∷ l) = err e
collected (ok d ∷ l) = elim (collected l) [ ok ds ↦ ok (d ∷ ds) | err e ↦ err e ]

us_federal_holidays : ℕ → Outcome DateError (List ℕ)
unfolding nth_weekday_of_month last_weekday_of_month observed collected
us_federal_holidays year = collected (
    ok (observed (date year 1 1))
    ∷ nth_weekday_of_month year 1 0 3
    ∷ nth_weekday_of_month year 2 0 3
    ∷ ok (last_weekday_of_month year 5 0)
    ∷ ok (observed (date year 6 19))
    ∷ ok (observed (date year 7 4))
    ∷ nth_weekday_of_month year 9 0 1
    ∷ nth_weekday_of_month year 10 0 2
    ∷ ok (observed (date year 11 11))
    ∷ nth_weekday_of_month year 11 3 4
    ∷ ok (observed (date year 12 25))
    ∷ [])

-- `SUPPORTED_YEARS`
is_supported : ℕ → Bool
is_supported year = leb 2020 year && ltb year 2041

-- `_holidays`; a calendar has one holiday function
holidays : ℕ → Outcome DateError (List ℕ)
unfolding is_supported us_federal_holidays
holidays year =
    if not (is_supported year) then err (no_holiday_data year) else us_federal_holidays year

abbrev pub is_weekend : ℕ → Bool
is_weekend d = leb 5 (weekday d)

-- `d not in` the holidays
abbrev pub is_working : ℕ → Outcome DateError (List ℕ) → Outcome DateError Bool
is_working d (err e) = err e
is_working d (ok l) = ok (not (any (λ h. eqb h d) l))

unfoldable pub is_business_day : ℕ → Outcome DateError Bool
unfolding holidays
is_business_day d = if is_weekend d then ok false else is_working d (holidays (year_of d))

-- the loop of `next_business_day` at a date with `left` dates after it
pub next_from : ℕ → ℕ → Outcome DateError ℕ
next_from zero d = err overflow
next_from (suc left) d = elim (is_business_day (suc d)) [
  | err e ↦ err e
  | ok found ↦ elim found [ true ↦ ok (suc d) | false ↦ next_from left (suc d) ]
]

unfoldable pub next_business_day_of : ℕ → Outcome DateError ℕ
unfolding next_from
next_business_day_of d = next_from (max_ordinal - d) d

-- `previous_business_day`; the first date is 1
unfoldable pub previous_business_day_of : ℕ → Outcome DateError ℕ
previous_business_day_of zero = err overflow
previous_business_day_of (suc zero) = err overflow
previous_business_day_of (suc (suc d)) = elim (is_business_day (suc d)) [
  | err e ↦ err e
  | ok found ↦ elim found [ true ↦ ok (suc d) | false ↦ previous_business_day_of (suc d) ]
]

-- the loop of `add_business_days` forwards, with `left` dates after the date
pub forward : ℕ → ℕ → ℕ → Outcome DateError ℕ
forward zero remaining d = if eqb remaining 0 then ok d else err overflow
forward (suc left) zero d = ok d
forward (suc left) (suc remaining) d = elim (is_business_day (suc d)) [
  | err e ↦ err e
  | ok found ↦ elim found [
    | true ↦ forward left remaining (suc d)
    | false ↦ forward left (suc remaining) (suc d)
  ]
]

-- and backwards
pub backward : ℕ → ℕ → Outcome DateError ℕ
backward zero remaining = if eqb remaining 0 then ok 0 else err overflow
backward (suc zero) remaining = if eqb remaining 0 then ok 1 else err overflow
backward (suc (suc d)) zero = ok (suc (suc d))
backward (suc (suc d)) (suc remaining) = elim (is_business_day (suc d)) [
  | err e ↦ err e
  | ok found ↦ elim found [
    | true ↦ backward (suc d) remaining
    | false ↦ backward (suc d) (suc remaining)
  ]
]

unfoldable pub add_business_days : ℕ → ℤ → Outcome DateError ℕ
unfolding forward backward
add_business_days d (pos n) = forward (max_ordinal - d) n d
add_business_days d (negsuc n) = backward d (suc n)

-- a date that is a business day is kept
abbrev pub kept : ℕ → Outcome DateError ℕ → Outcome DateError Bool → Outcome DateError ℕ
kept d moved (err e) = err e
kept d moved (ok true) = ok d
kept d moved (ok false) = moved

unfoldable pub adjust : ℕ → AdjustMode → Outcome DateError ℕ
adjust d next_business_day = kept d (next_business_day_of d) (is_business_day d)
adjust d previous_business_day = kept d (previous_business_day_of d) (is_business_day d)
adjust d no_adjustment = ok d

-- `get_calendar`, which fails on an unknown id as the constructor does
unfoldable pub get_calendar : String → Outcome DateError Unit
get_calendar id = if id == "us_federal" then ok tt else err (unknown_calendar id)
