-- ===== src/Deadline/Calendar/Range.antt =====
-- The years that the calendar covers, day by day.
use case_automation_mcp.Common.{
  ℕ, zero, suc, ◌+◌, ◌≤◌, ◌<◌, Bool, true, false, ◌≡◌, refl, Outcome, ok, err, arith, leb,
  if◌then◌else◌, leb→le,
}
use case_automation_mcp.Deadline.Dates.{
  date, year_of, year_from, weekday, month_of, days_before_year, days_before_month, is_leap,
}
use case_automation_mcp.Deadline.Calendar.{
  DateError, is_business_day, next_business_day_of, previous_business_day_of,
}

abbrev near_after : ℕ → Outcome DateError ℕ → Bool
near_after d (ok e) = leb e (d + 4)
near_after d (err e) = false

abbrev near_before : ℕ → Outcome DateError ℕ → Bool
near_before d (ok e) = leb d (e + 4)
near_before d (err e) = false

abbrev answered : Outcome DateError Bool → Bool
answered (ok b) = true
answered (err e) = false

answered-ok : (o : Outcome DateError Bool) → answered o ≡ true → (b : Bool) × (o ≡ ok b)
answered-ok (ok b) h = (b, refl)
answered-ok (err e) h = cc

steady_at : ℕ → Bool
steady_at d =
    if near_after d (next_business_day_of d)
    then (if near_before d (previous_business_day_of d)
        then answered (is_business_day d)
        else false)
    else false

-- the `n` dates from `d` have a business day near on both sides
steady : ℕ → ℕ → Bool
unfolding steady_at
steady zero d = true
steady (suc n) d = let rest = steady n (suc d) in if steady_at d then rest else false

steady-at : (n d x : ℕ) → steady n d ≡ true → d ≤ x → x < d + n → steady_at x ≡ true
unfolding steady
steady-at zero d x h low high = absurd (omega arith)
steady-at (suc n) d x h low high = ground (arith, steady-at n (suc d) x)

all_steady : steady 7668 (date 2020 1 3) ≡ true
unfolding steady is_business_day date year_of year_from weekday month_of days_before_year
    days_before_month is_leap next_business_day_of previous_business_day_of
all_steady = refl

pub first_day_is : date 2020 1 3 ≡ 737427
unfolding date days_before_year days_before_month is_leap
first_day_is = refl

pub last_day_is : date 2040 12 30 ≡ 745094
unfolding date days_before_year days_before_month is_leap
last_day_is = refl

steady_there : (d : ℕ) → date 2020 1 3 ≤ d → d ≤ date 2040 12 30 → steady_at d ≡ true
steady_there d low high =
    steady-at 7668 (date 2020 1 3) d all_steady low (omega (arith, first_day_is, last_day_is))

near_after-ok :
    (d : ℕ) (o : Outcome DateError ℕ) → near_after d o ≡ true → (e : ℕ) × (o ≡ ok e) × (e ≤ d + 4)
near_after-ok d (ok e) h = (e, refl, leb→le e (d + 4) h)
near_after-ok d (err x) h = cc

near_before-ok :
    (d : ℕ) (o : Outcome DateError ℕ) → near_before d o ≡ true → (e : ℕ) × (o ≡ ok e) × (d ≤ e + 4)
near_before-ok d (ok e) h = (e, refl, leb→le d (e + 4) h)
near_before-ok d (err x) h = cc

both : {c : Bool} (b : Bool) → (if b then c else false) ≡ true → (b ≡ true) × (c ≡ true)
both true h = (refl, h)
both false h = cc

-- both neighbours of a date in the range
pub neighbours :
    (d : ℕ)
    → date 2020 1 3 ≤ d
    → d ≤ date 2040 12 30
    → ((e : ℕ) × (next_business_day_of d ≡ ok e) × (e ≤ d + 4))
      × ((e : ℕ) × (previous_business_day_of d ≡ ok e) × (d ≤ e + 4))
      × ((b : Bool) × (is_business_day d ≡ ok b))
unfolding steady_at
neighbours d low high =
    let (after, rest) = both (near_after d (next_business_day_of d)) (steady_there d low high) in
    let (before, known) = both (near_before d (previous_business_day_of d)) rest in
    (
      near_after-ok d (next_business_day_of d) after,
      near_before-ok d (previous_business_day_of d) before,
      answered-ok (is_business_day d) known,
    )
