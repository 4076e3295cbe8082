-- ===== src/Deadline/Compute/Tests.antt =====
-- A due date.
use case_automation_mcp.Common.{◌≤◌, ◌≡◌, refl, none, some, [], ◌∷◌, Dict, lookup, ok, arith}
use case_automation_mcp.Common.Int.{shift, times}
use case_automation_mcp.Deadline.Dates.{
  DateTime, date, make_date, year_of, year_from, month_of, day_of, days_before_year,
  days_before_month, days_in_month, is_leap,
}
use case_automation_mcp.Deadline.Types.{ComputationTrace}
use case_automation_mcp.Deadline.Calendar.{adjust}
use case_automation_mcp.Deadline.Compute.{apply_offset, compute_due_date}
use case_automation_mcp.Deadline.Compute.Landing.{Lands, compute_due_date-Lands}
use case_automation_mcp.Deadline.Fixtures.{a_time, six_months}

abbrev inputs : Dict DateTime
inputs = ("filing_date", a_time) ∷ []

-- from 4 July 2026 to 4 January 2027
after_six_months : apply_offset 739801 six_months.offset ≡ ok 739985
unfolding apply_offset date make_date year_of year_from month_of day_of days_before_year
    days_before_month days_in_month is_leap shift times
after_six_months = refl

-- 31 March and six months: the day that September lacks becomes the 28th
clipped : apply_offset (date 2026 3 31) six_months.offset ≡ ok (date 2026 9 28)
unfolding apply_offset date make_date year_of year_from month_of day_of days_before_year
    days_before_month days_in_month is_leap shift times
clipped = refl

found : lookup "filing_date" inputs ≡ some a_time
unfolding lookup
found = refl

in_years : (date 2020 1 3 ≤ 739985) × (739985 ≤ date 2040 12 30)
unfolding date days_before_year days_before_month is_leap
in_years = (omega arith, omega arith)

compute_due_date-Lands_example :
    (t : ComputationTrace) × (compute_due_date "1" six_months inputs a_time none ≡ ok t)
    × (t.due_at.time ≡ a_time.time)
    × (adjust 739985 six_months.adjust ≡ ok t.due_at.day)
    × Lands six_months.adjust 739985 t.due_at.day
compute_due_date-Lands_example =
    compute_due_date-Lands "1" six_months inputs a_time none a_time 739985 found refl
      after_six_months in_years.0 in_years.1
