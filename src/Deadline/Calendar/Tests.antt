-- ===== src/Deadline/Calendar/Tests.antt =====
-- Holidays and business days.
use case_automation_mcp.Common.{ℕ, ◌+◌, ◌*◌, ◌≤◌, ◌<◌, true, ◌≡◌, refl, ok, arith}
use case_automation_mcp.Common.Int.{pos, negsuc}
use case_automation_mcp.Deadline.Dates.{
  date, year_of, year_from, weekday, month_of, days_before_year, days_before_month, is_leap,
}
use case_automation_mcp.Deadline.Types.{next_business_day, previous_business_day, no_adjustment}
use case_automation_mcp.Deadline.Calendar.{is_business_day, add_business_days, adjust}
use case_automation_mcp.Deadline.Calendar.Walks.{IsNext, IsNth}
use case_automation_mcp.Deadline.Calendar.Bounds.{
  Adjusted, adjust-Adjusted, add_business_days-IsNth,
}

-- New Year's Day of 2022 falls on a Saturday, but its observance is counted in 2022 only
new_year_observed : is_business_day (date 2021 12 31) ≡ ok true
unfolding is_business_day date year_of year_from weekday month_of days_before_year days_before_month
    is_leap
new_year_observed = refl

-- from Wednesday 1 July 2026 over the observed Independence Day and a weekend
over_a_holiday : add_business_days (date 2026 7 1) (pos 3) ≡ ok (date 2026 7 7)
unfolding is_business_day date year_of year_from weekday month_of days_before_year days_before_month
    is_leap add_business_days
over_a_holiday = refl

and_back : add_business_days (date 2026 7 7) (negsuc 2) ≡ ok (date 2026 7 1)
unfolding is_business_day date year_of year_from weekday month_of days_before_year days_before_month
    is_leap add_business_days
and_back = refl

-- 4 July 2026
abbrev a_saturday : ℕ
a_saturday = 739801

in_range :
    (date 2020 1 3 ≤ a_saturday)
    × (a_saturday ≤ date 2040 12 30)
    × (a_saturday + 4 * 3 ≤ date 2040 12 31)
unfolding date days_before_year days_before_month is_leap
in_range = (omega arith, omega arith, omega arith)

add_business_days-IsNth_example :
    (e : ℕ) × (add_business_days a_saturday (pos 3) ≡ ok e)
    × IsNth 3 a_saturday e
    × (e ≤ a_saturday + 4 * 3)
add_business_days-IsNth_example = add_business_days-IsNth a_saturday 3 in_range.0 in_range.2

adjust-Adjusted_example :
    ((e : ℕ) × (adjust a_saturday next_business_day ≡ ok e)
      × Adjusted a_saturday e (IsNext a_saturday e × (e ≤ a_saturday + 4)))
    × ((e : ℕ) × (adjust a_saturday previous_business_day ≡ ok e)
        × Adjusted a_saturday e
            ((is_business_day e ≡ ok true) × (e < a_saturday) × (a_saturday ≤ e + 4)))
    × (adjust a_saturday no_adjustment ≡ ok a_saturday)
adjust-Adjusted_example = adjust-Adjusted a_saturday in_range.0 in_range.1
