-- ===== src/Deadline/Dates.antt =====
-- What the engine uses of Python's `datetime`. A date is its proleptic Gregorian ordinal, from 1 for
-- 1 January of year 1 to `max_ordinal`. Every datetime is taken to be in UTC.
use case_automation_mcp.Common.{
  ℕ, zero, suc, ◌+◌, ◌-◌, ◌*◌, ◌/◌, ◌%◌, Bool, true, false, not, ◌&&◌, ◌||◌, List, [], ◌∷◌, Option,
  none, some, leb, ltb, eqb, if◌then◌else◌,
}

-- `date.max.toordinal()`
abbrev pub max_ordinal : ℕ
max_ordinal = 3652059

unfoldable pub is_leap : ℕ → Bool
is_leap y = eqb (y % 4) 0 && (not (eqb (y % 100) 0) || eqb (y % 400) 0)

-- the days before the first of January
unfoldable pub days_before_year : ℕ → ℕ
days_before_year y = let p = y - 1 in p * 365 + p / 4 - p / 100 + p / 400

nth : ℕ → List ℕ → ℕ
nth n [] = 0
nth zero (x ∷ l) = x
nth (suc n) (x ∷ l) = nth n l

-- the days of the year before the first of the month, which is at least 1
unfoldable pub days_before_month : ℕ → ℕ → ℕ
unfolding nth
days_before_month y m =
    nth (m - 1) (0 ∷ 31 ∷ 59 ∷ 90 ∷ 120 ∷ 151 ∷ 181 ∷ 212 ∷ 243 ∷ 273 ∷ 304 ∷ 334 ∷ [])
    + (if is_leap y && ltb 2 m then 1 else 0)

unfoldable pub days_in_month : ℕ → ℕ → ℕ
unfolding nth
days_in_month y m =
    if is_leap y && eqb m 2
    then 29
    else nth (m - 1) (31 ∷ 28 ∷ 31 ∷ 30 ∷ 31 ∷ 30 ∷ 31 ∷ 31 ∷ 30 ∷ 31 ∷ 30 ∷ 31 ∷ [])

-- `date(y, m, d)` of a valid date
unfoldable pub date : ℕ → ℕ → ℕ → ℕ
date y m d = days_before_year y + days_before_month y m + d

-- the constructor, `none` where it raises `ValueError`
unfoldable pub make_date : ℕ → ℕ → ℕ → Option ℕ
make_date y m d =
    if leb 1 y && leb y 9999 && leb 1 m && leb m 12 && leb 1 d && leb d (days_in_month y m)
    then some (date y m d)
    else none

-- `d.weekday()`, from 0 for Monday
unfoldable pub weekday : ℕ → ℕ
weekday d = (d + 6) % 7

-- the last year that starts before the date, from `y` downwards
unfoldable pub year_from : ℕ → ℕ → ℕ
year_from zero d = 0
year_from (suc y) d = elim (ltb (days_before_year (suc y)) d) [
  | true ↦ suc y
  | false ↦ year_from y d
]

-- `d.year`
unfoldable pub year_of : ℕ → ℕ
year_of d = year_from (d / 365 + 1) d

month_from : ℕ → ℕ → ℕ → ℕ
month_from y zero d = 0
month_from y (suc m) d = elim (leb (date y (suc m) 1) d) [ true ↦ suc m | false ↦ month_from y m d ]

-- `d.month` and `d.day`
unfoldable pub month_of : ℕ → ℕ
unfolding month_from
month_of d = month_from (year_of d) 12 d

unfoldable pub day_of : ℕ → ℕ
day_of d = d + 1 - date (year_of d) (month_of d) 1

pub record DateTime : Type 0 where
  pub day : ℕ
  pub time : ℕ  -- microseconds of the day

-- `a < b`
unfoldable pub before : DateTime → DateTime → Bool
before a b = ltb a.day b.day || (eqb a.day b.day && ltb a.time b.time)
