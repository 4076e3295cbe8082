-- ===== src/Deadline/Calendar/Bounds.antt =====
-- How far the next business days are, in the years that the calendar covers.
use case_automation_mcp.Common.{
  ℕ, zero, suc, ◌+◌, ◌-◌, ◌*◌, ◌≤◌, ◌<◌, Bool, true, false, ◌≡◌, refl, sym, ◌∙◌, inl, inr, Outcome,
  ok, err, arith, subst, ◌⊎◌,
}
use case_automation_mcp.Common.Int.{pos}
use case_automation_mcp.Deadline.Dates.{
  max_ordinal, date, days_before_year, days_before_month, is_leap,
}
use case_automation_mcp.Deadline.Calendar.{
  DateError, is_business_day, next_from, next_business_day_of, previous_business_day_of, forward,
  add_business_days, kept, adjust,
}
use case_automation_mcp.Deadline.Types.{next_business_day, previous_business_day, no_adjustment}
use case_automation_mcp.Deadline.Calendar.Walks.{
  Outcome-cases, IsNext, IsNth, next_from-IsNext, forward-next, forward-IsNth,
}
use case_automation_mcp.Deadline.Calendar.Range.{neighbours, last_day_is}

year_end_is : date 2040 12 31 ≡ 745095
unfolding date days_before_year days_before_month is_leap
year_end_is = refl

forward_none : (left d : ℕ) → forward left 0 d ≡ ok d
unfolding forward
forward_none zero d = refl
forward_none (suc left) d = refl

forward_is_near :
    (n left d : ℕ)
    → left + d ≡ max_ordinal
    → date 2020 1 3 ≤ d
    → d + 4 * n ≤ date 2040 12 31
    → (e : ℕ) × (forward left n d ≡ ok e) × (e ≤ d + 4 * n)
unfolding forward next_business_day_of
forward_is_near zero left d total low high = (d, forward_none left d, omega arith)
forward_is_near (suc n) left d total low high =
    let (e, found, near) = (neighbours d low (omega (arith, last_day_is, year_end_is))).0 in
    let left_is : max_ordinal - d ≡ left = omega (arith, total) in
    let next = subst (λ l. next_from l d ≡ ok e) left_is found in
    let (k, e_is, works, none_between) = next_from-IsNext left d e next in
    let (rest, total', walk) = forward-next left d e n next in
    let (e', returned, near') =
      forward_is_near n rest e (omega (arith, total, total')) (omega (arith, e_is))
        (omega (arith, near)) in
    (e', walk ∙ returned, omega (arith, near))

-- Between 3 January 2020 and 31 December 2040, `n` business days after a date are found within 4n
-- days. The date that `add_business_days` returns has `n` business days from the day after the start
-- up to it, and is one itself, unless `n` is 0 and it is the start.
pub add_business_days-IsNth :
    (d n : ℕ)
    → date 2020 1 3 ≤ d
    → d + 4 * n ≤ date 2040 12 31
    → (e : ℕ) × (add_business_days d (pos n) ≡ ok e) × IsNth n d e × (e ≤ d + 4 * n)
unfolding add_business_days
add_business_days-IsNth d n low high =
    let total : max_ordinal - d + d ≡ max_ordinal = omega (arith, year_end_is) in
    let (e, returned, near) = forward_is_near n (max_ordinal - d) d total low high in
    (e, returned, forward-IsNth (max_ordinal - d) n d e returned, near)

module _ (d e : ℕ) (h : previous_business_day_of (suc (suc d)) ≡ ok e) where
  previous-found : is_business_day (suc d) ≡ ok true → suc d ≡ e
  unfolding previous_business_day_of
  previous-found found =
      let at_once : previous_business_day_of (suc (suc d)) ≡ ok (suc d) =
        rw (found, previous_business_day_of) refl in
      cc

  previous-passed : is_business_day (suc d) ≡ ok false → previous_business_day_of (suc d) ≡ ok e
  unfolding previous_business_day_of
  previous-passed passed =
      let on : previous_business_day_of (suc (suc d)) ≡ previous_business_day_of (suc d) =
        rw (passed, previous_business_day_of) refl in
      sym on ∙ h

  previous-raised : (x : DateError) → ¬ (is_business_day (suc d) ≡ err x)
  unfolding previous_business_day_of
  previous-raised x raised =
      let on : previous_business_day_of (suc (suc d)) ≡ err x =
        rw (raised, previous_business_day_of) refl in
      let clash : err x ≡ ok e = sym on ∙ h in cc

no_previous :
    (e : ℕ) → ¬ (previous_business_day_of 1 ≡ ok e) × ¬ (previous_business_day_of 0 ≡ ok e)
unfolding previous_business_day_of
no_previous e = (λ h. cc, λ h. cc)

previous_lands :
    (d e : ℕ)
    → previous_business_day_of (suc d) ≡ ok e
    → (e < suc d) × (is_business_day e ≡ ok true)
previous_lands zero e h = absurd ((no_previous e).0 h)
previous_lands (suc d) e h = elim (Outcome-cases (is_business_day (suc d))) [
  | inr (x, raised) ↦ absurd (previous-raised d e h x raised)
  | inl (true, found) ↦
      let here = previous-found d e h found in
      (omega (arith, here), subst (λ x. is_business_day x ≡ ok true) here found)
  | inl (false, passed) ↦
      let (low, works) = previous_lands d e (previous-passed d e h passed) in
      (omega (arith, low), works)
]

-- what an adjustment gives: the date where it is a business day, else one found by a walk
abbrev pub Adjusted : ℕ → ℕ → Type 0 → Type 0
Adjusted d e Walked =
    ((is_business_day d ≡ ok true) × (e ≡ d)) ⊎ ((is_business_day d ≡ ok false) × Walked)

kept-Adjusted :
    (d e : ℕ) (b : Bool) (o : Outcome DateError ℕ) (Walked : ℕ → Type 0)
    → is_business_day d ≡ ok b
    → o ≡ ok e
    → Walked e
    → (a : ℕ) × (kept d o (is_business_day d) ≡ ok a) × Adjusted d a (Walked a)
kept-Adjusted d e true o Walked known found there = (d, rw known refl, inl (known, refl))
kept-Adjusted d e false o Walked known found there = (e, rw known found, inr (known, there))

-- Between 3 January 2020 and 30 December 2040, each adjustment returns a date. Adjusting to the next
-- or the previous business day keeps a business day. Else it gives the first business day after the
-- date, at most 4 days later, or a business day before the date, at most 4 days earlier. Without
-- adjustment every date is kept.
pub adjust-Adjusted :
    (d : ℕ)
    → date 2020 1 3 ≤ d
    → d ≤ date 2040 12 30
    → ((e : ℕ) × (adjust d next_business_day ≡ ok e) × Adjusted d e (IsNext d e × (e ≤ d + 4)))
      × ((e : ℕ) × (adjust d previous_business_day ≡ ok e)
          × Adjusted d e ((is_business_day e ≡ ok true) × (e < d) × (d ≤ e + 4)))
      × (adjust d no_adjustment ≡ ok d)
unfolding adjust next_business_day_of
adjust-Adjusted d low high =
    let ((e, found, near), (e', found', near'), (b, known)) = neighbours d low high in
    (
      kept-Adjusted d e b (next_business_day_of d) (λ x. IsNext d x × (x ≤ d + 4)) known found
          (next_from-IsNext (max_ordinal - d) d e found, near),
      kept-Adjusted d e' b (previous_business_day_of d)
          (λ x. (is_business_day x ≡ ok true) × (x < d) × (d ≤ x + 4)) known found'
          (let (works, sooner) = earlier d e' found' in (works, sooner, near')),
      refl,
    )
  where
    earlier :
        (d e : ℕ) → previous_business_day_of d ≡ ok e → (is_business_day e ≡ ok true) × (e < d)
    earlier zero e h = absurd ((no_previous e).1 h)
    earlier (suc d) e h = let (sooner, works) = previous_lands d e h in (works, sooner)
