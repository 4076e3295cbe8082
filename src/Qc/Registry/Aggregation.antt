-- ===== src/Qc/Registry/Aggregation.antt =====
-- The aggregate verdict of a list of results.
use case_automation_mcp.Common.{
  Bool, true, false, ◌≡◌, refl, ◌↔◌, ◌⊎◌, inl, inr, List, [], ◌∷◌, any, Any, In, Bool-cases, arith,
  Dict, keep, values, none, ap, ◌∙◌,
}
use case_automation_mcp.Qc.Types.{
  Verdict, pass, warn, fail, skipped, allows, is_skipped, block, all_pass, CheckResult, Check, Ran,
  result, raised, timed_out, VerificationPacket,
}
use case_automation_mcp.Qc.Registry.{
  aggregate, is_fail, is_warn, settle_check, run_each, run_checks, select, applicable_checks,
  sort_by_id, applies,
}

abbrev pub HasVerdict : Verdict → List CheckResult → Type 0
HasVerdict v rs = Any (λ r. r.verdict ≡ v) rs

is_fail_iff : (v : Verdict) → (is_fail v ≡ true) ↔ (v ≡ fail)
is_fail_iff pass = (λ h. cc, λ h. cc)
is_fail_iff warn = (λ h. cc, λ h. cc)
is_fail_iff fail = (λ h. refl, λ h. refl)
is_fail_iff skipped = (λ h. cc, λ h. cc)

is_warn_iff : (v : Verdict) → (is_warn v ≡ true) ↔ (v ≡ warn)
is_warn_iff pass = (λ h. cc, λ h. cc)
is_warn_iff warn = (λ h. refl, λ h. refl)
is_warn_iff fail = (λ h. cc, λ h. cc)
is_warn_iff skipped = (λ h. cc, λ h. cc)

any_iff :
    (p : Verdict → Bool) (v : Verdict) (rs : List CheckResult)
    → ((x : Verdict) → (p x ≡ true) ↔ (x ≡ v))
    → (any (λ r. p r.verdict) rs ≡ true) ↔ HasVerdict v rs
any_iff p v [] e = (λ h. cc, λ h. absurd h)
any_iff p v (r ∷ rs) e = elim (Bool-cases (p r.verdict)) [
  | inl yes_ ↦ (λ h. inl ((e r.verdict).0 yes_), λ h. rw yes_ refl)
  | inr no_ ↦ (
    λ h. inr ((any_iff p v rs e).0 (rw no_ at h)),
    λ h. rw no_ ((any_iff p v rs e).1 (skip no_ h)),
  )
]
  where
    skip : p r.verdict ≡ false → (r.verdict ≡ v) ⊎ HasVerdict v rs → HasVerdict v rs
    skip n (inl m) = cc ((e r.verdict).1 m, n)
    skip n (inr m) = m

-- The aggregate blocks exactly when some result fails, and passes without warnings exactly when
-- none fails or warns.
pub aggregate_iff :
    (rs : List CheckResult)
    → ((aggregate rs ≡ block) ↔ HasVerdict fail rs)
      × ((aggregate rs ≡ all_pass) ↔ ((¬ HasVerdict fail rs) × (¬ HasVerdict warn rs)))
unfolding aggregate
aggregate_iff rs =
    let f = any_iff is_fail fail rs is_fail_iff in
    let w = any_iff is_warn warn rs is_warn_iff in
    elim (Bool-cases (any (λ r. is_fail r.verdict) rs)) [
      | inl bad ↦ (rw bad (λ h. f.0 bad, λ h. refl), rw bad (λ h. cc, λ h. absurd (h.0 (f.0 bad))))
      | inr good ↦ elim (Bool-cases (any (λ r. is_warn r.verdict) rs)) [
        | inl warned ↦ (
          rw (good, warned) (λ h. cc, λ h. cc (f.1 h, good)),
          rw (good, warned) (λ h. cc, λ h. absurd (h.1 (w.0 warned))),
        )
        | inr fine ↦ (
          rw (good, fine) (λ h. cc, λ h. cc (f.1 h, good)),
          rw (good, fine) (λ h. (λ b. cc (f.1 b, good), λ b. cc (w.1 b, fine)), λ h. refl),
        )
      ]
    ]

-- how a check goes wrong: no result, or a verdict that its policy does not have
unfoldable pub Misbehaves : Check → Ran → Type 0
Misbehaves c (raised name) = Unit
Misbehaves c timed_out = Unit
Misbehaves c (result r) = (allows c.severity_policy r.verdict ≡ false)

is_skipped-allows : (l : List Verdict) (v : Verdict) → allows l v ≡ false → is_skipped v ≡ false
unfolding allows
is_skipped-allows l v h = ground (arith, h)

fails-settle_check : (c : Check) (r : Ran) → Misbehaves c r → (settle_check c r).verdict ≡ fail
unfolding settle_check Misbehaves
fails-settle_check c (raised name) h = refl
fails-settle_check c timed_out h = refl
fails-settle_check c (result r) h = rw (h, is_skipped-allows c.severity_policy r.verdict h)

pub HasVerdict-run_each :
    (p : VerificationPacket) (c : Check) (cs : List Check)
    → In c cs
    → (settle_check c (c.run p)).verdict ≡ fail
    → HasVerdict fail (run_each p cs)
unfolding run_each
HasVerdict-run_each p c [] m e = absurd m
HasVerdict-run_each p c (d ∷ cs) (inl same) e =
    inl (ap (λ c. (settle_check c (c.run p)).verdict) same ∙ e)
HasVerdict-run_each p c (d ∷ cs) (inr m) e = inr (HasVerdict-run_each p c cs m e)

-- A packet is blocked as soon as one of the checks that run on it raises, takes too long, or gives
-- a verdict outside its policy.
pub run_each-fail_closed :
    (p : VerificationPacket) (c : Check) (cs : List Check)
    → In c cs
    → Misbehaves c (c.run p)
    → aggregate (run_each p cs) ≡ block
run_each-fail_closed p c cs m bad =
    (aggregate_iff (run_each p cs)).0.1
      (HasVerdict-run_each p c cs m (fails-settle_check c (c.run p) bad))

-- a failing result stays one
pub fail-settle_check :
    (c : Check) (r : CheckResult) → r.verdict ≡ fail → (settle_check c (result r)).verdict ≡ fail
unfolding settle_check
fail-settle_check c r h = elim (Bool-cases (allows c.severity_policy r.verdict)) [
  | inl within ↦ ground (arith, within, h)
  | inr beyond ↦ ground (arith, beyond, h)
]

-- a check that applies and fails blocks a run of all checks
pub aggregate-fails :
    (p : VerificationPacket) (r : Dict Check) (c : Check)
    → In c (sort_by_id (keep (λ c. applies c.applies_to p.kind) (values r)))
    → (settle_check c (c.run p)).verdict ≡ fail
    → (run_checks p none r).aggregate ≡ block
unfolding run_checks select applicable_checks
aggregate-fails p r c m e = (aggregate_iff _).0.1 (HasVerdict-run_each p c _ m e)
