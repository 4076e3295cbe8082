-- ===== src/Deadline/Reconcile/Drifts.antt =====
-- When a reconciliation finds nothing.
use case_automation_mcp.Common.{
  ◌+◌, ◌≤◌, String, true, false, ◌≡◌, ◌≢◌, ap, ◌↔◌, ◌⊎◌, refl, sym, inl, inr, Option, none, some,
  List, [], ◌∷◌, ◌++◌, All, Any, eq_iff, false, ◌==◌, arith, Bool-cases, subst,
}
use mathlib.Core.Option.{some_inj}
use case_automation_mcp.Deadline.Dates.{DateTime}
use case_automation_mcp.Deadline.Types.{ScheduledDeadline}
use case_automation_mcp.Deadline.Schedule.{Engine}
use case_automation_mcp.Deadline.Reconcile.{
  CaseDeadline, has_rule, instant, far_apart, engine_deadlines, find_case, compared, engine_side,
  in_engine, case_drift, case_side, reconcile,
}

-- at most a day apart
abbrev pub Close : DateTime → DateTime → Type 0
Close a b = (instant a ≤ instant b + 86400000000) × (instant b ≤ instant a + 86400000000)

-- `d` is in the list, has the rule, and none before it has
unfoldable pub FirstWith : String → CaseDeadline → List CaseDeadline → Type 0
FirstWith id d [] = ⊥
FirstWith id d (e ∷ l) =
    ((e ≡ d) × (d.rule_id ≡ some id)) ⊎ ((e.rule_id ≢ some id) × FirstWith id d l)

-- the first deadline of the case system with the rule of `sd` is due within a day of `sd`
abbrev pub Covered : List CaseDeadline → ScheduledDeadline → Type 0
Covered cases sd =
    (d : CaseDeadline) × FirstWith sd.rule_ref.rule_id d cases × Close d.due_at sd.trace.due_at

-- a rule that a deadline of the case system names is the rule of a deadline of the engine
abbrev pub Tracked : List ScheduledDeadline → Option String → Type 0
Tracked l none = Unit
Tracked l (some id) = (id ≡ "") ⊎ Any (λ sd. sd.rule_ref.rule_id ≡ id) l

append_nil_iff : {A : Type 0} (xs ys : List A) → (xs ++ ys ≡ []) ↔ ((xs ≡ []) × (ys ≡ []))
append_nil_iff [] ys = (λ h. (refl, h), λ h. h.1)
append_nil_iff (x ∷ xs) ys = (λ h. cc, λ h. let e = h.0 in cc)

parts_iff :
    {A P Q : Type 0} (xs ys : List A) → (xs ≡ []) ↔ P → (ys ≡ []) ↔ Q → (xs ++ ys ≡ []) ↔ (P × Q)
parts_iff xs ys p q = (
  λ h. let (a, b) = (append_nil_iff xs ys).0 h in (p.0 a, q.0 b),
  λ h. (append_nil_iff xs ys).1 (p.1 h.0, q.1 h.1),
)

far_apart_iff : (a b : DateTime) → (far_apart a b ≡ false) ↔ Close a b
unfolding far_apart
far_apart_iff a b = ground arith

has_rule_iff : (id : String) (d : CaseDeadline) → (has_rule id d ≡ true) ↔ (d.rule_id ≡ some id)
has_rule_iff id d = named_iff d.rule_id
  where
    named_iff :
        (o : Option String) → ((elim o [ some r ↦ r == id | none ↦ false ]) ≡ true) ↔ (o ≡ some id)
    named_iff none = (λ h. cc, λ h. cc)
    named_iff (some r) = (λ h. ap some ((eq_iff r id).0 h), λ h. (eq_iff r id).1 (some_inj.0 h))

find_case_iff :
    (id : String) (d : CaseDeadline) (l : List CaseDeadline)
    → (find_case id l ≡ some d) ↔ FirstWith id d l
unfolding find_case FirstWith
find_case_iff id d [] = (λ h. cc, λ h. absurd h)
find_case_iff id d (e ∷ l) = elim (Bool-cases (has_rule id e)) [
  | inl there ↦
      let named = (has_rule_iff id e).0 there in
      (
        λ h.
            let same : e ≡ d = some_inj.0 (rw there at h) in
            inl (same, subst (λ x. x.rule_id ≡ some id) same named),
        λ h. elim h [ inl p ↦ rw there (ap some p.0) | inr p ↦ absurd (p.0 named) ],
      )
  | inr other ↦ (
    λ h. inr (
      λ named. cc ((has_rule_iff id e).1 named, other),
      (find_case_iff id d l).0 (rw other at h),
    ),
    λ h. elim h [
      | inl p ↦ cc ((has_rule_iff id e).1 (subst (λ x. x.rule_id ≡ some id) (sym p.0) p.1), other)
      | inr p ↦ rw other ((find_case_iff id d l).1 p.1)
    ],
  )
]

compared_iff :
    (m : String) (now : DateTime) (sd : ScheduledDeadline) (o : Option CaseDeadline)
    → (compared m now sd o ≡ [])
      ↔ ((d : CaseDeadline) × (o ≡ some d) × Close d.due_at sd.trace.due_at)
unfolding compared
compared_iff m now sd none = (λ h. cc, λ h. let e = h.1 in cc)
compared_iff m now sd (some d) = elim (Bool-cases (far_apart d.due_at sd.trace.due_at)) [
  | inl far ↦ rw far (λ h. cc, λ h. absurd (not_close far h.1 h.2))
  | inr near ↦ rw near (λ h. (d, refl, (far_apart_iff d.due_at sd.trace.due_at).0 near), λ h. refl)
]
  where
    not_close :
        far_apart d.due_at sd.trace.due_at ≡ true
        → {x : CaseDeadline} → some d ≡ some x
        → Close x.due_at sd.trace.due_at
        → ⊥
    not_close far {x} same close =
        let same_d : d ≡ x = cc in
        let near =
          (far_apart_iff d.due_at sd.trace.due_at).1
            (subst (λ y. Close y.due_at sd.trace.due_at) (sym same_d) close) in
        cc

engine_drift_iff :
    (m : String) (now : DateTime) (cases : List CaseDeadline) (sd : ScheduledDeadline)
    → (compared m now sd (find_case sd.rule_ref.rule_id cases) ≡ []) ↔ Covered cases sd
engine_drift_iff m now cases sd =
    let (to, from) = compared_iff m now sd (find_case sd.rule_ref.rule_id cases) in
    (
      λ h.
          let (d, found, near) = to h in
          (d, (find_case_iff sd.rule_ref.rule_id d cases).0 found, near),
      λ h.
          let (d, first, near) = h in
          from (d, (find_case_iff sd.rule_ref.rule_id d cases).1 first, near),
    )

engine_side_iff :
    (m : String) (now : DateTime) (cases : List CaseDeadline) (l : List ScheduledDeadline)
    → (engine_side m now cases l ≡ []) ↔ All (Covered cases) l
unfolding engine_side
engine_side_iff m now cases [] = (λ h. tt, λ h. refl)
engine_side_iff m now cases (sd ∷ l) =
    parts_iff (compared m now sd (find_case sd.rule_ref.rule_id cases)) (engine_side m now cases l)
      (engine_drift_iff m now cases sd) (engine_side_iff m now cases l)

in_engine_iff :
    (id : String) (l : List ScheduledDeadline)
    → (in_engine id l ≡ true) ↔ Any (λ sd. sd.rule_ref.rule_id ≡ id) l
unfolding in_engine
in_engine_iff id [] = (λ h. cc, λ h. absurd h)
in_engine_iff id (sd ∷ l) = ground (arith, in_engine_iff id l, eq_iff sd.rule_ref.rule_id id)

case_drift_iff :
    (m : String) (now : DateTime) (l : List ScheduledDeadline) (o : Option String)
    → (case_drift m now l o ≡ []) ↔ Tracked l o
unfolding case_drift
case_drift_iff m now l none = (λ h. tt, λ h. refl)
case_drift_iff m now l (some id) = ground (arith, in_engine_iff id l, eq_iff id "")

case_side_iff :
    (m : String) (now : DateTime) (l : List ScheduledDeadline) (cases : List CaseDeadline)
    → (case_side m now l cases ≡ []) ↔ All (λ d. Tracked l d.rule_id) cases
unfolding case_side
case_side_iff m now l [] = (λ h. tt, λ h. refl)
case_side_iff m now l (d ∷ cases) =
    parts_iff (case_drift m now l d.rule_id) (case_side m now l cases)
      (case_drift_iff m now l d.rule_id) (case_side_iff m now l cases)

-- A reconciliation for which the case system answers finds nothing just when, for every deadline of
-- the matter in the engine, the first deadline of the case system with its rule is due within a day
-- of it, and every rule that a deadline of the case system names is the rule of one in the engine.
pub reconcile_iff :
    (m : String) (now : DateTime) (g : Engine) (cases : List CaseDeadline)
    → ((reconcile m now g (some cases)).0 ≡ []) ↔ (
        All (Covered cases) (engine_deadlines m g)
        × All (λ d. Tracked (engine_deadlines m g) d.rule_id) cases)
unfolding reconcile
reconcile_iff m now g cases =
    parts_iff (engine_side m now cases (engine_deadlines m g))
      (case_side m now (engine_deadlines m g) cases)
      (engine_side_iff m now cases (engine_deadlines m g))
      (case_side_iff m now (engine_deadlines m g) cases)
