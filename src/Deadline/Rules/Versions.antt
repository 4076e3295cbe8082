-- ===== src/Deadline/Rules/Versions.antt =====
-- Sequences of loads, against a function from rule ids to versions.
use mathlib.Core.List.{append_assoc, append-nil}
use case_automation_mcp.Common.{
  String, true, false, ◌≡◌, refl, sym, ◌∙◌, ap, inl, inr, Option, List, [], ◌∷◌, ◌++◌, insert,
  lookup-insert, ◌==◌, eq_iff, if◌then◌else◌, Bool-cases, subst, fun_ext,
}
use case_automation_mcp.Deadline.Types.{DeadlineRule}
use case_automation_mcp.Deadline.Rules.{
  Entry, RuleStore, entries, has_version, added, append_version, register_rule, chosen,
}

-- a call of `register_rule`: the rule, the version that is asked for, and the hash of the rule
pub record Registration : Type 0 where
  pub rule : DeadlineRule
  pub version : Option String
  pub hash : String

unfoldable pub run : List Registration → RuleStore → RuleStore
run [] s = s
run (r ∷ rs) s = run rs (register_rule r.rule r.version r.hash s).1

-- the same calls on a function: a version that is new for its rule goes to the end
pub register_abstractly : Registration → (String → List Entry) → String → List Entry
register_abstractly r f k =
    if r.rule.rule_id == k
    then (if has_version (chosen r.version r.hash) (f k)
        then f k
        else f k ++ (chosen r.version r.hash, r.rule) ∷ [])
    else f k

unfoldable pub replay : List Registration → (String → List Entry) → String → List Entry
unfolding register_abstractly
replay [] f = f
replay (r ∷ rs) f = replay rs (register_abstractly r f)

entries-insert :
    (k j : String) (l : List Entry) (s : RuleStore)
    → entries j (insert k l s) ≡ (if k == j then l else entries j s)
unfolding entries
entries-insert k j l s =
    rw (lookup-insert k j l s)
      elim (Bool-cases (k == j)) [ inl same ↦ rw same refl | inr other ↦ rw other refl ]

entries-append_version :
    (version : String) (rule : DeadlineRule) (s : RuleStore) (k : String)
    → entries k (append_version version rule s) ≡ (
        if rule.rule_id == k
        then (if has_version version (entries k s)
            then entries k s
            else entries k s ++ (version, rule) ∷ [])
        else entries k s)
unfolding append_version added
entries-append_version version rule s k =
    elim (Bool-cases (has_version version (entries rule.rule_id s))) [
      | inl there ↦ rw there elim (Bool-cases (rule.rule_id == k)) [
        | inl same ↦
            let e = (eq_iff rule.rule_id k).0 same in
            let there' = subst (λ j. has_version version (entries j s) ≡ true) e there in
            rw (same, there') refl
        | inr other ↦ rw other refl
      ]
      | inr new ↦
          rw (new, entries-insert rule.rule_id k (entries rule.rule_id s ++ (version, rule) ∷ []) s)
            elim (Bool-cases (rule.rule_id == k)) [
              | inl same ↦
                  let e = (eq_iff rule.rule_id k).0 same in
                  let new' = subst (λ j. has_version version (entries j s) ≡ false) e new in
                  rw (same, new') (ap (λ j. entries j s ++ (version, rule) ∷ []) e)
              | inr other ↦ rw other refl
            ]
    ]

entries-register_rule :
    (r : Registration) (s : RuleStore) (k : String)
    → entries k (register_rule r.rule r.version r.hash s).1
      ≡ register_abstractly r (λ j. entries j s) k
unfolding register_rule register_abstractly
entries-register_rule r s k = entries-append_version (chosen r.version r.hash) r.rule s k

pub run_refines :
    (rs : List Registration) (s : RuleStore)
    → (λ k. entries k (run rs s)) ≡ replay rs (λ k. entries k s)
unfolding run replay
run_refines [] s = refl
run_refines (r ∷ rs) s =
    run_refines rs (register_rule r.rule r.version r.hash s).1
    ∙ ap (replay rs) (fun_ext (λ k. entries-register_rule r s k))

register-appends :
    (r : Registration) (f : String → List Entry) (k : String)
    → (later : List Entry) × (register_abstractly r f k ≡ f k ++ later)
unfolding register_abstractly
register-appends r f k = elim (Bool-cases (r.rule.rule_id == k)) [
  | inr other ↦ ([], rw (other, append-nil (f k)) refl)
  | inl same ↦ elim (Bool-cases (has_version (chosen r.version r.hash) (f k))) [
    | inl there ↦ ([], rw (same, there, append-nil (f k)) refl)
    | inr new ↦ ((chosen r.version r.hash, r.rule) ∷ [], rw (same, new) refl)
  ]
]

replay-appends :
    (rs : List Registration) (f : String → List Entry) (k : String)
    → (later : List Entry) × (replay rs f k ≡ f k ++ later)
unfolding replay
replay-appends [] f k = ([], sym (append-nil (f k)))
replay-appends (r ∷ rs) f k =
    let (l, first) = register-appends r f k in
    let (l', rest) = replay-appends rs (register_abstractly r f) k in
    (l ++ l', rest ∙ ap (λ x. x ++ l') first ∙ append_assoc (f k) l l')

-- No call of `register_rule` removes, changes or reorders versions of a rule: after any calls the
-- versions of a rule id are those from before, followed by others.
pub run_appends :
    (rs : List Registration) (s : RuleStore) (k : String)
    → (later : List Entry) × (entries k (run rs s) ≡ entries k s ++ later)
run_appends rs s k =
    let (later, e) = replay-appends rs (λ j. entries j s) k in
    (later, ap (λ f. f k) (run_refines rs s) ∙ e)
