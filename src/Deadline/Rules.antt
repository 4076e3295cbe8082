-- ===== src/Deadline/Rules.antt =====
-- src/cam/core/services/deadline/rules.py. SHA-256 is a parameter, and so is what YAML and pydantic
-- make of a text, which is given field by field.
use case_automation_mcp.Common.{
  String, Bool, true, false, not, Option, none, some, List, [], ◌∷◌, ◌++◌, keep, any, map, reverse,
  Dict, lookup, insert, truthy, ◌==◌, Outcome, ok, err, if◌then◌else◌,
}
use case_automation_mcp.Deadline.Types.{
  RuleRef, Offset, ReminderOffset, AdjustMode, next_business_day, EscalationLevel, DeadlineRule,
}
pub mod Versions
mod Tests

-- `RuleValidationError` by its reason, and `KeyError`
pub data RuleError : Type 0 where
  yaml_error : RuleError
  no_mapping : RuleError
  no_rule_id : RuleError
  no_trigger : String → RuleError
  unknown_calendar : String → RuleError
  invalid_offset : String → RuleError
  invalid_reminder : String → RuleError
  invalid_escalation : String → RuleError
  no_active_rule : String → RuleError

-- The fields of a mapping: `none` for an offset, for reminders and for an escalation that pydantic
-- refuses, and for other fields that are missing. The other fields have their types.
pub record Raw : Type 0 where
  pub rule_id : Option String
  pub trigger : Option String
  pub calendar_id : Option String
  pub offset : Option Offset
  pub reminders : Option (List ReminderOffset)
  pub escalation : Option (List EscalationLevel)
  pub jurisdiction : Option String
  pub practice_area : Option String
  pub adjust : Option AdjustMode
  pub assumption_unconfirmed : Option Bool

pub data Parsed : Type 0 where
  no_yaml : Parsed
  other_value : Parsed
  mapping : Raw → Parsed

abbrev pub given : Option String → Option String
given none = none
given (some s) = if truthy s then some s else none

abbrev pub or_else {ℓ} : {A : Type ℓ} → Option A → A → A
or_else none d = d
or_else (some a) d = a

abbrev required {ℓ} :
    {A : Type ℓ}
    → Option A
    → RuleError
    → (A → Outcome RuleError DeadlineRule)
    → Outcome RuleError DeadlineRule
required none e f = err e
required (some a) e f = f a

abbrev known_calendar : String → Option String
known_calendar calendar_id = if calendar_id == "us_federal" then some calendar_id else none

validate_mapping : Raw → Outcome RuleError DeadlineRule
validate_mapping raw = required (given raw.rule_id) no_rule_id (λ id.
    required (given raw.trigger) (no_trigger id) (λ trigger.
      let calendar_id = or_else raw.calendar_id "us_federal" in
      required (known_calendar calendar_id) (unknown_calendar id) (λ _.
        required raw.offset (invalid_offset id) (λ offset.
          required raw.reminders (invalid_reminder id) (λ reminders.
            required raw.escalation (invalid_escalation id) (λ escalation. ok (record {
              rule_id = id;
              jurisdiction = or_else raw.jurisdiction "US";
              practice_area = raw.practice_area;
              trigger = trigger;
              offset = offset;
              adjust = or_else raw.adjust next_business_day;
              calendar_id = calendar_id;
              reminders = reminders;
              escalation = escalation;
              assumption_unconfirmed = or_else raw.assumption_unconfirmed true;
            })))))))

-- `_parse_and_validate`
parse_and_validate : Parsed → Outcome RuleError DeadlineRule
unfolding validate_mapping
parse_and_validate no_yaml = err yaml_error
parse_and_validate other_value = err no_mapping
parse_and_validate (mapping raw) = validate_mapping raw

abbrev pub Entry : Type 0
Entry = String × DeadlineRule

-- `RuleStore`, by rule id the versions in the order they were loaded
abbrev pub RuleStore : Type 0
RuleStore = Dict (List Entry)

-- `_registry.get(rule_id, [])`
pub entries : String → RuleStore → List Entry
entries rule_id s = or_else (lookup rule_id s) []

pub has_version : String → List Entry → Bool
has_version version l = any (λ e. e.0 == version) l

pub added : String → DeadlineRule → List Entry → List Entry
added version rule l = l ++ (version, rule) ∷ []

-- what `load` and `register_rule` do with a version
pub append_version : String → DeadlineRule → RuleStore → RuleStore
unfolding entries has_version added
append_version version rule s =
    let l = entries rule.rule_id s in
    if has_version version l then s else insert rule.rule_id (added version rule l) s

-- `version or _content_hash(...)`, with the hash of the rule as an argument
abbrev pub chosen : Option String → String → String
chosen version hash = or_else (given version) hash

pub register_rule : DeadlineRule → Option String → String → RuleStore → DeadlineRule × RuleStore
unfolding append_version
register_rule rule version hash s = (rule, append_version (chosen version hash) rule s)

-- `load` of a text with its hash and what YAML makes of it
pub load : Parsed → String → RuleStore → Outcome RuleError DeadlineRule × RuleStore
unfolding parse_and_validate append_version
load parsed hash s = elim (parse_and_validate parsed) [
  | err e ↦ (err e, s)
  | ok rule ↦ (ok rule, append_version hash rule s)
]

abbrev pub in_jurisdiction : String → Entry → Bool
in_jurisdiction jurisdiction e = e.1.jurisdiction == jurisdiction

-- the last item, or the error
abbrev pub last_or : RuleError → List Entry → Outcome RuleError Entry
last_or e [] = err e
last_or e (x ∷ []) = ok x
last_or e (x ∷ y ∷ l) = last_or e (y ∷ l)

abbrev rule_of : Outcome RuleError Entry → Outcome RuleError DeadlineRule
rule_of (ok e) = ok e.1
rule_of (err x) = err x

pub active : String → String → RuleStore → Outcome RuleError DeadlineRule
unfolding entries
active rule_id jurisdiction s =
    rule_of
      (last_or (no_active_rule rule_id) (keep (in_jurisdiction jurisdiction) (entries rule_id s)))

ref_of : String → Entry → RuleRef
ref_of rule_id e = record {
  rule_id = rule_id;
  rule_version = e.0;
  jurisdiction = e.1.jurisdiction;
  practice_area = e.1.practice_area;
}

pub versions : String → RuleStore → List RuleRef
unfolding ref_of entries
versions rule_id s = map (ref_of rule_id) (entries rule_id s)

first_version : RuleError → String → List Entry → Outcome RuleError String
first_version x jurisdiction [] = err x
first_version x jurisdiction (e ∷ l) =
    let later = first_version x jurisdiction l in
    if in_jurisdiction jurisdiction e then ok e.0 else later

-- `rule_version`
pub rule_version : String → String → RuleStore → Outcome RuleError String
unfolding active first_version entries
rule_version rule_id jurisdiction s = elim (active rule_id jurisdiction s) [
  | err x ↦ err x
  | ok _ ↦ first_version (no_active_rule rule_id) jurisdiction (reverse (entries rule_id s))
]

-- `all_rules`
pub all_rules : String → RuleStore → List (String × Entry)
all_rules jurisdiction [] = []
all_rules jurisdiction ((rule_id, l) ∷ s) =
    let rest = all_rules jurisdiction s in
    elim (last_or (no_active_rule rule_id) (keep (in_jurisdiction jurisdiction) l)) [
      | ok e ↦ (rule_id, e) ∷ rest
      | err x ↦ rest
    ]
