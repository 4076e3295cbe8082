-- ===== src/Intake/Dedupe.antt =====
-- src/cam/core/workflows/intake/dedupe.py. The search of the CRM is an argument: the contacts for a
-- text, or `none` where it raises. Scores are numbers of hundredths, and reasons are left out.
use case_automation_mcp.Common.{
  ℕ, suc, String, Bool, true, false, Option, none, some, List, [], ◌∷◌, keep, Dict, lookup, truthy,
  ◌==◌, if◌then◌else◌,
}
pub mod Reuse
mod Tests

pub record Contact : Type 0 where
  pub id : String
  pub source : String
  pub email : Option String
  pub external_ids : Dict String

-- the fields of `IntakeFields` that are read
pub record IntakeFields : Type 0 where
  pub email : Option String
  pub full_name : Option String
  pub a_number : Option String

pub record MatchRef : Type 0 where
  pub contact_id : String
  pub source : String
  pub score : ℕ

pub data DedupeDecision : Type 0 where
  new_contact : DedupeDecision
  reuse_contact : DedupeDecision
  ambiguous : DedupeDecision

pub record DedupeResult : Type 0 where
  pub contact_match : Option MatchRef
  pub decision : DedupeDecision
  pub score : ℕ

-- a gap, by its field and whether it blocks
pub record IntakeGap : Type 0 where
  pub field_name : String
  pub blocks : Bool

abbrev pub Crm : Type 0
Crm = String → Option (List Contact)

-- a field that is there and not empty
abbrev pub given : Option String → Option String
given none = none
given (some s) = if truthy s then some s else none

-- what a search adds to the candidates; what it raises is swallowed
abbrev found : Option (List Contact) → List Contact
found none = []
found (some l) = l

abbrev search : Crm → Option String → List Contact
search crm none = []
search crm (some s) = found (crm s)

-- by email, and by name where that gives nobody
pub candidates : Crm → IntakeFields → List Contact
candidates crm f = elim (search crm (given f.email)) [
  | [] ↦ search crm (given f.full_name)
  | c ∷ l ↦ c ∷ l
]

abbrev pub or_empty : Option String → String
or_empty none = ""
or_empty (some s) = s

pub has_email : String → Contact → Bool
has_email email c = or_empty c.email == email

pub has_a_number : String → Contact → Bool
has_a_number a c = elim (lookup "a_number" c.external_ids) [ some b ↦ b == a | none ↦ false ]

match_of : Contact → ℕ → MatchRef
match_of c score = record { contact_id = c.id; source = c.source; score = score }

pub reuse : Contact → DedupeResult × List IntakeGap
unfolding match_of
reuse c =
    (record { contact_match = some (match_of c 100); decision = reuse_contact; score = 100 }, [])

-- the only one, if there is only one
pub only : List Contact → Option Contact
only [] = none
only (c ∷ []) = some c
only (c ∷ d ∷ l) = none

pub exact : (String → Contact → Bool) → Option String → List Contact → Option Contact
unfolding only
exact p none l = none
exact p (some s) l = only (keep (p s) l)

pub unclear : List Contact → DedupeResult × List IntakeGap
unfolding match_of
unclear [] = (record { contact_match = none; decision = new_contact; score = 0 }, [])
unclear (c ∷ []) = (
  record { contact_match = some (match_of c 60); decision = ambiguous; score = 60 },
  record { field_name = "contact_id"; blocks = true } ∷ [],
)
unclear (c ∷ d ∷ l) = (
  record { contact_match = none; decision = ambiguous; score = 50 },
  record { field_name = "contact_id"; blocks = true } ∷ [],
)

pub by_a_number : IntakeFields → List Contact → Option Contact → DedupeResult × List IntakeGap
by_a_number f l (some c) = reuse c
by_a_number f l none = unclear l

pub by_email : IntakeFields → List Contact → Option Contact → DedupeResult × List IntakeGap
unfolding by_a_number
by_email f l (some c) = reuse c
by_email f l none = by_a_number f l (exact has_a_number (given f.a_number) l)

pub dedupe_contact : Crm → IntakeFields → DedupeResult × List IntakeGap
unfolding by_email
dedupe_contact crm f =
    by_email f (candidates crm f) (exact has_email (given f.email) (candidates crm f))
