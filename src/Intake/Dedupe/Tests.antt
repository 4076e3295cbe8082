-- ===== src/Intake/Dedupe/Tests.antt =====
-- A lead with the email of one of two contacts.
use case_automation_mcp.Common.{◌≡◌, ◌⊎◌, refl, none, some, lookup, [], ◌∷◌}
use case_automation_mcp.Intake.Dedupe.{
  Contact, IntakeFields, reuse_contact, Crm, candidates, has_email, reuse, exact, by_email,
  dedupe_contact,
}
use case_automation_mcp.Intake.Dedupe.Reuse.{OnlyMatch, dedupe_contact-reuse}

abbrev ann : Contact
ann = record { id = "c1"; source = "crm"; email = some "ann@x"; external_ids = [] }

abbrev a_crm : Crm
a_crm s = some (record ann { id = "c2"; email = none } ∷ ann ∷ [])

abbrev a_lead : IntakeFields
a_lead = record { email = some "ann@x"; full_name = some "Ann"; a_number = none }

is_reused : (dedupe_contact a_crm a_lead).0.decision ≡ reuse_contact
unfolding dedupe_contact by_email exact has_email candidates reuse
is_reused = refl

dedupe_contact-reuse_example :
    (c : Contact) × (dedupe_contact a_crm a_lead ≡ reuse c)
    × (OnlyMatch (λ d. d.email) a_lead.email (candidates a_crm a_lead) c
        ⊎ OnlyMatch
            (λ d. lookup "a_number" d.external_ids)
            a_lead.a_number
            (candidates a_crm a_lead)
            c)
dedupe_contact-reuse_example = dedupe_contact-reuse a_crm a_lead is_reused
