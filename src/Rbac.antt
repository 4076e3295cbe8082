-- ===== src/Rbac.antt =====
-- src/cam/security/rbac.py: roles, permissions, and authorisation that denies by default.
pub mod Laws
mod Tests
use case_automation_mcp.Common.{
  String, Bool, true, false, Option, none, some, List, [], ◌∷◌, ◌==◌, truthy, elem, if◌then◌else◌,
}

pub data Role : Type 0 where
  attorney paralegal intake_coordinator operations agent_service admin : Role

pub data Permission : Type 0 where
  matter_read matter_write : Permission
  contact_read contact_write : Permission
  document_read document_write document_generate document_route : Permission
  deadline_read deadline_write : Permission
  email_draft email_send : Permission
  workflow_run workflow_status : Permission
  gate_approve : Permission
  audit_export : Permission
  rule_activate secret_rotate : Permission

unfoldable pub Role-discrete : Discrete Role
Role-discrete = hlevel

unfoldable pub Permission-discrete : Discrete Permission
Permission-discrete = hlevel

-- `Role(value)`; `none` is the `ValueError`
unfoldable pub role_of : String → Option Role
role_of s =
    if s == "attorney"
    then some attorney
    else if s == "paralegal"
    then some paralegal
    else if s == "intake_coordinator"
    then some intake_coordinator
    else if s == "operations"
    then some operations
    else if s == "agent_service"
    then some agent_service
    else if s == "admin"
    then some admin
    else none

pub record Principal : Type 0 where
  pub identity : String
  pub roles : List Role

abbrev every_permission : List Permission
every_permission =
    matter_read ∷ matter_write ∷ contact_read ∷ contact_write ∷ document_read ∷ document_write
    ∷ document_generate ∷ document_route ∷ deadline_read ∷ deadline_write ∷ email_draft ∷ email_send
    ∷ workflow_run ∷ workflow_status ∷ gate_approve ∷ audit_export ∷ rule_activate ∷ secret_rotate
    ∷ []

-- `_GRANTS`
unfoldable pub grants : Role → List Permission
grants attorney =
    matter_read ∷ matter_write ∷ contact_read ∷ contact_write ∷ document_read ∷ document_write
    ∷ document_generate ∷ document_route ∷ deadline_read ∷ deadline_write ∷ email_draft ∷ email_send
    ∷ workflow_run ∷ workflow_status ∷ gate_approve ∷ audit_export ∷ []
grants paralegal =
    matter_read ∷ matter_write ∷ contact_read ∷ contact_write ∷ document_read ∷ document_write
    ∷ document_generate ∷ deadline_read ∷ deadline_write ∷ email_draft ∷ workflow_run
    ∷ workflow_status ∷ []
grants intake_coordinator =
    matter_read ∷ contact_read ∷ contact_write ∷ document_read ∷ deadline_read ∷ email_draft
    ∷ workflow_run ∷ workflow_status ∷ []
grants operations =
    matter_read ∷ contact_read ∷ document_read ∷ deadline_read ∷ workflow_status ∷ audit_export ∷ []
grants agent_service =
    matter_read ∷ contact_read ∷ document_read ∷ deadline_read ∷ email_draft ∷ workflow_run
    ∷ workflow_status ∷ []
grants admin = every_permission

-- `if resource and resource_checker: return resource_checker(principal, resource)`
scoped : Option String → Option (Principal → String → Bool) → Principal → Bool
scoped none checker p = true
scoped (some r) none p = true
scoped (some r) (some checker) p = if truthy r then checker p r else true

granted : Role → Permission → Bool
unfolding grants Permission-discrete
granted role permission = elem Permission-discrete permission (grants role)

-- the loop of `authorize` over the roles; the first role with the grant decides
any_role : List Role → Permission → Bool → Bool
any_role [] permission answer = false
any_role (role ∷ roles) permission answer =
    if granted role permission then answer else any_role roles permission answer

unfoldable pub authorize :
    Principal → Permission → Option String → Option (Principal → String → Bool) → Bool
unfolding any_role granted scoped
authorize principal permission resource checker =
    any_role principal.roles permission (scoped resource checker principal)
