-- ===== src/Rbac/Tests.antt =====
-- Access at concrete principals.
use case_automation_mcp.Common.{true, ◌≡◌, ◌↔◌, refl, none, [], ◌∷◌, Any}
use case_automation_mcp.Rbac.{
  attorney, paralegal, gate_approve, Principal, authorize, grants, any_role, granted, scoped,
  Permission-discrete,
}
use case_automation_mcp.Rbac.Laws.{Grants, InScope, authorize_iff}

abbrev a_lawyer : Principal
a_lawyer = record { identity = "jo"; roles = paralegal ∷ attorney ∷ [] }

authorize_iff_example :
    (authorize a_lawyer gate_approve none none ≡ true)
    ↔ (Any (Grants gate_approve) a_lawyer.roles × InScope none none a_lawyer)
authorize_iff_example = authorize_iff a_lawyer gate_approve none none

allowed : authorize a_lawyer gate_approve none none ≡ true
unfolding authorize any_role granted scoped grants Permission-discrete
allowed = refl
