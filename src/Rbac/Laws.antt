-- ===== src/Rbac/Laws.antt =====
-- When `authorize` allows, and what the grants keep apart.
use case_automation_mcp.Common.{
  String, Bool, true, false, ◌≡◌, refl, ◌↔◌, ◌⊎◌, inl, inr, Option, none, some, List, [], ◌∷◌,
  arith, Any, Bool-cases, In, elem, elem_iff, truthy, if◌then◌else◌,
}
use case_automation_mcp.Rbac.{
  Role, attorney, paralegal, intake_coordinator, operations, agent_service, admin, Permission,
  gate_approve, Permission-discrete, Principal, grants, scoped, granted, any_role, authorize,
}

abbrev pub Grants : Permission → Role → Type 0
Grants p role = In p (grants role)

-- What a resource check asks, where there is one: a resource that is named and a checker.
abbrev pub InScope : Option String → Option (Principal → String → Bool) → Principal → Type 0
InScope none checker p = Unit
InScope (some r) none p = Unit
InScope (some r) (some checker) p = truthy r ≡ true → checker p r ≡ true

scoped_iff :
    (r : Option String) (c : Option (Principal → String → Bool)) (p : Principal)
    → (scoped r c p ≡ true) ↔ InScope r c p
unfolding scoped
scoped_iff none c p = (λ h. tt, λ h. refl)
scoped_iff (some r) none p = (λ h. tt, λ h. refl)
scoped_iff (some r) (some c) p = (λ h t. rw t at h, from)
  where
    from : (truthy r ≡ true → c p r ≡ true) → (if truthy r then c p r else true) ≡ true
    from f = elim (Bool-cases (truthy r)) [ inl t ↦ rw t (f t) | inr n ↦ rw n ]

any_role_iff :
    (roles : List Role) (permission : Permission) (answer : Bool)
    → (any_role roles permission answer ≡ true) ↔ (Any (Grants permission) roles × (answer ≡ true))
unfolding any_role granted
any_role_iff [] p answer = (λ h. cc, λ h. absurd h.0)
any_role_iff (role ∷ roles) p answer =
    elim (Bool-cases (elem Permission-discrete p (grants role))) [
      | inl has ↦ (
        λ h. (inl ((elem_iff Permission-discrete p (grants role)).0 has), rw has at h),
        λ h. rw has h.1,
      )
      | inr lacks ↦ (
        λ h. let (m, a) = (any_role_iff roles p answer).0 (rw lacks at h) in (inr m, a),
        λ h. rw lacks ((any_role_iff roles p answer).1 (skip lacks h.0, h.1)),
      )
    ]
  where
    skip :
        elem Permission-discrete p (grants role) ≡ false
        → Grants p role ⊎ Any (Grants p) roles
        → Any (Grants p) roles
    skip lacks (inl m) = cc (lacks, (elem_iff Permission-discrete p (grants role)).1 m)
    skip lacks (inr m) = m

-- Access is allowed exactly when one of the roles grants the permission and, where a resource and a
-- checker are given, the checker agrees.
pub authorize_iff :
    (p : Principal) (permission : Permission) (resource : Option String)
    (checker : Option (Principal → String → Bool))
    → (authorize p permission resource checker ≡ true)
      ↔ (Any (Grants permission) p.roles × InScope resource checker p)
unfolding authorize
authorize_iff p permission resource checker =
    let (to, from) = any_role_iff p.roles permission (scoped resource checker p) in
    let (see, build) = scoped_iff resource checker p in
    (λ h. ((to h).0, see (to h).1), λ h. from (h.0, build h.1))

abbrev pub MayApprove : Role → Type 0
MayApprove role = (role ≡ attorney) ⊎ (role ≡ admin)

approver_of_Grants : (role : Role) → Grants gate_approve role → MayApprove role
unfolding grants
approver_of_Grants attorney h = inl refl
approver_of_Grants admin h = inr refl
approver_of_Grants paralegal h = ground arith
approver_of_Grants intake_coordinator h = ground arith
approver_of_Grants operations h = ground arith
approver_of_Grants agent_service h = ground arith

Any-approver : (roles : List Role) → Any (Grants gate_approve) roles → Any MayApprove roles
Any-approver [] m = absurd m
Any-approver (r ∷ roles) (inl g) = inl (approver_of_Grants r g)
Any-approver (r ∷ roles) (inr m) = inr (Any-approver roles m)

-- A principal that may approve a gate is an attorney or an administrator, in one of its roles.
pub authorize-gate_approve :
    (p : Principal) (resource : Option String) (checker : Option (Principal → String → Bool))
    → authorize p gate_approve resource checker ≡ true
    → Any MayApprove p.roles
authorize-gate_approve p resource checker h =
    Any-approver p.roles ((authorize_iff p gate_approve resource checker).0 h).0
