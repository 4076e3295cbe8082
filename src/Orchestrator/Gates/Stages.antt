-- ===== src/Orchestrator/Gates/Stages.antt =====
-- What each stage of `resolve_gate` has established when it lets a request through.
use case_automation_mcp.Common.{
  ℕ, String, true, ◌≡◌, refl, Option, none, some, Outcome, ok, err, arith, ◌≤◌, >>=-eq-ok, is_yes,
  is_yes-true, Bool-cases, inl, inr, sym, ap, [], ◌∷◌,
}
use case_automation_mcp.Rbac.{Role, Role-discrete, gate_approve, role_of, authorize}
use case_automation_mcp.Orchestrator.States.{GateStatus, GateRequest, ApprovalToken}
use case_automation_mcp.Orchestrator.Store.{mark_token_used, get_gate_request}
use case_automation_mcp.Orchestrator.Gates.{
  Codec, Payload, Desk, verify_token, checked, unexpired, known_token, spend, pending_gate,
  holds_role, authorised, admit, inspect,
}

-- the actor's role is the one that the gate asks for, and it grants approval
pub record HasRole (actor : String) (g : GateRequest) : Type 0 where
  pub role : Role
  pub acts_as : role_of actor ≡ some role
  pub asked : role_of g.required_role ≡ some role
  pub allowed :
      authorize (record { identity = actor; roles = role ∷ [] }) gate_approve none none ≡ true

module _ (w w' : Desk) where
  checked-ok :
      {F : Type 0} (actor : String) (o : Outcome F Payload) (p : Payload)
      → checked actor o w ≡ (ok p, w')
      → (o ≡ ok p) × (w' ≡ w)
  unfolding checked
  checked-ok actor (ok q) p h = (cc, cc)
  checked-ok actor (err e) p h = cc

  unexpired-ok :
      (now : ℕ) (actor : String) (p : Payload)
      → unexpired now actor p w ≡ (ok tt, w')
      → (now ≤ p.exp) × (w' ≡ w)
  unfolding unexpired
  unexpired-ok now actor p h = ground arith

  known_token-ok : (p : Payload) (t : ApprovalToken) → known_token p w ≡ (ok t, w') → w' ≡ w
  unfolding known_token
  known_token-ok p t h = ground arith

  spend-ok :
      (now : ℕ) (actor : String) (p : Payload)
      → spend now actor p w ≡ (ok tt, w')
      → ((mark_token_used p.tid now w.store).0 ≡ true)
        × (w' ≡ record w { store = (mark_token_used p.tid now w.store).1 })
  unfolding spend
  spend-ok now actor p h = ground arith

  pending_gate-ok :
      (p : Payload) (g : GateRequest)
      → pending_gate p w ≡ (ok g, w')
      → (get_gate_request p.gid w.store ≡ some g) × (g.status ≡ GateStatus.pending) × (w' ≡ w)
  unfolding pending_gate
  pending_gate-ok p g h = ground arith

  holds_role-ok :
      (actor : String) (r : Role) (o : Option Role)
      → holds_role actor r o w ≡ (ok tt, w')
      → (o ≡ some r)
        × (authorize (record { identity = actor; roles = r ∷ [] }) gate_approve none none ≡ true)
        × (w' ≡ w)
  unfolding holds_role
  holds_role-ok actor r none h = cc
  holds_role-ok actor r (some q) h = elim (Bool-cases (is_yes (Role-discrete r q))) [
    | inl same ↦
        let e : some q ≡ some r = ap some (sym (is_yes-true (Role-discrete r q) same)) in
        let h' = rw same at h in (e, ground (arith, h'), ground (arith, h'))
    | inr other ↦ let h' = rw other at h in cc
  ]

  authorised-ok :
      (actor : String) (o : Option Role) (g : GateRequest)
      → role_of actor ≡ o
      → authorised actor o g w ≡ (ok tt, w')
      → HasRole actor g × (w' ≡ w)
  unfolding authorised
  authorised-ok actor none g e h = cc
  authorised-ok actor (some r) g e h =
      let (asked, allowed, same) = holds_role-ok actor r (role_of g.required_role) h in
      (record { role = r; acts_as = e; asked = asked; allowed = allowed }, same)

-- what 4. to 6. have established
pub record Admitted (now : ℕ) (actor : String) (p : Payload) (g : GateRequest) (w w' : Desk)
    : Type 0 where
  pub first_use : (mark_token_used p.tid now w.store).0 ≡ true
  pub found : get_gate_request p.gid (mark_token_used p.tid now w.store).1 ≡ some g
  pub pending : g.status ≡ GateStatus.pending
  pub has_role : HasRole actor g
  pub after : w' ≡ record w { store = (mark_token_used p.tid now w.store).1 }

pub admit-ok :
    (now : ℕ) (actor : String) (p : Payload) (g : GateRequest) (w w' : Desk)
    → admit now actor p w ≡ (ok g, w')
    → Admitted now actor p g w w'
unfolding admit
admit-ok now actor p g w w' h =
    let (_, w1, e1, h1) = >>=-eq-ok (spend now actor p) _ w h in
    let (g', w2, e2, h2) = >>=-eq-ok (pending_gate p) _ w1 h1 in
    let (_, w3, e3, h3) = >>=-eq-ok (authorised actor (role_of actor) g') _ w2 h2 in
    let (first, same1) = spend-ok w w1 now actor p e1 in
    let (found, pending, same2) = pending_gate-ok w1 w2 p g' e2 in
    let (role, same3) = authorised-ok w2 w3 actor (role_of actor) g' refl e3 in
    let same_gate : g ≡ g' = cc in
    record {
      first_use = first;
      found = rw same_gate (rw same1 at found);
      pending = rw same_gate pending;
      has_role = rw same_gate role;
      after = cc;
    }

-- 1. to 3. read the token and change nothing
pub inspect-ok :
    (c : Codec) (key : String) (now : ℕ) (raw actor : String) (p : Payload) (w w' : Desk)
    → inspect c key now raw actor w ≡ (ok p, w')
    → (verify_token c raw key ≡ ok p) × (now ≤ p.exp) × (w' ≡ w)
unfolding inspect
inspect-ok c key now raw actor p w w' h =
    let (p', w1, e1, h1) = >>=-eq-ok (checked actor (verify_token c raw key)) _ w h in
    let (_, w2, e2, h2) = >>=-eq-ok (unexpired now actor p') _ w1 h1 in
    let (t, w3, e3, h3) = >>=-eq-ok (known_token p') _ w2 h2 in
    let (verified, same1) = checked-ok w w1 actor (verify_token c raw key) p' e1 in
    let (in_time, same2) = unexpired-ok w1 w2 now actor p' e2 in
    let same_payload : p ≡ p' = cc in
    (rw same_payload verified, rw same_payload in_time, cc (known_token-ok w2 w3 p' t e3))
