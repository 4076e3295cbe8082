-- ===== src/Orchestrator/Gates/Refusals.antt =====
-- What a refused resolution leaves as it was.
use case_automation_mcp.Common.{
  ℕ, String, ◌≡◌, ◌∙◌, Option, Outcome, ok, err, continue, Exec, pure, ◌>>=◌, ◌>>◌, ◌≢◌, arith,
  >>=-eq-err, inl, inr, subst, ap,
}
use case_automation_mcp.Rbac.{role_of}
use case_automation_mcp.Orchestrator.States.{Decision, Channel, GateRequest, ApprovalDecision}
use case_automation_mcp.Orchestrator.Store.{Error, gate, mark_token_used, update_run_status}
use case_automation_mcp.Orchestrator.Gates.{
  Codec, Payload, Desk, verify_token, decision_of, checked, unexpired, known_token, spend,
  pending_gate, authorised, admit, inspect, close_gate, settle_run, resolve_gate,
}

-- All but the tokens and the audit trail is the same.
pub record Kept (w w' : Desk) : Type 0 where
  pub runs : w'.store.runs ≡ w.store.runs
  pub steps : w'.store.steps ≡ w.store.steps
  pub gates : w'.store.gates ≡ w.store.gates
  pub decisions : w'.store.decisions ≡ w.store.decisions
  pub dedupe : w'.store.dedupe ≡ w.store.dedupe

Kept-trans : {a b c : Desk} → Kept a b → Kept b c → Kept a c
Kept-trans p q = record {
  runs = q.runs ∙ p.runs;
  steps = q.steps ∙ p.steps;
  gates = q.gates ∙ p.gates;
  decisions = q.decisions ∙ p.decisions;
  dedupe = q.dedupe ∙ p.dedupe;
}

-- an action that keeps all but tokens and audit, however it ends
record Keeps {A : Type 0} (m : Exec Error Desk A) : Type 0 where
  at : (w : Desk) → Kept w (m w).1

module _ {A B : Type 0} where
  Keeps-bind :
      (m : Exec Error Desk A) (f : A → Exec Error Desk B)
      → Keeps m
      → ((a : A) → Keeps (f a))
      → Keeps (m >>= f)
  Keeps-bind m f km kf = record { at = λ w. go w (m w) (km.at w) }
    where
      go : (w : Desk) (p : Outcome Error A × Desk) → Kept w p.1 → Kept w (continue p.0 f p.1).1
      go w (ok a, t) k = Kept-trans k ((kf a).at t)
      go w (err e, t) k = k

Keeps-checked : {F : Type 0} (actor : String) (o : Outcome F Payload) → Keeps (checked actor o)
unfolding checked
Keeps-checked actor (ok p) = record { at = λ w. ground arith }
Keeps-checked actor (err e) = record { at = λ w. ground arith }

Keeps-unexpired : (now : ℕ) (actor : String) (p : Payload) → Keeps (unexpired now actor p)
unfolding unexpired
Keeps-unexpired now actor p = record { at = λ w. ground arith }

Keeps-known_token : (p : Payload) → Keeps (known_token p)
unfolding known_token
Keeps-known_token p = record { at = λ w. ground arith }

Keeps-spend : (now : ℕ) (actor : String) (p : Payload) → Keeps (spend now actor p)
unfolding spend mark_token_used
Keeps-spend now actor p = record { at = λ w. ground arith }

Keeps-pending_gate : (p : Payload) → Keeps (pending_gate p)
unfolding pending_gate
Keeps-pending_gate p = record { at = λ w. ground arith }

Keeps-authorised : (actor : String) (o : Option _) (g : GateRequest) → Keeps (authorised actor o g)
unfolding authorised
Keeps-authorised actor o g = record { at = λ w. ground arith }

Keeps-pure : {A : Type 0} (a : A) → Keeps (pure a)
Keeps-pure a = record { at = λ w. ground arith }

Keeps-inspect :
    (c : Codec) (key : String) (now : ℕ) (raw actor : String) → Keeps (inspect c key now raw actor)
unfolding inspect
Keeps-inspect c key now raw actor =
    Keeps-bind (checked actor (verify_token c raw key)) _
      (Keeps-checked actor (verify_token c raw key))
      λ p.
        Keeps-bind (unexpired now actor p) _ (Keeps-unexpired now actor p)
          λ _. Keeps-bind (known_token p) _ (Keeps-known_token p) λ _. Keeps-pure p

Keeps-admit : (now : ℕ) (actor : String) (p : Payload) → Keeps (admit now actor p)
unfolding admit
Keeps-admit now actor p = Keeps-bind (spend now actor p) _ (Keeps-spend now actor p) λ _.
    Keeps-bind (pending_gate p) _ (Keeps-pending_gate p) λ g.
      Keeps-bind (authorised actor (role_of actor) g) _ (Keeps-authorised actor (role_of actor) g)
        λ _. Keeps-pure g

close_gate-ne-err :
    (d : ApprovalDecision) (g : GateRequest) (w w' : Desk) (e : Error)
    → close_gate d g w ≢ (err e, w')
unfolding close_gate
close_gate-ne-err d g w w' e h = cc

settle_run-ne-gate :
    (now : ℕ) (p : Payload) (actor : String) (d : Decision) (n : ℕ) (w w' : Desk)
    → settle_run now p actor d w ≢ (err (gate n), w')
unfolding settle_run update_run_status
settle_run-ne-gate now p actor d n w w' h = ground arith

-- A resolution that is refused, with whichever status code, may have used up the token, and leaves
-- the runs, the steps, the gates, the decisions and the dedupe keys as they were.
pub resolve_gate-refused :
    (c : Codec) (key : String) (now : ℕ) (raw : String) (decision : Decision) (actor : String)
    (channel : Channel) (reason : Option String) (n : ℕ) (w w' : Desk)
    → resolve_gate c key now raw decision actor channel reason w ≡ (err (gate n), w')
    → Kept w w'
unfolding resolve_gate
resolve_gate-refused c key now raw decision actor channel reason n w w' h =
    elim (>>=-eq-err (inspect c key now raw actor) _ w h) [
      | inl e ↦ subst (Kept w) (ap (λ x. x.1) e) ((Keeps-inspect c key now raw actor).at w)
      | inr (p, w1, e1, h1) ↦
          Kept-trans (subst (Kept w) (ap (λ x. x.1) e1) ((Keeps-inspect c key now raw actor).at w))
            (rest p w1 h1)
    ]
  where
    late :
        (p : Payload) (g : GateRequest) (w2 : Desk)
        → (close_gate (decision_of now p decision actor channel reason) g
              >> (settle_run now p actor decision
                  >> pure (decision_of now p decision actor channel reason)))
            w2
          ≡ (err (gate n), w')
        → Kept w2 w'
    late p g w2 h2 =
        elim (>>=-eq-err (close_gate (decision_of now p decision actor channel reason) g) _ w2 h2) [
          | inl e ↦ absurd (close_gate-ne-err _ g w2 w' (gate n) e)
          | inr (_, w3, e3, h3) ↦ elim (>>=-eq-err (settle_run now p actor decision) _ w3 h3) [
            | inl e ↦ absurd (settle_run-ne-gate now p actor decision n w3 w' e)
            | inr (_, w4, e4, h4) ↦ cc
          ]
        ]

    rest :
        (p : Payload) (w1 : Desk)
        → (admit now actor p >>= λ g.
              close_gate (decision_of now p decision actor channel reason) g
              >> (settle_run now p actor decision
                  >> pure (decision_of now p decision actor channel reason)))
            w1
          ≡ (err (gate n), w')
        → Kept w1 w'
    rest p w1 h1 = elim (>>=-eq-err (admit now actor p) _ w1 h1) [
      | inl e ↦ subst (Kept w1) (ap (λ x. x.1) e) ((Keeps-admit now actor p).at w1)
      | inr (g, w2, e2, h2) ↦
          Kept-trans (subst (Kept w1) (ap (λ x. x.1) e2) ((Keeps-admit now actor p).at w1))
            (late p g w2 h2)
    ]
