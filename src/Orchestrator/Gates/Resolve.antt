-- ===== src/Orchestrator/Gates/Resolve.antt =====
-- What a successful `resolve_gate` has checked and done.
use case_automation_mcp.Common.{
  ℕ, String, true, ◌≡◌, ◌≢◌, refl, sym, ap, ◌∙◌, Option, none, some, [], ◌∷◌, ◌++◌, Outcome, ok,
  arith, ◌≤◌, lookup, insert, lookup-insert, eq_refl, >>=-eq-ok, Bool-cases, Option-cases, inl, inr,
  subst,
}
use mathlib.Core.Path.{subst₂}
use case_automation_mcp.Orchestrator.States.{
  GateStatus, Decision, Channel, WorkflowRun, GateRequest, ApprovalDecision,
  is_legal_run_transition,
}
use case_automation_mcp.Orchestrator.States.Laws.{◌⟶◌, edge_of_legal}
use case_automation_mcp.Orchestrator.Store.{
  Error, RunStore, get_gate_request, mark_token_used, update_gate_request, save_approval_decision,
}
use case_automation_mcp.Orchestrator.Store.Calls.{
  moved, status-missing, status-legal, status-illegal, runs-advance_gate_step,
  tokens-advance_gate_step, gates-advance_gate_step, decisions-advance_gate_step,
}
use case_automation_mcp.Orchestrator.Store.Laws.{Reach}
use case_automation_mcp.Orchestrator.Store.Tokens.{Spent, mark-true, Spent-mark-false, Reach-Spent}
use case_automation_mcp.Orchestrator.Gates.{
  Codec, Payload, Desk, verify_token, gate_verdict, run_verdict, decision_of, close_gate,
  advance_if_approved, settle_run, admit, inspect, resolve_gate,
}
use case_automation_mcp.Orchestrator.Gates.Stages.{HasRole, Admitted, admit-ok, inspect-ok}

-- the store of a run that was moved, after the gate step was advanced
settled_store : ℕ → Payload → Decision → WorkflowRun → RunStore → RunStore
settled_store now p d q st =
    advance_if_approved now p d
      (record st { runs = insert p.rid (moved now (run_verdict d) none none q) st.runs })

settled_store-frame :
    (now : ℕ) (p : Payload) (d : Decision) (q : WorkflowRun) (st : RunStore)
    → ((settled_store now p d q st).tokens ≡ st.tokens)
      × ((settled_store now p d q st).gates ≡ st.gates)
      × ((settled_store now p d q st).decisions ≡ st.decisions)
      × (lookup p.rid (settled_store now p d q st).runs
          ≡ some (moved now (run_verdict d) none none q))
unfolding settled_store advance_if_approved
settled_store-frame now p Decision.approve q st = (
  rw tokens-advance_gate_step,
  rw gates-advance_gate_step,
  rw decisions-advance_gate_step,
  rw runs-advance_gate_step (rw lookup-insert (rw eq_refl)),
)
settled_store-frame now p Decision.reject q st = (refl, refl, refl, rw lookup-insert (rw eq_refl))

settle_run-legal :
    (now : ℕ) (p : Payload) (actor : String) (d : Decision) (w : Desk) (q : WorkflowRun)
    → lookup p.rid w.store.runs ≡ some q
    → is_legal_run_transition q.status (run_verdict d) ≡ true
    → (settle_run now p actor d w).1.store ≡ settled_store now p d q w.store
unfolding settle_run settled_store
settle_run-legal now p actor d w q found legal =
    rw (status-legal now p.rid (run_verdict d) none none w.store q found legal)

settle_run-ok :
    (now : ℕ) (p : Payload) (actor : String) (d : Decision) (w w' : Desk)
    → settle_run now p actor d w ≡ (ok tt, w')
    → (q : WorkflowRun) × (lookup p.rid w.store.runs ≡ some q)
      × (q.status ⟶ run_verdict d)
      × (w'.store ≡ settled_store now p d q w.store)
settle_run-ok now p actor d w w' h = elim (Option-cases (lookup p.rid w.store.runs)) [
  | inl missing ↦
      unfold settle_run in
      cc (rw (status-missing now p.rid (run_verdict d) none none w.store missing) at h)
  | inr (q, found) ↦ elim (Bool-cases (is_legal_run_transition q.status (run_verdict d))) [
    | inl legal ↦ (
      q,
      found,
      edge_of_legal q.status (run_verdict d) legal,
      ap (λ x. x.1.store) (sym h) ∙ settle_run-legal now p actor d w q found legal,
    )
    | inr illegal ↦
        unfold settle_run in
        cc (rw (status-illegal now p.rid (run_verdict d) none none w.store q found illegal) at h)
  ]
]

-- What a resolution that succeeded has checked, and how it left the store.
pub record Resolved (c : Codec) (key : String) (now : ℕ) (raw : String) (d : ApprovalDecision)
    (actor : String) (w w' : Desk) : Type 0 where
  pub payload : Payload
  pub verified : verify_token c raw key ≡ ok payload
  pub in_time : now ≤ payload.exp
  pub first_use : (mark_token_used payload.tid now w.store).0 ≡ true
  pub gate : GateRequest
  pub gate_found : lookup payload.gid w.store.gates ≡ some gate
  pub gate_pending : gate.status ≡ GateStatus.pending
  pub has_role : HasRole actor gate
  pub run : WorkflowRun
  pub run_found : lookup payload.rid w.store.runs ≡ some run
  pub edge : run.status ⟶ run_verdict d.decision
  pub spent : Spent payload.tid w'.store
  pub recorded : w'.store.decisions ≡ w.store.decisions ++ d ∷ []
  pub closed :
      lookup gate.id w'.store.gates ≡ some (record gate { status = gate_verdict d.decision })
  pub settled :
      lookup payload.rid w'.store.runs ≡ some (moved now (run_verdict d.decision) none none run)

-- the store that a spent token leaves differs in the tokens alone
spend_frame :
    (id : String) (now : ℕ) (st : RunStore)
    → ((mark_token_used id now st).1.runs ≡ st.runs)
      × ((mark_token_used id now st).1.gates ≡ st.gates)
      × ((mark_token_used id now st).1.decisions ≡ st.decisions)
      × ((mark_token_used id now st).1.steps ≡ st.steps)
unfolding mark_token_used
spend_frame id now st = (ground arith, ground arith, ground arith, ground arith)

-- the store after `close_gate` on a store
closed_store : ApprovalDecision → GateRequest → RunStore → RunStore
unfolding update_gate_request save_approval_decision
closed_store d g st =
    update_gate_request (record g { status = gate_verdict d.decision })
      (save_approval_decision d st)

resolved :
    (c : Codec) (key : String) (now : ℕ) (raw : String) (d : ApprovalDecision) (actor : String)
    (p : Payload) (g : GateRequest) (q : WorkflowRun) (w w2 w' : Desk)
    → verify_token c raw key ≡ ok p
    → now ≤ p.exp
    → Admitted now actor p g w w2
    → lookup p.rid (closed_store d g w2.store).runs ≡ some q
    → q.status ⟶ run_verdict d.decision
    → w'.store ≡ settled_store now p d.decision q (closed_store d g w2.store)
    → Resolved c key now raw d actor w w'
resolved c key now raw d actor p g q w w2 w' verified in_time a found edge fin =
    let st1 = (mark_token_used p.tid now w.store).1 in
    let (runs1, gates1, decisions1, _) = spend_frame p.tid now w.store in
    let (tokens, gates, decisions, run') =
      settled_store-frame now p d.decision q (closed_store d g w2.store) in
    let s = mark-true p.tid now w.store a.first_use in
    let here : w2.store ≡ st1 = ap (λ x. x.store) a.after in
    let kept : lookup p.rid w2.store.runs ≡ some q = unfold closed_store in found in
    record {
      payload = p;
      verified = verified;
      in_time = in_time;
      first_use = a.first_use;
      gate = g;
      gate_found = rw (← gates1) (unfold get_gate_request in a.found);
      gate_pending = a.pending;
      has_role = a.has_role;
      run = q;
      run_found = rw (← runs1) (rw here at kept);
      edge = edge;
      spent = record {
        held = s.held;
        found = rw (fin, tokens) (unfold closed_store in rw here s.found);
        used = s.used;
      };
      recorded = rw (fin, decisions) (unfold closed_store in rw (here, decisions1));
      closed = rw (fin, gates) (unfold closed_store in rw lookup-insert (rw eq_refl));
      settled = rw fin run';
    }

resolve_stages :
    (c : Codec) (key : String) (now : ℕ) (raw : String) (actor : String) (p : Payload)
    (g : GateRequest) (d : ApprovalDecision) (w w1 w2 w3 w' : Desk)
    → inspect c key now raw actor w ≡ (ok p, w1)
    → admit now actor p w1 ≡ (ok g, w2)
    → close_gate d g w2 ≡ (ok tt, w3)
    → settle_run now p actor d.decision w3 ≡ (ok tt, w')
    → Resolved c key now raw d actor w w'
resolve_stages c key now raw actor p g d w w1 w2 w3 w' e1 e2 e3 e4 =
    let (verified, in_time, same1) = inspect-ok c key now raw actor p w w1 e1 in
    let a = admit-ok now actor p g w1 w2 e2 in
    let same3 : closed_store d g w2.store ≡ w3.store =
      unfold close_gate closed_store in ap (λ x. x.1.store) e3 in
    let (q, found, edge, fin) = settle_run-ok now p actor d.decision w3 w' e4 in
    resolved c key now raw d actor p g q w w2 w' verified in_time
      (subst (λ x. Admitted now actor p g x w2) same1 a) (rw same3 found) edge (rw same3 fin)

-- A resolution succeeds only for a token that verifies, is in time and was not used, at a gate that
-- is pending, by an actor with the gate's role, which grants approval, for a run that the diagram
-- lets move. It leaves the token used, the decision recorded, the gate closed and the run moved.
pub resolve_gate-ok :
    (c : Codec) (key : String) (now : ℕ) (raw : String) (decision : Decision) (actor : String)
    (channel : Channel) (reason : Option String) (d : ApprovalDecision) (w w' : Desk)
    → resolve_gate c key now raw decision actor channel reason w ≡ (ok d, w')
    → Resolved c key now raw d actor w w' × (d.decision ≡ decision) × (d.actor ≡ actor)
unfolding resolve_gate
resolve_gate-ok c key now raw decision actor channel reason d w w' h =
    let (p, w1, e1, h1) = >>=-eq-ok (inspect c key now raw actor) _ w h in
    let (g, w2, e2, h2) = >>=-eq-ok (admit now actor p) _ w1 h1 in
    let (_, w3, e3, h3) =
      >>=-eq-ok (close_gate (decision_of now p decision actor channel reason) g) _ w2 h2 in
    let (_, w4, e4, h4) = >>=-eq-ok (settle_run now p actor decision) _ w3 h3 in
    let r =
      resolve_stages c key now raw actor p g (decision_of now p decision actor channel reason) w w1
        w2 w3 w4 e1 e2 e3 e4 in
    finish r refl refl h4
  where
    finish :
        {d' : ApprovalDecision} {w4 : Desk}
        → Resolved c key now raw d' actor w w4
        → d'.decision ≡ decision
        → d'.actor ≡ actor
        → ◌≡◌ {A = Outcome Error ApprovalDecision × Desk} (ok d', w4) (ok d, w')
        → Resolved c key now raw d actor w w' × (d.decision ≡ decision) × (d.actor ≡ actor)
    finish {d'} {w4} r same_decision same_actor e =
        let e1 : d' ≡ d = cc in
        let e2 : w4 ≡ w' = cc in
        (
          subst₂ (λ x y. Resolved c key now raw x actor w y) e1 e2 r,
          subst (λ x. x.decision ≡ decision) e1 same_decision,
          subst (λ x. x.actor ≡ actor) e1 same_actor,
        )

-- Once a token has resolved a gate, it resolves none again: whoever presents it, with whichever
-- decision, after whichever calls of the store in which the ids of new runs and tokens are fresh.
pub resolve_gate_once :
    (c : Codec) (key : String) (raw : String) (now later : ℕ) (first second : Decision)
    (actor other : String) (channel channel' : Channel) (reason reason' : Option String)
    (d d' : ApprovalDecision) (w w' v v' : Desk)
    → resolve_gate c key now raw first actor channel reason w ≡ (ok d, w')
    → Reach w'.store v.store
    → resolve_gate c key later raw second other channel' reason' v ≢ (ok d', v')
resolve_gate_once c key raw now later first second actor other channel channel' reason reason' d d'
      w w' v v' h between k =
    let (r, _, _) = resolve_gate-ok c key now raw first actor channel reason d w w' h in
    let (q, _, _) = resolve_gate-ok c key later raw second other channel' reason' d' v v' k in
    let same : r.payload ≡ q.payload = cc (r.verified, q.verified) in
    let spent : Spent q.payload.tid v.store =
      subst (λ x. Spent x.tid v.store) same (Reach-Spent r.payload.tid between r.spent) in
    cc (Spent-mark-false q.payload.tid later v.store spent, q.first_use)
