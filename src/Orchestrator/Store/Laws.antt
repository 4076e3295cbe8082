-- ===== src/Orchestrator/Store/Laws.antt =====
-- The store's methods as steps, and what every sequence of steps keeps of a run and of a token.
use case_automation_mcp.Common.{
  ℕ, String, true, ◌≡◌, refl, sym, ap, subst, ◌∙◌, Option, none, some, List, arith, lookup, insert,
  lookup-insert, eq_iff, ◌==◌, Bool-cases, Option-cases, inl, inr,
}
use mathlib.Core.Option.{some_inj}
use case_automation_mcp.Orchestrator.States.{
  RunStatus, StepError, WorkflowRun, StepState, GateRequest, ApprovalDecision, ApprovalToken,
  is_legal_run_transition,
}
use case_automation_mcp.Orchestrator.States.Laws.{
  IsTerminal, terminal_absorbs, ◌⟶*◌, here, next, edge_of_legal, ⟶*-trans,
}
use case_automation_mcp.Orchestrator.Store.{
  RunStore, given, bound_run, add_run, create_run, update_run_status, set_current_step,
  advance_gate_step, update_step, create_gate_request, update_gate_request, save_token,
  mark_token_used, save_approval_decision,
}
use case_automation_mcp.Orchestrator.Store.Calls.{
  runs-advance_gate_step, create_run-new, create_run-bound, moved, status-missing, status-legal,
  status-illegal, current-missing, current-found,
}

-- One call of a method. Ids of new runs and tokens are fresh, as `uuid4` makes them.
pub data Step : RunStore → RunStore → Type 0 where
  create :
      (run : WorkflowRun) (steps : List StepState) (st : RunStore)
      → lookup run.id st.runs ≡ none
      → Step st (create_run run steps st).1
  status :
      (now : ℕ) (id : String) (s : RunStatus) (cur : Option String) (e : Option StepError)
      (st : RunStore)
      → Step st (update_run_status now id s cur e st).1
  current :
      (now : ℕ) (id step : String) (st : RunStore) → Step st (set_current_step now id step st).1
  advance :
      (now : ℕ) (id step : String) (st : RunStore) → Step st (advance_gate_step now id step st)
  write_step : (s : StepState) (st : RunStore) → Step st (update_step s st).1
  new_gate : (g : GateRequest) (st : RunStore) → Step st (create_gate_request g st)
  gate : (g : GateRequest) (st : RunStore) → Step st (update_gate_request g st)
  token :
      (t : ApprovalToken) (st : RunStore) → lookup t.id st.tokens ≡ none → Step st (save_token t st)
  mark : (id : String) (now : ℕ) (st : RunStore) → Step st (mark_token_used id now st).1
  decide : (d : ApprovalDecision) (st : RunStore) → Step st (save_approval_decision d st)

pub data Reach (st : RunStore) : RunStore → Type 0 where
  start : Reach st st
  more : {a b : RunStore} → Reach st a → Step a b → Reach st b

-- What may become of a run: its status follows the diagram, and its inputs stay.
pub record Evolves (a b : WorkflowRun) : Type 0 where
  pub trail : a.status ⟶* b.status
  pub same_id : b.id ≡ a.id
  pub same_workflow : b.workflow ≡ a.workflow
  pub same_version : b.workflow_version ≡ a.workflow_version
  pub same_trigger : b.trigger ≡ a.trigger
  pub same_context : b.context ≡ a.context
  pub same_created : b.created_at ≡ a.created_at

Evolves-refl : (a : WorkflowRun) → Evolves a a
Evolves-refl a = record {
  trail = here;
  same_id = refl;
  same_workflow = refl;
  same_version = refl;
  same_trigger = refl;
  same_context = refl;
  same_created = refl;
}

Evolves-trans : {a b c : WorkflowRun} → Evolves a b → Evolves b c → Evolves a c
Evolves-trans p q = record {
  trail = ⟶*-trans p.trail q.trail;
  same_id = q.same_id ∙ p.same_id;
  same_workflow = q.same_workflow ∙ p.same_workflow;
  same_version = q.same_version ∙ p.same_version;
  same_trigger = q.same_trigger ∙ p.same_trigger;
  same_context = q.same_context ∙ p.same_context;
  same_created = q.same_created ∙ p.same_created;
}

abbrev pub Lives : String → WorkflowRun → RunStore → Type 0
Lives id r st = (r' : WorkflowRun) × (lookup id st.runs ≡ some r') × Evolves r r'

module _ (st : RunStore) (k j : String) {r : WorkflowRun} where
  -- writing a run over what it evolved from
  overwrite :
      {q q' : WorkflowRun}
      → lookup k st.runs ≡ some q
      → Evolves q q'
      → lookup j st.runs ≡ some r
      → Lives j r (record st { runs = insert k q' st.runs })
  overwrite {q} {q'} hq e hr = elim (Bool-cases (k == j)) [
    | inl same ↦
        let path : some q ≡ some r =
          sym hq ∙ ap (λ i. lookup i st.runs) ((eq_iff k j).0 same) ∙ hr in
        (q', rw lookup-insert (rw same), subst (λ x. Evolves x q') (some_inj.0 path) e)
    | inr other ↦ (r, rw lookup-insert (rw other hr), Evolves-refl r)
  ]

  -- a run at a new key leaves the others alone
  insert_fresh :
      (q : WorkflowRun)
      → lookup k st.runs ≡ none
      → lookup j st.runs ≡ some r
      → lookup j (insert k q st.runs) ≡ some r
  insert_fresh q hk hr = rw lookup-insert (ground (arith, eq_iff k j))

moved-Evolves :
    (now : ℕ) (s : RunStatus) (cur : Option String) (e : Option StepError) (run : WorkflowRun)
    → is_legal_run_transition run.status s ≡ true
    → Evolves run (moved now s cur e run)
moved-Evolves now s cur e run legal = record {
  trail = next (edge_of_legal run.status s legal) here;
  same_id = refl;
  same_workflow = refl;
  same_version = refl;
  same_trigger = refl;
  same_context = refl;
  same_created = refl;
}

current-Evolves :
    (now : ℕ) (step : String) (run : WorkflowRun)
    → Evolves run (record run { current_step = some step; updated_at = now })
current-Evolves now step run = record {
  trail = here;
  same_id = refl;
  same_workflow = refl;
  same_version = refl;
  same_trigger = refl;
  same_context = refl;
  same_created = refl;
}

runs-update_step : (s : StepState) (st : RunStore) → (update_step s st).1.runs ≡ st.runs
unfolding update_step
runs-update_step s st = ground arith

runs-mark_token_used :
    (id : String) (now : ℕ) (st : RunStore) → (mark_token_used id now st).1.runs ≡ st.runs
unfolding mark_token_used
runs-mark_token_used id now st = ground arith

Step-Lives :
    {a b : RunStore} (id : String) {r : WorkflowRun}
    → Step a b
    → lookup id a.runs ≡ some r
    → Lives id r b
Step-Lives id {r} (create run steps st fresh) h =
    elim (Option-cases (bound_run (given run.trigger.dedupe_key) st)) [
      | inl new ↦
          rw (create_run-new run steps st new)
            (r, unfold add_run in insert_fresh st run.id id run fresh h, Evolves-refl r)
      | inr (old, e) ↦ rw (create_run-bound run steps st e) (r, h, Evolves-refl r)
    ]
Step-Lives id {r} (status now k s cur e st) h = elim (Option-cases (lookup k st.runs)) [
  | inl missing ↦ rw (status-missing now k s cur e st missing) (r, h, Evolves-refl r)
  | inr (q, found) ↦ elim (Bool-cases (is_legal_run_transition q.status s)) [
    | inl legal ↦
        rw (status-legal now k s cur e st q found legal)
          (overwrite st k id found (moved-Evolves now s cur e q legal) h)
    | inr illegal ↦ rw (status-illegal now k s cur e st q found illegal) (r, h, Evolves-refl r)
  ]
]
Step-Lives id {r} (current now k step st) h = elim (Option-cases (lookup k st.runs)) [
  | inl missing ↦ rw (current-missing now k step st missing) (r, h, Evolves-refl r)
  | inr (q, found) ↦
      rw (current-found now k step st q found)
        (overwrite st k id found (current-Evolves now step q) h)
]
Step-Lives id {r} (advance now k step st) h = (r, rw runs-advance_gate_step h, Evolves-refl r)
Step-Lives id {r} (write_step s st) h = (r, rw runs-update_step h, Evolves-refl r)
Step-Lives id {r} (new_gate g st) h = (r, unfold create_gate_request in h, Evolves-refl r)
Step-Lives id {r} (gate g st) h = (r, unfold update_gate_request in h, Evolves-refl r)
Step-Lives id {r} (token t st _) h = (r, unfold save_token in h, Evolves-refl r)
Step-Lives id {r} (mark k now st) h = (r, rw runs-mark_token_used h, Evolves-refl r)
Step-Lives id {r} (decide d st) h = (r, unfold save_approval_decision in h, Evolves-refl r)

-- Whatever calls are made on the store, the ids of new runs and tokens being fresh, a run that is
-- there stays there, its status moves only along the diagram, and its id, workflow, version,
-- trigger, context and creation time never change.
pub Reach-Lives :
    {a b : RunStore} (id : String) {r : WorkflowRun}
    → Reach a b
    → lookup id a.runs ≡ some r
    → Lives id r b
Reach-Lives id start h = (_, h, Evolves-refl _)
Reach-Lives id (more p s) h =
    let (q, hq, e) = Reach-Lives id p h in
    let (t, ht, f) = Step-Lives id s hq in (t, ht, Evolves-trans e f)

-- A run that has succeeded, or was rejected or cancelled, keeps its status, whatever calls with fresh
-- ids are made on the store.
pub Reach-IsTerminal :
    {a b : RunStore} (id : String) {r : WorkflowRun}
    → Reach a b
    → lookup id a.runs ≡ some r
    → IsTerminal r.status
    → (q : WorkflowRun) × (lookup id b.runs ≡ some q) × (q.status ≡ r.status)
Reach-IsTerminal id p h t =
    let (q, found, e) = Reach-Lives id p h in (q, found, terminal_absorbs t e.trail)
