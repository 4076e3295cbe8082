-- ===== src/Orchestrator/Store/Calls.antt =====
-- The result of each call of the store, branch by branch.
use case_automation_mcp.Common.{
  ℕ, String, true, false, ◌≡◌, refl, Option, none, some, List, [], ◌∷◌, ◌∙◌, arith, lookup, insert,
  ok, err, is_some, eq_iff, eq_refl, Option-cases, inl, inr, lookup-insert, Bool-cases, sym, ap,
}
use case_automation_mcp.Orchestrator.States.{
  RunStatus, StepError, WorkflowRun, StepState, ApprovalToken, is_legal_run_transition,
  is_legal_step_transition,
}
use case_automation_mcp.Orchestrator.Store.{
  RunStore, key_error, illegal_run, override, given, bound_run, add_run, or_key_error, create_run,
  update_run_status, set_current_step, mark_token_used, change_steps, advance_gate_step, get_step,
  get_steps, find_step, change_step, update_step, illegal_step,
}

module _ (run : WorkflowRun) (steps : List StepState) (st : RunStore) where
  pub create_run-new :
      bound_run (given run.trigger.dedupe_key) st ≡ none
      → create_run run steps st ≡ (ok run, add_run run steps st)
  unfolding create_run
  create_run-new e = ground arith

  pub create_run-bound :
      {old : String}
      → bound_run (given run.trigger.dedupe_key) st ≡ some old
      → create_run run steps st ≡ (or_key_error (lookup old st.runs), st)
  unfolding create_run
  create_run-bound e = ground arith

-- the run after a transition
abbrev pub moved : ℕ → RunStatus → Option String → Option StepError → WorkflowRun → WorkflowRun
moved now s cur e run = record run {
  status = s;
  updated_at = now;
  current_step = override cur run.current_step;
  last_error = override e run.last_error;
}

module _ (now : ℕ) (id : String) (s : RunStatus) (cur : Option String) (e : Option StepError)
    (st : RunStore) where
  pub status-missing :
      lookup id st.runs ≡ none → update_run_status now id s cur e st ≡ (err key_error, st)
  unfolding update_run_status
  status-missing h = ground arith

  pub status-legal :
      (q : WorkflowRun)
      → lookup id st.runs ≡ some q
      → is_legal_run_transition q.status s ≡ true
      → update_run_status now id s cur e st
        ≡ (ok tt, record st { runs = insert id (moved now s cur e q) st.runs })
  unfolding update_run_status
  status-legal q h l = ground arith

  pub status-illegal :
      (q : WorkflowRun)
      → lookup id st.runs ≡ some q
      → is_legal_run_transition q.status s ≡ false
      → update_run_status now id s cur e st ≡ (err (illegal_run q.status s), st)
  unfolding update_run_status
  status-illegal q h l = ground arith

module _ (now : ℕ) (id step : String) (st : RunStore) where
  pub current-missing :
      lookup id st.runs ≡ none → set_current_step now id step st ≡ (err key_error, st)
  unfolding set_current_step
  current-missing h = ground arith

  pub current-found :
      (q : WorkflowRun)
      → lookup id st.runs ≡ some q
      → set_current_step now id step st ≡ (
        ok tt,
        record st {
          runs = insert id (record q { current_step = some step; updated_at = now }) st.runs;
        },
      )
  unfolding set_current_step
  current-found q h = ground arith

module _ (id : String) (now : ℕ) (st : RunStore) where
  pub mark-missing : lookup id st.tokens ≡ none → mark_token_used id now st ≡ (false, st)
  unfolding mark_token_used
  mark-missing h = ground arith

  pub mark-used :
      (t : ApprovalToken)
      → lookup id st.tokens ≡ some t
      → is_some t.used_at ≡ true
      → mark_token_used id now st ≡ (false, st)
  unfolding mark_token_used
  mark-used t h u = ground arith

  pub mark-fresh :
      (t : ApprovalToken)
      → lookup id st.tokens ≡ some t
      → is_some t.used_at ≡ false
      → mark_token_used id now st
        ≡ (true, record st { tokens = insert id (record t { used_at = some now }) st.tokens })
  unfolding mark_token_used
  mark-fresh t h u = ground arith

-- `advance_gate_step` touches only the steps.
module _ (now : ℕ) (id step : String) (st : RunStore) where
  pub runs-advance_gate_step : (advance_gate_step now id step st).runs ≡ st.runs
  unfolding advance_gate_step change_steps
  runs-advance_gate_step = ground arith

  pub tokens-advance_gate_step : (advance_gate_step now id step st).tokens ≡ st.tokens
  unfolding advance_gate_step change_steps
  tokens-advance_gate_step = ground arith

  pub gates-advance_gate_step : (advance_gate_step now id step st).gates ≡ st.gates
  unfolding advance_gate_step change_steps
  gates-advance_gate_step = ground arith

  pub decisions-advance_gate_step : (advance_gate_step now id step st).decisions ≡ st.decisions
  unfolding advance_gate_step change_steps
  decisions-advance_gate_step = ground arith

  pub dedupe-advance_gate_step : (advance_gate_step now id step st).dedupe ≡ st.dedupe
  unfolding advance_gate_step change_steps
  dedupe-advance_gate_step = ground arith

find-change :
    (name : String) (s x : StepState) (l : List StepState)
    → s.step ≡ name
    → find_step name l ≡ some x
    → find_step name (change_step name (λ _. s) l) ≡ some s
unfolding find_step change_step
find-change name s x [] e h = cc
find-change name s x (y ∷ l) e h =
    ground (arith, eq_iff y.step name, eq_iff s.step name, find-change name s x l e)

pub update_step-illegal :
    (s old : StepState) (st : RunStore)
    → get_step s.run_id s.step st ≡ some old
    → is_legal_step_transition old.status s.status ≡ false
    → update_step s st ≡ (err (illegal_step old.status s.status), st)
unfolding update_step
update_step-illegal s old st h l = ground arith

pub update_step-legal :
    (s old : StepState) (st : RunStore)
    → get_step s.run_id s.step st ≡ some old
    → is_legal_step_transition old.status s.status ≡ true
    → update_step s st ≡ (ok tt, change_steps s.run_id (change_step s.step (λ _. s)) st)
unfolding update_step
update_step-legal s old st h l = ground arith

change_steps-found :
    (id : String) (f : List StepState → List StepState) (st : RunStore) (l : List StepState)
    → lookup id st.steps ≡ some l
    → change_steps id f st ≡ record st { steps = insert id (f l) st.steps }
unfolding change_steps
change_steps-found id f st l h = ground arith

get_step-found :
    (id name : String) (st : RunStore) (l : List StepState)
    → lookup id st.steps ≡ some l
    → get_step id name st ≡ find_step name l
unfolding get_step get_steps
get_step-found id name st l h = ground arith

get_step-missing :
    (id name : String) (st : RunStore) → lookup id st.steps ≡ none → get_step id name st ≡ none
unfolding get_step get_steps find_step
get_step-missing id name st h = ground arith

-- a step that was written is the one that is read
pub get_step-update_step :
    (s old : StepState) (st : RunStore)
    → get_step s.run_id s.step st ≡ some old
    → get_step s.run_id s.step (change_steps s.run_id (change_step s.step (λ _. s)) st) ≡ some s
get_step-update_step s old st h = elim (Option-cases (lookup s.run_id st.steps)) [
  | inl missing ↦ cc (get_step-missing s.run_id s.step st missing)
  | inr (l, e) ↦ rw (change_steps-found s.run_id (change_step s.step (λ _. s)) st l e) (
      get_step-found s.run_id s.step _ (change_step s.step (λ _. s) l)
        (rw lookup-insert (rw eq_refl))
      ∙ find-change s.step s old l refl (sym (get_step-found s.run_id s.step st l e) ∙ h))
]

pub update_step-missing :
    (s : StepState) (st : RunStore)
    → get_step s.run_id s.step st ≡ none
    → update_step s st ≡ (err key_error, st)
unfolding update_step
update_step-missing s st h = ground arith

-- What a transition that succeeded found, and the run that it left.
pub status-ok :
    (now : ℕ) (id : String) (s : RunStatus) (cur : Option String) (e : Option StepError)
    (st st' : RunStore)
    → update_run_status now id s cur e st ≡ (ok tt, st')
    → (q : WorkflowRun) × (lookup id st.runs ≡ some q)
      × (is_legal_run_transition q.status s ≡ true)
      × (lookup id st'.runs ≡ some (moved now s cur e q))
status-ok now id s cur e st st' h = elim (Option-cases (lookup id st.runs)) [
  | inl missing ↦ cc (status-missing now id s cur e st missing)
  | inr (q, found) ↦ elim (Bool-cases (is_legal_run_transition q.status s)) [
    | inl legal ↦
        let same : st' ≡ record st { runs = insert id (moved now s cur e q) st.runs } =
          ap (λ x. x.1) (sym h ∙ status-legal now id s cur e st q found legal) in
        (q, found, legal, rw same (rw lookup-insert (rw eq_refl)))
    | inr illegal ↦ cc (status-illegal now id s cur e st q found illegal)
  ]
]

pub runs-change_steps :
    (id : String) (f : List StepState → List StepState) (st : RunStore)
    → (change_steps id f st).runs ≡ st.runs
unfolding change_steps
runs-change_steps id f st = ground arith
