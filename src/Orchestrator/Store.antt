-- ===== src/Orchestrator/Store.antt =====
-- src/cam/core/orchestrator/store.py: `InMemoryRunStore`. Each method is an action on the record.
pub mod Calls
pub mod Laws
pub mod Starts
pub mod Tokens
mod Tests
use case_automation_mcp.Common.{
  ℕ, String, Bool, true, false, Option, none, some, List, [], ◌∷◌, ◌++◌, map, keep, Dict, lookup,
  insert, values, Outcome, ok, err, Exec, pure, raise, ◌>>=◌, truthy, ◌==◌, if◌then◌else◌,
}
use case_automation_mcp.Orchestrator.States.{
  RunStatus, StepStatus, StepError, WorkflowRun, StepState, GateRequest, ApprovalDecision,
  ApprovalToken, is_legal_run_transition, is_legal_step_transition, is_used,
}

-- What the methods of the orchestrator raise. `gate` is `GateResolutionError` with its status code;
-- `exhausted` is no error of the program: the model's fuel ran out.
pub data Error : Type 0 where
  key_error : Error
  illegal_run : RunStatus → RunStatus → Error
  illegal_step : StepStatus → StepStatus → Error
  gate : ℕ → Error
  invalid_context : Error
  assertion : Error
  value_error : Error
  exhausted : Error

pub record RunStore : Type 0 where
  pub runs : Dict WorkflowRun
  pub steps : Dict (List StepState)
  pub gates : Dict GateRequest
  pub tokens : Dict ApprovalToken
  pub decisions : List ApprovalDecision
  pub dedupe : Dict String

abbrev pub empty : RunStore
empty = record { runs = []; steps = []; gates = []; tokens = []; decisions = []; dedupe = [] }

-- The value of an optional key, if it is there and not the empty text.
abbrev pub given : Option String → Option String
given none = none
given (some k) = if truthy k then some k else none

-- `dict[key]`
abbrev pub or_key_error : {A : Type 0} → Option A → Outcome Error A
or_key_error none = err key_error
or_key_error (some a) = ok a

-- the run id that a dedupe key is bound to
unfoldable pub bound_run : Option String → RunStore → Option String
bound_run none st = none
bound_run (some k) st = lookup k st.dedupe

bind_key : Option String → String → Dict String → Dict String
bind_key none id d = d
bind_key (some k) id d = insert k id d

pub add_run : WorkflowRun → List StepState → RunStore → RunStore
unfolding bind_key
add_run run steps st = record st {
  runs = insert run.id run st.runs;
  steps = insert run.id steps st.steps;
  dedupe = bind_key (given run.trigger.dedupe_key) run.id st.dedupe;
}

unfoldable pub create_run : WorkflowRun → List StepState → Exec Error RunStore WorkflowRun
create_run run steps st = elim (bound_run (given run.trigger.dedupe_key) st) [
  | some existing_id ↦ (or_key_error (lookup existing_id st.runs), st)
  | none ↦ (ok run, add_run run steps st)
]

unfoldable pub get_run : String → RunStore → Option WorkflowRun
get_run run_id st = lookup run_id st.runs

-- `x if x is not None else old`
abbrev pub override : {A : Type 0} → Option A → Option A → Option A
override none old = old
override (some a) old = some a

unfoldable pub update_run_status :
    ℕ → String → RunStatus → Option String → Option StepError → Exec Error RunStore Unit
update_run_status now run_id status current_step last_error st = elim (lookup run_id st.runs) [
  | none ↦ (err key_error, st)
  | some run ↦
      if is_legal_run_transition run.status status
      then (
        ok tt,
        record st {
          runs =
              insert run_id
                (record run {
                  status = status;
                  updated_at = now;
                  current_step = override current_step run.current_step;
                  last_error = override last_error run.last_error;
                })
                st.runs;
        },
      )
      else (err (illegal_run run.status status), st)
]

unfoldable pub set_current_step : ℕ → String → String → Exec Error RunStore Unit
set_current_step now run_id step st = elim (lookup run_id st.runs) [
  | none ↦ (err key_error, st)
  | some run ↦ (
    ok tt,
    record st {
      runs = insert run_id (record run { current_step = some step; updated_at = now }) st.runs;
    },
  )
]

-- `self._steps.get(run_id, [])`
abbrev steps_of : Option (List StepState) → List StepState
steps_of none = []
steps_of (some l) = l

unfoldable pub get_steps : String → RunStore → List StepState
get_steps run_id st = steps_of (lookup run_id st.steps)

find_step : String → List StepState → Option StepState
find_step name [] = none
find_step name (s ∷ l) = if s.step == name then some s else find_step name l

-- `steps[i] = f(steps[i])` at the first step of that name
pub change_step : String → (StepState → StepState) → List StepState → List StepState
change_step name f [] = []
change_step name f (s ∷ l) = if s.step == name then f s ∷ l else s ∷ change_step name f l

-- The list in the dict is changed in place; without one the default list is changed and lost.
pub change_steps : String → (List StepState → List StepState) → RunStore → RunStore
change_steps run_id f st = elim (lookup run_id st.steps) [
  | none ↦ st
  | some l ↦ record st { steps = insert run_id (f l) st.steps }
]

pub advance_gate_step : ℕ → String → String → RunStore → RunStore
unfolding change_step change_steps
advance_gate_step now run_id step_name =
    change_steps run_id
      (change_step step_name (λ s. record s { status = StepStatus.succeeded; ended_at = some now }))

abbrev is_queued : RunStatus → Bool
is_queued RunStatus.queued = true
is_queued _ = false

abbrev pub is_recoverable : RunStatus → Bool
is_recoverable RunStatus.queued = true
is_recoverable RunStatus.running = true
is_recoverable _ = false

pub find_queued_runs : RunStore → List String
find_queued_runs st = map (λ r. r.id) (keep (λ r. is_queued r.status) (values st.runs))

unfoldable pub find_recoverable_runs : RunStore → List String
find_recoverable_runs st = map (λ r. r.id) (keep (λ r. is_recoverable r.status) (values st.runs))

unfoldable pub get_step : String → String → RunStore → Option StepState
unfolding get_steps find_step
get_step run_id step_name st = find_step step_name (get_steps run_id st)

unfoldable pub update_step : StepState → Exec Error RunStore Unit
unfolding get_step change_step change_steps
update_step step st = elim (get_step step.run_id step.step st) [
  | none ↦ (err key_error, st)
  | some s ↦
      if is_legal_step_transition s.status step.status
      then (ok tt, change_steps step.run_id (change_step step.step (λ _. step)) st)
      else (err (illegal_step s.status step.status), st)
]

-- The dict of gates is written by id, so `create_gate_request` and `update_gate_request` agree.
unfoldable pub create_gate_request : GateRequest → RunStore → RunStore
create_gate_request g st = record st { gates = insert g.id g st.gates }

unfoldable pub get_gate_request : String → RunStore → Option GateRequest
get_gate_request gate_id st = lookup gate_id st.gates

unfoldable pub update_gate_request : GateRequest → RunStore → RunStore
update_gate_request g st = record st { gates = insert g.id g st.gates }

unfoldable pub save_token : ApprovalToken → RunStore → RunStore
save_token t st = record st { tokens = insert t.id t st.tokens }

unfoldable pub get_token : String → RunStore → Option ApprovalToken
get_token token_id st = lookup token_id st.tokens

unfoldable pub mark_token_used : String → ℕ → RunStore → Bool × RunStore
mark_token_used token_id used_at st = elim (lookup token_id st.tokens) [
  | none ↦ (false, st)
  | some t ↦ if is_used t then (false, st) else (
    true,
    record st { tokens = insert token_id (record t { used_at = some used_at }) st.tokens },
  )
]

unfoldable pub save_approval_decision : ApprovalDecision → RunStore → RunStore
save_approval_decision d st = record st { decisions = st.decisions ++ d ∷ [] }
