-- ===== src/Orchestrator/States.antt =====
-- src/cam/core/orchestrator/states.py: the state machines of runs and steps, and the domain types.
-- A `datetime` is a number of seconds; `datetime.now` is an argument `now` of what reads the clock.
pub mod Laws
mod Tests
use case_automation_mcp.Common.{ℕ, String, Bool, Option, List, [], ◌∷◌, elem, is_some, ltb}
use case_automation_mcp.Json.{Json}

pub data RunStatus : Type 0 where
  queued running awaiting_approval succeeded parked rejected cancelled : RunStatus

pub data StepStatus : Type 0 where
  pending running succeeded failed compensated skipped : StepStatus

unfoldable pub RunStatus-discrete : Discrete RunStatus
RunStatus-discrete = hlevel

unfoldable pub StepStatus-discrete : Discrete StepStatus
StepStatus-discrete = hlevel

-- `_RUN_TRANSITIONS`
run_transitions : RunStatus → List RunStatus
run_transitions RunStatus.queued = RunStatus.running ∷ []
run_transitions RunStatus.running =
    RunStatus.succeeded ∷ RunStatus.awaiting_approval ∷ RunStatus.parked ∷ RunStatus.cancelled ∷ []
run_transitions RunStatus.awaiting_approval =
    RunStatus.running ∷ RunStatus.rejected ∷ RunStatus.cancelled ∷ []
run_transitions RunStatus.parked = RunStatus.running ∷ RunStatus.cancelled ∷ []
run_transitions RunStatus.succeeded = []
run_transitions RunStatus.rejected = []
run_transitions RunStatus.cancelled = []

-- `_STEP_TRANSITIONS`
step_transitions : StepStatus → List StepStatus
step_transitions StepStatus.pending = StepStatus.running ∷ []
step_transitions StepStatus.running = StepStatus.succeeded ∷ StepStatus.failed ∷ []
step_transitions StepStatus.failed = StepStatus.running ∷ StepStatus.compensated ∷ []
step_transitions StepStatus.succeeded = StepStatus.compensated ∷ []
step_transitions StepStatus.compensated = []
step_transitions StepStatus.skipped = []

unfoldable pub is_legal_run_transition : RunStatus → RunStatus → Bool
unfolding run_transitions RunStatus-discrete
is_legal_run_transition from to = elem RunStatus-discrete to (run_transitions from)

unfoldable pub is_legal_step_transition : StepStatus → StepStatus → Bool
unfolding step_transitions StepStatus-discrete
is_legal_step_transition from to = elem StepStatus-discrete to (step_transitions from)

pub record StepError : Type 0 where
  pub error_class : String
  pub detail : String
  pub attempt : ℕ
  pub retryable : Bool

pub data TriggerKind : Type 0 where
  event schedule agent : TriggerKind

pub record TriggerRef : Type 0 where
  pub kind : TriggerKind
  pub source : String
  pub dedupe_key : Option String

pub record WorkflowRun : Type 0 where
  pub id : String
  pub workflow : String
  pub workflow_version : ℕ
  pub status : RunStatus
  pub current_step : Option String
  pub trigger : TriggerRef
  pub context : Json
  pub created_at : ℕ
  pub updated_at : ℕ
  pub last_error : Option StepError

pub record StepState : Type 0 where
  pub run_id : String
  pub step : String
  pub seq : ℕ
  pub status : StepStatus
  pub attempt : ℕ
  pub idem_key : String
  pub input : Option Json
  pub output : Option Json
  pub error : Option StepError
  pub started_at : Option ℕ
  pub ended_at : Option ℕ

pub data Channel : Type 0 where
  mcp web email : Channel

pub data GateStatus : Type 0 where
  pending approved rejected expired : GateStatus

-- `risk_tier` has one value and is left out.
pub record GateRequest : Type 0 where
  pub id : String
  pub run_id : String
  pub step : String
  pub required_role : String
  pub quorum : ℕ
  pub status : GateStatus
  pub channels : List Channel
  pub created_at : ℕ
  pub expires_at : ℕ

pub data Decision : Type 0 where
  approve reject : Decision

pub record ApprovalDecision : Type 0 where
  pub gate_request_id : String
  pub run_id : String
  pub step : String
  pub decision : Decision
  pub actor : String
  pub channel : Channel
  pub token_id : String
  pub reason : Option String
  pub decided_at : ℕ

pub record ApprovalToken : Type 0 where
  pub id : String
  pub gate_request_id : String
  pub run_id : String
  pub step : String
  pub key_id : String
  pub token_hash : String
  pub channel : Channel
  pub expires_at : ℕ
  pub used_at : Option ℕ

-- the property `ApprovalToken.is_used`
abbrev pub is_used : ApprovalToken → Bool
is_used t = is_some t.used_at
