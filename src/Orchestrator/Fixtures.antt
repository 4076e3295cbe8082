-- ===== src/Orchestrator/Fixtures.antt =====
-- Concrete data for the tests: a run that waits at a gate, its token, and a codec.
use case_automation_mcp.Common.{String, none, some, ◌==◌, if◌then◌else◌, [], ◌∷◌}
use case_automation_mcp.Json.{null}
use case_automation_mcp.Orchestrator.States.{
  RunStatus, StepStatus, TriggerKind, WorkflowRun, StepState, Channel, GateStatus, GateRequest,
  ApprovalToken,
}
use case_automation_mcp.Orchestrator.Store.{RunStore, empty}
use case_automation_mcp.Orchestrator.Gates.{Codec, Payload, Desk}

abbrev pub a_run : RunStatus → WorkflowRun
a_run s = record {
  id = "r";
  workflow = "intake";
  workflow_version = 1;
  status = s;
  current_step = none;
  trigger = record { kind = TriggerKind.event; source = "webhook"; dedupe_key = some "e1" };
  context = null;
  created_at = 0;
  updated_at = 0;
  last_error = none;
}

abbrev pub a_step : String → StepStatus → StepState
a_step name s = record {
  run_id = "r";
  step = name;
  seq = 0;
  status = s;
  attempt = 0;
  idem_key = "r:step";
  input = none;
  output = none;
  error = none;
  started_at = none;
  ended_at = none;
}

abbrev pub a_token : ApprovalToken
a_token = record {
  id = "t";
  gate_request_id = "g";
  run_id = "r";
  step = "GATE:review";
  key_id = "v1";
  token_hash = "dA.sig";
  channel = Channel.mcp;
  expires_at = 100;
  used_at = none;
}

abbrev pub a_gate : GateRequest
a_gate = record {
  id = "g";
  run_id = "r";
  step = "GATE:review";
  required_role = "attorney";
  quorum = 1;
  status = GateStatus.pending;
  channels = Channel.mcp ∷ [];
  created_at = 0;
  expires_at = 100;
}

abbrev pub waiting : RunStore
waiting = record empty {
  runs = ("r", a_run RunStatus.awaiting_approval) ∷ [];
  steps = ("r", a_step "GATE:review" StepStatus.pending ∷ []) ∷ [];
  gates = ("g", a_gate) ∷ [];
  tokens = ("t", a_token) ∷ [];
  dedupe = ("e1", "r") ∷ [];
}

abbrev pub a_desk : Desk
a_desk = record { store = waiting; audit = [] }

abbrev pub a_payload : String → Payload
a_payload tid = record { tid = tid; gid = "g"; rid = "r"; step = "GATE:review"; exp = 100 }

-- `dA==` is the base64 of `t`
abbrev pub a_codec : Codec
a_codec = record {
  mac = λ key s. "sig";
  dumps = λ p. p.tid;
  loads = λ s. some (a_payload s);
  urlsafe_b64encode = λ s. "dA==";
  urlsafe_b64decode = λ s. if s == "dA==" then some "t" else none;
  digest = λ s. s;
}
