-- ===== src/Orchestrator/Machine.antt =====
-- src/cam/core/orchestrator/engine.py: what the engine is built with and works on, and its methods
-- `_classify_error`, `_handle_gate` and `_park`.
use case_automation_mcp.Common.{
  ℕ, ◌+◌, String, false, none, some, List, [], ◌∷◌, ◌++◌, reverse, ok, err, Exec, ◌>>◌,
}
use case_automation_mcp.Orchestrator.States.{
  RunStatus, StepError, WorkflowRun, StepState, GateStatus, Channel,
}
use case_automation_mcp.Orchestrator.Store.{
  Error, key_error, illegal_run, illegal_step, RunStore, get_run, update_run_status,
  create_gate_request, save_token,
}
use case_automation_mcp.Orchestrator.Gates.{Codec, AuditEvent, issue_token}
use case_automation_mcp.Orchestrator.Dsl.{Fault, connector, other, store, GateConfig, Registry}
use case_automation_mcp.Orchestrator.Idempotency.{Recorded, Locks}

abbrev pub max_attempts : ℕ
max_attempts = 5

-- what the engine is built with
pub record Env : Type 0 where
  pub registry : Registry
  pub codec : Codec
  pub signing_key : String
  pub uuid : ℕ → String

pub record Machine : Type 0 where
  pub store : RunStore
  pub idem : Recorded
  pub locks : Locks
  pub audit : List AuditEvent
  pub calls : ℕ  -- the handler calls made
  pub undone : List String  -- the compensations called, in order
  pub supply : ℕ  -- the uuids drawn

abbrev pub Engine : Type 0 → Type 0
Engine A = Exec Error Machine A

unfoldable pub on_store : {A : Type 0} → Exec Error RunStore A → Engine A
on_store f m = let (r, st) = f m.store in (r, record m { store = st })

unfoldable pub note : String → Engine Unit
note action m = (
  ok tt,
  record m { audit = m.audit ++ record { actor = "workflow_engine"; action = action } ∷ [] },
)

-- `run = await self.store.get_run(run_id)` and the test for `None`
unfoldable pub fetch : Error → String → Engine WorkflowRun
fetch e run_id m = elim (get_run run_id m.store) [ none ↦ (err e, m) | some r ↦ (ok r, m) ]

-- `_classify_error`. Of the detail of a store error only its class is kept.
abbrev pub error_name : Error → String
error_name (illegal_run _ _) = "IllegalTransitionError"
error_name (illegal_step _ _) = "IllegalTransitionError"
error_name key_error = "KeyError"
error_name _ = "Exception"

unfoldable pub classify_error : Fault → ℕ → StepError
classify_error (connector name detail retryable) attempt = record {
  error_class = name;
  detail = detail;
  attempt = attempt;
  retryable = retryable;
}
classify_error (other name detail) attempt = record {
  error_class = name;
  detail = detail;
  attempt = attempt;
  retryable = false;
}
classify_error (store e) attempt = record {
  error_class = error_name e;
  detail = "";
  attempt = attempt;
  retryable = false;
}

-- `_handle_gate`: a token for each channel
unfoldable pub issue_all :
    Env → ℕ → String → WorkflowRun → StepState → GateConfig → List Channel → Engine Unit
issue_all env now gate_id run s cfg [] m = (ok tt, m)
issue_all env now gate_id run s cfg (ch ∷ chs) m =
    issue_all env now gate_id run s cfg chs (record m {
      supply = m.supply + 1;
      store =
          save_token
            (issue_token env.codec now (env.uuid m.supply) gate_id run.id s.step ch env.signing_key
              cfg.ttl_seconds).1
            m.store;
    })

unfoldable pub open_gate : ℕ → String → WorkflowRun → StepState → GateConfig → Engine Unit
open_gate now gate_id run s cfg m = (
  ok tt,
  record m {
    supply = m.supply + 1;
    store =
        create_gate_request
          (record {
            id = gate_id;
            run_id = run.id;
            step = s.step;
            required_role = cfg.required_role;
            quorum = cfg.quorum;
            status = GateStatus.pending;
            channels = cfg.channels;
            created_at = now;
            expires_at = now + cfg.ttl_seconds;
          })
          m.store;
  },
)

unfoldable pub handle_gate : Env → ℕ → WorkflowRun → StepState → GateConfig → Engine Unit
unfolding note on_store
handle_gate env now run s cfg m =
    (do
      open_gate now (env.uuid m.supply) run s cfg
      issue_all env now (env.uuid m.supply) run s cfg cfg.channels
      on_store (update_run_status now run.id RunStatus.awaiting_approval none none)
      note "gate.requested")
      m

-- `_park`: the compensations in reverse order; one that fails is passed over
unfoldable pub park : ℕ → String → StepError → List String → Engine Unit
unfolding note on_store
park now run_id e compensations = do
  (λ m. (ok tt, record m { undone = m.undone ++ reverse compensations }))
  on_store (update_run_status now run_id RunStatus.parked none (some e))
  note "run.parked"
