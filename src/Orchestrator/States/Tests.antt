-- ===== src/Orchestrator/States/Tests.antt =====
-- The diagram at concrete states.
use case_automation_mcp.Common.{◌≡◌, refl, true, false}
use case_automation_mcp.Orchestrator.States.{
  RunStatus, RunStatus-discrete, is_legal_run_transition, run_transitions,
}

parked_to_running : is_legal_run_transition RunStatus.parked RunStatus.running ≡ true
unfolding is_legal_run_transition run_transitions RunStatus-discrete
parked_to_running = refl

rejected_to_running : is_legal_run_transition RunStatus.rejected RunStatus.running ≡ false
unfolding is_legal_run_transition run_transitions RunStatus-discrete
rejected_to_running = refl
