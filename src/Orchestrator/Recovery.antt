-- ===== src/Orchestrator/Recovery.antt =====
-- src/cam/core/orchestrator/recovery.py: `recovery_sweep`. How a run is taken up again is an
-- argument: a queue outside of the program, or the engine in the same process.
use case_automation_mcp.Common.{
  ℕ, String, Bool, true, false, Option, none, some, List, [], ◌∷◌, ◌++◌, if◌then◌else◌,
}
use case_automation_mcp.Orchestrator.States.{RunStatus}
use case_automation_mcp.Orchestrator.Store.{get_run, find_recoverable_runs}
use case_automation_mcp.Orchestrator.Engine.{Env, Machine, execute}
pub mod Sweep
mod Tests

abbrev pub Resume : Type 0
Resume = String → Machine → Machine

-- `engine.execute(run_id)`, whose exceptions are logged and dropped
pub in_process : Env → ℕ → ℕ → Resume
in_process env now fuel run_id m = (execute env now fuel run_id m).1

abbrev pub is_awaiting : RunStatus → Bool
is_awaiting RunStatus.awaiting_approval = true
is_awaiting _ = false

-- the body of the loop, with the id if it was taken up
pub visit : Resume → String → Machine → List String × Machine
visit resume run_id m = elim (get_run run_id m.store) [
  | none ↦ ([], m)
  | some run ↦ if is_awaiting run.status then ([], m) else (run_id ∷ [], resume run_id m)
]

pub visit_all : Resume → List String → Machine → List String × Machine
visit_all resume [] m = ([], m)
visit_all resume (id ∷ ids) m =
    let (taken, m1) = visit resume id m in
    let (rest, m2) = visit_all resume ids m1 in (taken ++ rest, m2)

pub recovery_sweep : Resume → Machine → List String × Machine
recovery_sweep resume m = visit_all resume (find_recoverable_runs m.store) m
