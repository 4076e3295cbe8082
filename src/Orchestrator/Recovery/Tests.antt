-- ===== src/Orchestrator/Recovery/Tests.antt =====
-- A sweep over a store with a running run and one that waits.
use case_automation_mcp.Common.{refl, none, [], ◌∷◌, In, inl, lookup, values}
use case_automation_mcp.Orchestrator.States.{RunStatus}
use case_automation_mcp.Orchestrator.Store.{empty, get_run, find_recoverable_runs}
use case_automation_mcp.Orchestrator.Engine.{Machine}
use case_automation_mcp.Orchestrator.Fixtures.{a_run}
use case_automation_mcp.Orchestrator.Recovery.{Resume, visit, visit_all, recovery_sweep}

-- the queue is kept where the engine keeps the compensations
abbrev queue : Resume
queue id m = record m { undone = id ∷ m.undone }

abbrev a_machine : Machine
a_machine = record {
  store = record empty {
    runs =
        ("q", record (a_run RunStatus.awaiting_approval) { id = "q" })
        ∷ ("r", a_run RunStatus.running)
        ∷ [];
  };
  idem = [];
  locks = none;
  audit = [];
  calls = 0;
  undone = [];
  supply = 0;
}

taken : In "r" (recovery_sweep queue a_machine).0
unfolding recovery_sweep find_recoverable_runs visit_all visit get_run lookup values
taken = inl refl
