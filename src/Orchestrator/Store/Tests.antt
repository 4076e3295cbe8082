-- ===== src/Orchestrator/Store/Tests.antt =====
-- Concrete runs of the store.
use case_automation_mcp.Common.{true, ◌≡◌, refl, none, [], ok, lookup}
use case_automation_mcp.Orchestrator.States.{RunStatus}
use case_automation_mcp.Orchestrator.Store.{
  RunStore, empty, create_run, bound_run, add_run, update_run_status, mark_token_used,
}
use case_automation_mcp.Orchestrator.Store.Laws.{start, more, status, Lives, Reach-Lives}
use case_automation_mcp.Orchestrator.Fixtures.{a_run, waiting}

abbrev resumed : RunStore
resumed = (update_run_status 7 "r" RunStatus.running none none waiting).1

Reach-Lives_example : Lives "r" (a_run RunStatus.awaiting_approval) resumed
unfolding lookup
Reach-Lives_example =
    Reach-Lives "r" (more start (status 7 "r" RunStatus.running none none waiting)) refl

fresh_mark : (mark_token_used "t" 7 waiting).0 ≡ true
unfolding mark_token_used lookup
fresh_mark = refl

created :
    create_run (a_run RunStatus.queued) [] empty
    ≡ (ok (a_run RunStatus.queued), add_run (a_run RunStatus.queued) [] empty)
unfolding create_run bound_run lookup
created = refl
