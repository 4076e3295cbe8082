-- ===== src/Orchestrator/Triggers/Once.antt =====
-- Triggers that come twice.
use case_automation_mcp.Common.{
  ℕ, String, true, ◌≡◌, inl, inr, Option, none, some, Outcome, ok, err, truthy, Bool-cases, subst,
}
use case_automation_mcp.Orchestrator.States.{TriggerRef, WorkflowRun}
use case_automation_mcp.Orchestrator.Store.{Error, RunStore, given}
use case_automation_mcp.Orchestrator.Store.Laws.{Reach, Evolves}
use case_automation_mcp.Orchestrator.Store.Starts.{create_run_once}
use case_automation_mcp.Orchestrator.Dsl.{WorkflowDef, Registry, get_workflow_latest}
use case_automation_mcp.Orchestrator.Triggers.{
  dedupe_key_of, keyed, Start, new_run, fan_out, or_fresh, start_defined, start_valid, start_run,
}

given-given : (o : Option String) {k : String} → given o ≡ some k → given (some k) ≡ some k
given-given none h = cc
given-given (some j) {k} h = elim (Bool-cases (truthy j)) [
  | inl full ↦ let same : some j ≡ some k = rw full at h in subst (λ o. given o ≡ o) same (rw full)
  | inr empty_text ↦ cc (rw empty_text at h)
]

key-keyed :
    (idem_key : Option String) (t : TriggerRef) {k : String}
    → given (dedupe_key_of idem_key t) ≡ some k
    → given (keyed idem_key t).dedupe_key ≡ some k
unfolding keyed
key-keyed idem_key t {k} h = rw (h, keyed) (given-given (dedupe_key_of idem_key t) h)

start_valid-ok :
    (now : ℕ) (fresh : String) (s : Start) (o : Outcome Error WorkflowDef) (a b : RunStore)
    (r : WorkflowRun)
    → start_valid now fresh s o a ≡ (ok r, b)
    → (d : WorkflowDef) × (start_defined now fresh s d a ≡ (ok r, b))
unfolding start_valid
start_valid-ok now fresh s (err e) a b r h = cc
start_valid-ok now fresh s (ok d) a b r h = elim (Bool-cases (d.accepts s.context)) [
  | inl valid ↦ (d, rw valid at h)
  | inr invalid ↦ cc (rw invalid at h)
]

-- A start with the dedupe key of an earlier start that succeeded makes no run: it changes nothing
-- and returns the run of the earlier start, as the calls between the two have left it. The ids of
-- runs and tokens made between the two are fresh. Its workflow is registered and its context valid.
pub start_run_once :
    (reg reg' : Registry) (now now' : ℕ) (fresh fresh' : String) (s s' : Start) (d : WorkflowDef)
    (a b c : RunStore) (k : String) (r : WorkflowRun)
    → given (dedupe_key_of s.idem_key s.trigger) ≡ some k
    → given (dedupe_key_of s'.idem_key s'.trigger) ≡ some k
    → get_workflow_latest s'.workflow reg' ≡ ok d
    → d.accepts s'.context ≡ true
    → start_run reg now fresh s a ≡ (ok r, b)
    → Reach b c
    → (r' : WorkflowRun) × (start_run reg' now' fresh' s' c ≡ (ok r', c)) × Evolves r r'
unfolding start_run
start_run_once reg reg' now now' fresh fresh' s s' d a b c k r key key' known valid first between =
    let (d0, h) = start_valid-ok now fresh s (get_workflow_latest s.workflow reg) a b r first in
    let (r', again, e) =
      create_run_once
        (new_run now (or_fresh s.run_id fresh) d0 s.workflow s.context (keyed s.idem_key s.trigger))
        (new_run now' (or_fresh s'.run_id fresh') d s'.workflow s'.context
          (keyed s'.idem_key s'.trigger))
        (fan_out (or_fresh s.run_id fresh) 0 d0.steps)
        (fan_out (or_fresh s'.run_id fresh') 0 d.steps) a b c k r
        (unfold new_run in key-keyed s.idem_key s.trigger key)
        (unfold new_run in key-keyed s'.idem_key s'.trigger key') (unfold start_defined in h)
        between in
    (r', rw known (unfold start_valid start_defined in rw valid again), e)
