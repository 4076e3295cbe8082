-- ===== src/StatusUpdate/Sweep.antt =====
-- src/cam/core/workflows/status_update/workflow.py: `sweep_matters`.
use case_automation_mcp.Common.{
  ℕ, suc, String, Option, none, some, List, [], ◌∷◌, ◌==◌, if◌then◌else◌, Outcome, ok, err,
}
use case_automation_mcp.Orchestrator.Store.{Error, RunStore}
use case_automation_mcp.StatusUpdate.{
  World, StatusUpdateConfig, StatusStore, Change, Answer, handle_status_change_event,
  sweep_change_id, next_transition_counter, is_delivered, update_last_status, get_last_status, text,
}

-- what a sweep changes
pub record Stores : Type 0 where
  pub status : StatusStore
  pub runs : RunStore

-- the answer of the handler; an error is logged
pub swept :
    String
    → String
    → StatusStore
    → Outcome Error (Option Answer) × RunStore
    → Option Answer × Stores
swept matter_id current s (err e, st) = (none, record { status = s; runs = st })
swept matter_id current s (ok none, st) = (none, record { status = s; runs = st })
swept matter_id current s (ok (some a), st) =
    (some a, record { status = update_last_status matter_id current s; runs = st })

abbrev sweep_event : World → String → String → String → ℕ → Change
sweep_event w matter_id from to n = record {
  matter_id = matter_id;
  from_status = from;
  to_status = to;
  provider_event_id = text "sweep-" (sweep_change_id w matter_id from to n);
}

-- a matter whose status differs from the last one
pub sweep_diff :
    World
    → StatusUpdateConfig
    → ℕ
    → String
    → String
    → String
    → String
    → Stores
    → Option Answer × Stores
unfolding next_transition_counter swept handle_status_change_event
sweep_diff w cfg now fresh matter_id last current x =
    let (n, s) = next_transition_counter matter_id x.status in
    if is_delivered (sweep_change_id w matter_id last current n) s
    then (none, record x { status = s })
    else swept matter_id current s (
        handle_status_change_event w cfg s now fresh (sweep_event w matter_id last current n)
          x.runs)

pub sweep_last :
    World
    → StatusUpdateConfig
    → ℕ
    → String
    → String
    → String
    → Option String
    → Stores
    → Option Answer × Stores
unfolding sweep_diff
sweep_last w cfg now fresh matter_id current none x = (none, x)
sweep_last w cfg now fresh matter_id current (some last) x =
    if last == current then (none, x) else sweep_diff w cfg now fresh matter_id last current x

-- one round of the loop; an error of the case system is logged
pub sweep_matter :
    World → StatusUpdateConfig → ℕ → String → String → Stores → Option Answer × Stores
unfolding sweep_last get_last_status
sweep_matter w cfg now fresh matter_id x = elim (w.matter_status matter_id) [
  | none ↦ (none, x)
  | some current ↦
      sweep_last w cfg now fresh matter_id current (get_last_status matter_id x.status) x
]

abbrev add : Option Answer → List Answer → List Answer
add none l = l
add (some a) l = a ∷ l

-- `fresh n` is the uuid for the nth matter
pub sweep_matters :
    World → StatusUpdateConfig → ℕ → (ℕ → String) → List String → Stores → List Answer × Stores
unfolding sweep_matter
sweep_matters w cfg now fresh [] x = ([], x)
sweep_matters w cfg now fresh (m ∷ ms) x =
    let (a, y) = sweep_matter w cfg now (fresh 0) m x in
    let (l, z) = sweep_matters w cfg now (λ n. fresh (suc n)) ms y in (add a l, z)
