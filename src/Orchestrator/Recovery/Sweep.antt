-- ===== src/Orchestrator/Recovery/Sweep.antt =====
-- Which runs a sweep takes up again.
use case_automation_mcp.Common.{
  String, true, false, ◌≡◌, ◌≢◌, sym, ap, ◌∙◌, ◌⊎◌, inl, inr, none, some, List, [], ◌∷◌, ◌++◌, In,
  lookup, Bool-cases, Option-cases, arith,
}
use case_automation_mcp.Orchestrator.States.{RunStatus, WorkflowRun}
use case_automation_mcp.Orchestrator.Store.{get_run, find_recoverable_runs}
use case_automation_mcp.Orchestrator.Engine.{Machine}
use case_automation_mcp.Orchestrator.Recovery.{
  Resume, is_awaiting, visit, visit_all, recovery_sweep,
}

-- a queue takes an id and leaves the runs alone
unfoldable pub KeepsRuns : Resume → Type 0
KeepsRuns resume = (id : String) (m : Machine) → (resume id m).store.runs ≡ m.store.runs

In-append-cases : (x : String) (a b : List String) → In x (a ++ b) → In x a ⊎ In x b
In-append-cases x [] b m = inr m
In-append-cases x (y ∷ a) b (inl e) = inl (inl e)
In-append-cases x (y ∷ a) b (inr m) = further (In-append-cases x a b m)
  where
    further : In x a ⊎ In x b → ((y ≡ x) ⊎ In x a) ⊎ In x b
    further (inl l) = inl (inr l)
    further (inr r) = inr r

visit-missing :
    (f : Resume) (id : String) (m : Machine)
    → lookup id m.store.runs ≡ none
    → visit f id m ≡ ([], m)
unfolding visit get_run
visit-missing f id m h = ground (arith, h)

visit-awaiting :
    (f : Resume) (id : String) (m : Machine) (r : WorkflowRun)
    → lookup id m.store.runs ≡ some r
    → is_awaiting r.status ≡ true
    → visit f id m ≡ ([], m)
unfolding visit get_run
visit-awaiting f id m r h w = ground (arith, h, w)

visit-taken :
    (f : Resume) (id : String) (m : Machine) (r : WorkflowRun)
    → lookup id m.store.runs ≡ some r
    → is_awaiting r.status ≡ false
    → visit f id m ≡ (id ∷ [], f id m)
unfolding visit get_run
visit-taken f id m r h w = ground (arith, h, w)

runs-visit :
    (f : Resume) (id : String) (m : Machine)
    → KeepsRuns f
    → (visit f id m).1.store.runs ≡ m.store.runs
runs-visit f id m k = elim (Option-cases (lookup id m.store.runs)) [
  | inl absent ↦ rw (visit-missing f id m absent)
  | inr (r, found) ↦ elim (Bool-cases (is_awaiting r.status)) [
    | inl waits ↦ rw (visit-awaiting f id m r found waits)
    | inr free ↦ rw (visit-taken f id m r found free) (unfold KeepsRuns in k id m)
  ]
]

-- what makes a sweep take a run up
abbrev Free : String → Machine → Type 0
Free id m = (r : WorkflowRun) × (lookup id m.store.runs ≡ some r) × (is_awaiting r.status ≡ false)

Free-same : (id : String) (m m' : Machine) → m'.store.runs ≡ m.store.runs → Free id m → Free id m'
Free-same id m m' e (r, found, free) = (r, ap (lookup id) e ∙ found, free)

Free-visit : (f : Resume) (x id : String) (m : Machine) → In x (visit f id m).0 → Free x m
Free-visit f x id m h = elim (Option-cases (lookup id m.store.runs)) [
  | inl absent ↦ absurd (rw (visit-missing f id m absent) at h)
  | inr (r, found) ↦ elim (Bool-cases (is_awaiting r.status)) [
    | inl waits ↦ absurd (rw (visit-awaiting f id m r found waits) at h)
    | inr free ↦ here (rw (visit-taken f id m r found free) at h) r found free
  ]
]
  where
    here :
        In x (id ∷ [])
        → (r : WorkflowRun) → lookup id m.store.runs ≡ some r
        → is_awaiting r.status ≡ false
        → Free x m
    here (inl e) r found free = (r, ap (λ k. lookup k m.store.runs) (sym e) ∙ found, free)
    here (inr n) r found free = absurd n

Free-visit_all :
    (f : Resume) (x : String) (ids : List String) (m : Machine)
    → KeepsRuns f
    → In x (visit_all f ids m).0
    → Free x m
unfolding visit_all
Free-visit_all f x [] m k h = absurd h
Free-visit_all f x (id ∷ ids) m k h =
    pick (In-append-cases x (visit f id m).0 _ h) (Free-visit_all f x ids (visit f id m).1 k)
  where
    pick :
        In x (visit f id m).0 ⊎ In x (visit_all f ids (visit f id m).1).0
        → (In x (visit_all f ids (visit f id m).1).0 → Free x (visit f id m).1)
        → Free x m
    pick (inl a) rest = Free-visit f x id m a
    pick (inr b) rest = Free-same x (visit f id m).1 m (sym (runs-visit f id m k)) (rest b)

-- what holds once `f` was called for `id`, and lasts through its other calls
unfoldable pub MarkOf : Resume → String → (Machine → Type 0) → Type 0
MarkOf f id P =
    ((m : Machine) → P (f id m)) × ((other : String) (m : Machine) → P m → P (f other m))

-- With a queue that leaves the runs alone, whatever a sweep takes up is a run that is there and does
-- not wait for an approval.
pub recovery_sweep-free :
    (f : Resume) (m : Machine) (id : String)
    → KeepsRuns f
    → In id (recovery_sweep f m).0
    → (r : WorkflowRun) × (lookup id m.store.runs ≡ some r)
      × (r.status ≢ RunStatus.awaiting_approval)
unfolding recovery_sweep
recovery_sweep-free f m id k i =
    let (r, found, free) = Free-visit_all f id (find_recoverable_runs m.store) m k i in
    (r, found, λ w. cc (ap is_awaiting w, free))
