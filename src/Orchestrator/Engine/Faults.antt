-- ===== src/Orchestrator/Engine/Faults.antt =====
-- What the engine does with a recorded output, with a fault that may be retried, and with a fatal one.
use mathlib.Core.Option.{some_inj}
use case_automation_mcp.Common.{
  ℕ, String, true, false, none, some, List, ◌++◌, arith, Option, ◌≡◌, ◌≢◌, refl, sym, ap, ◌∙◌, ok,
  err, ◌>>=◌, ◌>>◌, >>=-eq-ok, pure, lookup, insert, reverse, subst, ltb, lt→ltb, ◌<◌, ◌+◌, ◌&&◌,
  Bool, if◌then◌else◌,
}
use case_automation_mcp.Json.{Json}
use case_automation_mcp.Orchestrator.States.{
  RunStatus, StepStatus, StepError, StepState, WorkflowRun, is_legal_step_transition,
}
use case_automation_mcp.Orchestrator.Store.{
  illegal_step, assertion, get_step, update_step, set_current_step, change_step, change_steps,
}
use case_automation_mcp.Orchestrator.Store.Calls.{moved, update_step-legal, runs-change_steps}
use case_automation_mcp.Orchestrator.Dsl.{Fault, StepContext, Handler, returned, is_gate}
use case_automation_mcp.Orchestrator.Idempotency.{
  placeholder, reserve, record_output, lookup_output,
}
use case_automation_mcp.Orchestrator.Idempotency.Recording.{lookup-record_output}
use case_automation_mcp.Orchestrator.Engine.{
  Env, Machine, Engine, Pass, Carry, Next, go, stop, Attempt, is_finished, on_store, note, or_empty,
  finish_step, after_call, attempt_step, normal_step, fetch, run_step, park, settle, classify_error,
  failed_state, retry_or_park, max_attempts,
}
use case_automation_mcp.Orchestrator.Engine.Retry.{retry_refused}
use case_automation_mcp.Orchestrator.Engine.Passes.{Untouched, on_store-ok, fetch-ok, move_noted-ok}

replayed :
    (again : String → Engine WorkflowRun) (p : Pass) (s : StepState) (c : Carry) (o : Json)
    (m : Machine)
    → lookup_output s.idem_key m.idem ≡ some o
    → normal_step again p s c m
      ≡ (on_store (set_current_step p.now p.run_id s.step)
            >> pure (go (record c { outputs = insert s.step o c.outputs })))
          m
unfolding normal_step
replayed again p s c o m found = rw (found, normal_step)

-- a pass over a step whose output is found
recorded_step :
    (env : Env) (again : String → Engine WorkflowRun) (p : Pass) (s : StepState) (c : Carry)
    (o : Json) (m m' : Machine) (x : Next)
    → is_finished s.status ≡ false
    → is_gate s.step ≡ false
    → lookup_output s.idem_key m.idem ≡ some o
    → run_step env again p s c m ≡ (ok x, m')
    → (x ≡ go (record c { outputs = insert s.step o c.outputs })) × Untouched m m'
recorded_step env again p s c o m m' x f g found h =
    let h1 : normal_step again p s c m ≡ (ok x, m') = unfold run_step in rw (f, g) at h in
    let h2 = sym (replayed again p s c o m found) ∙ h1 in
    let (_, a, e, h3) = >>=-eq-ok (on_store (set_current_step p.now p.run_id s.step)) _ m h2 in
    let (_, u) = on_store-ok m a (set_current_step p.now p.run_id s.step) tt e in
    (cc, subst (Untouched m) (ap (λ y. y.1) h3) u)

finish_step-idem :
    (now : ℕ) (id : String) (s : StepState) (c : Carry) (m : Machine)
    → (finish_step now id s c m).1.idem ≡ m.idem
unfolding finish_step note on_store
finish_step-idem now id s c m = ground arith

-- what a handler was called with
abbrev context_of : Pass → StepState → Carry → StepContext
context_of p s c = record {
  run_id = p.run_id;
  context = p.run.context;
  step_outputs = c.outputs;
  idem_key = s.idem_key;
}

attempt_step-called :
    (p : Pass) (s : StepState) (c : Carry) (m : Machine) (h : Handler)
    → lookup s.step p.defn.handlers ≡ some h
    → attempt_step p s c m
      ≡ after_call p.now p.run_id s c
          (h (context_of p s c) m.calls)
          (record m { calls = m.calls + 1 })
unfolding attempt_step
attempt_step-called p s c m h there = rw (there, attempt_step)

attempt_step-idem :
    (p : Pass) (s : StepState) (c : Carry) (m : Machine) (h : Handler) (out : Option Json)
    (comps : List String)
    → lookup s.step p.defn.handlers ≡ some h
    → h (context_of p s c) m.calls ≡ returned out comps
    → (attempt_step p s c m).1.idem
      ≡ record_output s.idem_key (or_empty out) (reserve s.idem_key m.idem).1
unfolding after_call
attempt_step-idem p s c m h out comps there ran =
    ap (λ r. r.1.idem)
      (attempt_step-called p s c m h there
        ∙ ap (λ r. after_call p.now p.run_id s c r (record m { calls = m.calls + 1 })) ran)
    ∙ finish_step-idem p.now p.run_id _ _ _

-- Once the handler of a step has returned, with an output that is not empty, a later pass over the step
-- that does not raise carries this output on and calls no handler, records nothing and makes no
-- compensation: however the attempt ended after the handler, and whatever else has changed but the
-- recorded outputs. The step is not a gate, and is not marked as finished.
pub attempt_step-replayed :
    (env : Env) (again : String → Engine WorkflowRun) (p p' : Pass) (s s' : StepState)
    (c c' : Carry) (m n n' : Machine) (h : Handler) (out : Option Json) (comps : List String)
    (x : Next)
    → lookup s.step p.defn.handlers ≡ some h
    → h (context_of p s c) m.calls ≡ returned out comps
    → or_empty out ≢ placeholder
    → n.idem ≡ (attempt_step p s c m).1.idem
    → s'.idem_key ≡ s.idem_key
    → is_finished s'.status ≡ false
    → is_gate s'.step ≡ false
    → run_step env again p' s' c' n ≡ (ok x, n')
    → (x ≡ go (record c' { outputs = insert s'.step (or_empty out) c'.outputs })) × Untouched n n'
attempt_step-replayed env again p p' s s' c c' m n n' h out comps x there ran full kept key open_ g
      later =
    let d = (reserve s.idem_key m.idem).1 in
    let recorded : n.idem ≡ record_output s.idem_key (or_empty out) d =
      kept ∙ attempt_step-idem p s c m h out comps there ran in
    let found : lookup_output s'.idem_key n.idem ≡ some (or_empty out) =
      ap (λ k. lookup_output k n.idem) key
      ∙ ap (lookup_output s.idem_key) recorded
      ∙ lookup-record_output s.idem_key (or_empty out) d full in
    recorded_step env again p' s' c' (or_empty out) n n' x open_ g found later

move_noted-undone :
    (now : ℕ) (id : String) (e : StepError) (comps : List String) (m a : Machine)
    → park now id e comps m ≡ (ok tt, a)
    → (q : WorkflowRun) × (lookup id a.store.runs
        ≡ some (moved now RunStatus.parked none (some e) q))
      × Untouched (record m { undone = m.undone ++ reverse comps }) a
unfolding park
move_noted-undone now id e comps m a h =
    let (q, _, _, after, u) =
      move_noted-ok now id "run.parked" RunStatus.parked (some e)
        (record m { undone = m.undone ++ reverse comps }) a h in
    (q, after, u)

if-false : {A : Type 0} (b : Bool) (x y : A) → b ≡ false → (if b then x else y) ≡ y
if-false true x y h = cc
if-false false x y h = refl

and-false : (b c : Bool) → b ≡ false → (b && c) ≡ false
and-false true c h = cc
and-false false c h = refl

parked_run :
    (again : String → Engine WorkflowRun) (now : ℕ) (id : String) (e : StepError) (s : StepState)
    (c : Carry) (m m' : Machine) (x : Next)
    → e.retryable ≡ false
    → retry_or_park again now id e s c m ≡ (ok x, m')
    → (r : WorkflowRun) × (x ≡ stop r)
      × (r.status ≡ RunStatus.parked)
      × (r.last_error ≡ some e)
      × (m'.undone ≡ m.undone ++ reverse c.compensations)
      × (m'.calls ≡ m.calls)
unfolding retry_or_park
parked_run again now id e s c m m' x fatal h =
    let h0 : (park now id e c.compensations >> (fetch assertion id >>= (λ r. pure (stop r)))) m
        ≡ (ok x, m') =
      sym (
        ap (λ (k : Engine Next). k m)
          (if-false (e.retryable && ltb s.attempt max_attempts) _ _
            (and-false e.retryable _ fatal)))
      ∙ h in
    let (_, a, e1, h1) = >>=-eq-ok (park now id e c.compensations) _ m h0 in
    let (r, b, e2, h2) = >>=-eq-ok (fetch assertion id) _ a h1 in
    let (q, after, u) = move_noted-undone now id e c.compensations m a e1 in
    let (read, here) = fetch-ok a b assertion id r e2 in
    let path : some (moved now RunStatus.parked none (some e) q) ≡ some r = sym after ∙ read in
    let same = some_inj.0 path in
    let place : a ≡ m' = sym here ∙ ap (λ y. y.1) h2 in
    (
      r,
      cc,
      ap (λ y. y.status) (sym same),
      ap (λ y. y.last_error) (sym same),
      ap (λ y. y.undone) (sym place) ∙ u.undone,
      ap (λ y. y.calls) (sym place) ∙ u.calls,
    )

module _ (again : String → Engine WorkflowRun) (now : ℕ) (id : String) (a : Attempt)
    (m : Machine) where
  -- A fault that may be retried, with attempts left and the step stored as running, raises: the
  -- failed step cannot go back to pending. No compensation is made, and the runs are as they were,
  -- so that the run is not parked.
  pub retryable_fault_raises :
      (f : Fault) (old : StepState)
      → a.fault ≡ some f
      → (classify_error f a.state.attempt).retryable ≡ true
      → a.state.attempt + 1 < max_attempts
      → get_step a.state.run_id a.state.step m.store ≡ some old
      → old.status ≡ StepStatus.running
      → ((settle again now id a m).0 ≡ err (illegal_step StepStatus.failed StepStatus.pending))
        × ((settle again now id a m).1.store.runs ≡ m.store.runs)
        × ((settle again now id a m).1.undone ≡ m.undone)
  retryable_fault_raises f old fault retryable left found running =
      let e = classify_error f a.state.attempt in
      let s = failed_state now e a.state in
      let written : update_step s m.store
          ≡ (ok tt, change_steps s.run_id (change_step s.step (λ _. s)) m.store) =
        update_step-legal s old m.store found
          (rw running (unfold is_legal_step_transition in refl)) in
      let m' = record m { store = change_steps s.run_id (change_step s.step (λ _. s)) m.store } in
      let refused =
        retry_refused again now id e s a.carry m' m.store (rw (retryable, lt→ltb _ _ left)) refl
          written in
      let first : settle again now id a m ≡ retry_or_park again now id e s a.carry m' =
        unfold settle in rw (fault, written) in
      let same = first ∙ refused in
      (
        ap (λ x. x.0) same,
        ap (λ x. x.1.store.runs) same ∙ runs-change_steps s.run_id _ m.store,
        ap (λ x. x.1.undone) same,
      )

  -- A fault that is not to be retried, whose treatment does not raise, parks the run with its
  -- error, after the compensations of the pass in reverse order, and calls no handler.
  pub fatal_fault_parks :
      (f : Fault) (m' : Machine) (x : Next)
      → a.fault ≡ some f
      → (classify_error f a.state.attempt).retryable ≡ false
      → settle again now id a m ≡ (ok x, m')
      → (r : WorkflowRun) × (x ≡ stop r)
        × (r.status ≡ RunStatus.parked)
        × (r.last_error ≡ some (classify_error f a.state.attempt))
        × (m'.undone ≡ m.undone ++ reverse a.carry.compensations)
        × (m'.calls ≡ m.calls)
  fatal_fault_parks f m' x fault fatal h =
      let e = classify_error f a.state.attempt in
      let s = failed_state now e a.state in
      let h0 : (on_store (update_step s) >> retry_or_park again now id e s a.carry) m ≡ (ok x, m') =
        unfold settle in rw fault at h in
      let (_, b, e1, h1) = >>=-eq-ok (on_store (update_step s)) _ m h0 in
      let (_, u) = on_store-ok m b (update_step s) tt e1 in
      let (r, stops, waits, kept, undone, calls) =
        parked_run again now id e s a.carry b m' x fatal h1 in
      (
        r,
        stops,
        waits,
        kept,
        undone ∙ ap (λ y. y ++ reverse a.carry.compensations) u.undone,
        calls ∙ u.calls,
      )
