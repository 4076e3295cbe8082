-- ===== src/Orchestrator/Engine/Passes.antt =====
-- One pass of the loop of `_execute` (src/cam/core/orchestrator/engine.py), up to an open gate.
use case_automation_mcp.Common.{
  ℕ, String, true, false, Option, none, some, List, [], ◌∷◌, ◌++◌, ◌≡◌, refl, sym, ap, ◌∙◌, ok,
  Exec, ◌>>=◌, ◌>>◌, >>=-eq-ok, arith, All, lookup, subst,
}
use mathlib.Core.Option.{some_inj}
use case_automation_mcp.Orchestrator.States.{
  RunStatus, StepError, StepState, WorkflowRun, Channel, is_legal_run_transition,
}
use case_automation_mcp.Orchestrator.Store.{Error, assertion, RunStore, get_run, update_run_status}
use case_automation_mcp.Orchestrator.Store.Calls.{moved, status-ok}
use case_automation_mcp.Orchestrator.Engine.Opening.{
  Opened, Opened-stages, gates-status, tokens-status,
}
use case_automation_mcp.Orchestrator.Dsl.{GateConfig, is_gate, gate_config}
use case_automation_mcp.Orchestrator.Engine.{
  Env, Machine, Engine, Pass, Carry, Next, go, stop, is_finished, add_output, on_store, note,
  open_gate, issue_all, handle_gate, gate_step, fetch, run_step, proceed, run_steps,
}

-- the handlers called, the outputs recorded and the compensations made are the same
pub record Untouched (m m' : Machine) : Type 0 where
  pub calls : m'.calls ≡ m.calls
  pub idem : m'.idem ≡ m.idem
  pub undone : m'.undone ≡ m.undone

abbrev collect : List StepState → Carry → Carry
collect [] c = c
collect (s ∷ l) c = collect l (add_output s.step s.output c)

abbrev Finished : List StepState → Type 0
Finished l = All (λ s. is_finished s.status ≡ true) l

module _ (env : Env) (again : String → Engine WorkflowRun) (p : Pass) where
  -- steps that are finished only add their outputs
  run_steps-append :
      (l rest : List StepState) (c : Carry)
      → Finished l
      → run_steps env again p (l ++ rest) c ≡ run_steps env again p rest (collect l c)
  unfolding run_steps run_step
  run_steps-append [] rest c h = refl
  run_steps-append (s ∷ l) rest c (f, h) =
      rw f (run_steps-append l rest (add_output s.step s.output c) h)

  gate_ends_pass :
      (s : StepState) (rest : List StepState) (c : Carry) (m : Machine)
      → is_finished s.status ≡ false
      → is_gate s.step ≡ true
      → run_steps env again p (s ∷ rest) c m
        ≡ (gate_step env p s >>= proceed (run_steps env again p rest)) m
  unfolding run_steps run_step
  gate_ends_pass s rest c m f g = rw (f, g)

Untouched-issue_all :
    (env : Env) (now : ℕ) (id : String) (run : WorkflowRun) (s : StepState) (cfg : GateConfig)
    (chs : List Channel) (m : Machine)
    → Untouched m (issue_all env now id run s cfg chs m).1
unfolding issue_all
Untouched-issue_all env now id run s cfg [] m = ground arith
Untouched-issue_all env now id run s cfg (ch ∷ chs) m =
    let u = Untouched-issue_all env now id run s cfg chs _ in
    record { calls = u.calls; idem = u.idem; undone = u.undone }

module _ (m m' : Machine) where
  pub on_store-ok :
      {A : Type 0} (f : Exec Error RunStore A) (a : A)
      → on_store f m ≡ (ok a, m')
      → (f m.store ≡ (ok a, m'.store)) × Untouched m m'
  unfolding on_store
  on_store-ok f a h = (
    λ i. ((h i).0, (h i).1.store),
    record {
      calls = ap (λ x. x.1.calls) (sym h);
      idem = ap (λ x. x.1.idem) (sym h);
      undone = ap (λ x. x.1.undone) (sym h);
    },
  )

  pub note-ok :
      (action : String) → note action m ≡ (ok tt, m') → (m'.store ≡ m.store) × Untouched m m'
  unfolding note
  note-ok action h = (
    ap (λ x. x.1.store) (sym h),
    record {
      calls = ap (λ x. x.1.calls) (sym h);
      idem = ap (λ x. x.1.idem) (sym h);
      undone = ap (λ x. x.1.undone) (sym h);
    },
  )

  pub fetch-ok :
      (e : Error) (id : String) (r : WorkflowRun)
      → fetch e id m ≡ (ok r, m')
      → (lookup id m.store.runs ≡ some r) × (m' ≡ m)
  unfolding fetch get_run
  fetch-ok e id r h = ground arith

pub Untouched-trans : {a b c : Machine} → Untouched a b → Untouched b c → Untouched a c
Untouched-trans p q = record {
  calls = q.calls ∙ p.calls;
  idem = q.idem ∙ p.idem;
  undone = q.undone ∙ p.undone;
}

-- a move of the run, noted in the audit trail
pub move_noted-ok :
    (now : ℕ) (id action : String) (s : RunStatus) (e : Option StepError) (m m' : Machine)
    → (on_store (update_run_status now id s none e) >> note action) m ≡ (ok tt, m')
    → (q : WorkflowRun) × (lookup id m.store.runs ≡ some q)
      × (is_legal_run_transition q.status s ≡ true)
      × (lookup id m'.store.runs ≡ some (moved now s none e q))
      × Untouched m m'
move_noted-ok now id action s e m m' h =
    let (_, a, e1, h1) = >>=-eq-ok (on_store (update_run_status now id s none e)) _ m h in
    let (moved_to, u1) = on_store-ok m a (update_run_status now id s none e) tt e1 in
    let (q, found, legal, after) = status-ok now id s none e m.store a.store moved_to in
    let (same, u2) = note-ok a m' action h1 in
    (q, found, legal, rw same after, Untouched-trans u1 u2)

move_noted-store :
    (now : ℕ) (id action : String) (s : RunStatus) (e : Option StepError) (m m' : Machine)
    → (on_store (update_run_status now id s none e) >> note action) m ≡ (ok tt, m')
    → m'.store ≡ (update_run_status now id s none e m.store).1
move_noted-store now id action s e m m' h =
    let (_, a, e1, h1) = >>=-eq-ok (on_store (update_run_status now id s none e)) _ m h in
    let (moved_to, _) = on_store-ok m a (update_run_status now id s none e) tt e1 in
    let (same, _) = note-ok a m' action h1 in same ∙ ap (λ x. x.1) (sym moved_to)

handle_gate-ok :
    (env : Env) (now : ℕ) (run : WorkflowRun) (s : StepState) (cfg : GateConfig) (m m' : Machine)
    → handle_gate env now run s cfg m ≡ (ok tt, m')
    → (r : WorkflowRun) × (lookup run.id m'.store.runs ≡ some r)
      × (r.status ≡ RunStatus.awaiting_approval)
      × Opened env now run.id s.step cfg m.supply m'.store
      × Untouched m m'
unfolding handle_gate open_gate
handle_gate-ok env now run s cfg m m' h =
    let (_, b, e2, h2) =
      >>=-eq-ok (issue_all env now (env.uuid m.supply) run s cfg cfg.channels) _
        (open_gate now (env.uuid m.supply) run s cfg m).1 h in
    let u2 =
      Untouched-issue_all env now (env.uuid m.supply) run s cfg cfg.channels
        (open_gate now (env.uuid m.supply) run s cfg m).1 in
    let (q, _, _, after, u3) =
      move_noted-ok now run.id "gate.requested" RunStatus.awaiting_approval none b m' h2 in
    let u : Untouched m b =
      subst (Untouched m) (ap (λ x. x.1) e2)
        (record { calls = u2.calls; idem = u2.idem; undone = u2.undone }) in
    let moved_to =
      move_noted-store now run.id "gate.requested" RunStatus.awaiting_approval none b m' h2 in
    let opened =
      Opened-stages env now run s cfg m b m'.store e2
        (ap (λ x. x.gates) moved_to
          ∙ gates-status now run.id RunStatus.awaiting_approval none b.store)
        (ap (λ x. x.tokens) moved_to
          ∙ tokens-status now run.id RunStatus.awaiting_approval none b.store) in
    (_, after, refl, opened, Untouched-trans u u3)

-- the gate of the step is open, as the definition of the workflow configures it
abbrev pub OpenedFor : Env → Pass → StepState → ℕ → RunStore → Type 0
OpenedFor env p s n st = Opened env p.now p.run.id s.step (gate_config p.defn s.step) n st

gate_step-ok :
    (env : Env) (p : Pass) (s : StepState) (m m' : Machine) (x : Next)
    → p.run.id ≡ p.run_id
    → gate_step env p s m ≡ (ok x, m')
    → (r : WorkflowRun) × (x ≡ stop r)
      × (r.status ≡ RunStatus.awaiting_approval)
      × OpenedFor env p s m.supply m'.store
      × Untouched m m'
unfolding gate_step
gate_step-ok env p s m m' x same h =
    let (_, a, e1, h1) =
      >>=-eq-ok (handle_gate env p.now p.run s (gate_config p.defn s.step)) _ m h in
    let (r, b, e2, h2) = >>=-eq-ok (fetch assertion p.run_id) _ a h1 in
    let (q, found, waits, opened, u) =
      handle_gate-ok env p.now p.run s (gate_config p.defn s.step) m a e1 in
    let (read, here) = fetch-ok a b assertion p.run_id r e2 in
    let path : some q ≡ some r = sym found ∙ ap (λ k. lookup k a.store.runs) same ∙ read in
    (
      r,
      cc,
      ap (λ y. y.status) (sym (some_inj.0 path)) ∙ waits,
      subst (λ y. OpenedFor env p s m.supply y.store) (sym here ∙ ap (λ y. y.1) h2) opened,
      subst (Untouched m) (sym here ∙ ap (λ y. y.1) h2) u,
    )

-- A pass over its own run that comes to an unresolved gate, and does not raise, opens it and stops.
-- The store has a pending request for the step with the role, the channels and the expiry of its
-- configuration, and for each channel an unused token of this request under an id drawn for it.
-- Whatever steps follow the gate, no handler is called, no output is recorded, and the run that
-- comes back waits for approval.
pub gate_blocks :
    (env : Env) (again : String → Engine WorkflowRun) (p : Pass) (l rest : List StepState)
    (s : StepState) (c : Carry) (m m' : Machine) (r : WorkflowRun)
    → Finished l
    → is_finished s.status ≡ false
    → is_gate s.step ≡ true
    → p.run.id ≡ p.run_id
    → run_steps env again p (l ++ s ∷ rest) c m ≡ (ok r, m')
    → (r.status ≡ RunStatus.awaiting_approval)
      × OpenedFor env p s m.supply m'.store
      × Untouched m m'
gate_blocks env again p l rest s c m m' r f open_ g same h =
    let h1 = gate_ends_pass env again p s rest (collect l c) m open_ g in
    let h2 = ap (λ k. k m) (run_steps-append env again p l (s ∷ rest) c f) in
    let (x, a, e, h3) =
      >>=-eq-ok (gate_step env p s) (proceed (run_steps env again p rest)) m
        (sym h1 ∙ sym h2 ∙ h) in
    let (q, stops, waits, opened, u) = gate_step-ok env p s m a x same e in
    stopped q x stops waits a opened u h3
  where
    stopped :
        (q : WorkflowRun) (x : Next)
        → x ≡ stop q
        → q.status ≡ RunStatus.awaiting_approval
        → (a : Machine) → OpenedFor env p s m.supply a.store
        → Untouched m a
        → proceed (run_steps env again p rest) x a ≡ (ok r, m')
        → (r.status ≡ RunStatus.awaiting_approval)
          × OpenedFor env p s m.supply m'.store
          × Untouched m m'
    stopped q (go c') e w a o u h = cc
    stopped q (stop q') e w a o u h =
        let same_run : q' ≡ r = cc in
        let same_machine : a ≡ m' = cc in
        (
          rw (← same_run) (cc),
          subst (λ y. OpenedFor env p s m.supply y.store) same_machine o,
          subst (Untouched m) same_machine u,
        )
