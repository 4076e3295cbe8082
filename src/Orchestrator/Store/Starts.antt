-- ===== src/Orchestrator/Store/Starts.antt =====
-- Starts with a dedupe key that is already bound.
use case_automation_mcp.Common.{
  String, ◌≡◌, sym, ◌∙◌, ap, Option, none, some, List, arith, lookup, lookup-insert, eq_iff,
  eq_refl, Option-cases, inl, inr, ok, Outcome,
}
use case_automation_mcp.Orchestrator.States.{WorkflowRun, StepState}
use case_automation_mcp.Orchestrator.Store.{
  Error, RunStore, or_key_error, given, bound_run, bind_key, add_run, create_run, update_run_status,
  set_current_step, change_steps, update_step, create_gate_request, update_gate_request, save_token,
  mark_token_used, save_approval_decision,
}
use case_automation_mcp.Orchestrator.Store.Calls.{
  dedupe-advance_gate_step, create_run-new, create_run-bound,
}
use case_automation_mcp.Orchestrator.Store.Laws.{
  Step, create, status, current, advance, write_step, new_gate, gate, token, mark, decide, Reach,
  start, more, Reach-Lives, Evolves,
}

dedupe-update_run_status :
    (now : _) (id : _) (s : _) (c : _) (e : _) (st : RunStore)
    → (update_run_status now id s c e st).1.dedupe ≡ st.dedupe
unfolding update_run_status
dedupe-update_run_status now id s c e st = ground arith

dedupe-set_current_step :
    (now : _) (id : _) (s : _) (st : RunStore) → (set_current_step now id s st).1.dedupe ≡ st.dedupe
unfolding set_current_step
dedupe-set_current_step now id s st = ground arith

dedupe-update_step : (s : _) (st : RunStore) → (update_step s st).1.dedupe ≡ st.dedupe
unfolding update_step change_steps
dedupe-update_step s st = ground arith

dedupe-mark_token_used :
    (id : _) (now : _) (st : RunStore) → (mark_token_used id now st).1.dedupe ≡ st.dedupe
unfolding mark_token_used
dedupe-mark_token_used id now st = ground arith

-- a new run binds only a key that was free
bind_free :
    (k : String) (key : Option String) (id old : String) (st : RunStore)
    → bound_run key st ≡ none
    → lookup k st.dedupe ≡ some old
    → lookup k (bind_key key id st.dedupe) ≡ some old
unfolding bound_run bind_key
bind_free k none id old st free h = h
bind_free k (some j) id old st free h = rw lookup-insert (ground (arith, eq_iff j k, free, h))

Step-bound :
    {a b : RunStore} (k old : String)
    → Step a b
    → lookup k a.dedupe ≡ some old
    → lookup k b.dedupe ≡ some old
Step-bound k old (create run l st fresh) h =
    elim (Option-cases (bound_run (given run.trigger.dedupe_key) st)) [
      | inl new ↦
          rw (create_run-new run l st new)
            (unfold add_run in bind_free k (given run.trigger.dedupe_key) run.id old st new h)
      | inr (o, e) ↦ rw (create_run-bound run l st e) h
    ]
Step-bound k old (status now id s c e st) h = rw dedupe-update_run_status h
Step-bound k old (current now id s st) h = rw dedupe-set_current_step h
Step-bound k old (advance now id s st) h = rw dedupe-advance_gate_step h
Step-bound k old (write_step s st) h = rw dedupe-update_step h
Step-bound k old (new_gate g st) h = unfold create_gate_request in h
Step-bound k old (gate g st) h = unfold update_gate_request in h
Step-bound k old (token t st _) h = unfold save_token in h
Step-bound k old (mark id now st) h = rw dedupe-mark_token_used h
Step-bound k old (decide d st) h = unfold save_approval_decision in h

Reach-bound :
    {a b : RunStore} (k old : String)
    → Reach a b
    → lookup k a.dedupe ≡ some old
    → lookup k b.dedupe ≡ some old
Reach-bound k old start h = h
Reach-bound k old (more p s) h = Step-bound k old s (Reach-bound k old p h)

-- the run that a successful start returned, and the binding of its key
record Started (k : String) (r : WorkflowRun) (st : RunStore) : Type 0 where
  bound_to : String
  bound : lookup k st.dedupe ≡ some bound_to
  live : lookup bound_to st.runs ≡ some r

or_key_error-ok : {A : Type 0} (o : Option A) {a : A} → or_key_error o ≡ ok a → o ≡ some a
or_key_error-ok none h = cc
or_key_error-ok (some a) h = cc

ok_inj : {A : Type 0} {a b : A} → ◌≡◌ {A = Outcome Error A} (ok a) (ok b) → a ≡ b
ok_inj h = cc

create_run-Started :
    (run : WorkflowRun) (l : List StepState) (a b : RunStore) (k : String) {r : WorkflowRun}
    → given run.trigger.dedupe_key ≡ some k
    → create_run run l a ≡ (ok r, b)
    → Started k r b
create_run-Started run l a b k {r} key h = elim (Option-cases (lookup k a.dedupe)) [
  | inl free ↦
      let e = create_run-new run l a (unfold bound_run in rw key free) in
      let same_store : b ≡ add_run run l a = ap (λ p. p.1) (sym h ∙ e) in
      let same_run : ◌≡◌ {A = Outcome Error WorkflowRun} (ok r) (ok run) =
        ap (λ p. p.0) (sym h ∙ e) in
      record {
        bound_to = run.id;
        bound = rw same_store (unfold add_run bind_key in rw key (rw lookup-insert (rw eq_refl)));
        live = rw (same_store, ok_inj same_run) (unfold add_run in rw lookup-insert (rw eq_refl));
      }
  | inr (old, bound) ↦
      let e = create_run-bound run l a {old = old} (unfold bound_run in rw key bound) in
      let same_store : b ≡ a = ap (λ p. p.1) (sym h ∙ e) in
      record {
        bound_to = old;
        bound = rw same_store bound;
        live = rw same_store (or_key_error-ok (lookup old a.runs) (ap (λ p. p.0) (sym e ∙ h)));
      }
]

-- A start with the key of an earlier one changes nothing, and returns the run of the earlier start,
-- whatever calls with fresh ids came between.
pub create_run_once :
    (run run' : WorkflowRun) (l l' : List StepState) (a b c : RunStore) (k : String)
    (r : WorkflowRun)
    → given run.trigger.dedupe_key ≡ some k
    → given run'.trigger.dedupe_key ≡ some k
    → create_run run l a ≡ (ok r, b)
    → Reach b c
    → (r' : WorkflowRun) × (create_run run' l' c ≡ (ok r', c)) × Evolves r r'
create_run_once run run' l l' a b c k r key key' first between =
    let s = create_run-Started run l a b k key first in
    let (r', found, e) = Reach-Lives s.bound_to between s.live in
    let bound = Reach-bound k s.bound_to between s.bound in (r', again s.bound_to bound found, e)
  where
    again :
        (old : String)
        → lookup k c.dedupe ≡ some old
        → {r' : WorkflowRun} → lookup old c.runs ≡ some r'
        → create_run run' l' c ≡ (ok r', c)
    again old bound found =
        create_run-bound run' l' c {old = old} (unfold bound_run in rw key' bound) ∙ rw found
