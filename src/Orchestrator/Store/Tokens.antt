-- ===== src/Orchestrator/Store/Tokens.antt =====
-- What becomes of a token that was marked as used.
use case_automation_mcp.Common.{
  ℕ, String, true, false, ◌≡◌, refl, some, arith, lookup, lookup-insert, eq_iff, ◌==◌, Bool-cases,
  Option-cases, inl, inr, is_some, eq_refl,
}
use case_automation_mcp.Orchestrator.States.{ApprovalToken}
use case_automation_mcp.Orchestrator.Store.{
  RunStore, create_run, add_run, update_run_status, set_current_step, change_steps, update_step,
  create_gate_request, update_gate_request, save_token, mark_token_used, save_approval_decision,
}
use case_automation_mcp.Orchestrator.Store.Laws.{
  Step, create, status, current, advance, write_step, new_gate, gate, token, mark, decide, Reach,
  start, more,
}
use case_automation_mcp.Orchestrator.Store.Calls.{
  tokens-advance_gate_step, mark-missing, mark-used, mark-fresh,
}

pub record Spent (id : String) (st : RunStore) : Type 0 where
  pub held : ApprovalToken
  pub found : lookup id st.tokens ≡ some held
  pub used : is_some held.used_at ≡ true

-- A mark that succeeds found the token unused, and leaves it used.
pub mark-true :
    (id : String) (now : ℕ) (st : RunStore)
    → (mark_token_used id now st).0 ≡ true
    → Spent id (mark_token_used id now st).1
mark-true id now st h = elim (Option-cases (lookup id st.tokens)) [
  | inl missing ↦ cc (mark-missing id now st missing)
  | inr (t, found) ↦ elim (Bool-cases (is_some t.used_at)) [
    | inl used ↦ cc (mark-used id now st t found used)
    | inr fresh ↦ rw (mark-fresh id now st t found fresh) (record {
      held = record t { used_at = some now };
      found = rw lookup-insert (rw eq_refl);
      used = refl;
    })
  ]
]

pub Spent-mark-false :
    (id : String) (now : ℕ) (st : RunStore) → Spent id st → (mark_token_used id now st).0 ≡ false
unfolding mark_token_used
Spent-mark-false id now st s = ground (arith, s.found, s.used)

tokens-create_run : (r : _) (l : _) (st : RunStore) → (create_run r l st).1.tokens ≡ st.tokens
unfolding create_run add_run
tokens-create_run r l st = ground arith

tokens-update_run_status :
    (now : _) (id : _) (s : _) (c : _) (e : _) (st : RunStore)
    → (update_run_status now id s c e st).1.tokens ≡ st.tokens
unfolding update_run_status
tokens-update_run_status now id s c e st = ground arith

tokens-set_current_step :
    (now : _) (id : _) (s : _) (st : RunStore) → (set_current_step now id s st).1.tokens ≡ st.tokens
unfolding set_current_step
tokens-set_current_step now id s st = ground arith

tokens-update_step : (s : _) (st : RunStore) → (update_step s st).1.tokens ≡ st.tokens
unfolding update_step change_steps
tokens-update_step s st = ground arith

Spent-mark :
    (k id : String) (now : ℕ) (st : RunStore) → Spent id st → Spent id (mark_token_used k now st).1
Spent-mark k id now st s = elim (Option-cases (lookup k st.tokens)) [
  | inl missing ↦ rw (mark-missing k now st missing) s
  | inr (t, found) ↦ elim (Bool-cases (is_some t.used_at)) [
    | inl used ↦ rw (mark-used k now st t found used) s
    | inr fresh ↦ rw (mark-fresh k now st t found fresh) (elim (Bool-cases (k == id)) [
      | inl same ↦ record {
        held = record t { used_at = some now };
        found = rw lookup-insert (rw same);
        used = refl;
      }
      | inr other ↦ record {
        held = s.held;
        found = rw lookup-insert (rw other s.found);
        used = s.used;
      }
    ])
  ]
]

Step-Spent : {a b : RunStore} (id : String) → Step a b → Spent id a → Spent id b
Step-Spent id (create r l st _) s = record {
  held = s.held;
  found = rw tokens-create_run s.found;
  used = s.used;
}
Step-Spent id (status now k t c e st) s = record {
  held = s.held;
  found = rw tokens-update_run_status s.found;
  used = s.used;
}
Step-Spent id (current now k t st) s = record {
  held = s.held;
  found = rw tokens-set_current_step s.found;
  used = s.used;
}
Step-Spent id (advance now k t st) s = record {
  held = s.held;
  found = rw tokens-advance_gate_step s.found;
  used = s.used;
}
Step-Spent id (write_step t st) s = record {
  held = s.held;
  found = rw tokens-update_step s.found;
  used = s.used;
}
Step-Spent id (new_gate g st) s = record {
  held = s.held;
  found = unfold create_gate_request in s.found;
  used = s.used;
}
Step-Spent id (gate g st) s = record {
  held = s.held;
  found = unfold update_gate_request in s.found;
  used = s.used;
}
Step-Spent id (token t st fresh) s = record {
  held = s.held;
  found = unfold save_token in rw lookup-insert (ground (arith, eq_iff t.id id, s.found));
  used = s.used;
}
Step-Spent id (mark k now st) s = Spent-mark k id now st s
Step-Spent id (decide d st) s = record {
  held = s.held;
  found = unfold save_approval_decision in s.found;
  used = s.used;
}

pub Reach-Spent : {a b : RunStore} (id : String) → Reach a b → Spent id a → Spent id b
Reach-Spent id start s = s
Reach-Spent id (more p t) s = Step-Spent id t (Reach-Spent id p s)

-- Once a token was marked as used, no later mark of it succeeds, whatever calls with fresh ids come
-- between.
pub mark_once :
    (id : String) (now later : ℕ) (st st' : RunStore)
    → (mark_token_used id now st).0 ≡ true
    → Reach (mark_token_used id now st).1 st'
    → (mark_token_used id later st').0 ≡ false
mark_once id now later st st' h r =
    Spent-mark-false id later st' (Reach-Spent id r (mark-true id now st h))
