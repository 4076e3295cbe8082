-- ===== src/Orchestrator/States/Laws.antt =====
-- The diagram of run states, as a relation, and what the tables allow.
use case_automation_mcp.Common.{◌≡◌, refl, ◌↔◌, ◌⊎◌, inl, inr, true, arith}
use case_automation_mcp.Orchestrator.States.{RunStatus, is_legal_run_transition}

infix 40 ◌⟶◌ ◌⟶*◌
-- the edges of the specification
pub data ◌⟶◌ : RunStatus → RunStatus → Type 0 where
  start : RunStatus.queued ⟶ RunStatus.running
  finish : RunStatus.running ⟶ RunStatus.succeeded
  wait : RunStatus.running ⟶ RunStatus.awaiting_approval
  park : RunStatus.running ⟶ RunStatus.parked
  cancel_running : RunStatus.running ⟶ RunStatus.cancelled
  approve : RunStatus.awaiting_approval ⟶ RunStatus.running
  reject : RunStatus.awaiting_approval ⟶ RunStatus.rejected
  cancel_waiting : RunStatus.awaiting_approval ⟶ RunStatus.cancelled
  redrive : RunStatus.parked ⟶ RunStatus.running
  cancel_parked : RunStatus.parked ⟶ RunStatus.cancelled

pub data ◌⟶*◌ : RunStatus → RunStatus → Type 0 where
  here : {s : RunStatus} → s ⟶* s
  next : {s t u : RunStatus} → s ⟶ t → t ⟶* u → s ⟶* u

pub ⟶*-trans : {a b c : RunStatus} → a ⟶* b → b ⟶* c → a ⟶* c
⟶*-trans here q = q
⟶*-trans (next e p) q = next e (⟶*-trans p q)

ruleset edges = (
  start, finish, wait, park, cancel_running, approve, reject, cancel_waiting, redrive,
  cancel_parked,
)

pub edge_of_legal : (a b : RunStatus) → is_legal_run_transition a b ≡ true → a ⟶ b
unfolding is_legal_run_transition
edge_of_legal a b h = grind (arith, edges)

legal_of_edge : {a b : RunStatus} → a ⟶ b → is_legal_run_transition a b ≡ true
unfolding is_legal_run_transition
legal_of_edge start = refl
legal_of_edge finish = refl
legal_of_edge wait = refl
legal_of_edge park = refl
legal_of_edge cancel_running = refl
legal_of_edge approve = refl
legal_of_edge reject = refl
legal_of_edge cancel_waiting = refl
legal_of_edge redrive = refl
legal_of_edge cancel_parked = refl

-- The table allows exactly the edges of the diagram.
pub is_legal_run_transition_iff : (a b : RunStatus) → (is_legal_run_transition a b ≡ true) ↔ (a ⟶ b)
is_legal_run_transition_iff a b = (edge_of_legal a b, legal_of_edge)

abbrev pub IsTerminal : RunStatus → Type 0
IsTerminal s = (s ≡ RunStatus.succeeded) ⊎ (s ≡ RunStatus.rejected) ⊎ (s ≡ RunStatus.cancelled)

no_edge : {a b : RunStatus} → a ⟶ b → ¬ IsTerminal a
no_edge start h = ground arith
no_edge finish h = ground arith
no_edge wait h = ground arith
no_edge park h = ground arith
no_edge cancel_running h = ground arith
no_edge approve h = ground arith
no_edge reject h = ground arith
no_edge cancel_waiting h = ground arith
no_edge redrive h = ground arith
no_edge cancel_parked h = ground arith

-- A run that has succeeded, or was rejected or cancelled, stays as it is.
pub terminal_absorbs : {a b : RunStatus} → IsTerminal a → a ⟶* b → b ≡ a
terminal_absorbs h here = refl
terminal_absorbs h (next e r) = absurd (no_edge e h)

-- From every state that is not terminal a run can still succeed.
pub ⟶*-succeeded : (a : RunStatus) → ¬ IsTerminal a → a ⟶* RunStatus.succeeded
⟶*-succeeded RunStatus.succeeded h = here
⟶*-succeeded RunStatus.rejected h = absurd (h (inr (inl refl)))
⟶*-succeeded RunStatus.cancelled h = absurd (h (inr (inr refl)))
⟶*-succeeded _ h = search (here, next, edges)
