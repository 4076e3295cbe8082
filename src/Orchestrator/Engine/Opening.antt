-- ===== src/Orchestrator/Engine/Opening.antt =====
-- What opening a gate leaves in the store.
use case_automation_mcp.Common.{
  ℕ, String, Option, none, some, List, [], ◌∷◌, ◌≡◌, refl, sym, ap, ◌∙◌, ok, arith, lookup, subst,
  ◌+◌, ◌==◌, Bool-cases, inl, inr, lookup-insert, eq_refl, eq_iff,
}
use case_automation_mcp.Orchestrator.States.{
  RunStatus, StepError, StepState, WorkflowRun, Channel, ApprovalToken, GateRequest, GateStatus,
}
use case_automation_mcp.Orchestrator.Store.{
  save_token, create_gate_request, RunStore, update_run_status,
}
use case_automation_mcp.Orchestrator.Gates.{issue_token}
use case_automation_mcp.Orchestrator.Dsl.{GateConfig}
use case_automation_mcp.Orchestrator.Engine.{Env, Machine, open_gate, issue_all}

-- under that id stands an unused token of the step at that gate
pub record Waits (gid run_id step tid : String) (st : RunStore) : Type 0 where
  pub token : ApprovalToken
  pub found : lookup tid st.tokens ≡ some token
  pub of_gate : token.gate_request_id ≡ gid
  pub of_run : token.run_id ≡ run_id
  pub of_step : token.step ≡ step
  pub unused : token.used_at ≡ none

-- so it is for the ids drawn from `n` on, one for each channel
unfoldable pub AllWait :
    (ℕ → String) → String → String → String → ℕ → List Channel → RunStore → Type 0
AllWait uuid gid run_id step n [] st = Unit
AllWait uuid gid run_id step n (ch ∷ chs) st =
    Waits gid run_id step (uuid n) st × AllWait uuid gid run_id step (n + 1) chs st

-- a pending request for the step stands under that id
pub record Pending (gid run_id step : String) (cfg : GateConfig) (now : ℕ) (st : RunStore)
    : Type 0 where
  pub request : GateRequest
  pub found : lookup gid st.gates ≡ some request
  pub is_pending : request.status ≡ GateStatus.pending
  pub of_run : request.run_id ≡ run_id
  pub of_step : request.step ≡ step
  pub role : request.required_role ≡ cfg.required_role
  pub channels : request.channels ≡ cfg.channels
  pub expires : request.expires_at ≡ now + cfg.ttl_seconds

-- a pending request under the first id drawn, and a token for each channel under the next ones
abbrev pub Opened : Env → ℕ → String → String → GateConfig → ℕ → RunStore → Type 0
Opened env now run_id step cfg n st =
    Pending (env.uuid n) run_id step cfg now st
    × AllWait env.uuid (env.uuid n) run_id step (n + 1) cfg.channels st

module _ (env : Env) (now : ℕ) (gid : String) (run : WorkflowRun) (s : StepState)
    (cfg : GateConfig) where
  Waits-new :
      (n : ℕ) (ch : Channel) (st : RunStore)
      → Waits gid run.id s.step (env.uuid n) (
          save_token
            (issue_token env.codec now
              (env.uuid n)
              gid
              run.id
              s.step
              ch
              env.signing_key
              cfg.ttl_seconds).1
            st)
  unfolding save_token issue_token
  Waits-new n ch st = record {
    token =
        (issue_token env.codec now (env.uuid n) gid run.id s.step ch env.signing_key
          cfg.ttl_seconds).1;
    found = rw lookup-insert (rw eq_refl);
    of_gate = refl;
    of_run = refl;
    of_step = refl;
    unused = refl;
  }

  Waits-save :
      (tid : String) (n : ℕ) (ch : Channel) (st : RunStore)
      → Waits gid run.id s.step tid st
      → Waits gid run.id s.step tid (
          save_token
            (issue_token env.codec now
              (env.uuid n)
              gid
              run.id
              s.step
              ch
              env.signing_key
              cfg.ttl_seconds).1
            st)
  unfolding save_token issue_token
  Waits-save tid n ch st h = elim (Bool-cases (env.uuid n == tid)) [
    | inl same ↦
        subst
          (λ j. Waits gid run.id s.step j (
            save_token
              (issue_token env.codec now (env.uuid n) gid run.id s.step ch env.signing_key
                cfg.ttl_seconds).1
              st))
          ((eq_iff (env.uuid n) tid).0 same) (Waits-new n ch st)
    | inr other ↦ record {
      token = h.token;
      found = rw lookup-insert (rw other h.found);
      of_gate = h.of_gate;
      of_run = h.of_run;
      of_step = h.of_step;
      unused = h.unused;
    }
  ]

  Waits-issue_all :
      (tid : String) (chs : List Channel) (m : Machine)
      → Waits gid run.id s.step tid m.store
      → Waits gid run.id s.step tid (issue_all env now gid run s cfg chs m).1.store
  unfolding issue_all
  Waits-issue_all tid [] m h = h
  Waits-issue_all tid (ch ∷ chs) m h =
      Waits-issue_all tid chs _ (Waits-save tid m.supply ch m.store h)

  AllWait-issue_all :
      (chs : List Channel) (m : Machine)
      → AllWait env.uuid gid run.id s.step m.supply chs
          (issue_all env now gid run s cfg chs m).1.store
  unfolding issue_all AllWait
  AllWait-issue_all [] m = tt
  AllWait-issue_all (ch ∷ chs) m = (
    Waits-issue_all (env.uuid m.supply) chs _ (Waits-new m.supply ch m.store),
    AllWait-issue_all chs _,
  )

  gates-issue_all :
      (chs : List Channel) (m : Machine)
      → (issue_all env now gid run s cfg chs m).1.store.gates ≡ m.store.gates
  unfolding issue_all save_token
  gates-issue_all [] m = refl
  gates-issue_all (ch ∷ chs) m = gates-issue_all chs _

Pending-open_gate :
    (now : ℕ) (gid : String) (run : WorkflowRun) (s : StepState) (cfg : GateConfig) (m : Machine)
    → Pending gid run.id s.step cfg now (open_gate now gid run s cfg m).1.store
unfolding open_gate create_gate_request
Pending-open_gate now gid run s cfg m = record {
  request = record {
    id = gid;
    run_id = run.id;
    step = s.step;
    required_role = cfg.required_role;
    quorum = cfg.quorum;
    status = GateStatus.pending;
    channels = cfg.channels;
    created_at = now;
    expires_at = now + cfg.ttl_seconds;
  };
  found = rw lookup-insert (rw eq_refl);
  is_pending = refl;
  of_run = refl;
  of_step = refl;
  role = refl;
  channels = refl;
  expires = refl;
}

Pending-same :
    (gid run_id step : String) (cfg : GateConfig) (now : ℕ) (st st' : RunStore)
    → st'.gates ≡ st.gates
    → Pending gid run_id step cfg now st
    → Pending gid run_id step cfg now st'
Pending-same gid run_id step cfg now st st' e p = record {
  request = p.request;
  found = ap (lookup gid) e ∙ p.found;
  is_pending = p.is_pending;
  of_run = p.of_run;
  of_step = p.of_step;
  role = p.role;
  channels = p.channels;
  expires = p.expires;
}

AllWait-same :
    (uuid : ℕ → String) (gid run_id step : String) (n : ℕ) (chs : List Channel) (st st' : RunStore)
    → st'.tokens ≡ st.tokens
    → AllWait uuid gid run_id step n chs st
    → AllWait uuid gid run_id step n chs st'
unfolding AllWait
AllWait-same uuid gid run_id step n [] st st' e h = tt
AllWait-same uuid gid run_id step n (ch ∷ chs) st st' e (w, h) = (
  record {
    token = w.token;
    found = ap (lookup (uuid n)) e ∙ w.found;
    of_gate = w.of_gate;
    of_run = w.of_run;
    of_step = w.of_step;
    unused = w.unused;
  },
  AllWait-same uuid gid run_id step (n + 1) chs st st' e h,
)

-- a move of the run changes neither requests nor tokens
module _ (now : ℕ) (id : String) (s : RunStatus) (e : Option StepError) where
  pub gates-status : (st : RunStore) → (update_run_status now id s none e st).1.gates ≡ st.gates
  unfolding update_run_status
  gates-status st = ground arith

  pub tokens-status : (st : RunStore) → (update_run_status now id s none e st).1.tokens ≡ st.tokens
  unfolding update_run_status
  tokens-status st = ground arith

-- what the machine comes to when a gate is opened, step by step
pub Opened-stages :
    (env : Env) (now : ℕ) (run : WorkflowRun) (s : StepState) (cfg : GateConfig) (m b : Machine)
    (st : RunStore)
    → issue_all env now
        (env.uuid m.supply)
        run
        s
        cfg
        cfg.channels
        (open_gate now (env.uuid m.supply) run s cfg m).1
      ≡ (ok tt, b)
    → st.gates ≡ b.store.gates
    → st.tokens ≡ b.store.tokens
    → Opened env now run.id s.step cfg m.supply st
Opened-stages env now run s cfg m b st issued gates tokens =
    let gid = env.uuid m.supply in
    let o = (open_gate now gid run s cfg m).1 in
    let place : (issue_all env now gid run s cfg cfg.channels o).1.store ≡ b.store =
      ap (λ x. x.1.store) issued in
    (
      Pending-same gid run.id s.step cfg now o.store st
          (gates
            ∙ ap (λ x. x.gates) (sym place)
            ∙ gates-issue_all env now gid run s cfg cfg.channels o)
          (Pending-open_gate now gid run s cfg m),
      AllWait-same env.uuid gid run.id s.step (m.supply + 1) cfg.channels
          (issue_all env now gid run s cfg cfg.channels o).1.store st
          (tokens ∙ ap (λ x. x.tokens) (sym place))
          (unfold open_gate in AllWait-issue_all env now gid run s cfg cfg.channels o),
    )
