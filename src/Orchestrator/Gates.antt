-- ===== src/Orchestrator/Gates.antt =====
-- src/cam/core/orchestrator/gates.py: approval tokens, and the resolution of a gate.
-- HMAC, SHA-256, base64 and JSON are the library's: a `Codec` that the functions take.
pub mod Stages
pub mod Tokens
pub mod Refusals
pub mod Resolve
mod Tests
use Prim.Native.Char.{Char, code}
use Prim.Native.String
use mathlib.Core.Option
use case_automation_mcp.Common.{
  ℕ, zero, suc, ◌+◌, ◌-◌, ◌%◌, ◌&&◌, String, Bool, true, false, Option, none, some, Outcome, ok,
  err, Exec, pure, raise, ◌>>=◌, ◌>>◌, ◌==◌, ltb, eqb, is_yes, List, ◌∷◌, [], ◌++◌, if◌then◌else◌,
}
use case_automation_mcp.Rbac.{Role, Role-discrete, gate_approve, role_of, authorize}
use case_automation_mcp.Orchestrator.States.{
  RunStatus, GateStatus, Decision, Channel, GateRequest, ApprovalDecision, ApprovalToken,
}
use case_automation_mcp.Orchestrator.Store.{
  Error, gate, value_error, RunStore, get_token, mark_token_used, get_gate_request,
  save_approval_decision, update_gate_request, update_run_status, advance_gate_step,
}

-- the JSON payload of a token
pub record Payload : Type 0 where
  pub tid : String
  pub gid : String
  pub rid : String
  pub step : String
  pub exp : ℕ

pub record Codec : Type 0 where
  pub mac : String → String → String  -- hex HMAC-SHA256 of a text under a key
  pub dumps : Payload → String  -- `json.dumps` with sorted keys
  pub loads : String → Option Payload  -- `none` is the exception
  pub urlsafe_b64encode : String → String
  pub urlsafe_b64decode : String → Option String
  pub digest : String → String  -- hex SHA-256

abbrev is_equals : Char → Bool
is_equals c = eqb (code c) b'='

-- `str.rstrip("=")`
pub rstrip : String → String
rstrip String.[] = ""
rstrip (String.◌∷◌ c s) =
    let rest = rstrip s in if is_equals c && (rest == "") then "" else String.◌∷◌ c rest

-- `len` of a text
pub chars : String → ℕ
chars String.[] = 0
chars (String.◌∷◌ c s) = suc (chars s)

-- `"=" * n`
pub equals : ℕ → String
equals zero = ""
equals (suc n) = String.◌++◌ "=" (equals n)

pub padded : String → String
unfolding equals chars
padded payload = String.◌++◌ payload (equals ((4 - chars payload % 4) % 4))

abbrev default_ttl_seconds : ℕ
default_ttl_seconds = 86400

-- `raw.split(".", 1)`; `none` where there is no dot
unfoldable pub split_dot : String → Option (String × String)
split_dot String.[] = none
split_dot (String.◌∷◌ c s) =
    let rest = split_dot s in
    if eqb (code c) b'.' then some ("", s) else Option.map (λ p. (String.◌∷◌ c p.0, p.1)) rest

pub data TokenFault : Type 0 where
  malformed tampered : TokenFault

decoded : Option Payload → Outcome TokenFault Payload
decoded none = err malformed
decoded (some p) = ok p

module _ (c : Codec) where
  open c use {mac, dumps, loads, urlsafe_b64encode, urlsafe_b64decode, digest}

  -- `_b64` of the JSON text
  pub encode : Payload → String
  unfolding rstrip
  encode p = rstrip (urlsafe_b64encode (dumps p))

  -- what the `try` block of `verify_token` reads
  pub decode : String → Option Payload
  unfolding padded
  decode payload = elim (urlsafe_b64decode (padded payload)) [ none ↦ none | some t ↦ loads t ]

  -- the raw token for a payload
  pub seal : String → Payload → String
  seal key p = String.◌++◌ (encode p) (String.◌++◌ "." (mac key (encode p)))

  -- `tid` is the fresh uuid
  unfoldable pub issue_token :
      (now : ℕ) (tid gid rid step : String) (channel : Channel) (key : String) (ttl : ℕ)
      → String × ApprovalToken
  issue_token now tid gid rid step channel key ttl =
      let raw =
        seal key (record { tid = tid; gid = gid; rid = rid; step = step; exp = now + ttl }) in
      (
        raw,
        record {
          id = tid;
          gate_request_id = gid;
          run_id = rid;
          step = step;
          key_id = "v1";
          token_hash = digest raw;
          channel = channel;
          expires_at = now + ttl;
          used_at = none;
        },
      )

  verify_parts : String → Option (String × String) → Outcome TokenFault Payload
  unfolding decoded
  verify_parts key none = err malformed
  verify_parts key (some (payload, sig)) =
      if mac key payload == sig then decoded (decode payload) else err tampered

  pub verify_token : String → String → Outcome TokenFault Payload
  unfolding verify_parts
  verify_token raw key = verify_parts key (split_dot raw)

-- What `audit_fn` is told: an actor and an action. A failing or missing `audit_fn` loses only these.
pub record AuditEvent : Type 0 where
  pub actor : String
  pub action : String

pub record Desk : Type 0 where
  pub store : RunStore
  pub audit : List AuditEvent

note : String → String → Exec Error Desk Unit
note actor action w =
    (ok tt, record w { audit = w.audit ++ record { actor = actor; action = action } ∷ [] })

-- audit, then raise `GateResolutionError(…, code)`
refuse : {A : Type 0} → String → String → ℕ → Exec Error Desk A
unfolding note
refuse actor action code = do note actor action; raise (gate code)

on_store : {A : Type 0} → Exec Error RunStore A → Exec Error Desk A
on_store m w = let (r, st) = m w.store in (r, record w { store = st })

-- 1. the signature
checked : {F : Type 0} → String → Outcome F Payload → Exec Error Desk Payload
unfolding refuse
checked actor (ok p) = pure p
checked actor (err e) = refuse actor "gate.token_verify_failed" 401

-- 2. expiry
unexpired : ℕ → String → Payload → Exec Error Desk Unit
unfolding refuse
unexpired now actor p = if ltb p.exp now then refuse actor "gate.token_expired" 401 else pure tt

-- 3. the token record
known_token : Payload → Exec Error Desk ApprovalToken
known_token p w = elim (get_token p.tid w.store) [ none ↦ (err (gate 404), w) | some t ↦ (ok t, w) ]

-- 4. single use
spend : ℕ → String → Payload → Exec Error Desk Unit
unfolding refuse
spend now actor p w =
    let (first_use, st) = mark_token_used p.tid now w.store in
    if first_use
    then (ok tt, record w { store = st })
    else refuse actor "gate.token_reused" 409 (record w { store = st })

abbrev is_pending : GateStatus → Bool
is_pending GateStatus.pending = true
is_pending _ = false

-- 5. the gate request
pending_gate : Payload → Exec Error Desk GateRequest
pending_gate p w = elim (get_gate_request p.gid w.store) [
  | none ↦ (err (gate 404), w)
  | some g ↦ if is_pending g.status then (ok g, w) else (err (gate 409), w)
]

-- 6. the actor's role. `Role(gate.required_role)` may raise, and is read only for a known actor.
holds_role : String → Role → Option Role → Exec Error Desk Unit
unfolding refuse
holds_role actor r none = raise value_error
holds_role actor r (some required) =
    if is_yes (Role-discrete r required)
    then if authorize (record { identity = actor; roles = r ∷ [] }) gate_approve none none
      then pure tt
      else refuse actor "gate.authz_denied" 403
    else refuse actor "gate.authz_denied" 403

authorised : String → Option Role → GateRequest → Exec Error Desk Unit
unfolding refuse holds_role
authorised actor none g = refuse actor "gate.authz_denied" 403
authorised actor (some r) g = holds_role actor r (role_of g.required_role)

abbrev gate_verdict : Decision → GateStatus
gate_verdict Decision.approve = GateStatus.approved
gate_verdict Decision.reject = GateStatus.rejected

abbrev run_verdict : Decision → RunStatus
run_verdict Decision.approve = RunStatus.running
run_verdict Decision.reject = RunStatus.rejected

abbrev verdict_action : Decision → String
verdict_action Decision.approve = "gate.approved"
verdict_action Decision.reject = "gate.rejected"

advance_if_approved : ℕ → Payload → Decision → RunStore → RunStore
advance_if_approved now p Decision.approve st = advance_gate_step now p.rid p.step st
advance_if_approved now p Decision.reject st = st

abbrev pub decision_of :
    ℕ → Payload → Decision → String → Channel → Option String → ApprovalDecision
decision_of now p decision actor channel reason = record {
  gate_request_id = p.gid;
  run_id = p.rid;
  step = p.step;
  decision = decision;
  actor = actor;
  channel = channel;
  token_id = p.tid;
  reason = reason;
  decided_at = now;
}

-- 7. and 8. record the decision and close the gate
pub close_gate : ApprovalDecision → GateRequest → Exec Error Desk Unit
close_gate d g w = (
  ok tt,
  record w {
    store =
        update_gate_request (record g { status = gate_verdict d.decision })
          (save_approval_decision d w.store);
  },
)

-- 9. audit, then resume or reject the run
pub settle_run : ℕ → Payload → String → Decision → Exec Error Desk Unit
unfolding note on_store
settle_run now p actor decision = do
  note actor (verdict_action decision)
  on_store (update_run_status now p.rid (run_verdict decision) none none)
  (λ w. (ok tt, record w { store = advance_if_approved now p decision w.store }))

-- 4. to 6., which a token that is known and in time goes through
pub admit : ℕ → String → Payload → Exec Error Desk GateRequest
admit now actor p = do
  spend now actor p
  g ← pending_gate p
  authorised actor (role_of actor) g
  pure g

-- 1. to 3.
pub inspect : Codec → String → ℕ → String → String → Exec Error Desk Payload
inspect c key now raw actor = do
  p ← checked actor (verify_token c raw key)
  unexpired now actor p
  known_token p
  pure p

pub resolve_gate :
    (c : Codec) (key : String) (now : ℕ) (raw : String) (decision : Decision) (actor : String)
    (channel : Channel) (reason : Option String)
    → Exec Error Desk ApprovalDecision
resolve_gate c key now raw decision actor channel reason = do
  p ← inspect c key now raw actor
  g ← admit now actor p
  close_gate (decision_of now p decision actor channel reason) g
  settle_run now p actor decision
  pure (decision_of now p decision actor channel reason)
