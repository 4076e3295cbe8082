-- ===== src/Orchestrator/Dsl.antt =====
-- src/cam/core/orchestrator/dsl.py: workflow definitions and their registry.
-- A handler is code of the deployment: a function of its context and of the number of handler calls
-- made so far, by which the outside world may answer differently each time.
use Prim.Native.String.{slice, len}
use mathlib.Core.Option
use case_automation_mcp.Common.{
  ℕ, String, Bool, true, false, Option, none, some, List, [], ◌∷◌, ◌++◌, Dict, lookup, insert,
  Outcome, ok, err, keep, leb, eqb, ◌==◌, ◌&&◌, is_some, starts_with, if◌then◌else◌,
}
use case_automation_mcp.Json.{Json}
use case_automation_mcp.Orchestrator.States.{Channel, mcp, web, email}
use case_automation_mcp.Orchestrator.Store.{Error, key_error, value_error}

-- What a handler may raise: a `ConnectorError` with its `retryable`, another exception, or an error
-- of the store that the engine called. The detail of `other` is already cut to 200 characters.
pub data Fault : Type 0 where
  connector : String → String → Bool → Fault
  other : String → String → Fault
  store : Error → Fault

pub record StepContext : Type 0 where
  pub run_id : String
  pub context : Json
  pub step_outputs : Dict Json
  pub idem_key : String

-- `ctx.output(step_name)`
unfoldable pub output : StepContext → String → Option Json
output ctx name = lookup name ctx.step_outputs

-- What a call comes to: an output, or `None`, with the compensations registered; or an exception.
pub data Ran : Type 0 where
  returned : Option Json → List String → Ran
  raised : Fault → Ran

abbrev pub Handler : Type 0
Handler = StepContext → ℕ → Ran

pub record GateConfig : Type 0 where
  pub required_role : String
  pub quorum : ℕ
  pub channels : List Channel
  pub ttl_seconds : ℕ

abbrev pub default_gate_config : GateConfig
default_gate_config = record {
  required_role = "attorney";
  quorum = 1;
  channels = mcp ∷ web ∷ email ∷ [];
  ttl_seconds = 86400;
}

pub record WorkflowDef : Type 0 where
  pub name : String
  pub version : ℕ
  pub steps : List String
  pub handlers : Dict Handler
  pub gate_configs : Dict GateConfig
  pub accepts : Json → Bool  -- `input_schema.model_validate`, or no schema

abbrev gate_prefix : String
gate_prefix = "GATE:"

unfoldable pub is_gate : String → Bool
is_gate step = starts_with step gate_prefix

gate_name : String → String
gate_name step = slice step (len gate_prefix) (len step)

unfoldable pub gate_config : WorkflowDef → String → GateConfig
unfolding gate_name
gate_config d step = Option.get_or (lookup (gate_name step) d.gate_configs) default_gate_config

-- `_REGISTRY` in the order of registration. A key "name:version" stands for the pair.
abbrev pub Registry : Type 0
Registry = List WorkflowDef

same_key : String → ℕ → WorkflowDef → Bool
same_key name version d = d.name == name && eqb d.version version

first : List WorkflowDef → Outcome Error WorkflowDef
first [] = err key_error
first (d ∷ ds) = ok d

pub get_workflow : String → ℕ → Registry → Outcome Error WorkflowDef
unfolding first same_key
get_workflow name version r = first (keep (same_key name version) r)

-- `max(matches, key=version)`: the first of the highest version
highest : WorkflowDef → List WorkflowDef → WorkflowDef
highest best [] = best
highest best (d ∷ ds) = highest (if leb d.version best.version then best else d) ds

latest : List WorkflowDef → Outcome Error WorkflowDef
latest [] = err key_error
latest (d ∷ ds) = ok (highest d ds)

unfoldable pub get_workflow_latest : String → Registry → Outcome Error WorkflowDef
unfolding latest highest
get_workflow_latest name r = latest (keep (λ d. d.name == name) r)

-- the steps for which the class has handlers, gates aside
has_handlers : Dict Handler → List String → Bool
has_handlers handlers [] = true
has_handlers handlers (step ∷ steps) =
    if is_gate step
    then has_handlers handlers steps
    else is_some (lookup step handlers) && has_handlers handlers steps

-- every gate gets a configuration
fill_gates : List String → Dict GateConfig → Dict GateConfig
fill_gates [] cfgs = cfgs
fill_gates (step ∷ steps) cfgs = fill_gates steps (
    if is_gate step
    then elim (lookup (gate_name step) cfgs) [
      | none ↦ insert (gate_name step) default_gate_config cfgs
      | some _ ↦ cfgs
    ]
    else cfgs)

abbrev is_empty : List String → Bool
is_empty [] = true
is_empty (_ ∷ _) = false

-- The decorator `workflow`. `handlers` are the coroutine methods of the class.
pub register : WorkflowDef → Registry → Outcome Error Registry
unfolding has_handlers fill_gates same_key
register d r =
    if is_empty d.steps
    then err value_error
    else if has_handlers d.handlers d.steps
    then elim (keep (same_key d.name d.version) r) [
      | [] ↦ ok (r ++ record d { gate_configs = fill_gates d.steps d.gate_configs } ∷ [])
      | _ ↦ err value_error
    ]
    else err value_error
