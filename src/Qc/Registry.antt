-- ===== src/Qc/Registry.antt =====
-- src/cam/core/services/qc/registry.py: the registry of checks, and a run of them on a packet. The
-- texts of reasons are kept to their fixed part.
use Prim.Native.String.{compare}
use Prim.Native.Nat.{Ordering}
use case_automation_mcp.Common.{
  ℕ, String, Bool, true, false, not, Option, none, some, List, [], ◌∷◌, map, keep, any, ◌==◌, ◌&&◌,
  ◌≡◌, Dict, lookup, insert, values, is_some, Outcome, ok, err, if◌then◌else◌,
}
use case_automation_mcp.Qc.Types.{
  Verdict, pass, warn, fail, skipped, Aggregate, all_pass, pass_with_warnings, block, SkipReason,
  unsupported_packet_kind, SeverityPolicy, allows, is_skipped, CheckResult, VerificationPacket, Ran,
  result, raised, timed_out, Check, QcReport,
}
pub mod Sorting
pub mod Aggregation
pub mod Totality

-- `RuntimeError` on a duplicate and `KeyError` on a missing id
pub data RegistryError : Type 0 where
  duplicate_check : String → RegistryError
  missing_check : String → RegistryError

pub register_check : Check → Dict Check → Outcome RegistryError (Dict Check)
register_check c r =
    if is_some (lookup c.id r) then err (duplicate_check c.id) else ok (insert c.id c r)

abbrev or_missing : String → Option Check → Outcome RegistryError Check
or_missing id none = err (missing_check id)
or_missing id (some c) = ok c

pub get_check : String → Dict Check → Outcome RegistryError Check
get_check id r = or_missing id (lookup id r)

abbrev pub applies : Option (List String) → String → Bool
applies none kind = true
applies (some kinds) kind = any (λ k. k == kind) kinds

abbrev pub after : Ordering → Bool
after Ordering.gt = true
after _ = false

-- `sorted` by id: a stable insertion sort
pub insert_sorted : Check → List Check → List Check
insert_sorted c [] = c ∷ []
insert_sorted c (d ∷ l) = if after (compare c.id d.id) then d ∷ insert_sorted c l else c ∷ d ∷ l

pub sort_by_id : List Check → List Check
unfolding insert_sorted
sort_by_id [] = []
sort_by_id (c ∷ l) = insert_sorted c (sort_by_id l)

pub applicable_checks : String → Dict Check → List Check
applicable_checks kind r = sort_by_id (keep (λ c. applies c.applies_to kind) (values r))

-- `{c.id: c for c in all_applicable}`
by_id : List Check → Dict Check → Dict Check
by_id [] d = d
by_id (c ∷ l) d = by_id l (insert c.id c d)

pub record Selection : Type 0 where
  pub checks : List Check
  pub skips : Dict SkipReason

-- the loop over the requested ids
pub choose : Dict Check → List String → Dict SkipReason → Selection
choose d [] s = record { checks = []; skips = s }
choose d (cid ∷ ids) s = elim (lookup cid d) [
  | some c ↦ let rest = choose d ids s in record rest { checks = c ∷ rest.checks }
  | none ↦ choose d ids (insert cid unsupported_packet_kind s)
]

pub select : VerificationPacket → Option (List String) → Dict Check → Selection
unfolding applicable_checks
select p none r = record { checks = applicable_checks p.kind r; skips = [] }
select p (some ids) r = choose (by_id (applicable_checks p.kind r) []) ids []

abbrev failed : Check → String → CheckResult
failed c reason = record {
  check_id = c.id;
  check_version = c.version;
  verdict = fail;
  reason = reason;
  skip_reason = none;
}

-- the `try` of one check: an exception or a timeout fails, and so does a verdict outside the policy
pub settle_check : Check → Ran → CheckResult
settle_check c (raised name) = failed c "check errored"
settle_check c timed_out = failed c "check errored"
settle_check c (result r) =
    if not (is_skipped r.verdict) && not (allows c.severity_policy r.verdict)
    then failed c "Check emitted a verdict outside its declared severity policy."
    else r

abbrev mark_skip : String → Option SkipReason → Dict SkipReason → Dict SkipReason
mark_skip id none d = d
mark_skip id (some reason) d = insert id reason d

pub run_each : VerificationPacket → List Check → List CheckResult
unfolding settle_check
run_each p cs = map (λ c. settle_check c (c.run p)) cs

pub note_skips : VerificationPacket → List Check → Dict SkipReason → Dict SkipReason
unfolding settle_check
note_skips p [] d = d
note_skips p (c ∷ cs) d = note_skips p cs (mark_skip c.id (settle_check c (c.run p)).skip_reason d)

abbrev is_fail : Verdict → Bool
is_fail fail = true
is_fail _ = false

abbrev is_warn : Verdict → Bool
is_warn warn = true
is_warn _ = false

-- `_aggregate`
unfoldable pub aggregate : List CheckResult → Aggregate
aggregate rs =
    if any (λ r. is_fail r.verdict) rs
    then block
    else if any (λ r. is_warn r.verdict) rs
    then pass_with_warnings
    else all_pass

pub run_checks : VerificationPacket → Option (List String) → Dict Check → QcReport
unfolding run_each note_skips aggregate
run_checks p requested r =
    let chosen = select p requested r in
    record {
      packet_id = p.packet_id;
      run_id = p.run_id;
      results = run_each p chosen.checks;
      aggregate = aggregate (run_each p chosen.checks);
      checks_selected = map (λ c. c.id) chosen.checks;
      checks_skipped = note_skips p chosen.checks chosen.skips;
    }
