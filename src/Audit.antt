-- ===== src/Audit.antt =====
-- src/cam/core/audit/service.py: `AuditService`, with `AuditRepository` of
-- src/cam/persistence/_repositories_legacy.py. The table is the list of its rows by rising id.
use Prim.Native.String
use case_automation_mcp.Common.{
  ℕ, zero, suc, ◌+◌, String, Bool, true, false, not, Option, none, some, List, [], ◌∷◌, ◌++◌, ◌==◌,
  ◌||◌, ◌&&◌, leb, keep, map, if◌then◌else◌,
}
use case_automation_mcp.Json.{Json, null, str, obj, end, field}
pub mod Chain
pub mod Evidence
mod Tests

-- what SHA-256, `json.dumps` with sorted keys and `isoformat` give
pub record Hashing : Type 0 where
  pub sha256 : String → String
  pub canonical : Json → String
  pub isoformat : ℕ → String

-- the fields that a caller gives
pub record Entry : Type 0 where
  pub actor : String
  pub action : String
  pub inputs : Json
  pub outputs : Json
  pub approval : Json
  pub run_id : Option String

pub record Row : Type 0 where
  pub id : ℕ
  pub entry : Entry
  pub timestamp : ℕ
  pub prev_hash : String
  pub record_hash : String

-- the table, and the next value of its key
pub record Log : Type 0 where
  pub rows : List Row
  pub next_id : ℕ

pub data VerifyResult : Type 0 where
  intact : VerifyResult
  broken : ℕ → VerifyResult

abbrev pub genesis_hash : String
genesis_hash = "0000000000000000000000000000000000000000000000000000000000000000"

abbrev pub optional_text : Option String → Json
optional_text none = null
optional_text (some t) = str t

-- the dict that is hashed: all fields but the hash itself
unfoldable pub record_body : Hashing → Entry → ℕ → String → Json
record_body h e timestamp prev_hash = obj (
    field "canonical_version" (str "v1") (
      field "actor" (str e.actor) (
        field "action" (str e.action) (
          field "inputs" e.inputs (
            field "outputs" e.outputs (
              field "approval" e.approval (
                field "timestamp" (str (h.isoformat timestamp)) (
                  field "run_id" (optional_text e.run_id)
                    (field "prev_hash" (str prev_hash) end)))))))))

pub compute_hash : Hashing → String → Json → String
compute_hash h prev_hash body = h.sha256 (String.◌++◌ prev_hash (h.canonical body))

-- the row of the highest id
abbrev pub last : List Row → Option Row
last [] = none
last (r ∷ []) = some r
last (r ∷ s ∷ l) = last (s ∷ l)

abbrev pub latest_hash : Option Row → String
latest_hash none = genesis_hash
latest_hash (some r) = r.record_hash

pub new_row : Hashing → ℕ → Entry → Log → Row
new_row h now e log = record {
  id = log.next_id;
  entry = e;
  timestamp = now;
  prev_hash = latest_hash (last log.rows);
  record_hash =
      compute_hash h (latest_hash (last log.rows))
        (record_body h e now (latest_hash (last log.rows)));
}

-- `record`
pub record_entry : Hashing → ℕ → Entry → Log → Row × Log
record_entry h now e log = (
  new_row h now e log,
  record { rows = log.rows ++ new_row h now e log ∷ []; next_id = log.next_id + 1 },
)

abbrev from_start : Option ℕ → Row → Bool
from_start none r = true
from_start (some k) r = leb k r.id

abbrev to_end : Option ℕ → Row → Bool
to_end none r = true
to_end (some k) r = leb r.id k

pub get_range : Option ℕ → Option ℕ → List Row → List Row
get_range start_id end_id rows = keep (λ r. from_start start_id r && to_end end_id r) rows

-- the hash that a row should have
unfoldable pub expected_hash : Hashing → Row → String
expected_hash h r = compute_hash h r.prev_hash (record_body h r.entry r.timestamp r.prev_hash)

pub check_rows : Hashing → String → List Row → VerifyResult
check_rows h expected_prev [] = intact
check_rows h expected_prev (r ∷ rows) =
    if not (r.prev_hash == expected_prev)
    then broken r.id
    else if not (r.record_hash == expected_hash h r)
    then broken r.id
    else check_rows h r.record_hash rows

pub verify : Hashing → Option ℕ → Option ℕ → Log → VerifyResult
verify h start_id end_id log = check_rows h genesis_hash (get_range start_id end_id log.rows)
