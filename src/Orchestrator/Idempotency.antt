-- ===== src/Orchestrator/Idempotency.antt =====
-- src/cam/core/orchestrator/idempotency.py: `InMemoryIdempotencyStore`; locking.py: `RunLock`.
use case_automation_mcp.Common.{
  String, Bool, true, false, Option, none, some, List, ◌∷◌, Dict, lookup, insert, any, keep, not,
  ◌==◌, if◌then◌else◌,
}
pub mod Recording
use case_automation_mcp.Json.{Json, obj, end}

abbrev pub Recorded : Type 0
Recorded = Dict Json

-- `{}`, the placeholder of a claim
abbrev pub placeholder : Json
placeholder = obj end

unfoldable pub reserve : String → Recorded → Bool × Recorded
reserve key d = elim (lookup key d) [
  | some _ ↦ (false, d)
  | none ↦ (true, insert key placeholder d)
]

unfoldable pub record_output : String → Json → Recorded → Recorded
record_output key out d = insert key out d

-- `val if val != {} else None`
completed : Option Json → Option Json
completed none = none
completed (some (obj end)) = none
completed (some j) = some j

unfoldable pub lookup_output : String → Recorded → Option Json
unfolding completed
lookup_output key d = completed (lookup key d)

-- The keys that are set in Redis; `none` where there is no client. A lock lasts until it is
-- released: its expiry, and errors of Redis, are left out.
abbrev pub Locks : Type 0
Locks = Option (List String)

abbrev holds : String → List String → Bool
holds id l = any (λ k. k == id) l

-- SET NX
unfoldable pub acquire : String → Locks → Bool × Locks
acquire id none = (true, none)
acquire id (some l) = if holds id l then (false, some l) else (true, some (id ∷ l))

unfoldable pub release : String → Locks → Locks
release id none = none
release id (some l) = some (keep (λ k. not (k == id)) l)
