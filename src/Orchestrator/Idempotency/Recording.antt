-- ===== src/Orchestrator/Idempotency/Recording.antt =====
-- Outputs that are recorded and looked up.
use case_automation_mcp.Common.{String, ◌≡◌, ◌≢◌, refl, some, lookup-insert, eq_refl}
use case_automation_mcp.Json.{Json, null, bool, num, str, arr, obj, end, field}
use case_automation_mcp.Orchestrator.Idempotency.{
  Recorded, placeholder, completed, record_output, lookup_output,
}

completed-some : (j : Json) → j ≢ placeholder → completed (some j) ≡ some j
unfolding completed
completed-some null h = refl
completed-some (bool b) h = refl
completed-some (num n) h = refl
completed-some (str s) h = refl
completed-some (arr l) h = refl
completed-some (obj end) h = absurd (h refl)
completed-some (obj (field k j f)) h = refl

-- an output is found again, unless it is the placeholder
pub lookup-record_output :
    (key : String) (out : Json) (d : Recorded)
    → out ≢ placeholder
    → lookup_output key (record_output key out d) ≡ some out
unfolding lookup_output record_output
lookup-record_output key out d h = rw lookup-insert (rw eq_refl (completed-some out h))
