-- ===== src/Connectors/Errors.antt =====
-- src/cam/connectors/errors.py: the classes of a vendor's failure, and the baseline classifier.
use Prim.Native.String
use case_automation_mcp.Common.{
  ℕ, String, Bool, true, false, Option, none, some, List, [], ◌∷◌, ◌||◌, eqb, any, if◌then◌else◌,
}
pub mod Laws

pub data ErrorClass : Type 0 where
  auth : ErrorClass
  rate_limit : ErrorClass
  not_found : ErrorClass
  transient : ErrorClass
  fatal : ErrorClass

-- `cause` is kept for logging only. `retry_after` is set for `rate_limit` at most.
pub record ConnectorError : Type 0 where
  pub class_ : ErrorClass
  pub connector : String
  pub detail : String
  pub retry_after : Option ℕ

-- the class attribute `retryable`
abbrev pub is_retryable : ErrorClass → Bool
is_retryable rate_limit = true
is_retryable transient = true
is_retryable _ = false

-- `Class(connector, detail)`
abbrev pub plain : ErrorClass → String → String → ConnectorError
plain k connector detail = record {
  class_ = k;
  connector = connector;
  detail = detail;
  retry_after = none;
}

-- an answer of httpx
pub record Response : Type 0 where
  pub status_code : ℕ
  pub retry_after : Option String  -- the header
  pub content : String

-- what httpx and Python give: the number that a text spells, in ticks, and the spelling of a number
pub record Texts : Type 0 where
  pub read_float : String → Option ℕ
  pub spell : ℕ → String

-- what `classify` may be given
pub data Failure : Type 0 where
  response : Response → Failure
  timeout : Failure
  network : Failure
  classified : ConnectorError → Failure
  unknown : String → Failure

abbrev transient_codes : List ℕ
transient_codes = 408 ∷ 425 ∷ 500 ∷ 502 ∷ 503 ∷ 504 ∷ []

abbrev read_header : Texts → Option String → Option ℕ
read_header t none = none
read_header t (some raw) = t.read_float raw

pub class_of_status : ℕ → ErrorClass
class_of_status status =
    if eqb status 401 || eqb status 403
    then auth
    else if eqb status 429
    then rate_limit
    else if eqb status 404
    then not_found
    else if any (eqb status) transient_codes
    then transient
    else fatal

abbrev http_status : Texts → Response → String
http_status t r = String.◌++◌ "HTTP " (t.spell r.status_code)

abbrev response_error : Texts → String → Response → ErrorClass → ConnectorError
response_error t connector r rate_limit = record {
  class_ = rate_limit;
  connector = connector;
  detail = http_status t r;
  retry_after = read_header t r.retry_after;
}
response_error t connector r fatal =
    plain fatal connector (String.◌++◌ (http_status t r) " (non-retryable)")
response_error t connector r k = plain k connector (http_status t r)

pub classify : Texts → Failure → String → ConnectorError
unfolding class_of_status
classify t (response r) connector = response_error t connector r (class_of_status r.status_code)
classify t timeout connector = plain transient connector "Request timed out."
classify t network connector = plain transient connector "Network error."
classify t (classified e) connector = e
classify t (unknown name) connector =
    plain fatal connector (String.◌++◌ "Unclassified error: " name)
