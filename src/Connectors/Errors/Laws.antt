-- ===== src/Connectors/Errors/Laws.antt =====
-- Which failures may be retried.
use case_automation_mcp.Common.{ℕ, String, true, ◌≡◌, refl, ◌↔◌, List, [], ◌∷◌, In, arith}
use case_automation_mcp.Connectors.Errors.{
  ErrorClass, auth, rate_limit, not_found, transient, fatal, is_retryable, Response, Failure,
  response, timeout, network, classified, unknown, Texts, class_of_status, classify, response_error,
}

abbrev pub retried_codes : List ℕ
retried_codes = 408 ∷ 425 ∷ 429 ∷ 500 ∷ 502 ∷ 503 ∷ 504 ∷ []

-- the independent reading of the table: what each failure may come to
pub Retried : Failure → Type 0
Retried (response r) = In r.status_code retried_codes
Retried timeout = Unit
Retried network = Unit
Retried (classified e) = is_retryable e.class_ ≡ true
Retried (unknown name) = ⊥

class-response_error :
    (t : Texts) (c : String) (r : Response) (k : ErrorClass) → (response_error t c r k).class_ ≡ k
class-response_error t c r auth = refl
class-response_error t c r rate_limit = refl
class-response_error t c r not_found = refl
class-response_error t c r transient = refl
class-response_error t c r fatal = refl

retryable_status : (s : ℕ) → (is_retryable (class_of_status s) ≡ true) ↔ In s retried_codes
unfolding class_of_status
retryable_status s = (λ h. ground (arith, h), λ h. ground (arith, h))

-- A failure may be retried exactly when it is a timeout, a network fault, an answer with status 408,
-- 425, 429, 500, 502, 503 or 504, or an error whose own class says so.
pub classify_iff :
    (t : Texts) (f : Failure) (c : String)
    → (is_retryable (classify t f c).class_ ≡ true) ↔ Retried f
unfolding classify Retried
classify_iff t (response r) c = rw class-response_error (retryable_status r.status_code)
classify_iff t timeout c = (λ h. tt, λ h. refl)
classify_iff t network c = (λ h. tt, λ h. refl)
classify_iff t (classified e) c = (λ h. h, λ h. h)
classify_iff t (unknown name) c = (λ h. cc, λ h. absurd h)
