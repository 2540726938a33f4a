-- ===== src/Client/Outcome.antt =====
-- Which outcomes raise.
use openevent_modules_model.Base.{
  ℕ, ◌≤◌, ◌≡◌, ◌≢◌, String, true, false, Option, none, some, str_eq, arith, ◌↔◌,
}
use openevent_modules_model.Models.Validate.{allowed_status}
use openevent_modules_model.Models.Payload.{InferEnd, infer_end}
use openevent_modules_model.Models.WellFormed.{IsWellFormed}
use openevent_modules_model.Client.Errors.{ApiError, is_failed, error_type, make_api_error}

-- An outcome is a success exactly when its end, if it has one, has not failed and its status is one
-- of 200 to 299.
pub make_api_error-none :
    (n : ℕ) (end_status : Option String) (context : ApiError)
    → (make_api_error n end_status context ≡ none)
      ↔ ((is_failed end_status ≡ false) × (200 ≤ n) × (n ≤ 299))
unfolding make_api_error error_type
make_api_error-none n end_status context = (λ h. ground arith, λ h. ground arith)

-- An end that parse_payload accepts as interrupted always raises.
pub interrupted-raises :
    (p : InferEnd) (context : ApiError)
    → IsWellFormed (infer_end p)
    → str_eq p.end_status "interrupted" ≡ true
    → make_api_error p.status_code (some p.end_status) context ≢ none
unfolding allowed_status
interrupted-raises p context w h e =
    let (_, low, high) = (make_api_error-none p.status_code (some p.end_status) context).0 e in
    let (_, _, _, _, code) = w in ground (arith, low, high, code)
