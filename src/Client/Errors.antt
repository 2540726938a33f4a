-- ===== src/Client/Errors.antt =====
-- `make_api_error` of errors.py: the class of an accepted outcome, and the error with its context.
use openevent_modules_model.Base.{
  ℕ, leb, ◌==◌, String, Bool, false, ◌&&◌, Option, none, some, List, [], ◌∷◌, any, str_eq,
  if◌then◌else◌,
}
use openevent_modules_model.Models.Value.{Value}

pub data ErrorType : Type 0 where
  api_error api_timeout_error api_connection_error stream_cancelled_error bad_request_error :
      ErrorType
  authentication_error permission_denied_error not_found_error conflict_error : ErrorType
  unprocessable_entity_error rate_limit_error internal_server_error api_status_error : ErrorType
  protocol_error : ErrorType

-- The context of an `APIError`.
pub record ApiError : Type 0 where
  pub error_type : ErrorType
  pub stream_id : String
  pub request_seq : Option ℕ
  pub result_openevent_seq : Option ℕ
  pub last_stream_openevent_seq : Option ℕ
  pub status_code : Option ℕ
  pub headers : Option Value
  pub body : Option Value
  pub end_status : Option String

-- The table of the last branch.
unfoldable pub status_type : ℕ → ErrorType
status_type n =
    if n == 400
    then bad_request_error
    else if n == 401
    then authentication_error
    else if n == 403
    then permission_denied_error
    else if n == 404
    then not_found_error
    else if n == 409
    then conflict_error
    else if n == 422
    then unprocessable_entity_error
    else if n == 429
    then rate_limit_error
    else api_status_error

abbrev pub is_failed : Option String → Bool
is_failed none = false
is_failed (some s) = str_eq s "failed"

abbrev pub is_one_of : List ℕ → ℕ → Bool
is_one_of ns n = any (λ k. k == n) ns

-- The class that `make_api_error` picks; `none` is a successful outcome.
unfoldable pub error_type : ℕ → Option String → Option ErrorType
error_type n end_status =
    if is_failed end_status
    then some api_error
    else if n == 60000
    then some api_timeout_error
    else if is_one_of (60001 ∷ 60002 ∷ 60003 ∷ []) n
    then some api_connection_error
    else if n == 60004
    then some stream_cancelled_error
    else if n == 60009
    then some bad_request_error
    else if is_one_of (60005 ∷ 60007 ∷ 60008 ∷ []) n
    then some api_error
    else if leb 200 n && leb n 299
    then none
    else if leb 500 n && leb n 599
    then some internal_server_error
    else some (status_type n)

abbrev with_type : ApiError → ℕ → Option String → Option ErrorType → Option ApiError
with_type context n end_status none = none
with_type context n end_status (some t) =
    some (record context { error_type = t; status_code = some n; end_status = end_status })

unfoldable pub make_api_error : ℕ → Option String → ApiError → Option ApiError
make_api_error n end_status context = with_type context n end_status (error_type n end_status)
