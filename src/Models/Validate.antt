-- ===== src/Models/Validate.antt =====
-- `_validate` of models.py: the checks in the source's order, each with its error code. An error
-- carries the kind and the stream id where those are valid. Message texts are left out.
use Prim.Native.Char.{code}
use text.Mathlib.Text.{starts_with}
use openevent_modules_model.Base.{
  ℕ, ltb, leb, ◌==◌, String, Bool, true, false, not, ◌&&◌, ◌||◌, Option, none, some, List, [], ◌∷◌,
  ◌++◌, length, all, any, is_some, str_eq, if◌then◌else◌, pos, Outcome, ok, err, require, ◌>>◌,
  map_err,
}
use openevent_modules_model.Models.Value.{
  Value, Items, Fields, bool, int, str, list, dict, nil, cons, done, field, valid_json,
  positive_int, is_natural, is_str, is_key, is_text, get_field,
}
use openevent_modules_model.Models.Kind.{Kind, request, result, end, kind_of, required, optional}

pub data Code : Type 0 where
  invalid_payload invalid_kind unknown_field missing_required_field invalid_stream_id : Code
  invalid_ts_ms invalid_prev_seq invalid_request_seq invalid_provider invalid_method : Code
  invalid_path invalid_body invalid_headers invalid_end_status invalid_status_code : Code
  invalid_json invalid_publish_argument : Code

-- `PayloadValidationError`
pub record PayloadError : Type 0 where
  pub code : Code
  pub kind : Option Kind
  pub stream_id : Option String

abbrev pub codes : String → List ℕ
codes String.[] = []
codes (String.◌∷◌ c s) = code c ∷ codes s

-- `[A-Za-z0-9._:-]`
abbrev pub stream_id_char : ℕ → Bool
stream_id_char c =
    (leb b'A' c && leb c b'Z')
    || (leb b'a' c && leb c b'z')
    || (leb b'0' c && leb c b'9')
    || (c == b'.')
    || (c == b'_')
    || (c == b':')
    || (c == b'-')

-- The match of `_STREAM_ID`.
unfoldable pub stream_id_matches : String → Bool
stream_id_matches s =
    let n = length (codes s) in leb 1 n && leb n 128 && all stream_id_char (codes s)

unfoldable pub valid_stream_id : Option Value → Option String
valid_stream_id (some (str s)) = if stream_id_matches s then some s else none
valid_stream_id _ = none

unfoldable pub valid_kind : Option Value → Option Kind
valid_kind (some (str s)) = kind_of s
valid_kind _ = none

-- Every key is one of the names.
unfoldable pub no_unknown : List String → Fields → Bool
no_unknown names done = true
no_unknown names (field k v fs) = any (λ n. is_key n k) names && no_unknown names fs

unfoldable pub no_missing : List String → Fields → Bool
no_missing names fs = all (λ n. is_some (get_field n fs)) names

-- `field not in data or test(data[field])`
abbrev pub if_present : (Value → Bool) → Option Value → Bool
if_present test none = true
if_present test (some v) = test v

abbrev pub nonempty_str : Value → Bool
nonempty_str (str s) = not (str_eq s "")
nonempty_str _ = false

abbrev pub is_post : Value → Bool
is_post (str s) = str_eq s "POST"
is_post _ = false

abbrev pub known_path : Value → Bool
known_path (str s) = str_eq s "/v1/chat/completions" || str_eq s "/v1/responses"
known_path _ = false

abbrev pub is_bool : Value → Bool
is_bool (bool _) = true
is_bool _ = false

-- The body of a request: an object whose `stream`, if there, is a Boolean.
unfoldable pub valid_request_body : Option Value → Bool
valid_request_body (some (dict fs)) = if_present is_bool (get_field "stream" fs)
valid_request_body _ = false

-- `name.isascii() and name == name.lower()`: no code past 127 and none of A to Z.
abbrev pub lower_ascii : ℕ → Bool
lower_ascii c = ltb c 128 && not (leb b'A' c && leb c b'Z')

unfoldable pub allowed_header_name : String → Bool
allowed_header_name name =
    all lower_ascii (codes name)
    && (str_eq name "content-type"
        || str_eq name "retry-after"
        || str_eq name "x-request-id"
        || starts_with name "x-ratelimit-")

abbrev pub header_names : List String
header_names = "name" ∷ "value" ∷ []

abbrev pub is_allowed_name : Option Value → Bool
is_allowed_name (some (str s)) = allowed_header_name s
is_allowed_name _ = false

abbrev pub is_str? : Option Value → Bool
is_str? (some v) = is_str v
is_str? none = false

unfoldable pub valid_header : Value → Bool
unfolding no_unknown no_missing allowed_header_name
valid_header (dict fs) =
    no_unknown header_names fs
    && no_missing header_names fs
    && is_str? (get_field "value" fs)
    && is_allowed_name (get_field "name" fs)
valid_header _ = false

abbrev pub all_headers : Items → Bool
all_headers nil = true
all_headers (cons h hs) = valid_header h && all_headers hs

unfoldable pub valid_headers : Value → Bool
valid_headers (list nil) = false
valid_headers (list (cons h hs)) = valid_header h && all_headers hs
valid_headers _ = false

abbrev pub result_codes : List ℕ
result_codes = 60000 ∷ 60001 ∷ 60002 ∷ 60003 ∷ 60005 ∷ 60007 ∷ 60008 ∷ 60009 ∷ []

abbrev pub interrupted_codes : List ℕ
interrupted_codes = 60000 ∷ 60001 ∷ 60002 ∷ 60003 ∷ 60007 ∷ 60008 ∷ []

abbrev pub elem : ℕ → List ℕ → Bool
elem n = any (λ c. c == n)

-- `100 <= status <= 599`
abbrev pub is_http : ℕ → Bool
is_http n = leb 100 n && leb n 599

-- The status that a message of this kind may carry, by whether it has a body and whether it is an
-- interrupted end.
unfoldable pub allowed_status : Kind → Bool → Bool → ℕ → Bool
allowed_status result true interrupted n = is_http n || elem n result_codes
allowed_status end has_body true n = elem n interrupted_codes
allowed_status _ _ _ n = is_http n

abbrev pub valid_status : Kind → Bool → Bool → Value → Bool
valid_status k has_body interrupted (int (pos n)) = allowed_status k has_body interrupted n
valid_status k has_body interrupted _ = false

unfoldable pub known_end_status : Option Value → Bool
known_end_status v = is_text "completed" v || is_text "failed" v || is_text "interrupted" v

abbrev pub is_end : Kind → Bool
is_end end = true
is_end _ = false

abbrev pub is_request : Kind → Bool
is_request request = true
is_request _ = false

-- The first check that fails raises its code.
abbrev pub Check : Type 0
Check = Bool × Code

unfoldable pub run_checks : List Check → Outcome Code (Unit {0})
run_checks [] = ok tt
run_checks ((passed, c) ∷ rest) = do require passed c; run_checks rest

-- The checks behind that of the kind, in the order of the source.
unfoldable pub checks : Bool → Kind → Fields → List Check
checks decoded_json kind fs =
    let has_body = is_some (get_field "body" fs) in
    let status = get_field "end_status" fs in
    (no_unknown (required kind ++ optional kind) fs, unknown_field)
    ∷ (no_missing (required kind) fs, missing_required_field)
    ∷ (is_some (valid_stream_id (get_field "stream_id" fs)), invalid_stream_id)
    ∷ (if_present is_natural (get_field "ts_ms" fs), invalid_ts_ms)
    ∷ (if_present positive_int (get_field "prev_seq" fs), invalid_prev_seq)
    ∷ (if_present positive_int (get_field "request_seq" fs), invalid_request_seq)
    ∷ (if_present nonempty_str (get_field "provider" fs), invalid_provider)
    ∷ (if_present is_post (get_field "method" fs), invalid_method)
    ∷ (if_present known_path (get_field "path" fs), invalid_path)
    ∷ (decoded_json || if_present valid_json (get_field "body" fs), invalid_body)
    ∷ (not (is_request kind) || valid_request_body (get_field "body" fs), invalid_body)
    ∷ (if_present valid_headers (get_field "headers" fs), invalid_headers)
    ∷ (not (is_end kind) || known_end_status status, invalid_end_status)
    ∷ (not (is_end kind) || is_text "completed" status || has_body, missing_required_field)
    ∷ (
      if_present (valid_status kind has_body (is_text "interrupted" status))
          (get_field "status_code" fs),
      invalid_status_code,
    )
    ∷ []

unfoldable pub validate : Bool → Value → Outcome PayloadError Kind
validate decoded_json (dict fs) =
    let context = valid_stream_id (get_field "stream_id" fs) in
    elim (valid_kind (get_field "kind" fs)) [
      | none ↦ err (record { code = invalid_kind; kind = none; stream_id = context })
      | some k ↦
          map_err (λ c. record { code = c; kind = some k; stream_id = context })
            (do run_checks (checks decoded_json k fs); ok k)
    ]
validate decoded_json _ = err (record { code = invalid_payload; kind = none; stream_id = none })
