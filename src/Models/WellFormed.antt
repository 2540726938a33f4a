-- ===== src/Models/WellFormed.antt =====
-- What a parsed payload satisfies, whatever its sender wrote.
use openevent_modules_model.Base.{
  ℕ, ◌<◌, ◌≡◌, refl, Bool, true, false, ◌||◌, Option, none, some, ok, require-ok, >>=-ok,
  ok-injective, subst, is_some, List, [], ◌∷◌, All, arith, str_eq, eq_iff, String, ◌≢◌,
}
use openevent_modules_model.Models.Value.{
  Value, Fields, dict, str, positive_int, is_text, get_field, text_of, natural_of,
}
use openevent_modules_model.Models.Kind.{Kind, request, result, append, end, cancel, required}
use openevent_modules_model.Models.Validate.{
  checks, validate, no_missing, valid_stream_id, stream_id_matches, allowed_status,
  known_end_status, nonempty_str, valid_headers, if_present, known_path, valid_request_body, Check,
  run_checks,
}
use openevent_modules_model.Models.Header.{IsHeaderList, valid_headers-IsHeaderList}
use openevent_modules_model.Models.Payload.{
  Bytes, Payload, infer_request, infer_result, infer_append, infer_end, infer_cancel, read,
  parse_payload, parse_decoded, fields_of, text?, value_of,
}

-- A provider, if there is one, has a name.
abbrev pub IsNamed : Option String → Type 0
IsNamed none = Unit
IsNamed (some s) = s ≢ ""

-- The constraints that the protocol puts on the fields of one message.
abbrev pub IsWellFormed : Payload → Type 0
IsWellFormed (infer_request p) =
    (stream_id_matches p.stream_id ≡ true)
    × (known_path (str p.path) ≡ true)
    × (valid_request_body (some p.body) ≡ true)
    × IsNamed p.provider
IsWellFormed (infer_result p) =
    (stream_id_matches p.stream_id ≡ true)
    × (0 < p.prev_seq)
    × (allowed_status result (is_some p.body) false p.status_code ≡ true)
    × IsHeaderList p.headers
IsWellFormed (infer_append p) =
    (stream_id_matches p.stream_id ≡ true) × (0 < p.request_seq) × (0 < p.prev_seq)
IsWellFormed (infer_end p) =
    (stream_id_matches p.stream_id ≡ true)
    × (0 < p.request_seq)
    × (known_end_status (some (str p.end_status)) ≡ true)
    × (str_eq p.end_status "completed" || is_some p.body ≡ true)
    × (allowed_status end (is_some p.body) (str_eq p.end_status "interrupted") p.status_code ≡ true)
IsWellFormed (infer_cancel p) = (stream_id_matches p.stream_id ≡ true) × (0 < p.request_seq)

matches-text_of :
    (v : Option Value) → is_some (valid_stream_id v) ≡ true → stream_id_matches (text_of v) ≡ true
unfolding valid_stream_id
matches-text_of v h = ground arith

natural_of-pos :
    (v : Option Value) → is_some v ≡ true → if_present positive_int v ≡ true → 0 < natural_of v
natural_of-pos v h p = ground arith

-- An end status plays no part for a result.
allowed_status-result :
    (b i : Bool) (n : ℕ) → allowed_status result b i n ≡ allowed_status result b false n
unfolding allowed_status
allowed_status-result true i n = refl
allowed_status-result false true n = refl
allowed_status-result false false n = refl

known_path-text_of :
    (v : Option Value)
    → is_some v ≡ true
    → if_present known_path v ≡ true
    → known_path (str (text_of v)) ≡ true
known_path-text_of v present h = ground arith

known_end_status-text_of :
    (v : Option Value) → known_end_status v ≡ true → v ≡ some (str (text_of v))
unfolding known_end_status
known_end_status-text_of v h = ground arith

-- Every check was passed.
abbrev pub Passed : List Check → Type 0
Passed = All (λ c. c.0 ≡ true)

pub run_checks-Passed : (cs : List Check) → run_checks cs ≡ ok tt → Passed cs
unfolding run_checks
run_checks-Passed [] h = tt
run_checks-Passed ((b, c) ∷ cs) h =
    let (passed, rest) = require-ok b c (run_checks cs) h in (passed, run_checks-Passed cs rest)

provider_check :
    (d : Bool) (k : Kind) (fs : Fields)
    → Passed (checks d k fs)
    → if_present nonempty_str (get_field "provider" fs) ≡ true
unfolding checks
provider_check d k fs (_, (_, (_, (_, (_, (_, (provider, rest))))))) = provider

headers_check :
    (d : Bool) (k : Kind) (fs : Fields)
    → Passed (checks d k fs)
    → if_present valid_headers (get_field "headers" fs) ≡ true
unfolding checks
headers_check d k fs (_, (_, (_, (_, (_, (_, (_, (_, (_, (_, (_, (headers, rest)))))))))))) =
    headers

text?-IsNamed : (v : Option Value) → if_present nonempty_str v ≡ true → IsNamed (text? v)
text?-IsNamed none h = tt
text?-IsNamed (some (str s)) h = λ e. ground (arith, h, (eq_iff s "").1 e)
text?-IsNamed (some _) h = tt

checks-IsWellFormed :
    (d : Bool) (k : Kind) (fs : Fields) → Passed (checks d k fs) → IsWellFormed (read k fs)
unfolding checks read no_missing required
checks-IsWellFormed d request fs h =
    let rest : (stream_id_matches (text_of (get_field "stream_id" fs)) ≡ true)
        × (known_path (str (text_of (get_field "path" fs))) ≡ true)
        × (valid_request_body (some (value_of (get_field "body" fs))) ≡ true) =
      ground (
        arith,
        matches-text_of (get_field "stream_id" fs),
        known_path-text_of (get_field "path" fs),
      ) in
    (
      rest.0,
      rest.1,
      rest.2,
      text?-IsNamed (get_field "provider" fs) (provider_check d request fs h),
    )
checks-IsWellFormed d result fs h =
    let rest : (stream_id_matches (text_of (get_field "stream_id" fs)) ≡ true)
        × (0 < natural_of (get_field "prev_seq" fs))
        × (allowed_status result (is_some (get_field "body" fs)) false
              (natural_of (get_field "status_code" fs))
            ≡ true) =
      ground (
        arith,
        matches-text_of (get_field "stream_id" fs),
        allowed_status-result (is_some (get_field "body" fs))
            (is_text "interrupted" (get_field "end_status" fs))
            (natural_of (get_field "status_code" fs)),
      ) in
    (
      rest.0,
      rest.1,
      rest.2,
      valid_headers-IsHeaderList (get_field "headers" fs) (headers_check d result fs h),
    )
checks-IsWellFormed d append fs h = ground (arith, matches-text_of (get_field "stream_id" fs))
checks-IsWellFormed d end fs h = ground (
  arith,
  matches-text_of (get_field "stream_id" fs),
  known_end_status-text_of (get_field "end_status" fs),
)
checks-IsWellFormed d cancel fs h = ground (arith, matches-text_of (get_field "stream_id" fs))

pub validate-ok :
    (d : Bool) (fs : Fields) (k : Kind)
    → validate d (dict fs) ≡ ok k
    → run_checks (checks d k fs) ≡ ok tt
unfolding validate
validate-ok d fs k h = ground arith

validate-dict :
    (d : Bool) (v : Value) (k : Kind) → validate d v ≡ ok k → IsWellFormed (read k (fields_of v))
unfolding validate
validate-dict d (dict fs) k h =
    checks-IsWellFormed d k fs (run_checks-Passed (checks d k fs) (validate-ok d fs k h))
validate-dict d _ k h = cc

parse_decoded-IsWellFormed :
    (v : Option Value) (p : Payload) → parse_decoded v ≡ ok p → IsWellFormed p
unfolding parse_decoded
parse_decoded-IsWellFormed none p h = cc
parse_decoded-IsWellFormed (some v) p h =
    let (k, valid, same) = >>=-ok (validate true v) (λ k. ok (read k (fields_of v))) h in
    subst IsWellFormed (ok-injective same) (validate-dict true v k valid)

-- The fields of a payload that `parse_payload` returns satisfy the constraints.
pub parse_payload-IsWellFormed :
    (loads : Bytes → Option Value) (payload : Bytes) (p : Payload)
    → parse_payload loads payload ≡ ok p
    → IsWellFormed p
unfolding parse_payload
parse_payload-IsWellFormed loads payload p h = parse_decoded-IsWellFormed (loads payload) p h
