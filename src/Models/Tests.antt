-- ===== src/Models/Tests.antt =====
-- Runs of models.py on small payloads.
use openevent_modules_model.Base.{◌≡◌, refl, Option, some, [], ok, pos}
use openevent_modules_model.Models.Value.{
  Value, dict, list, nil, cons, field, done, str, int, get_field,
}
use openevent_modules_model.Models.Kind.{Kind, required, optional}
use openevent_modules_model.Models.Validate.{
  stream_id_matches, valid_stream_id, valid_kind, no_unknown, no_missing, valid_request_body,
  valid_header, allowed_header_name, valid_headers, allowed_status, known_end_status, run_checks,
  checks, validate,
}
use openevent_modules_model.Models.Payload.{
  Bytes, Payload, infer_result, read, parse_decoded, parse_payload,
}
use openevent_modules_model.Models.Input.{Input, cancel_input, input_fields, initialize, to_payload}
use openevent_modules_model.Models.RoundTrip.{to_payload-parses}
use openevent_modules_model.Models.WellFormed.{IsWellFormed}
use openevent_modules_model.Models.Message.{Reads, parse_payload-IsMessage}

abbrev headers : Value
headers =
    list (
      cons (dict (field (str "name") (str "retry-after") (field (str "value") (str "1") done))) nil)

abbrev result_value : Value
result_value = dict (
    field (str "kind") (str "infer.result") (
      field (str "stream_id") (str "stream_1") (
        field (str "ts_ms") (int (pos 1000)) (
          field (str "prev_seq") (int (pos 7))
            (field (str "status_code") (int (pos 200)) (field (str "headers") headers done))))))

abbrev loads_result : Bytes → Option Value
loads_result payload = Option.some result_value

abbrev result_payload : Payload
result_payload = infer_result (record {
  stream_id = "stream_1";
  prev_seq = 7;
  status_code = 200;
  headers = Option.some headers;
  body = Option.none;
})

result-parses : parse_payload loads_result [] ≡ ok result_payload
unfolding parse_payload parse_decoded validate valid_kind valid_stream_id stream_id_matches
    run_checks checks no_unknown no_missing required optional valid_request_body valid_headers
    known_end_status allowed_status read get_field valid_header allowed_header_name
result-parses = refl

parse_payload-IsMessage_example :
    IsWellFormed result_payload × Reads (Option.some result_value) result_payload
parse_payload-IsMessage_example =
    parse_payload-IsMessage loads_result [] result_payload result-parses

abbrev cancel : Input
cancel = cancel_input (str "stream_1") (int (pos 7))

abbrev loads_cancel : Bytes → Option Value
loads_cancel payload = some (to_payload 1000 cancel)

abbrev dumps_empty : Value → Bytes
dumps_empty v = []

cancel-initialize : initialize cancel ≡ ok Kind.cancel
unfolding initialize input_fields validate valid_kind valid_stream_id stream_id_matches run_checks
    checks no_unknown no_missing required optional valid_request_body valid_headers known_end_status
    allowed_status get_field
cancel-initialize = refl

to_payload-parses_example :
    parse_payload loads_cancel (dumps_empty (to_payload 1000 cancel))
    ≡ ok (read Kind.cancel (input_fields 0 cancel))
to_payload-parses_example =
    to_payload-parses loads_cancel dumps_empty 1000 cancel Kind.cancel refl cancel-initialize
