-- ===== src/Models/Payload.antt =====
-- `parse_payload` and `parse_message` of models.py. The model classes keep the validated dict and
-- read it on demand; here the fields that the consumers read are read once. `json.loads` with the
-- hooks of `parse_payload` is the parameter `loads`; it returns `none` where it raises.
use openevent_modules_model.Base.{
  ℕ, String, Bool, true, false, Option, none, some, List, Outcome, ok, err, ◌>>=◌,
}
use openevent_modules_model.Models.Value.{
  Value, Fields, bool, str, dict, null, done, get_field, text_of, natural_of,
}
use openevent_modules_model.Models.Kind.{Kind, request, result, append, end, cancel}
use openevent_modules_model.Models.Validate.{PayloadError, invalid_json, validate}

pub record InferRequest : Type 0 where
  pub stream_id : String
  pub path : String
  pub provider : Option String
  -- `body.get("stream", False)`
  pub stream : Bool
  pub body : Value

pub record InferResult : Type 0 where
  pub stream_id : String
  pub prev_seq : ℕ
  pub status_code : ℕ
  pub headers : Option Value
  pub body : Option Value

pub record InferAppend : Type 0 where
  pub stream_id : String
  pub request_seq : ℕ
  pub prev_seq : ℕ
  pub body : Value

pub record InferEnd : Type 0 where
  pub stream_id : String
  pub request_seq : ℕ
  pub status_code : ℕ
  pub end_status : String
  pub body : Option Value

pub record InferCancel : Type 0 where
  pub stream_id : String
  pub request_seq : ℕ

pub data Payload : Type 0 where
  infer_request : InferRequest → Payload
  infer_result : InferResult → Payload
  infer_append : InferAppend → Payload
  infer_end : InferEnd → Payload
  infer_cancel : InferCancel → Payload

abbrev pub kind : Payload → Kind
kind (infer_request _) = request
kind (infer_result _) = result
kind (infer_append _) = append
kind (infer_end _) = end
kind (infer_cancel _) = cancel

abbrev pub stream_id : Payload → String
stream_id (infer_request p) = p.stream_id
stream_id (infer_result p) = p.stream_id
stream_id (infer_append p) = p.stream_id
stream_id (infer_end p) = p.stream_id
stream_id (infer_cancel p) = p.stream_id

abbrev stream_flag : Option Value → Bool
stream_flag (some (bool b)) = b
stream_flag _ = false

abbrev body_stream : Value → Bool
body_stream (dict fs) = stream_flag (get_field "stream" fs)
body_stream _ = false

abbrev pub text? : Option Value → Option String
text? (some (str s)) = some s
text? _ = none

abbrev pub value_of : Option Value → Value
value_of (some v) = v
value_of none = null

-- The fields of a validated dict.
unfoldable pub read : Kind → Fields → Payload
read request fs = infer_request (record {
  stream_id = text_of (get_field "stream_id" fs);
  path = text_of (get_field "path" fs);
  provider = text? (get_field "provider" fs);
  stream = body_stream (value_of (get_field "body" fs));
  body = value_of (get_field "body" fs);
})
read result fs = infer_result (record {
  stream_id = text_of (get_field "stream_id" fs);
  prev_seq = natural_of (get_field "prev_seq" fs);
  status_code = natural_of (get_field "status_code" fs);
  headers = get_field "headers" fs;
  body = get_field "body" fs;
})
read append fs = infer_append (record {
  stream_id = text_of (get_field "stream_id" fs);
  request_seq = natural_of (get_field "request_seq" fs);
  prev_seq = natural_of (get_field "prev_seq" fs);
  body = value_of (get_field "body" fs);
})
read end fs = infer_end (record {
  stream_id = text_of (get_field "stream_id" fs);
  request_seq = natural_of (get_field "request_seq" fs);
  status_code = natural_of (get_field "status_code" fs);
  end_status = text_of (get_field "end_status" fs);
  body = get_field "body" fs;
})
read cancel fs = infer_cancel (record {
  stream_id = text_of (get_field "stream_id" fs);
  request_seq = natural_of (get_field "request_seq" fs);
})

abbrev pub fields_of : Value → Fields
fields_of (dict fs) = fs
fields_of _ = done

abbrev pub Bytes : Type 0
Bytes = List ℕ

-- What `parse_payload` makes of the decoded text.
unfoldable pub parse_decoded : Option Value → Outcome PayloadError Payload
parse_decoded none = err (record { code = invalid_json; kind = none; stream_id = none })
parse_decoded (some v) = do k ← validate true v; ok (read k (fields_of v))

unfoldable pub parse_payload : (Bytes → Option Value) → Bytes → Outcome PayloadError Payload
parse_payload loads payload = parse_decoded (loads payload)

-- A message as OpenEvent delivers it.
pub record RawMessage : Type 0 where
  pub seq : ℕ
  pub uuid : ℕ
  pub channel_id : ℕ
  pub principal : ℕ
  pub recipients : List ℕ
  pub object_keys : List String
  pub payload : Bytes
  pub ts_ms : ℕ

pub record ParsedMessage : Type 0 where
  pub payload : Payload
  pub uuid : ℕ
  pub seq : ℕ
  pub channel_id : ℕ
  pub principal : ℕ
  pub recipients : List ℕ
  pub object_keys : List String
  pub ts_ms : ℕ

unfoldable pub parse_message :
    (Bytes → Option Value) → RawMessage → Outcome PayloadError ParsedMessage
parse_message loads m = do
  p ← parse_payload loads m.payload
  ok (record {
    payload = p;
    uuid = m.uuid;
    seq = m.seq;
    channel_id = m.channel_id;
    principal = m.principal;
    recipients = m.recipients;
    object_keys = m.object_keys;
    ts_ms = m.ts_ms;
  })
