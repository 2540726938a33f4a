-- ===== src/Models/Input.antt =====
-- The input classes of models.py: the dict that each builds, its validation, and `to_payload` up to
-- the encoder.
use openevent_modules_model.Base.{ℕ, String, false, Option, none, some, pos, Outcome}
use openevent_modules_model.Models.Value.{Value, Fields, dict, field, done, str, int}
use openevent_modules_model.Models.Kind.{Kind, request, result, append, end, cancel}
use openevent_modules_model.Models.Validate.{PayloadError, validate}

-- The constructor arguments, which Python does not type; an argument that is left out is `none`.
pub data Input : Type 0 where
  request_input : (stream_id method path body : Value) (provider prev_seq : Option Value) → Input
  result_input : (stream_id prev_seq status_code : Value) (headers body : Option Value) → Input
  append_input : (stream_id request_seq prev_seq body : Value) → Input
  end_input : (stream_id request_seq status_code end_status : Value) (body : Option Value) → Input
  cancel_input : (stream_id request_seq : Value) → Input

-- `if value is not None: fields[name] = value`
abbrev pub with_field : String → Option Value → Fields → Fields
with_field name none fs = fs
with_field name (some v) fs = field (str name) v fs

-- The dict of `_initialize`, with its timestamp.
unfoldable pub input_fields : ℕ → Input → Fields
input_fields ts (request_input stream_id method path body provider prev_seq) =
    field (str "kind") (str "infer.request") (
      field (str "ts_ms") (int (pos ts)) (
        field (str "stream_id") stream_id (
          field (str "method") method (
            field (str "path") path (
              field (str "body") body
                (with_field "provider" provider (with_field "prev_seq" prev_seq done)))))))
input_fields ts (result_input stream_id prev_seq status_code headers body) =
    field (str "kind") (str "infer.result") (
      field (str "ts_ms") (int (pos ts)) (
        field (str "stream_id") stream_id (
          field (str "prev_seq") prev_seq (
            field (str "status_code") status_code
              (with_field "headers" headers (with_field "body" body done))))))
input_fields ts (append_input stream_id request_seq prev_seq body) =
    field (str "kind") (str "infer.append") (
      field (str "ts_ms") (int (pos ts)) (
        field (str "stream_id") stream_id (
          field (str "request_seq") request_seq
            (field (str "prev_seq") prev_seq (field (str "body") body done)))))
input_fields ts (end_input stream_id request_seq status_code end_status body) =
    field (str "kind") (str "infer.end") (
      field (str "ts_ms") (int (pos ts)) (
        field (str "stream_id") stream_id (
          field (str "request_seq") request_seq (
            field (str "status_code") status_code
              (field (str "end_status") end_status (with_field "body" body done))))))
input_fields ts (cancel_input stream_id request_seq) = field (str "kind") (str "infer.cancel") (
    field (str "ts_ms") (int (pos ts))
      (field (str "stream_id") stream_id (field (str "request_seq") request_seq done)))

-- `_Input._initialize`: the timestamp is 0 until the publication.
unfoldable pub initialize : Input → Outcome PayloadError Kind
initialize i = validate false (dict (input_fields 0 i))

-- `to_payload` before the encoder.
unfoldable pub to_payload : ℕ → Input → Value
to_payload ts i = dict (input_fields ts i)

abbrev pub kind_of_input : Input → Kind
kind_of_input (request_input _ _ _ _ _ _) = request
kind_of_input (result_input _ _ _ _ _) = result
kind_of_input (append_input _ _ _ _) = append
kind_of_input (end_input _ _ _ _ _) = end
kind_of_input (cancel_input _ _) = cancel
