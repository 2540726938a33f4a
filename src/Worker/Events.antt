-- ===== src/Worker/Events.antt =====
-- The events that the worker publishes: `_error_output`, and the outputs of `_provider_task`.
use openevent_modules_model.Base.{
  ℕ, suc, ◌==◌, String, Bool, not, ◌&&◌, Option, none, some, List, [], ◌∷◌, if◌then◌else◌,
}
use openevent_modules_model.Models.Value.{Value, Items, nil, field, done, str, dict, list}
use openevent_modules_model.Models.Payload.{Payload, infer_result, infer_append, infer_end}
use openevent_modules_model.Worker.State.{RequestState}

-- `ERROR_CODES`, which has no other codes: a code that is not in the table raises KeyError there, and
-- has the last name here. `Provider.Codes` shows that a provider call does not raise one.
unfoldable pub error_name : ℕ → String
error_name code =
    if code == 60000
    then "MODEL_API_TIMEOUT"
    else if code == 60001
    then "MODEL_API_DNS_ERROR"
    else if code == 60002
    then "MODEL_API_TLS_ERROR"
    else if code == 60003
    then "MODEL_API_CONNECTION_ERROR"
    else if code == 60005
    then "DUPLICATE_REQUEST"
    else if code == 60007
    then "MODEL_PROXY_INTERRUPTED"
    else if code == 60008
    then "PAYLOAD_TOO_LARGE"
    else "INVALID_REQUEST"

unfoldable pub error_body : ℕ → Value
error_body code = dict (
    field (str "error")
      (dict (
        field (str "code") (str (error_name code)) (
          field (str "message") (str (error_name code))
            (field (str "type") (str "model_proxy_error") done))))
      done)

-- `_error_output` up to `_emit`: an end of a stream, or a result.
unfoldable pub error_event : RequestState → ℕ → (recovery rejection : Bool) → Payload
error_event r code recovery rejection =
    if r.streaming && not rejection && not (recovery && r.duplicate)
    then infer_end (record {
      stream_id = r.stream_id;
      request_seq = r.request_seq;
      status_code = code;
      end_status = "interrupted";
      body = some (error_body code);
    })
    else infer_result (record {
      stream_id = r.stream_id;
      prev_seq = r.request_seq;
      status_code = code;
      headers = none;
      body = some (error_body code);
    })

-- `ProviderEvent`
pub data ProviderKind : Type 0 where
  headers result append completed failed unknown : ProviderKind

pub record ProviderEvent : Type 0 where
  pub kind : ProviderKind
  pub status_code : ℕ
  pub header_list : Items
  pub body : Value
  pub has_body : Bool

abbrev pub body_or_unset : ProviderEvent → Option Value
body_or_unset e = if e.has_body then some e.body else none

-- `output.headers or None`
abbrev pub headers_or_none : Items → Option Value
headers_or_none nil = none
headers_or_none hs = some (list hs)

abbrev pub result_of : RequestState → ProviderEvent → Payload
result_of r e = infer_result (record {
  stream_id = r.stream_id;
  prev_seq = r.request_seq;
  status_code = e.status_code;
  headers = headers_or_none e.header_list;
  body = body_or_unset e;
})

abbrev pub end_of : RequestState → String → ProviderEvent → Payload
end_of r end_status e = infer_end (record {
  stream_id = r.stream_id;
  request_seq = r.request_seq;
  status_code = e.status_code;
  end_status = end_status;
  body = body_or_unset e;
})

abbrev pub append_of : RequestState → ProviderEvent → ℕ → Payload
append_of r e n =
    infer_append
      (record { stream_id = r.stream_id; request_seq = r.request_seq; prev_seq = n; body = e.body })

-- The event of one output behind `writer_seq`; `none` is a `WorkerFatalError`.
unfoldable pub output_event :
    RequestState → Option ℕ → ProviderKind → ProviderEvent → Option Payload
output_event r writer headers e = some (result_of r e)
output_event r writer result e = some (result_of r e)
output_event r none append e = none
output_event r (some n) append e = some (append_of r e n)
output_event r writer completed e = some (end_of r "completed" e)
output_event r writer failed e = some (end_of r "failed" e)
output_event r writer unknown e = none

-- One round: the event is published, or the loop ends; `again` is the rest behind the seq.
unfoldable pub publish_output :
    Option Payload → Option ℕ → (ℕ → List (ℕ × Payload)) → List (ℕ × Payload)
publish_output none o again = []
publish_output (some p) none again = []
publish_output (some p) (some seq) again = (seq, p) ∷ again seq

-- The loop over the provider's outputs. `emit` is `_emit` by the number of the output: the seq of the
-- publication, or `none` where it raises, the input class refuses the event or the request is over.
-- The result is what was published.
unfoldable pub task_outputs :
    RequestState → (ℕ → Option ℕ) → ℕ → Option ℕ → List ProviderEvent → List (ℕ × Payload)
task_outputs r emit i writer [] = []
task_outputs r emit i writer (e ∷ es) =
    publish_output (output_event r writer e.kind e) (emit i)
      (λ seq. task_outputs r emit (suc i) (some seq) es)
