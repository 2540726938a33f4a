-- ===== src/Client/Create.antt =====
-- `OpenAI._create`: the request that it builds, what the publication does to the call, and the answer
-- of a request that does not stream.
use openevent_modules_model.Base.{ℕ, String, Option, none, some, Outcome, ok, err, if◌then◌else◌}
use openevent_modules_model.Models.Value.{
  Value, Fields, null, str, dict, done, field, is_key, get_field,
}
use openevent_modules_model.Models.Input.{Input, request_input}
use openevent_modules_model.Models.Payload.{ParsedMessage, Payload, infer_result}
use openevent_modules_model.Rpc.Status.{rpc_stopped}
use openevent_modules_model.Publishing.Publish.{PublishError, before_raised}
use openevent_modules_model.Subscription.State.{
  Call, Subscription, SubscriptionError, message, protocol_fault,
}
use openevent_modules_model.Subscription.Client.{
  Next, item, raised, stop_iteration, wait, published, publication_failed,
}
use openevent_modules_model.Client.Errors.{ApiError, make_api_error}
use openevent_modules_model.Client.Stream.{context, protocol_failure}

-- `kwargs.pop(name, ...)`, without its value
unfoldable pub popped : String → Fields → Fields
popped name done = done
popped name (field k v fs) =
    let rest = popped name fs in if is_key name k then rest else field k v rest

-- An argument that is `None` counts as left out.
abbrev given : Option Value → Option Value
given (some null) = none
given v = v

abbrev value_or : Option Value → Value → Value
value_or none d = d
value_or (some v) d = v

-- The body: the arguments without the three of the client.
unfoldable pub body_fields : Fields → Fields
body_fields kwargs = popped "prev_seq" (popped "provider" (popped "stream_id" kwargs))

-- The `InferRequestInput` of the arguments; `new_id` is the generated stream id.
unfoldable pub create_input : String → String → Fields → Input
create_input new_id path kwargs =
    request_input (value_or (get_field "stream_id" kwargs) (str new_id)) (str "POST") (str path)
      (dict (body_fields kwargs)) (given (get_field "provider" kwargs))
      (given (get_field "prev_seq" kwargs))

-- What `_create` raises for a publication that failed: the subscription's error, or the exception.
pub data CreateError {ℓ} (H : Type ℓ) : Type ℓ where
  subscription_error : Option SubscriptionError → CreateError H
  publish_raised : PublishError H → CreateError H

abbrev create_error {ℓ} : {H : Type ℓ} → Subscription → PublishError H → CreateError H
create_error s (before_raised rpc_stopped) = subscription_error s.error
create_error s e = publish_raised e

-- The `try` of `_create` behind `publish_request`: the state, and the exception if there is one.
unfoldable pub create_published {ℓ} :
    {H : Type ℓ}
    → ℕ
    → Call
    → Outcome (PublishError H) ℕ
    → Subscription
    → Subscription × Option (CreateError H)
create_published i c (ok seq) s = (published i c seq s, none)
create_published i c (err e) s =
    (publication_failed i c s, some (create_error (publication_failed i c s) e))

-- `OpenAIResponse`
pub record ResponseView : Type 0 where
  pub body : Value
  pub stream_id : String
  pub request_seq : Option ℕ
  pub result_openevent_seq : ℕ
  pub status_code : ℕ
  pub headers : Option Value

-- What a call that does not stream ends in. (`unexpected` is an AttributeError or KeyError, for a
-- payload that the queue never holds.)
pub data Created : Type 0 where
  response : ResponseView → Created
  fails : ApiError → Created
  broken_off : SubscriptionError → Created
  closed : Created
  unexpected : Created
  waits : Created

abbrev pub response_or : ResponseView → Option ApiError → Created
response_or v none = response v
response_or v (some e) = fails e

unfoldable pub created_message : Payload → ParsedMessage → Call → Created
created_message (infer_result p) m c = elim p.body [
  | none ↦ unexpected
  | some b ↦
      response_or
        (record {
          body = b;
          stream_id = c.stream_id;
          request_seq = c.request_seq;
          result_openevent_seq = m.seq;
          status_code = p.status_code;
          headers = p.headers;
        })
        (make_api_error p.status_code none (record (context c none) { body = some b }))
]
created_message _ m c = unexpected

unfoldable pub created : Next → Created
created (item (message m) c) = created_message m.payload m c
created (item (protocol_fault f m) c) = fails (protocol_failure c m)
created (raised e) = broken_off e
created stop_iteration = closed
created wait = waits
