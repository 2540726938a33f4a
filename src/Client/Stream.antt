-- ===== src/Client/Stream.antt =====
-- `OpenAIStream.__next__` and the end of `OpenAI._create`: from the items of a call to what its
-- client sees.
use openevent_modules_model.Base.{
  ℕ, zero, suc, String, Bool, false, Option, none, some, List, [], ◌∷◌, is_some, if◌then◌else◌,
}
use openevent_modules_model.Models.Value.{Value}
use openevent_modules_model.Models.Payload.{
  ParsedMessage, Payload, infer_request, infer_result, infer_append, infer_end, infer_cancel,
}
use openevent_modules_model.Subscription.State.{
  Call, SubscriptionError, Item, message, protocol_fault,
}
use openevent_modules_model.Subscription.Client.{
  Next, item, raised, stop_iteration, wait, next_message,
}
use openevent_modules_model.Client.Errors.{
  ApiError, api_error, protocol_error, stream_cancelled_error, make_api_error,
}

abbrev seq_of_result : Option ParsedMessage → Option ℕ
seq_of_result none = none
seq_of_result (some m) = some m.seq

abbrev headers_of : Payload → Option Value
headers_of (infer_result p) = p.headers
headers_of _ = none

abbrev status_of : Payload → Option ℕ
status_of (infer_result p) = some p.status_code
status_of (infer_end p) = some p.status_code
status_of _ = none

abbrev body_of : Payload → Option Value
body_of (infer_request p) = some p.body
body_of (infer_result p) = p.body
body_of (infer_append p) = some p.body
body_of (infer_end p) = p.body
body_of (infer_cancel p) = none

abbrev of_result {ℓ} : {A : Type ℓ} → (Payload → Option A) → Option ParsedMessage → Option A
of_result f none = none
of_result f (some m) = f m.payload

-- `_context`; the class is filled in by the caller.
unfoldable pub context : Call → Option ℕ → ApiError
context c last_seq = record {
  error_type = api_error;
  stream_id = c.stream_id;
  request_seq = c.request_seq;
  result_openevent_seq = seq_of_result c.result;
  last_stream_openevent_seq = last_seq;
  status_code = none;
  headers = of_result headers_of c.result;
  body = none;
  end_status = none;
}

-- `_protocol_error`
abbrev fault_context : Call → ParsedMessage → ApiError → ApiError
fault_context c m e = elim m.payload [
  | infer_result p ↦ record e {
    result_openevent_seq = some m.seq;
    headers = p.headers;
    status_code = some p.status_code;
  }
  | _ ↦ record e { status_code = of_result status_of c.result }
]

unfoldable pub protocol_failure : Call → ParsedMessage → ApiError
protocol_failure c m =
    let e = fault_context c m (context c (if c.streaming then some m.seq else none)) in
    record e { error_type = protocol_error; body = body_of m.payload }

-- What a call of `__next__` does: the chunk of an append, the end of the iteration, an exception, or
-- a wait. (`unexpected` is an AttributeError, for a payload that the queue never holds.)
pub data StreamNext : Type 0 where
  chunk : ParsedMessage → Call → StreamNext
  stops : StreamNext
  fails : ApiError → StreamNext
  broken_off : SubscriptionError → StreamNext
  unexpected : StreamNext
  waits : StreamNext

abbrev pub stops_or : Option ApiError → StreamNext
stops_or none = stops
stops_or (some e) = fails e

abbrev pub classified : ℕ → Option String → Option Value → ParsedMessage → Call → StreamNext
classified status end_status body m c =
    stops_or (make_api_error status end_status (record (context c (some m.seq)) { body = body }))

-- A message of the queue; `again` is the next round of the loop.
unfoldable pub read_payload : Payload → ParsedMessage → Call → StreamNext → StreamNext
read_payload (infer_request p) m c again = unexpected
read_payload (infer_result p) m c again =
    if is_some p.body then classified p.status_code none p.body m c else again
read_payload (infer_append p) m c again = chunk m c
read_payload (infer_end p) m c again = classified p.status_code (some p.end_status) p.body m c
read_payload (infer_cancel p) m c again = fails (record (context c (some m.seq)) {
  error_type = stream_cancelled_error;
  status_code = some 60004;
})

unfoldable pub read_item : Item → Call → StreamNext → StreamNext
read_item (message m) c again = read_payload m.payload m c again
read_item (protocol_fault f m) c again = fails (protocol_failure c m)

unfoldable pub read_next : Next → StreamNext → StreamNext
read_next (item x c) again = read_item x c again
read_next (raised e) again = broken_off e
read_next stop_iteration again = stops
read_next wait again = waits

-- The loop, along the queue of the call.
unfoldable pub pull : List Item → Call → StreamNext
pull [] c = read_next (next_message c) waits
pull (x ∷ rest) c =
    let again = pull rest (record c { queue = rest }) in read_next (next_message c) again

-- `__next__`, with the stream's `_done`.
unfoldable pub stream_next : Bool → Call → StreamNext
stream_next finished c = if finished then stops else pull c.queue c

-- A client that iterates to the end: the chunks, and what ended the iteration; with a bound on the
-- number of calls.
pub data Ending : Type 0 where
  exhausted : Ending
  raises : ApiError → Ending
  subscription_failed : SubscriptionError → Ending
  unusable : Ending
  blocked : Ending
  out_of_fuel : Ending

abbrev pub continued :
    (Call → List ParsedMessage × Ending) → StreamNext → List ParsedMessage × Ending
continued again (chunk m c) = let (ms, e) = again c in (m ∷ ms, e)
continued again stops = ([], exhausted)
continued again (fails e) = ([], raises e)
continued again (broken_off e) = ([], subscription_failed e)
continued again unexpected = ([], unusable)
continued again waits = ([], blocked)

unfoldable pub iterate : ℕ → Call → List ParsedMessage × Ending
iterate zero c = ([], out_of_fuel)
iterate (suc n) c = continued (λ d. iterate n d) (stream_next false c)
