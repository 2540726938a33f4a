-- ===== src/Worker/AnswerTests.antt =====
-- A chat stream with one chunk, from the provider's bytes to the client.
use openevent_modules_model.Base.{
  ℕ, zero, suc, ◌+◌, ◌≡◌, ◌≢◌, refl, String, true, false, Option, none, some, List, [], ◌∷◌, map,
  Outcome, ok, err, length,
}
use openevent_modules_model.Models.Value.{Value, null}
use openevent_modules_model.Subscription.State.{Call}
use openevent_modules_model.Subscription.Accept.{new_receive}
use openevent_modules_model.Subscription.Client.{new_call}
use openevent_modules_model.Subscription.Delivery.{received}
use openevent_modules_model.Client.Final.{EndsFinal}
use openevent_modules_model.Client.Stream.{iterate}
use openevent_modules_model.Client.Iterate.{is_over}
use openevent_modules_model.Provider.Events.{
  cancelled, Text, Yielded, typed_event, parsed_event, data_lines, data_event, text_event,
  frame_events, sse,
}
use openevent_modules_model.Provider.Frames.{
  append_byte, limit_byte, read_byte, read_bytes, strip_prefix, read_rest, read_chunks, new_reader,
}
use openevent_modules_model.Provider.Call.{Response, translated, response_events, call_events}
use openevent_modules_model.Worker.State.{RequestState, running}
use openevent_modules_model.Worker.Task.{TaskError, stopped, provider_events, task_published}
use openevent_modules_model.Worker.Received.{sent, items, task_published-received}
use openevent_modules_model.Worker.Answer.{event_bodies}
use openevent_modules_model.Worker.EndToEnd.{
  chunk_body, answered, task_published-answers, provider_call-iterated,
}

abbrev request : RequestState
request = record {
  channel_id = 1;
  request_seq = 5;
  request_principal = 2;
  stream_id = "s";
  streaming = true;
  path = "/v1/chat/completions";
  body = none;
  duplicate = false;
  provider = some "default";
  phase = running;
  chain_seq = none;
  terminal_seq = none;
  operation = true;
}

abbrev decode : List ℕ → Option Text
decode bytes = some bytes

abbrev loads : Text → Option Value
loads t = some null

abbrev lower : String → String
lower s = s

-- `data: 1`, and the end marker in two chunks
abbrev chunks : List (List ℕ)
chunks =
    (100 ∷ 97 ∷ 116 ∷ 97 ∷ 58 ∷ 32 ∷ 49 ∷ 10 ∷ 10 ∷ 100 ∷ 97 ∷ [])
    ∷ (116 ∷ 97 ∷ 58 ∷ 91 ∷ 68 ∷ 79 ∷ 78 ∷ 69 ∷ 93 ∷ 10 ∷ 10 ∷ [])
    ∷ []

abbrev response : Response
response = record {
  status = 200;
  header_pairs = ("content-type", "text/event-stream") ∷ ("date", "today") ∷ [];
  media_type = "text/event-stream";
  chunks = chunks;
  broken = none;
}

abbrev events : Yielded
events = provider_events decode loads lower 100 none (ok response) request

events-shape : (event_bodies events.0 ≡ null ∷ []) × (events.1 ≡ none)
unfolding call_events response_events translated sse frame_events text_event data_event data_lines
    parsed_event typed_event read_chunks read_rest read_bytes read_byte limit_byte append_byte
    strip_prefix new_reader
events-shape = (refl, refl)

going : events.1 ≢ some cancelled
going e = let (bodies, last) = events-shape in cc

abbrev bound_call : Call
bound_call = record (new_call "s" true) { receive = some (new_receive 5) }

abbrev seqs : ℕ → ℕ
seqs i = i + 6

-- The second publication is refused: the worker has stopped.
abbrev stopping : ℕ → Outcome TaskError ℕ
stopping zero = ok 6
stopping (suc i) = err stopped

task_published-received_example :
    (received (sent 3 (λ n. n) request (task_published request stopping events)) bound_call).queue
    ≡ items 3 (λ n. n) request (task_published request stopping events)
task_published-received_example =
    task_published-received 3 (λ n. n) request decode loads lower 100 none (ok response) stopping
      bound_call refl refl refl

abbrev answer : Call
answer = answered 3 (λ n. n) request decode loads lower 100 none (ok response) seqs bound_call

task_published-answers_example : EndsFinal answer.queue
task_published-answers_example =
    task_published-answers 3 (λ n. n) request decode loads lower 100 none (ok response) seqs
      bound_call refl refl refl going

provider_call-iterated_example :
    (map chunk_body (iterate (length answer.queue) answer).0 ≡ event_bodies events.0)
    × (is_over (iterate (length answer.queue) answer).1 ≡ true)
provider_call-iterated_example =
    provider_call-iterated 3 (λ n. n) request decode loads lower 100 none (ok response) seqs
      bound_call refl refl refl going
