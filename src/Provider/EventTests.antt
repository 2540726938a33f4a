-- ===== src/Provider/EventTests.antt =====
-- A chat stream of one text and the bodies of two answers.
use openevent_modules_model.Base.{
  ℕ, ◌≡◌, refl, String, true, Option, none, some, List, [], ◌∷◌, ok, err, arith,
}
use openevent_modules_model.Models.Value.{Value, null, str, dict, field, done, get_field}
use openevent_modules_model.Worker.Events.{append, completed}
use openevent_modules_model.Provider.Chunks.{joined}
use openevent_modules_model.Provider.Events.{
  Raised, Text, FrameResult, provider_error, http_exception, event, done_event, done_text,
  typed_event, parsed_event, json_body, sse,
}
use openevent_modules_model.Provider.Printed.{data_frame, printed}
use openevent_modules_model.Provider.Chat.{IsEvent, sse-printed}
use openevent_modules_model.Provider.Body.{limited, json_body-joined}
use openevent_modules_model.Provider.Call.{Response, call_events}
use openevent_modules_model.Provider.Shape.{CallShape, call_events-CallShape}

abbrev decode : List ℕ → Option Text
decode bytes = some bytes

abbrev loads : Text → Option Value
loads t = some null

abbrev lower : String → String
lower s = s

abbrev value : Text → Value
value t = null

abbrev one : Text
one = b'1' ∷ []

-- The stream, cut behind its second byte.
abbrev chunks : List (List ℕ)
chunks =
    (b'd' ∷ b'a' ∷ []) ∷ (b't' ∷ b'a' ∷ b':' ∷ b' ' ∷ b'1' ∷ 10 ∷ 10 ∷ data_frame done_text) ∷ []

one-IsEvent : IsEvent decode loads value 20 200 one
one-IsEvent = record {
  plain = ((refl, refl), tt);
  fits = omega arith;
  decoded = refl;
  loaded = refl;
  not_done = refl;
}

chunks-joined : joined chunks ≡ printed (one ∷ done_text ∷ [])
unfolding joined
chunks-joined = refl

sse-printed_example :
    sse decode loads 20 "/v1/chat/completions" 200 chunks none
    ≡ (event append 200 null ∷ done_event 200 ∷ [], none)
sse-printed_example =
    sse-printed decode loads value 20 200 (one ∷ []) chunks none (one-IsEvent, tt) (omega arith)
      refl chunks-joined

json_body-joined_example :
    json_body decode loads 3 [] ((1 ∷ 2 ∷ []) ∷ (3 ∷ 4 ∷ []) ∷ []) none
    ≡ limited decode loads 3 none (joined ((1 ∷ 2 ∷ []) ∷ (3 ∷ 4 ∷ []) ∷ []))
json_body-joined_example = json_body-joined decode loads 3 ((1 ∷ 2 ∷ []) ∷ (3 ∷ 4 ∷ []) ∷ []) none

oversized :
    json_body decode loads 3 [] ((1 ∷ 2 ∷ []) ∷ (3 ∷ 4 ∷ []) ∷ []) none ≡ err (provider_error 60008)
unfolding json_body
oversized = refl

abbrev typed : String → Value
typed kind = dict (field (str "type") (str kind) done)

typed-completed :
    typed_event 200
      (typed "response.completed")
      (get_field "type" (field (str "type") (str "response.completed") done))
    ≡ FrameResult.ends (event completed 200 (typed "response.completed"))
unfolding typed_event get_field
typed-completed = refl

typed-missing : parsed_event "/v1/responses" 200 (some null) ≡ FrameResult.stops Raised.other
unfolding parsed_event typed_event
typed-missing = refl

abbrev response : Response
response = record {
  status = 200;
  header_pairs = ("content-type", "text/event-stream") ∷ ("date", "today") ∷ [];
  media_type = "text/event-stream";
  chunks = chunks;
  broken = some http_exception;
}

call_events-CallShape_example :
    CallShape true
      (call_events decode loads lower 20 "/v1/chat/completions" true none (ok response))
call_events-CallShape_example =
    call_events-CallShape decode loads lower 20 "/v1/chat/completions" true none (ok response)
