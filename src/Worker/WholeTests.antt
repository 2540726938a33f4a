-- ===== src/Worker/WholeTests.antt =====
-- An answer that is read whole, from the provider's bytes to the client.
use openevent_modules_model.Base.{
  ℕ, ◌+◌, ◌≡◌, ◌≢◌, refl, String, true, false, Option, none, some, List, [], ◌∷◌, Outcome, ok, err,
}
use openevent_modules_model.Models.Value.{Value, null}
use openevent_modules_model.Subscription.State.{Call}
use openevent_modules_model.Subscription.Accept.{new_receive}
use openevent_modules_model.Subscription.Client.{new_call, next_message}
use openevent_modules_model.Client.Create.{created}
use openevent_modules_model.Provider.Events.{Raised, cancelled, os_error, Text, Yielded, json_body}
use openevent_modules_model.Provider.Call.{Response, response_events, call_events}
use openevent_modules_model.Worker.State.{RequestState, running}
use openevent_modules_model.Worker.Task.{provider_events}
use openevent_modules_model.Worker.EndToEnd.{answered}
use openevent_modules_model.Worker.Whole.{AnswersCall, provider_call-created}

abbrev request : RequestState
request = record {
  channel_id = 1;
  request_seq = 5;
  request_principal = 2;
  stream_id = "s";
  streaming = false;
  path = "/v1/responses";
  body = none;
  duplicate = false;
  provider = some "default";
  phase = running;
  chain_seq = none;
  terminal_seq = none;
  operation = true;
}

abbrev decode : List ℕ → Option Text
decode bytes = some bytes

abbrev loads : Text → Option Value
loads t = some null

abbrev lower : String → String
lower s = s

abbrev exchange : Outcome Raised Response
exchange = ok (record {
  status = 200;
  header_pairs = [];
  media_type = "application/json";
  chunks = (49 ∷ []) ∷ [];
  broken = none;
})

abbrev events : Yielded
events = provider_events decode loads lower 100 none exchange request

events-end : events.1 ≡ none
unfolding call_events response_events json_body
events-end = refl

going : events.1 ≢ some cancelled
going e = let last = events-end in cc

broken_connection : (provider_events decode loads lower 100 none (err os_error) request).0 ≡ []
unfolding call_events
broken_connection = refl

abbrev bound_call : Call
bound_call = record (new_call "s" false) { receive = some (new_receive 5) }

abbrev seqs : ℕ → ℕ
seqs i = i + 6

provider_call-created_example : AnswersCall events (
    created (
      next_message
        (answered 3 (λ n. n) request decode loads lower 100 none exchange seqs bound_call)))
provider_call-created_example =
    provider_call-created 3 (λ n. n) request seqs refl decode loads lower 100 none exchange
      bound_call refl refl refl going
