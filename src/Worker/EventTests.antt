-- ===== src/Worker/EventTests.antt =====
-- The outputs of a provider call, and an error of it.
use openevent_modules_model.Base.{
  ℕ, ◌+◌, ◌≡◌, refl, true, false, Option, none, some, List, [], ◌∷◌, ok, err,
}
use openevent_modules_model.Models.Value.{null, nil}
use openevent_modules_model.Worker.State.{RequestState, running}
use openevent_modules_model.Worker.Events.{
  ProviderKind, headers, append, completed, ProviderEvent, error_event, task_outputs,
  publish_output, output_event, result_of, append_of, end_of,
}
use openevent_modules_model.Worker.Task.{
  publish_failed, emitted, task_loop, failure_code, handled, task_published, task_fails,
}
use openevent_modules_model.Provider.Events.{provider_error}

abbrev stream_request : RequestState
stream_request = record {
  channel_id = 1;
  request_seq = 5;
  request_principal = 2;
  stream_id = "s";
  streaming = true;
  path = "/v1/responses";
  body = none;
  duplicate = false;
  provider = some "default";
  phase = running;
  chain_seq = none;
  terminal_seq = none;
  operation = true;
}

abbrev event_of : ProviderKind → ProviderEvent
event_of kind = record {
  kind = kind;
  status_code = 200;
  header_list = nil;
  body = null;
  has_body = false;
}

abbrev tail : List ProviderEvent
tail = event_of append ∷ event_of completed ∷ []

abbrev emit : ℕ → Option ℕ
emit i = some (i + 6)

-- The second publication names the first, and the end names none.
published_chain :
    task_outputs stream_request emit 0 none (event_of headers ∷ tail)
    ≡ (6, result_of stream_request (event_of headers))
      ∷ (7, append_of stream_request (event_of append) 6)
      ∷ (8, end_of stream_request "completed" (event_of completed))
      ∷ []
unfolding task_outputs publish_output output_event
published_chain = refl

-- A loop that raises behind its first output publishes an end with the code of the error.
interrupted :
    task_published stream_request
      (λ i. ok (i + 6))
      (event_of headers ∷ [], some (provider_error 60003))
    ≡ (6, result_of stream_request (event_of headers))
      ∷ (7, error_event stream_request 60003 false false)
      ∷ []
unfolding task_published task_loop emitted output_event handled failure_code
interrupted = refl

-- A publication that fails makes the worker fail, and publishes no error.
failed_publication :
    (task_published stream_request (λ i. err publish_failed) (event_of headers ∷ [], none) ≡ [])
    × (task_fails
          (λ i. err publish_failed)
          (task_loop stream_request (λ i. err publish_failed) 0 none (event_of headers ∷ []) none)
        ≡ true)
unfolding task_published task_loop emitted output_event handled failure_code task_fails
failed_publication = (refl, refl)
