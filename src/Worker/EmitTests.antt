-- ===== src/Worker/EmitTests.antt =====
-- A publication of an output: its Publish is made again after an error that does not say whether the
-- event was stored; one that is too large is refused.
use openevent_modules_model.Base.{
  ℕ, zero, suc, ◌≡◌, ap, ◌≤◌, ◌<◌, refl, false, true, none, [], ◌∷◌, length, Outcome, ok, err, pos,
  arith,
}
use openevent_modules_model.Models.Value.{Value, int}
use openevent_modules_model.Models.Kind.{append}
use openevent_modules_model.Models.Payload.{Bytes}
use openevent_modules_model.Rpc.Status.{Exception, coded, member, status_name}
use openevent_modules_model.Rpc.Retry.{World, ready, ran, checked, attempts, call_rpc}
use openevent_modules_model.Publishing.Publish.{
  Transport, positive_reply, reading, check_arguments, publish_frozen, with_uuid, with_payload,
  with_arguments, published, round, publish_loop, publish,
}
use openevent_modules_model.Publishing.Publish
use openevent_modules_model.Provider.Events.{provider_error}
use openevent_modules_model.Worker.State.{RequestState, running, Worker, can_output}
use openevent_modules_model.Worker.Task.{raised}
use openevent_modules_model.Worker.Emit.{View, Emission, emit_hooks, emit_error, emit_publish, emit}
use openevent_modules_model.Worker.Emitted.{emit-guards}

abbrev pub request : RequestState
request = record {
  channel_id = 1;
  request_seq = 5;
  request_principal = 2;
  stream_id = "s";
  streaming = true;
  path = "/v1/responses";
  body = none;
  duplicate = false;
  provider = none;
  phase = running;
  chain_seq = none;
  terminal_seq = none;
  operation = true;
}

abbrev worker : Worker
worker = record {
  stopped = false;
  requests = [];
  originals = [];
  pending = [];
  controls = [];
  running = 1;
  last_seen_seq = 5;
}

abbrev view : View
view = record { worker = worker; request = request }

abbrev answers : (ℕ → Outcome Exception Value) → World Value
answers run = record {
  stopped = λ n. false;
  before = λ n. ok tt;
  run = run;
  stopped_after = λ n. false;
  stopped_in_delay = λ n. false;
}

abbrev publish_run : ℕ → Outcome Exception Value
publish_run zero = err (coded (member "UNAVAILABLE"))
publish_run (suc n) = ok (int (pos 7))

abbrev transport : Transport
transport = record {
  get_uuid = answers (λ n. ok (int (pos 99)));
  publish = λ uuid. answers publish_run;
  query = λ uuid. answers (λ n. ok (int (pos 7)));
}

abbrev pub emission : Emission
emission = record {
  at_start = view;
  at_publish = view;
  stopped_at_error = false;
  transport = transport;
}

abbrev pub payload : Bytes
payload = 123 ∷ 125 ∷ []

second_publish : emit 100 3 4 true emission append payload ≡ (2, ok 7)
unfolding emit emit_publish emit_hooks publish check_arguments with_arguments with_payload with_uuid
    publish_frozen publish_loop round published Publish.raised reading status_name call_rpc attempts
    checked ran ready positive_reply
second_publish = refl

too_large : emit 1 3 4 true emission append payload ≡ (0, err (raised (provider_error 60008)))
unfolding emit emit_publish emit_hooks emit_error publish check_arguments with_arguments
    with_payload
too_large = refl

publishes : 0 < (emit 100 3 4 true emission append payload).0
publishes = omega (arith, ap (λ r. r.0) second_publish)

emit-guards_example :
    length payload ≤ 100 × can_output request worker ≡ true × can_output request worker ≡ true
emit-guards_example = emit-guards 100 3 4 true emission append payload publishes
