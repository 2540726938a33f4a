-- ===== src/Publishing/Tests.antt =====
-- A publication whose first Publish fails without saying whether the event was stored, and whose
-- second finds it there.
use openevent_modules_model.Base.{
  ℕ, zero, suc, ◌≡◌, ◌≤◌, refl, String, Bool, true, false, none, [], Outcome, ok, err, pos, arith,
}
use openevent_modules_model.Models.Value.{Value, int}
use openevent_modules_model.Models.Kind.{request}
use openevent_modules_model.Rpc.Status.{Exception, coded, member, status_name}
use openevent_modules_model.Rpc.Retry.{World, ready, ran, checked, attempts, call_rpc}
use openevent_modules_model.Publishing.Publish.{
  Hooks, Transport, Arguments, rejected, reading, positive_reply, replies, publish,
}
use openevent_modules_model.Publishing.Calls.{publish-calls}
use openevent_modules_model.Publishing.Sound.{Server, IsTrue, publish-IsTrue}

abbrev hooks : Hooks String
hooks = record { validate_payload = λ p. ok tt; before_publish = λ f. ok tt }

abbrev answers : (ℕ → Outcome Exception Value) → World Value
answers run = record {
  stopped = λ n. false;
  before = λ n. ok tt;
  run = run;
  stopped_after = λ n. false;
  stopped_in_delay = λ n. false;
}

abbrev publish_run : ℕ → Outcome Exception Value
publish_run zero = err (coded (member "UNAVAILABLE"))
publish_run (suc n) = err (coded (member "ALREADY_EXISTS"))

abbrev transport : Transport
transport = record {
  get_uuid = answers (λ n. ok (int (pos 99)));
  publish = λ uuid. answers publish_run;
  query = λ uuid. answers (λ n. ok (int (pos 5)));
}

abbrev arguments : Arguments
arguments = record {
  expected_type = true;
  channel_id = int (pos 1);
  principal = int (pos 2);
  request_principal = none;
  valid_client = true;
  kind = request;
  stream_id = "stream_1";
}

abbrev stored_after : ℕ → Bool
stored_after zero = false
stored_after (suc n) = true

publish_run-kept_out :
    (n : ℕ) (e : Exception)
    → (replies (transport.publish 99)).run n ≡ err e
    → reading e ≡ rejected
    → stored_after (suc n) ≡ stored_after n
unfolding reading status_name
publish_run-kept_out zero e h r = ground arith
publish_run-kept_out (suc n) e h r = refl

abbrev existing_server : Server (replies (transport.publish 99))
existing_server = record {
  stored = stored_after;
  unused = refl;
  replied = λ n seq h. refl;
  existed = λ n e h r. refl;
  kept_out = publish_run-kept_out;
}

uuid-allocated : (call_rpc (replies transport.get_uuid) 3).1 ≡ ok 99
unfolding call_rpc attempts checked ran ready positive_reply
uuid-allocated = refl

publish-IsTrue_example : IsTrue existing_server (publish hooks transport 3 arguments [])
publish-IsTrue_example =
    publish-IsTrue hooks transport 3 arguments [] 99 existing_server uuid-allocated

publish-calls_example : (publish hooks transport 3 arguments []).0 ≤ 4
publish-calls_example = publish-calls hooks transport 3 arguments []
