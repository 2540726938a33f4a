-- ===== src/Worker/OnceTests.antt =====
-- Two subscriptions: the first breaks off, and the second begins with a message that has been seen.
use openevent_modules_model.Base.{
  ℕ, ◌≡◌, refl, false, Option, none, List, [], ◌∷◌, Outcome, ok, arith,
}
use openevent_modules_model.Models.Value.{Value}
use openevent_modules_model.Models.Payload.{Bytes, RawMessage}
use openevent_modules_model.Rpc.Status.{Exception, plain, is_retryable, status_name}
use openevent_modules_model.Worker.State.{Settings, Worker}
use openevent_modules_model.Worker.Run.{
  seen, read_new, read_message, read_stream, Session, ended_session, run_loop,
}
use openevent_modules_model.Worker.Once.{read_all, Delivers, finished, session, run_loop-once}

abbrev settings : Settings
settings = record {
  max_concurrency = 1;
  max_payload_bytes = 1000;
  default_provider = "default";
  providers = "default" ∷ [];
}

abbrev worker : Worker
worker = record {
  stopped = false;
  requests = [];
  originals = [];
  pending = [];
  controls = [];
  running = 0;
  last_seen_seq = 4;
}

-- A system message.
abbrev message_at : ℕ → RawMessage
message_at seq = record {
  seq = seq;
  uuid = seq;
  channel_id = 1;
  principal = 0;
  recipients = [];
  object_keys = [];
  payload = [];
  ts_ms = 0;
}

abbrev loads : Bytes → Option Value
loads bytes = none

abbrev log : List RawMessage
log = message_at 5 ∷ message_at 6 ∷ []

abbrev sessions : List (Outcome Exception Session)
sessions =
    ok (record { messages = message_at 4 ∷ message_at 5 ∷ []; ends_with = plain })
    ∷ ok (record { messages = message_at 5 ∷ message_at 6 ∷ []; ends_with = plain })
    ∷ []

sessions-Delivers : Delivers 4 sessions log
unfolding is_retryable status_name
sessions-Delivers =
    session (message_at 4 ∷ []) (message_at 5 ∷ []) plain (omega arith, tt) refl
      (session (message_at 5 ∷ []) (message_at 6 ∷ []) plain (omega arith, tt) refl finished)

run_loop-once_example : run_loop settings loads sessions worker ≡ read_all settings loads log worker
run_loop-once_example =
    run_loop-once settings loads sessions log worker sessions-Delivers
      (omega arith, (omega arith, tt)) refl

sessions-cursor : run_loop settings loads sessions worker ≡ ok (seen 6 worker)
unfolding run_loop read_stream read_message read_new ended_session is_retryable status_name
sessions-cursor = refl
