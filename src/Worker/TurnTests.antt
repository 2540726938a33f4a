-- ===== src/Worker/TurnTests.antt =====
-- A configured worker whose first request is pending.
use openevent_modules_model.Base.{◌≡◌, refl, true, false, none, [], ◌∷◌, ok, arith}
use openevent_modules_model.Base.Dict.{get}
use openevent_modules_model.Models.Value.{dict, done}
use openevent_modules_model.Models.Payload.{ParsedMessage, infer_request}
use openevent_modules_model.Config.Tests.{urlsplit, document, one_channel, config, document-config}
use openevent_modules_model.Config.Settings.{settings_of}
use openevent_modules_model.Worker.State.{Worker, set_request}
use openevent_modules_model.Worker.Accept.{
  rejection, enqueue, add_request, accept_request, accept_open, accept,
}
use openevent_modules_model.Worker.Reach.{
  System, Reach, recovers, receives, init, start, next, received,
}
use openevent_modules_model.Worker.Turn.{Leads, parse_config-turn}

abbrev request : ParsedMessage
request = record {
  payload = infer_request (record {
    stream_id = "stream_1";
    path = "/v1/responses";
    provider = none;
    stream = true;
    body = dict done;
  });
  uuid = 5;
  seq = 5;
  channel_id = 3;
  principal = 2;
  recipients = [];
  object_keys = [];
  ts_ms = 1000;
}

abbrev live_system : System
live_system = record init { worker = record init.worker { last_seen_seq = 4 }; live = true }

abbrev accepted : Worker
accepted = elim (accept (settings_of config) false 10 request live_system.worker) [
  | ok (w, abort) ↦ w
  | _ ↦ live_system.worker
]

abbrev pending_system : System
pending_system = received request accepted live_system

pending_system-Reach : Reach (settings_of config) pending_system
unfolding init accept accept_open accept_request add_request rejection enqueue set_request
    settings_of get
pending_system-Reach =
    next (next start (recovers 4 refl refl))
      (receives request 10 accepted none refl (omega arith) refl refl)

pending_system-pending :
    (pending_system.live ≡ true)
    × (pending_system.worker.stopped ≡ false)
    × (pending_system.worker.pending ≡ 5 ∷ [])
unfolding init accept accept_open accept_request add_request rejection enqueue set_request
    settings_of get
pending_system-pending = (refl, refl, refl)

parse_config-turn_example :
    (t : System) × Leads (settings_of config) pending_system t × (t.worker.pending ≡ [])
parse_config-turn_example =
    parse_config-turn urlsplit (document one_channel) config 5 [] pending_system document-config
      pending_system-Reach pending_system-pending.0 pending_system-pending.1
      pending_system-pending.2
