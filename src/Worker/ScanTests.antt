-- ===== src/Worker/ScanTests.antt =====
-- A history of two messages in pages of ten seqs.
use openevent_modules_model.Base.{
  ℕ, ◌+◌, ◌≡◌, refl, none, List, [], ◌∷◌, Outcome, ok, Option, Bool, arith,
}
use openevent_modules_model.Models.Value.{Value}
use openevent_modules_model.Models.Payload.{Bytes, RawMessage}
use openevent_modules_model.Rpc.Status.{Exception}
use openevent_modules_model.Worker.State.{Settings, Worker}
use openevent_modules_model.Worker.Recover.{Page, scan_history}
use openevent_modules_model.Worker.History.{between, Rises, Serves, replay_all}
use openevent_modules_model.Worker.Scan.{scan_history-replays}

abbrev raw_at : ℕ → ℕ → RawMessage
raw_at seq principal = record {
  seq = seq;
  uuid = seq;
  channel_id = 1;
  principal = principal;
  recipients = [];
  object_keys = [];
  payload = [];
  ts_ms = 1000;
}

abbrev history : List RawMessage
history = raw_at 3 0 ∷ raw_at 14 0 ∷ raw_at 30 2 ∷ []

abbrev page_of : ℕ → Page
page_of cursor = record { next_seq = cursor + 10; messages = between cursor (cursor + 10) history }

abbrev fetch : ℕ → Outcome Exception Page
fetch cursor = ok (page_of cursor)

abbrev history_server : Serves history fetch
history_server = record {
  page_at = page_of;
  returned = λ cursor. refl;
  advances = λ cursor. omega arith;
  holds = λ cursor. refl;
}

history-Rises : Rises 0 history
history-Rises = (omega arith, (omega arith, (omega arith, tt)))

abbrev settings : Settings
settings = record {
  max_concurrency = 1;
  max_payload_bytes = 1000;
  default_provider = "default";
  providers = "default" ∷ [];
}

abbrev new_worker : Worker
new_worker = record {
  stopped = Bool.false;
  requests = [];
  originals = [];
  pending = [];
  controls = [];
  running = 0;
  last_seen_seq = 0;
}

abbrev loads : Bytes → Option Value
loads payload = none

scan_history-replays_example :
    scan_history settings loads 20 fetch new_worker
    ≡ replay_all settings loads (between 1 21 history) new_worker
scan_history-replays_example =
    scan_history-replays settings loads 20 history fetch history_server 0 history-Rises new_worker
