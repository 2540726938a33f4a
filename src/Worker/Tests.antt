-- ===== src/Worker/Tests.antt =====
-- A worker with one provider slot: a request, its duplicate, and the start of the first.
use openevent_modules_model.Base.{
  ℕ, ◌+◌, ◌≡◌, ◌<◌, some, ◌≤◌, refl, true, false, none, [], ◌∷◌, length, ok, arith,
}
use openevent_modules_model.Base.Dict.{get, put}
use openevent_modules_model.Models.Value.{dict, done}
use openevent_modules_model.Models.Payload.{ParsedMessage, infer_request}
use openevent_modules_model.Worker.State.{RequestState, is_running, Settings, Worker, set_request}
use openevent_modules_model.Worker.Accept.{
  rejection, enqueue, add_request, accept_request, accept_open, accept,
}
use openevent_modules_model.Worker.Queues.{Scheduled, schedule}
use openevent_modules_model.Worker.Reach.{
  System, Step, Reach, recovers, receives, schedules, init, start, next, received,
}
use openevent_modules_model.Worker.Kept.{IsKept}
use openevent_modules_model.Worker.Held.{holders}
use openevent_modules_model.Worker.Progress.{Reach-held, Reach-finishes}
use openevent_modules_model.Worker.Invariant.{Distinct}
use openevent_modules_model.Worker.Safety.{Reach-running, Reach-Distinct, Reach-IsKept}

abbrev settings : Settings
settings = record {
  max_concurrency = 1;
  max_payload_bytes = 1000;
  default_provider = "default";
  providers = "default" ∷ [];
}

abbrev request_at : ℕ → ParsedMessage
request_at seq = record {
  payload = infer_request (record {
    stream_id = "stream_1";
    path = "/v1/responses";
    provider = none;
    stream = true;
    body = dict done;
  });
  uuid = seq;
  seq = seq;
  channel_id = 1;
  principal = 2;
  recipients = [];
  object_keys = [];
  ts_ms = 1000;
}

-- The worker behind the request at `seq`, and behind a round of the scheduler.
abbrev behind : ℕ → Worker → Worker
behind seq w = elim (accept settings false 10 (request_at seq) w) [ ok (w', abort) ↦ w' | _ ↦ w ]

abbrev scheduled : Worker → Worker
scheduled w = elim (schedule settings w) [ Scheduled.started seq w' ↦ w' | _ ↦ w ]

abbrev live_system : System
live_system = record init { worker = record init.worker { last_seen_seq = 4 }; live = true }

abbrev first_system : System
first_system = received (request_at 5) (behind 5 live_system.worker) live_system

abbrev both_system : System
both_system = received (request_at 6) (behind 6 first_system.worker) first_system

abbrev running_system : System
running_system = record both_system {
  worker = scheduled both_system.worker;
  tasks = 5 ∷ both_system.tasks;
}

live-Reach : Reach settings live_system
unfolding init
live-Reach = next start (recovers 4 refl refl)

first-Reach : Reach settings first_system
unfolding init accept accept_open accept_request add_request rejection enqueue set_request put get
first-Reach =
    next live-Reach
      (receives (request_at 5) 10 (behind 5 live_system.worker) none refl (omega arith) refl refl)

both-Reach : Reach settings both_system
unfolding init accept accept_open accept_request add_request rejection enqueue set_request put get
both-Reach =
    next first-Reach
      (receives (request_at 6) 10 (behind 6 first_system.worker) none refl (omega arith) refl refl)

running-Reach : Reach settings running_system
unfolding init accept accept_open accept_request add_request rejection enqueue set_request put get
    schedule
running-Reach = next both-Reach (schedules 5 (scheduled both_system.worker) refl refl refl)

Reach-running_example :
    (running_system.worker.running ≡ length running_system.tasks)
    × (length running_system.tasks ≤ 1)
Reach-running_example = Reach-running settings running_system running-Reach

Reach-Distinct_example : Distinct running_system.dispatched
Reach-Distinct_example = Reach-Distinct settings running_system running-Reach

Reach-IsKept_example : IsKept running_system.worker.requests
Reach-IsKept_example = Reach-IsKept settings running_system running-Reach

running-tasks : running_system.tasks ≡ 5 ∷ []
unfolding init
running-tasks = refl

running-held : 0 < holders 5 running_system
unfolding init
running-held = omega arith

Reach-held_example :
    (holders 5 running_system ≡ 1)
    × ((r : RequestState) × (get 5 running_system.worker.requests ≡ some r)
        × (is_running r.phase ≡ true))
Reach-held_example = Reach-held settings running_system 5 running-Reach running-held

Reach-finishes_example :
    (t : System) × Step settings running_system t
    × (t.tasks ≡ [])
    × (t.worker.running + 1 ≡ running_system.worker.running)
Reach-finishes_example = Reach-finishes settings running_system [] [] 5 running-Reach running-tasks
