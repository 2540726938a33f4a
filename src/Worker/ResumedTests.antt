-- ===== src/Worker/ResumedTests.antt =====
-- A history with two open requests, the later one first, and one that has ended.
use openevent_modules_model.Base.{
  ℕ, ◌+◌, ◌≡◌, refl, true, false, none, some, [], ◌∷◌, map, Outcome, ok,
}
use mathlib.Core.List.{Perm}
use openevent_modules_model.Base.Dict.{values}
use openevent_modules_model.Worker.State.{RequestPhase, RequestState, Worker}
use openevent_modules_model.Worker.Task.{TaskError}
use openevent_modules_model.Worker.Resume.{insert, sorted, interruption, resume}
use openevent_modules_model.Worker.Resumed.{Ascending, interruptions, resume-published}

abbrev request_at : ℕ → RequestState
request_at seq = record {
  channel_id = 1;
  request_seq = seq;
  request_principal = 2;
  stream_id = "s";
  streaming = true;
  path = "/v1/responses";
  body = none;
  duplicate = false;
  provider = none;
  phase = RequestPhase.pending;
  chain_seq = none;
  terminal_seq = none;
  operation = false;
}

abbrev ended_at : ℕ → RequestState
ended_at seq = let r = request_at seq in record r { terminal_seq = some 9 }

abbrev worker : Worker
worker = record {
  stopped = false;
  requests = (7, request_at 7) ∷ (3, ended_at 3) ∷ (5, request_at 5) ∷ [];
  originals = [];
  pending = [];
  controls = [];
  running = 0;
  last_seen_seq = 0;
}

abbrev emit : ℕ → Outcome TaskError ℕ
emit i = ok (10 + i)

resume-published_example :
    let rs = sorted (values worker.requests) in
    (map (λ x. x.1) (resume emit 9 worker).published ≡ interruptions rs)
    × Perm rs (values worker.requests)
    × Ascending rs
resume-published_example = resume-published emit (λ i. 10 + i) (λ i. refl) 9 worker

worker-answers :
    interruptions (sorted (values worker.requests))
    ≡ interruption (request_at 5) ∷ interruption (request_at 7) ∷ []
unfolding sorted insert
worker-answers = refl
