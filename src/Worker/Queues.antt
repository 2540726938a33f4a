-- ===== src/Worker/Queues.antt =====
-- The scheduler, the control output and the two ends of a provider task: their sections under the
-- lock.
use openevent_modules_model.Base.{
  ℕ, ◌+◌, ◌-◌, ltb, Bool, true, false, not, ◌&&◌, Option, none, some, List, [], ◌∷◌, map,
  if◌then◌else◌,
}
use openevent_modules_model.Base.Dict.{get}
use openevent_modules_model.Models.Value.{Value}
use openevent_modules_model.Worker.State.{
  RequestState, running, done, Settings, Worker, set_request, retire_locked, can_output,
}

-- One round of `_schedule`: `waits` on the condition, `skipped` a request that was retired meanwhile,
-- or a provider thread for the request that `started` names.
pub data Scheduled : Type 0 where
  waits : Scheduled
  skipped : Worker → Scheduled
  started : ℕ → Worker → Scheduled

abbrev pub start_request : Option RequestState → ℕ → Worker → Scheduled
start_request none seq w = skipped w
start_request (some r) seq w =
    started seq (record (set_request (record r { phase = running }) w) { running = w.running + 1 })

abbrev pub take_pending : List ℕ → Worker → Scheduled
take_pending [] w = waits
take_pending (seq ∷ rest) w = start_request (get seq w.requests) seq (record w { pending = rest })

unfoldable pub schedule : Settings → Worker → Scheduled
schedule config w =
    if not w.stopped && ltb w.running config.max_concurrency
    then take_pending w.pending w
    else waits

-- The first half of a round of `_control_outputs`: the request, with its code, whose error is
-- published next.
pub data Control : Type 0 where
  waits : Control
  skipped : Worker → Control
  rejects : RequestState → ℕ → Worker → Control

abbrev pub reject_request : Option RequestState → ℕ → Worker → Control
reject_request none code w = skipped w
reject_request (some r) code w =
    let r' = record r { phase = running } in rejects r' code (set_request r' w)

abbrev pub take_control : List (ℕ × ℕ) → Worker → Control
take_control [] w = waits
take_control ((seq, code) ∷ rest) w =
    reject_request (get seq w.requests) code (record w { controls = rest })

unfoldable pub control : Worker → Control
control w = if w.stopped then waits else take_control w.controls w

-- Its second half, whatever the publication did.
unfoldable pub control_done : RequestState → Worker → Worker
control_done r w = let r' = record r { phase = done } in retire_locked r' (set_request r' w)

-- The first section of `_provider_task`: the body moves to the task, unless the request is over.
unfoldable pub task_begin : RequestState → Worker → Worker × Option Value
task_begin r w =
    if can_output r w then (set_request (record r { body = none }) w, r.body) else (w, none)

-- The operation becomes visible to `stop` and to a cancel.
unfoldable pub task_operation : RequestState → Worker → Worker × Bool
task_operation r w =
    if can_output r w then (set_request (record r { operation = true }) w, true) else (w, false)

-- The `finally` of `_provider_task`.
unfoldable pub task_done : RequestState → Worker → Worker
task_done r w =
    let r' = record r { operation = false; body = none; phase = done } in
    retire_locked r' (record (set_request r' w) { running = w.running - 1 })

-- `stop`: every body is dropped; the operations to abort are those of the states that hold one.
abbrev pub drop_body : ℕ × RequestState → ℕ × RequestState
drop_body (seq, r) = (seq, record r { body = none })

unfoldable pub stop : Worker → Worker
stop w = record w { stopped = true; requests = map drop_body w.requests }
