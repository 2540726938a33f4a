-- ===== src/Worker/Reach.antt =====
-- The worker under every interleaving of its reader, scheduler, control and provider threads: each
-- step is one section under the lock. `tasks` are the provider threads that have not finished,
-- `rejecting` the request whose refusal the control thread publishes, and `dispatched` the keys of
-- the requests that were ever queued for a provider. Before `live`, `recover` reads the history.
use openevent_modules_model.Base.{
  ℕ, ◌<◌, ltb, ◌==◌, ◌≡◌, Bool, true, false, Option, none, some, List, [], ◌∷◌, ◌++◌, any, length,
  ok, if◌then◌else◌,
}
use openevent_modules_model.Base.Dict.{get}
use openevent_modules_model.Models.Payload.{ParsedMessage, stream_id}
use openevent_modules_model.Worker.State.{RequestState, done, Settings, Key, Worker, set_request}
use openevent_modules_model.Worker.Accept.{accept}
use openevent_modules_model.Worker.Queues.{
  Scheduled, Control, schedule, control, control_done, task_begin, task_operation, task_done, stop,
}

pub record System : Type 0 where
  pub worker : Worker
  pub tasks : List ℕ
  pub rejecting : Option ℕ
  pub dispatched : List Key
  pub live : Bool

-- The message's key joins `dispatched` when the pending queue has grown.
abbrev pub note_dispatch : ParsedMessage → Worker → Worker → List Key → List Key
note_dispatch m w w' ks =
    if ltb (length w.pending) (length w'.pending)
    then (m.channel_id, stream_id m.payload) ∷ ks
    else ks

abbrev pub received : ParsedMessage → Worker → System → System
received m w' s = record s {
  worker = record w' { last_seen_seq = m.seq };
  dispatched = note_dispatch m s.worker w' s.dispatched;
}

abbrev pub with_worker : Worker → System → System
with_worker w s = record s { worker = w }

-- Request `seq` is `r`, and a provider thread runs for it.
abbrev pub Runs : ℕ → RequestState → System → Type 0
Runs seq r s = (any (λ n. n == seq) s.tasks ≡ true) × (get seq s.worker.requests ≡ some r)

-- One section under the lock, or one step of the recovery. A system message, which only moves the
-- cursor, has no step of its own: to this state it is a message that is ignored.
pub data Step (config : Settings) (s t : System) : Type 0 where
  replays :
      (m : ParsedMessage) (w : Worker) (abort : Option ℕ)
      → s.live ≡ false
      → accept config true 0 m s.worker ≡ ok (w, abort)
      → t ≡ with_worker w s
      → Step config s t
  interrupts :
      (seq : ℕ) (r : RequestState)
      → s.live ≡ false
      → get seq s.worker.requests ≡ some r
      → r.terminal_seq ≡ none
      → t ≡ with_worker (set_request (record r { phase = done }) s.worker) s
      → Step config s t
  recovers :
      (target : ℕ)
      → s.live ≡ false
      → t ≡ record s { worker = record s.worker { last_seen_seq = target }; live = true }
      → Step config s t
  receives :
      (m : ParsedMessage) (payload_bytes : ℕ) (w : Worker) (abort : Option ℕ)
      → s.live ≡ true
      → s.worker.last_seen_seq < m.seq
      → accept config false payload_bytes m s.worker ≡ ok (w, abort)
      → t ≡ received m w s
      → Step config s t
  schedules :
      (seq : ℕ) (w : Worker)
      → s.live ≡ true
      → schedule config s.worker ≡ Scheduled.started seq w
      → t ≡ record s { worker = w; tasks = seq ∷ s.tasks }
      → Step config s t
  passes :
      (w : Worker)
      → s.live ≡ true
      → schedule config s.worker ≡ Scheduled.skipped w
      → t ≡ with_worker w s
      → Step config s t
  rejects :
      (r : RequestState) (code : ℕ) (w : Worker)
      → s.live ≡ true
      → s.rejecting ≡ none
      → control s.worker ≡ Control.rejects r code w
      → t ≡ record s { worker = w; rejecting = some r.request_seq }
      → Step config s t
  forgets :
      (w : Worker)
      → s.live ≡ true
      → s.rejecting ≡ none
      → control s.worker ≡ Control.skipped w
      → t ≡ with_worker w s
      → Step config s t
  rejected :
      (seq : ℕ) (r : RequestState)
      → s.rejecting ≡ some seq
      → get seq s.worker.requests ≡ some r
      → t ≡ record s { worker = control_done r s.worker; rejecting = none }
      → Step config s t
  begins :
      (seq : ℕ) (r : RequestState)
      → Runs seq r s
      → t ≡ with_worker (task_begin r s.worker).0 s
      → Step config s t
  operates :
      (seq : ℕ) (r : RequestState)
      → Runs seq r s
      → t ≡ with_worker (task_operation r s.worker).0 s
      → Step config s t
  finishes :
      (xs ys : List ℕ) (seq : ℕ) (r : RequestState)
      → s.tasks ≡ xs ++ (seq ∷ ys)
      → get seq s.worker.requests ≡ some r
      → t ≡ record s { worker = task_done r s.worker; tasks = xs ++ ys }
      → Step config s t
  stops : t ≡ with_worker (stop s.worker) s → Step config s t

-- `Worker.__init__`
unfoldable pub init : System
init = record {
  worker = record {
    stopped = false;
    requests = [];
    originals = [];
    pending = [];
    controls = [];
    running = 0;
    last_seen_seq = 0;
  };
  tasks = [];
  rejecting = none;
  dispatched = [];
  live = false;
}

pub data Reach (config : Settings) : System → Type 0 where
  start : Reach config init
  next : {s t : System} → Reach config s → Step config s t → Reach config t
