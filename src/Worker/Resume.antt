-- ===== src/Worker/Resume.antt =====
-- The end of `recover`: the requests of the history that have no terminal event are answered as
-- interrupted, in the order of their seqs.
use openevent_modules_model.Base.{
  ℕ, suc, leb, Bool, true, false, not, Option, none, some, is_some, List, [], ◌∷◌, Outcome, ok, err,
  if◌then◌else◌,
}
use openevent_modules_model.Base.Dict.{values}
use openevent_modules_model.Models.Payload.{Payload}
use openevent_modules_model.Worker.State.{RequestState, done, Worker, set_request}
use openevent_modules_model.Worker.Events.{error_event}
use openevent_modules_model.Worker.Task.{TaskError}

-- `sorted(..., key=lambda s: s.request_seq)`
unfoldable pub insert : RequestState → List RequestState → List RequestState
insert r [] = r ∷ []
insert r (s ∷ ss) =
    let rest = insert r ss in if leb r.request_seq s.request_seq then r ∷ s ∷ ss else s ∷ rest

unfoldable pub sorted : List RequestState → List RequestState
sorted [] = []
sorted (r ∷ rs) = insert r (sorted rs)

-- What `recover` has published, the worker, and what `_error_output` raised.
pub record Resumed : Type 0 where
  pub published : List (ℕ × Payload)
  pub worker : Worker
  pub failure : Option TaskError

abbrev pub with_output : ℕ × Payload → Resumed → Resumed
with_output x s = record s { published = x ∷ s.published }

abbrev pub interruption : RequestState → Payload
interruption r = error_event r 60007 true false

abbrev pub is_open : RequestState → Bool
is_open r = not (is_some r.terminal_seq)

-- `state.phase = "done"`
abbrev pub settled : RequestState → Worker → Worker
settled r w = set_request (record r { phase = done }) w

-- One request: `again` is the rest of the loop.
unfoldable pub interrupted :
    RequestState → Outcome TaskError ℕ → Worker → (Worker → Resumed) → Resumed
interrupted r (err x) w again = record { published = []; worker = w; failure = some x }
interrupted r (ok seq) w again = with_output (seq, interruption r) (again (settled r w))

-- The loop; `emit` is `_emit` by the number of its call.
unfoldable pub interrupt_all : (ℕ → Outcome TaskError ℕ) → ℕ → List RequestState → Worker → Resumed
interrupt_all emit i [] w = record { published = []; worker = w; failure = none }
interrupt_all emit i (r ∷ rs) w =
    if is_open r
    then interrupted r (emit i) w (λ v. interrupt_all emit (suc i) rs v)
    else interrupt_all emit i rs w

-- `self.last_seen_seq = target`
abbrev pub moved_to : ℕ → Option TaskError → Resumed → Resumed
moved_to target none s =
    let w = s.worker in record s { worker = record w { last_seen_seq = target } }
moved_to target (some x) s = s

unfoldable pub resume : (ℕ → Outcome TaskError ℕ) → ℕ → Worker → Resumed
resume emit target w =
    let s = interrupt_all emit 0 (sorted (values w.requests)) w in moved_to target s.failure s
