-- ===== src/Worker/Task.antt =====
-- `_provider_task` as a whole: the loop over the outputs of a provider call, and the error event that
-- its exception handlers publish.
use openevent_modules_model.Base.{
  ℕ, suc, String, Bool, true, false, Option, none, some, List, [], ◌∷◌, ◌++◌, Outcome, ok, err,
}
use openevent_modules_model.Models.Payload.{Payload}
use openevent_modules_model.Worker.State.{RequestState}
use openevent_modules_model.Worker.Events.{ProviderEvent, output_event, error_event}
use openevent_modules_model.Models.Value.{Value}
use openevent_modules_model.Provider.Events.{Raised, provider_error, cancelled, Text, Yielded}
use openevent_modules_model.Provider.Call.{Response, call_events}

-- The events of the request's provider call, whose body has the `stream` of the request.
abbrev pub provider_events :
    (List ℕ → Option Text)
    → (Text → Option Value)
    → (String → String)
    → (limit : ℕ) → (check : Option Raised) → Outcome Raised Response
    → RequestState
    → Yielded
provider_events decode loads lower limit check o r =
    call_events decode loads lower limit r.path r.streaming check o

-- What leaves the `try` of a task: an exception of the provider call, `_Stopped`, a
-- `ResultPublishError`, or another exception (a `WorkerFatalError` among them).
pub data TaskError : Type 0 where
  raised : Raised → TaskError
  stopped : TaskError
  publish_failed : TaskError
  fatal : TaskError

-- What the loop has published, how often it has called `_emit`, and what it raised.
pub record Loop : Type 0 where
  pub published : List (ℕ × Payload)
  pub attempts : ℕ
  pub failure : Option TaskError

abbrev pub ended : Option Raised → Option TaskError
ended none = none
ended (some r) = some (raised r)

abbrev pub with_published : ℕ × Payload → Loop → Loop
with_published x l = record l { published = x ∷ l.published }

-- One round: `again` is the rest behind the seq of the publication.
unfoldable pub emitted : Option Payload → Outcome TaskError ℕ → ℕ → (ℕ → Loop) → Loop
emitted none o i again = record { published = []; attempts = i; failure = some fatal }
emitted (some p) (err x) i again = record { published = []; attempts = suc i; failure = some x }
emitted (some p) (ok seq) i again = with_published (seq, p) (again seq)

-- The loop over the events of the call and the exception behind them. `emit` is `_emit` by the number
-- of the attempt; it is `stopped` too where the loop breaks off because the request is over.
unfoldable pub task_loop :
    RequestState
    → (ℕ → Outcome TaskError ℕ)
    → ℕ
    → Option ℕ
    → List ProviderEvent
    → Option Raised
    → Loop
task_loop r emit i writer [] last = record { published = []; attempts = i; failure = ended last }
task_loop r emit i writer (e ∷ es) last =
    emitted (output_event r writer e.kind e) (emit i) i
      (λ seq. task_loop r emit (suc i) (some seq) es last)

-- The code of the error event that the `except` clauses publish, if they publish one.
unfoldable pub failure_code : TaskError → Option ℕ
failure_code (raised cancelled) = none
failure_code (raised (provider_error code)) = some code
failure_code (raised _) = some 60007
failure_code stopped = none
failure_code publish_failed = none
failure_code fatal = some 60007

abbrev pub error_published : RequestState → ℕ → Outcome TaskError ℕ → List (ℕ × Payload)
error_published r code (err x) = []
error_published r code (ok seq) = (seq, error_event r code false false) ∷ []

abbrev pub handled_code : RequestState → Option ℕ → Outcome TaskError ℕ → List (ℕ × Payload)
handled_code r none o = []
handled_code r (some code) o = error_published r code o

unfoldable pub handled :
    RequestState → (ℕ → Outcome TaskError ℕ) → ℕ → Option TaskError → List (ℕ × Payload)
handled r emit i none = []
handled r emit i (some x) = handled_code r (failure_code x) (emit i)

abbrev pub finished : RequestState → (ℕ → Outcome TaskError ℕ) → Loop → List (ℕ × Payload)
finished r emit l = l.published ++ handled r emit l.attempts l.failure

-- All that a task publishes.
unfoldable pub task_published :
    RequestState → (ℕ → Outcome TaskError ℕ) → Yielded → List (ℕ × Payload)
task_published r emit (es, last) = finished r emit (task_loop r emit 0 none es last)

-- Whether the task makes the worker fail (`_fail`).
abbrev pub error_fails : Outcome TaskError ℕ → Bool
error_fails (ok seq) = false
error_fails (err stopped) = false
error_fails (err _) = true

abbrev pub fails_with : Option ℕ → Outcome TaskError ℕ → Bool
fails_with none o = false
fails_with (some code) o = error_fails o

unfoldable pub task_fails : (ℕ → Outcome TaskError ℕ) → Loop → Bool
task_fails emit l = elim l.failure [
  | none ↦ false
  | some publish_failed ↦ true
  | some x ↦ fails_with (failure_code x) (emit l.attempts)
]
