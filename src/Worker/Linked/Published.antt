-- ===== src/Worker/Linked/Published.antt =====
-- All publications of a provider task.
use openevent_modules_model.Base.{ℕ, none, Outcome, Bool-cases, inl, inr}
use openevent_modules_model.Worker.State.{RequestState}
use openevent_modules_model.Worker.Task.{TaskError, task_published}
use openevent_modules_model.Provider.Events.{Yielded}
use openevent_modules_model.Provider.Shape.{CallShape}
use openevent_modules_model.Worker.Linked.{Linked}
use openevent_modules_model.Worker.Linked.Stream.{stream-Linked}
use openevent_modules_model.Worker.Linked.Whole.{whole-Linked}

module _ (r : RequestState) (emit : ℕ → Outcome TaskError ℕ) where
  pub task_published-Linked :
      (y : Yielded) → CallShape r.streaming y → Linked r none (task_published r emit y)
  task_published-Linked y h = elim (Bool-cases r.streaming) [
    | inl streams ↦ stream-Linked r emit streams y (rw streams at h)
    | inr single ↦ whole-Linked r emit single y (rw single at h)
  ]
