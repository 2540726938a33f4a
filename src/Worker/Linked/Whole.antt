-- ===== src/Worker/Linked/Whole.antt =====
-- The publications of a request that does not stream.
use openevent_modules_model.Base.{
  ℕ, ◌≡◌, refl, true, false, Option, none, some, [], ◌∷◌, Outcome, ok, err, is_some, arith,
}
use openevent_modules_model.Worker.State.{RequestState}
use openevent_modules_model.Worker.Events.{
  ProviderKind, ProviderEvent, headers, result, append, completed, failed, unknown, output_event,
  body_or_unset,
}
use openevent_modules_model.Worker.Task.{
  TaskError, raised, emitted, task_loop, handled, finished, task_published,
}
use openevent_modules_model.Provider.Events.{Yielded}
use openevent_modules_model.Provider.Shape.{is_whole, CallShape}
use openevent_modules_model.Worker.Linked.{Linked, whole, whole-error_event, handled-Linked}

module _ (r : RequestState) (emit : ℕ → Outcome TaskError ℕ) (single : r.streaming ≡ false) where
  whole-handled : (i : ℕ) (x : Option TaskError) → Linked r none (handled r emit i x)
  whole-handled i x =
      handled-Linked r emit none i x (λ seq code. whole-error_event r emit seq code single)

  emitted-result :
      (e : ProviderEvent) (o : Outcome TaskError ℕ)
      → is_whole (e ∷ []) ≡ true
      → Linked r none (
          finished r emit (
            emitted
              (output_event r none e.kind e)
              o
              0
              (λ seq. record { published = []; attempts = 1; failure = none })))
  unfolding emitted output_event
  emitted-result e o h = by_kind e.kind (ground (arith, h)) (ground (arith, h)) o
    where
      by_kind :
          (k : ProviderKind)
          → (elim k [ result ↦ true | _ ↦ false ]) ≡ true
          → e.has_body ≡ true
          → (o : Outcome TaskError ℕ)
          → Linked r none (
              finished r emit (
                emitted
                  (output_event r none k e)
                  o
                  0
                  (λ seq. record { published = []; attempts = 1; failure = none })))
      by_kind result t b (ok seq) =
          let has : is_some (body_or_unset e) ≡ true = ground (arith, b) in
          unfold handled in whole refl has
      by_kind result t b (err x) = whole-handled 1 (some x)
      by_kind append t b o = cc
      by_kind headers t b o = cc
      by_kind completed t b o = cc
      by_kind failed t b o = cc
      by_kind unknown t b o = cc

  pub whole-Linked : (y : Yielded) → CallShape false y → Linked r none (task_published r emit y)
  unfolding task_published task_loop
  whole-Linked ([], none) h = cc
  whole-Linked (e ∷ [], none) h = emitted-result e (emit 0) h
  whole-Linked (e ∷ f ∷ es, none) h = cc
  whole-Linked ([], some x) h = whole-handled 0 (some (raised x))
  whole-Linked (e ∷ es, some x) h = cc
