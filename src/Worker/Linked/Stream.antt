-- ===== src/Worker/Linked/Stream.antt =====
-- The publications of a streaming request.
use openevent_modules_model.Base.{
  ℕ, suc, ◌≡◌, refl, true, false, Option, none, some, List, [], ◌∷◌, Outcome, ok, err, arith,
}
use openevent_modules_model.Worker.State.{RequestState}
use openevent_modules_model.Worker.Events.{
  ProviderKind, ProviderEvent, headers, result, append, completed, failed, unknown, output_event,
}
use openevent_modules_model.Worker.Task.{
  TaskError, raised, Loop, ended, emitted, task_loop, handled, finished, task_published,
}
use openevent_modules_model.Provider.Events.{Raised, Yielded}
use openevent_modules_model.Provider.Shape.{
  is_ended, is_append_event, is_end_event, is_headers, TailShape, CallShape,
}
use openevent_modules_model.Worker.Linked.{
  Linked, head, more, last, stream-error_event, handled-Linked,
}

module _ (r : RequestState) (emit : ℕ → Outcome TaskError ℕ) (streaming : r.streaming ≡ true) where
  stream-handled : (w : Option ℕ) (i : ℕ) (x : Option TaskError) → Linked r w (handled r emit i x)
  stream-handled w i x =
      handled-Linked r emit w i x (λ seq code. stream-error_event r emit w seq code streaming)

  -- One event behind the chain element `w`.
  emitted-append :
      (w i : ℕ) (e : ProviderEvent) (o : Outcome TaskError ℕ) (again : ℕ → Loop)
      → is_append_event e ≡ true
      → ((seq : ℕ) → Linked r (some seq) (finished r emit (again seq)))
      → Linked r (some w) (finished r emit (emitted (output_event r (some w) e.kind e) o i again))
  unfolding emitted output_event
  emitted-append w i e o again h rest = by_kind e.kind h o
    where
      by_kind :
          (k : ProviderKind)
          → (elim k [ append ↦ true | _ ↦ false ]) ≡ true
          → (o : Outcome TaskError ℕ)
          → Linked r (some w) (finished r emit (emitted (output_event r (some w) k e) o i again))
      by_kind append t (ok seq) = more streaming refl refl (rest seq)
      by_kind append t (err x) = stream-handled (some w) (suc i) (some x)
      by_kind headers t o = cc
      by_kind result t o = cc
      by_kind completed t o = cc
      by_kind failed t o = cc
      by_kind unknown t o = cc

  emitted-end :
      (w i : ℕ) (e : ProviderEvent) (o : Outcome TaskError ℕ)
      → is_end_event e ≡ true
      → Linked r (some w) (
          finished r emit (
            emitted
              (output_event r (some w) e.kind e)
              o
              i
              (λ seq. record { published = []; attempts = suc i; failure = none })))
  unfolding emitted output_event
  emitted-end w i e o h = by_kind e.kind h o
    where
      by_kind :
          (k : ProviderKind)
          → (elim k [ completed ↦ true | failed ↦ true | _ ↦ false ]) ≡ true
          → (o : Outcome TaskError ℕ)
          → Linked r (some w) (
              finished r emit (
                emitted
                  (output_event r (some w) k e)
                  o
                  i
                  (λ seq. record { published = []; attempts = suc i; failure = none })))
      by_kind completed t (ok seq) = unfold handled in last streaming refl
      by_kind completed t (err x) = stream-handled (some w) (suc i) (some x)
      by_kind failed t (ok seq) = unfold handled in last streaming refl
      by_kind failed t (err x) = stream-handled (some w) (suc i) (some x)
      by_kind append t o = cc
      by_kind headers t o = cc
      by_kind result t o = cc
      by_kind unknown t o = cc

  task_loop-Linked :
      (w i : ℕ) (es : List ProviderEvent) (x : Option Raised)
      → TailShape (es, x)
      → Linked r (some w) (finished r emit (task_loop r emit i (some w) es x))
  unfolding task_loop is_ended
  task_loop-Linked w i [] x h = stream-handled (some w) i (ended x)
  task_loop-Linked w i (e ∷ []) none h = emitted-end w i e (emit i) h
  task_loop-Linked w i (e ∷ f ∷ es) none h =
      emitted-append w i e (emit i) _ (ground arith)
        (λ seq. task_loop-Linked seq (suc i) (f ∷ es) none (ground arith))
  task_loop-Linked w i (e ∷ es) (some x) h =
      emitted-append w i e (emit i) _ (ground arith)
        (λ seq. task_loop-Linked seq (suc i) es (some x) (ground arith))

  emitted-headers :
      (e : ProviderEvent) (o : Outcome TaskError ℕ) (again : ℕ → Loop)
      → is_headers e ≡ true
      → ((seq : ℕ) → Linked r (some seq) (finished r emit (again seq)))
      → Linked r none (finished r emit (emitted (output_event r none e.kind e) o 0 again))
  unfolding emitted output_event
  emitted-headers e o again h rest = by_kind e.kind (ground (arith, h)) (ground (arith, h)) o
    where
      by_kind :
          (k : ProviderKind)
          → (elim k [ headers ↦ true | _ ↦ false ]) ≡ true
          → e.has_body ≡ false
          → (o : Outcome TaskError ℕ)
          → Linked r none (finished r emit (emitted (output_event r none k e) o 0 again))
      by_kind headers t b (ok seq) = head streaming refl (ground (arith, b)) (rest seq)
      by_kind headers t b (err x) = stream-handled none 1 (some x)
      by_kind append t b o = cc
      by_kind result t b o = cc
      by_kind completed t b o = cc
      by_kind failed t b o = cc
      by_kind unknown t b o = cc

  pub stream-Linked : (y : Yielded) → CallShape true y → Linked r none (task_published r emit y)
  unfolding task_published task_loop
  stream-Linked ([], none) h = absurd h
  stream-Linked ([], some x) h = stream-handled none 0 (some (raised x))
  stream-Linked (e ∷ es, x) (first, rest) =
      emitted-headers e (emit 0) _ first (λ seq. task_loop-Linked seq 1 es x rest)
