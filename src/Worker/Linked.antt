-- ===== src/Worker/Linked.antt =====
-- What a provider task publishes is a chain of the protocol, wherever it breaks off.
pub mod Stream
pub mod Whole
pub mod Published
use openevent_modules_model.Base.{
  ℕ, suc, ◌≡◌, refl, Bool, true, false, not, ◌&&◌, Option, none, some, List, [], ◌∷◌, ◌++◌, Outcome,
  ok, err, is_some, arith, if◌then◌else◌, if-both, Bool-cases, inl, inr,
}
use openevent_modules_model.Models.Payload.{
  Payload, InferResult, InferAppend, InferEnd, infer_result, infer_append, infer_end,
}
use openevent_modules_model.Worker.State.{RequestState}
use openevent_modules_model.Worker.Events.{
  ProviderKind, ProviderEvent, headers, result, append, completed, failed, unknown, output_event,
  error_event, body_or_unset,
}
use openevent_modules_model.Worker.Task.{
  TaskError, raised, Loop, ended, emitted, task_loop, failure_code, error_published, handled_code,
  handled, finished, task_published,
}
use openevent_modules_model.Provider.Events.{Raised, Yielded}
use openevent_modules_model.Provider.Shape.{
  is_ended, is_open, is_append_event, is_end_event, is_headers, is_whole, TailShape, CallShape,
}

-- The publications of a request behind the chain element `w`; `none` stands before the result.
pub data Linked (r : RequestState) : Option ℕ → List (ℕ × Payload) → Type 0 where
  nothing : {w : Option ℕ} → Linked r w []
  whole :
      {seq : ℕ} {p : InferResult}
      → p.prev_seq ≡ r.request_seq
      → is_some p.body ≡ true
      → Linked r none ((seq, infer_result p) ∷ [])
  head :
      {seq : ℕ} {p : InferResult} {ps : List (ℕ × Payload)}
      → r.streaming ≡ true
      → p.prev_seq ≡ r.request_seq
      → is_some p.body ≡ false
      → Linked r (some seq) ps
      → Linked r none ((seq, infer_result p) ∷ ps)
  more :
      {w seq : ℕ} {p : InferAppend} {ps : List (ℕ × Payload)}
      → r.streaming ≡ true
      → p.request_seq ≡ r.request_seq
      → p.prev_seq ≡ w
      → Linked r (some seq) ps
      → Linked r (some w) ((seq, infer_append p) ∷ ps)
  last :
      {w : Option ℕ} {seq : ℕ} {p : InferEnd}
      → r.streaming ≡ true
      → p.request_seq ≡ r.request_seq
      → Linked r w ((seq, infer_end p) ∷ [])

module _ (r : RequestState) (emit : ℕ → Outcome TaskError ℕ) where
  -- The error event of a stream is an end.
  pub stream-error_event :
      (w : Option ℕ) (seq code : ℕ)
      → r.streaming ≡ true
      → Linked r w ((seq, error_event r code false false) ∷ [])
  unfolding error_event
  stream-error_event w seq code streaming =
      if-both (λ p. Linked r w ((seq, p) ∷ []))
        (r.streaming && not false && not (false && r.duplicate)) (λ h. last streaming refl)
        (λ h. absurd (ground (arith, streaming, h)))

  pub whole-error_event :
      (seq code : ℕ)
      → r.streaming ≡ false
      → Linked r none ((seq, error_event r code false false) ∷ [])
  unfolding error_event
  whole-error_event seq code single =
      if-both (λ p. Linked r none ((seq, p) ∷ []))
        (r.streaming && not false && not (false && r.duplicate))
        (λ h. absurd (ground (arith, single, h))) (λ h. whole refl refl)

  pub handled-Linked :
      (w : Option ℕ) (i : ℕ) (x : Option TaskError)
      → ((seq code : ℕ) → Linked r w ((seq, error_event r code false false) ∷ []))
      → Linked r w (handled r emit i x)
  unfolding handled
  handled-Linked w i none one = nothing
  handled-Linked w i (some x) one = by_code (failure_code x) (emit i)
    where
      by_code : (c : Option ℕ) (o : Outcome TaskError ℕ) → Linked r w (handled_code r c o)
      by_code none o = nothing
      by_code (some code) (err y) = nothing
      by_code (some code) (ok seq) = one seq code
