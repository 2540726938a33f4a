-- ===== src/Worker/Stops.antt =====
-- `_accept` never stops the worker.
use openevent_modules_model.Base.{
  ℕ, ◌≡◌, refl, Bool, Option, none, some, List, ok, err, arith, if-both,
}
use openevent_modules_model.Base.Dict.{contains}
use openevent_modules_model.Models.Value.{Value}
use openevent_modules_model.Models.Payload.{
  ParsedMessage, InferRequest, Payload, infer_request, infer_result, infer_append, infer_end,
  infer_cancel,
}
use openevent_modules_model.Worker.State.{
  RequestState, Settings, Key, Worker, set_request, retire_locked,
}
use openevent_modules_model.Worker.Accept.{
  accept, Accepted, accept_open, accept_request, add_request, accept_answer, apply_effect, enqueue,
  Effect, ignored, faulty, chained, ended, effect, answers,
}

-- `_accept` does not stop the worker.
abbrev pub SameStop : Worker → Accepted → Type 0
SameStop w (err e) = Unit
SameStop w (ok (v, abort)) = v.stopped ≡ w.stopped

module _ (w : Worker) where
  apply_effect-SameStop :
      (e : Effect) (seq : ℕ) (r : RequestState) → SameStop w (apply_effect e seq r w)
  unfolding apply_effect set_request retire_locked
  apply_effect-SameStop ignored seq r = refl
  apply_effect-SameStop (faulty e) seq r = tt
  apply_effect-SameStop chained seq r = refl
  apply_effect-SameStop (ended b a) seq r = ground arith

  accept_answer-SameStop :
      (m : ParsedMessage) (o : Option RequestState) → SameStop w (accept_answer m o w)
  unfolding accept_answer
  accept_answer-SameStop m none = refl
  accept_answer-SameStop m (some r) =
      if-both (SameStop w) (answers m r) (λ _. apply_effect-SameStop (effect r m.payload) m.seq r)
        (λ _. refl)

  enqueue-stopped :
      (code : Option ℕ) (body : Value) (r : RequestState) (ks : List Key)
      → (enqueue code body r (record w { originals = ks })).stopped ≡ w.stopped
  unfolding enqueue set_request
  enqueue-stopped none body r ks = refl
  enqueue-stopped (some code) body r ks = refl

  accept_request-stopped :
      (config : Settings) (historical : Bool) (n : ℕ) (m : ParsedMessage) (p : InferRequest)
      → (accept_request config historical n m p w).stopped ≡ w.stopped
  unfolding accept_request add_request
  accept_request-stopped config historical n m p =
      if-both (λ (v : Worker). v.stopped ≡ w.stopped) (contains m.seq w.requests) (λ _. refl)
        (λ _.
          if-both (λ (v : Worker). v.stopped ≡ w.stopped) historical
            (λ _. unfold set_request in refl) (λ _. enqueue-stopped _ _ _ _))

  accept_open-SameStop :
      (config : Settings) (historical : Bool) (n : ℕ) (m : ParsedMessage) (p : Payload)
      → SameStop w (accept_open config historical n m p w)
  unfolding accept_open
  accept_open-SameStop config historical n m (infer_request p) =
      accept_request-stopped config historical n m p
  accept_open-SameStop config historical n m (infer_result p) = accept_answer-SameStop m _
  accept_open-SameStop config historical n m (infer_append p) = accept_answer-SameStop m _
  accept_open-SameStop config historical n m (infer_end p) = accept_answer-SameStop m _
  accept_open-SameStop config historical n m (infer_cancel p) = accept_answer-SameStop m _

  pub accept-SameStop :
      (config : Settings) (historical : Bool) (n : ℕ) (m : ParsedMessage)
      → SameStop w (accept config historical n m w)
  unfolding accept
  accept-SameStop config historical n m =
      if-both (SameStop w) w.stopped (λ _. refl)
        (λ _. accept_open-SameStop config historical n m m.payload)
