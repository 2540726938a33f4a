-- ===== src/Worker/Grows.antt =====
-- What `_accept` does to the worker around the requests: the counters stay, the stream ids it has
-- seen stay seen, and what it queues for a provider is new.
use openevent_modules_model.Base.{
  ℕ, ltb, ◌≡◌, refl, String, Bool, true, false, Option, none, some, ◌∷◌, length, ok, err, is_some,
  arith, if-both, if◌then◌else◌, eq_iff,
}
use openevent_modules_model.Base.Dict.{Dict, get, contains}
use openevent_modules_model.Models.Value.{Value}
use openevent_modules_model.Models.Payload.{
  ParsedMessage, InferRequest, Payload, infer_request, infer_result, infer_append, infer_end,
  infer_cancel, stream_id,
}
use openevent_modules_model.Worker.State.{
  RequestState, Settings, Key, Worker, set_request, retire_locked,
}
use openevent_modules_model.Worker.Accept.{
  is_original, key_eq, rejection, enqueue, add_request, accept_request, Effect, ignored, faulty,
  chained, ended, effect, apply_effect, answers, accept_answer, accept_open, accept, Accepted,
  new_request, ended_state, or_default,
}
use openevent_modules_model.Worker.Kept.{IsKept, set_request-IsKept, retire_locked-IsKept}

key_eq_refl : (k : Key) → key_eq k k ≡ true
key_eq_refl (c, s) = ground (arith, (eq_iff s s).1 refl)

pub record Grows (key : Key) (w w' : Worker) : Type 0 where
  pub running : w'.running ≡ w.running
  pub kept : IsKept w'.requests
  pub seen : (k : Key) → is_original k w.originals ≡ true → is_original k w'.originals ≡ true
  pub queued :
      ltb (length w.pending) (length w'.pending) ≡ true
      → (is_original key w.originals ≡ false) × (is_original key w'.originals ≡ true)

-- The new state of `_accept`, when it raises nothing.
abbrev pub Grown : Key → Worker → Accepted → Type 0
Grown key w (err e) = Unit
Grown key w (ok (w', abort)) = Grows key w w'

module _ (key : Key) (w : Worker) (v : IsKept w.requests) where
  same-Grows : Grows key w w
  same-Grows = record { running = refl; kept = v; seen = λ k h. h; queued = λ h. ground arith }

  -- Requests change, and neither the queue nor the stream ids do.
  requests-Grows : (d : Dict RequestState) → IsKept d → Grows key w (record w { requests = d })
  requests-Grows d kept = record {
    running = refl;
    kept = kept;
    seen = λ k h. h;
    queued = λ h. ground arith;
  }

  retired-Grows : (r : RequestState) → Grows key w (retire_locked r (set_request r w))
  unfolding retire_locked set_request
  retired-Grows r =
      let kept = retire_locked-IsKept r w v in
      record {
        running = ground arith;
        kept = kept;
        seen = λ k h. ground arith;
        queued = λ h. ground arith;
      }

  apply_effect-Grown :
      (e : Effect) (seq : ℕ) (r : RequestState)
      → is_some r.terminal_seq ≡ false
      → Grown key w (apply_effect e seq r w)
  unfolding apply_effect set_request
  apply_effect-Grown ignored seq r open_ = same-Grows
  apply_effect-Grown (faulty e) seq r open_ = tt
  apply_effect-Grown chained seq r open_ =
      requests-Grows _ (set_request-IsKept (record r { chain_seq = some seq }) w v (ground arith))
  apply_effect-Grown (ended is_result abort) seq r open_ =
      retired-Grows (ended_state is_result seq r)

  accept_answer-Grown :
      (m : ParsedMessage) (o : Option RequestState) → Grown key w (accept_answer m o w)
  unfolding accept_answer answers
  accept_answer-Grown m none = same-Grows
  accept_answer-Grown m (some r) =
      if-both (Grown key w) (answers m r)
        (λ h. apply_effect-Grown (effect r m.payload) m.seq r (ground arith)) (λ _. same-Grows)

-- The worker between `originals.add` and the queues.
abbrev noted : Bool → Key → Worker → Worker
noted duplicate key w = record w {
  originals = if duplicate then w.originals else key ∷ w.originals;
}

module _ (key : Key) (w : Worker) (v : IsKept w.requests) where
  noted-seen :
      (k : Key)
      → is_original k w.originals ≡ true
      → is_original k (noted (is_original key w.originals) key w).originals ≡ true
  noted-seen k h =
      if-both (λ ks. is_original k ks ≡ true) (is_original key w.originals) (λ _. h)
        (λ _. ground arith)

  noted-key : is_original key (noted (is_original key w.originals) key w).originals ≡ true
  noted-key =
      if-both (λ ks. is_original key ks ≡ true) (is_original key w.originals) (λ h. h)
        (λ _. rw (key_eq_refl key) refl)

  enqueue-Grows :
      (code : Option ℕ) (body : Value) (r : RequestState)
      → r.terminal_seq ≡ none
      → (code ≡ none → is_original key w.originals ≡ false)
      → Grows key w (enqueue code body r (noted (is_original key w.originals) key w))
  unfolding enqueue set_request
  enqueue-Grows none body r open_ new = record {
    running = refl;
    kept = set_request-IsKept (record r { body = some body }) w v (ground arith);
    seen = noted-seen;
    queued = λ _. (new refl, noted-key);
  }
  enqueue-Grows (some code) body r open_ new = record {
    running = refl;
    kept = set_request-IsKept r w v (ground arith);
    seen = noted-seen;
    queued = λ h. ground arith;
  }

abbrev key_of : ParsedMessage → Key
key_of m = (m.channel_id, stream_id m.payload)

-- A duplicate is always refused.
rejection-none :
    (config : Settings) (duplicate : Bool) (n : ℕ) (provider : String)
    → rejection config duplicate n provider ≡ none
    → duplicate ≡ false
unfolding rejection
rejection-none config true n provider h = ground arith
rejection-none config false n provider h = refl

module _ (config : Settings) (historical : Bool) (payload_bytes : ℕ) (m : ParsedMessage)
    (w : Worker) (v : IsKept w.requests) where
  add_request-Grows :
      (p : InferRequest)
      → let key : Key = (m.channel_id, p.stream_id) in
        Grows key w (add_request config historical payload_bytes m p w)
  unfolding add_request set_request
  add_request-Grows p =
      let key : Key = (m.channel_id, p.stream_id) in
      let duplicate = is_original key w.originals in
      let provider = or_default p.provider config.default_provider in
      let r = new_request config historical m p duplicate in
      if-both (Grows key w) historical
        (λ _. record {
          running = refl;
          kept = set_request-IsKept r w v refl;
          seen = noted-seen key w v;
          queued = λ h. ground arith;
        })
        (λ _.
          enqueue-Grows key w v (rejection config duplicate payload_bytes provider) p.body r refl
            (rejection-none config duplicate payload_bytes provider))

  accept_request-Grows :
      (p : InferRequest)
      → Grows (m.channel_id, p.stream_id) w (accept_request config historical payload_bytes m p w)
  unfolding accept_request
  accept_request-Grows p =
      let key : Key = (m.channel_id, p.stream_id) in
      if-both (Grows key w) (contains m.seq w.requests) (λ _. same-Grows key w v)
        (λ _. add_request-Grows p)

  accept_open-Grown :
      (p : Payload)
      → Grown (m.channel_id, stream_id p) w (accept_open config historical payload_bytes m p w)
  unfolding accept_open
  accept_open-Grown (infer_request p) = accept_request-Grows p
  accept_open-Grown (infer_result p) = accept_answer-Grown _ w v m (get p.prev_seq w.requests)
  accept_open-Grown (infer_append p) = accept_answer-Grown _ w v m (get p.request_seq w.requests)
  accept_open-Grown (infer_end p) = accept_answer-Grown _ w v m (get p.request_seq w.requests)
  accept_open-Grown (infer_cancel p) = accept_answer-Grown _ w v m (get p.request_seq w.requests)

  pub accept-Grown : Grown (key_of m) w (accept config historical payload_bytes m w)
  unfolding accept
  accept-Grown =
      if-both (Grown (key_of m) w) w.stopped (λ _. same-Grows (key_of m) w v)
        (λ _. accept_open-Grown m.payload)
