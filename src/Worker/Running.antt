-- ===== src/Worker/Running.antt =====
-- What `_accept` does to the requests that run and to the queues: a running request stays, and only
-- the message's own seq is queued, once.
use openevent_modules_model.Base.{
  ℕ, suc, ◌+◌, ◌≤◌, ◌==◌, ◌≡◌, refl, Bool, true, false, Option, none, some, List, [], ◌∷◌, ◌++◌, ok,
  err, arith, if-both, if◌then◌else◌,
}
use openevent_modules_model.Base.Dict.{Dict, get, put, get-put, get-remove, contains}
use openevent_modules_model.Models.Value.{Value}
use openevent_modules_model.Models.Payload.{
  ParsedMessage, InferRequest, Payload, infer_request, infer_result, infer_append, infer_end,
  infer_cancel,
}
use openevent_modules_model.Worker.State.{
  RequestState, Settings, Key, Worker, set_request, retire_locked, is_running,
}
use openevent_modules_model.Worker.Accept.{
  is_original, rejection, enqueue, add_request, accept_request, Effect, ignored, faulty, chained,
  ended, effect, apply_effect, answers, accept_answer, accept_open, accept, Accepted, new_request,
  ended_state, or_default,
}
use openevent_modules_model.Worker.Kept.{IsKept}

abbrev pub running_at : Option RequestState → Bool
running_at none = false
running_at (some r) = is_running r.phase

-- How often a seq stands in a queue.
abbrev pub count : ℕ → List ℕ → ℕ
count q [] = 0
count q (x ∷ xs) = let n = count q xs in if x == q then suc n else n

abbrev pub count_control : ℕ → List (ℕ × ℕ) → ℕ
count_control q [] = 0
count_control q ((x, code) ∷ xs) = let n = count_control q xs in if x == q then suc n else n

abbrev pub once : ℕ → ℕ → ℕ
once q n = if n == q then 1 else 0

pub count-append : (q : ℕ) (xs ys : List ℕ) → count q (xs ++ ys) ≡ count q xs + count q ys
count-append q [] ys = omega arith
count-append q (x ∷ xs) ys = ground (arith, count-append q xs ys)

count_control-append :
    (q : ℕ) (xs ys : List (ℕ × ℕ))
    → count_control q (xs ++ ys) ≡ count_control q xs + count_control q ys
count_control-append q [] ys = omega arith
count_control-append q ((x, c) ∷ xs) ys = ground (arith, count_control-append q xs ys)

-- A section keeps the running requests.
abbrev pub KeepsRunning : Dict RequestState → Dict RequestState → Type 0
KeepsRunning d d' = (q : ℕ) → running_at (get q d) ≡ true → running_at (get q d') ≡ true

-- A request state replaces one that is not running, or runs itself.
pub set_request-KeepsRunning :
    (r : RequestState) (w : Worker)
    → (running_at (get r.request_seq w.requests) ≡ true → is_running r.phase ≡ true)
    → KeepsRunning w.requests (set_request r w).requests
unfolding set_request
set_request-KeepsRunning r w runs q h = ground (arith, get-put r.request_seq q r w.requests, runs)

pub retire_locked-KeepsRunning :
    (r : RequestState) (w : Worker)
    → (running_at (get r.request_seq w.requests) ≡ true → is_running r.phase ≡ true)
    → KeepsRunning w.requests (retire_locked r (set_request r w)).requests
unfolding retire_locked set_request
retire_locked-KeepsRunning r w runs q h = ground (
  arith,
  runs,
  get-put r.request_seq q r w.requests,
  get-remove r.request_seq q (put r.request_seq r w.requests),
)

-- What the message with the seq `n` may do; nothing is queued from the history.
pub record Queues (historical : Bool) (n : ℕ) (w w' : Worker) : Type 0 where
  pub keeps : KeepsRunning w.requests w'.requests
  pub queues :
      (q : ℕ)
      → count q w'.pending + count_control q w'.controls
        ≤ (count q w.pending + count_control q w.controls) + (if historical then 0 else once q n)

abbrev pub Queued : Bool → ℕ → Worker → Accepted → Type 0
Queued historical n w (err e) = Unit
Queued historical n w (ok (w', abort)) = Queues historical n w w'

module _ (historical : Bool) (n : ℕ) (w : Worker) where
  same-Queues : Queues historical n w w
  same-Queues = record { keeps = λ q h. h; queues = λ q. omega arith }

  requests-Queues :
      (d : Dict RequestState)
      → KeepsRunning w.requests d
      → Queues historical n w (record w { requests = d })
  requests-Queues d keeps = record { keeps = keeps; queues = λ q. omega arith }

  retired-Queues :
      (r : RequestState)
      → (running_at (get r.request_seq w.requests) ≡ true → is_running r.phase ≡ true)
      → Queues historical n w (retire_locked r (set_request r w))
  unfolding retire_locked set_request
  retired-Queues r same = record {
    keeps = retire_locked-KeepsRunning r w same;
    queues = λ q. ground arith;
  }

  apply_effect-Queued :
      (e : Effect) (seq : ℕ) (r : RequestState)
      → get r.request_seq w.requests ≡ some r
      → Queued historical n w (apply_effect e seq r w)
  unfolding apply_effect set_request
  apply_effect-Queued ignored seq r here = same-Queues
  apply_effect-Queued (faulty e) seq r here = tt
  apply_effect-Queued chained seq r here =
      requests-Queues _
        (set_request-KeepsRunning (record r { chain_seq = some seq }) w (λ h. ground (arith, here)))
  apply_effect-Queued (ended is_result abort) seq r here =
      retired-Queues (ended_state is_result seq r) (λ h. ground (arith, here))

  accept_answer-Queued :
      (m : ParsedMessage) (k : ℕ) (o : Option RequestState)
      → IsKept w.requests
      → get k w.requests ≡ o
      → Queued historical n w (accept_answer m o w)
  unfolding accept_answer
  accept_answer-Queued m k none v here = same-Queues
  accept_answer-Queued m k (some r) v here =
      if-both (Queued historical n w) (answers m r)
        (λ _. apply_effect-Queued (effect r m.payload) m.seq r (ground (arith, here, v.placed k)))
        (λ _. same-Queues)

module _ (config : Settings) (historical : Bool) (payload_bytes : ℕ) (m : ParsedMessage)
    (w : Worker) (v : IsKept w.requests) where
  enqueue-Queues :
      (code : Option ℕ) (body : Value) (r : RequestState) (ks : List Key)
      → r.request_seq ≡ m.seq
      → contains m.seq w.requests ≡ false
      → Queues false m.seq w (enqueue code body r (record w { originals = ks }))
  unfolding enqueue set_request
  enqueue-Queues none body r ks at new = record {
    keeps =
        set_request-KeepsRunning (record r { body = some body }) w (λ h. ground (arith, at, new));
    queues = λ q. ground (arith, at, count-append q w.pending (r.request_seq ∷ []));
  }
  enqueue-Queues (some code) body r ks at new = record {
    keeps = set_request-KeepsRunning r w (λ h. ground (arith, at, new));
    queues =
        λ q. ground (arith, at, count_control-append q w.controls ((r.request_seq, code) ∷ []));
  }

  requested-Queues :
      (r : RequestState) (ks : List Key)
      → r.request_seq ≡ m.seq
      → contains m.seq w.requests ≡ false
      → Queues true m.seq w (set_request r (record w { originals = ks }))
  unfolding set_request
  requested-Queues r ks at new = record {
    keeps = set_request-KeepsRunning r w (λ h. ground (arith, at, new));
    queues = λ q. omega arith;
  }

  added-Queues :
      (old : Bool) (r : RequestState) (ks : List Key) (code : Option ℕ) (body : Value)
      → r.request_seq ≡ m.seq
      → contains m.seq w.requests ≡ false
      → Queues old m.seq w (
          if old
          then set_request r (record w { originals = ks })
          else enqueue code body r (record w { originals = ks }))
  added-Queues true r ks code body at new = requested-Queues r ks at new
  added-Queues false r ks code body at new = enqueue-Queues code body r ks at new

  add_request-Queues :
      (p : InferRequest)
      → contains m.seq w.requests ≡ false
      → Queues historical m.seq w (add_request config historical payload_bytes m p w)
  unfolding add_request
  add_request-Queues p new =
      let key : Key = (m.channel_id, p.stream_id) in
      let duplicate = is_original key w.originals in
      let r = new_request config historical m p duplicate in
      let ks = if duplicate then w.originals else key ∷ w.originals in
      let code =
        rejection config duplicate payload_bytes (or_default p.provider config.default_provider) in
      added-Queues historical r ks code p.body refl new

  accept_request-Queues :
      (p : InferRequest)
      → Queues historical m.seq w (accept_request config historical payload_bytes m p w)
  unfolding accept_request
  accept_request-Queues p =
      if-both (Queues historical m.seq w) (contains m.seq w.requests)
        (λ _. same-Queues historical m.seq w) (λ new. add_request-Queues p new)

  accept_open-Queued :
      (p : Payload) → Queued historical m.seq w (accept_open config historical payload_bytes m p w)
  unfolding accept_open
  accept_open-Queued (infer_request p) = accept_request-Queues p
  accept_open-Queued (infer_result p) =
      accept_answer-Queued historical m.seq w m p.prev_seq _ v refl
  accept_open-Queued (infer_append p) =
      accept_answer-Queued historical m.seq w m p.request_seq _ v refl
  accept_open-Queued (infer_end p) =
      accept_answer-Queued historical m.seq w m p.request_seq _ v refl
  accept_open-Queued (infer_cancel p) =
      accept_answer-Queued historical m.seq w m p.request_seq _ v refl

  pub accept-Queued : Queued historical m.seq w (accept config historical payload_bytes m w)
  unfolding accept
  accept-Queued =
      if-both (Queued historical m.seq w) w.stopped (λ _. same-Queues historical m.seq w)
        (λ _. accept_open-Queued m.payload)
