-- ===== src/Worker/Invariant.antt =====
-- The invariant of the worker under every interleaving of its threads.
use openevent_modules_model.Base.{
  ℕ, suc, ◌+◌, ◌≤◌, ltb, ◌≡◌, refl, ◌∙◌, true, false, Option, List, [], ◌∷◌, ◌++◌, length,
  length-append, ok, arith, ◌⊎◌, inl, inr, sym, ap, subst, if-both, eq_iff, Bool-cases,
}
use openevent_modules_model.Base.Dict.{get-empty}
use openevent_modules_model.Models.Payload.{ParsedMessage, stream_id}
use openevent_modules_model.Worker.State.{
  RequestState, Settings, Key, Worker, set_request, retire_locked,
}
use openevent_modules_model.Worker.Accept.{is_original, key_eq, Accepted}
use openevent_modules_model.Worker.Queues.{Scheduled, schedule, task_done}
use openevent_modules_model.Worker.Reach.{System, init, received, with_worker}
use openevent_modules_model.Worker.Kept.{IsKept, AfterSchedule, schedule-IsKept, task_done-IsKept}
use openevent_modules_model.Worker.Grows.{Grows, Grown}
use openevent_modules_model.Worker.Slots.{Slots, schedule-Slots, SameSlots}

-- No two keys of the list are equal.
abbrev pub Distinct : List Key → Type 0
Distinct [] = Unit
Distinct (k ∷ ks) = (is_original k ks ≡ false) × Distinct ks

pub record IsValid (config : Settings) (s : System) : Type 0 where
  -- the counter counts the provider threads, and these are within the limit
  pub counted : s.worker.running ≡ length s.tasks
  pub bounded : length s.tasks ≤ config.max_concurrency
  pub kept : IsKept s.worker.requests
  -- a key is dispatched once, and is known from then on
  pub distinct : Distinct s.dispatched
  pub known :
      (k : Key) → is_original k s.dispatched ≡ true → is_original k s.worker.originals ≡ true

is_original-cons :
    (k j : Key) (ks : List Key)
    → is_original k (j ∷ ks) ≡ true
    → (k ≡ j) ⊎ (is_original k ks ≡ true)
is_original-cons (c, a) (d, b) ks h = elim (Bool-cases (key_eq (c, a) (d, b))) [
  | inl same ↦
      let text : a ≡ b = (eq_iff a b).0 (ground arith) in
      let channel : c ≡ d = ground arith in inl (λ i. (channel i, text i))
  | inr differs ↦ inr (ground arith)
]

pub init-IsValid : (config : Settings) → IsValid config init
unfolding init
init-IsValid config = record {
  counted = refl;
  bounded = omega arith;
  kept = record {
    placed = λ q. rw (get-empty q) refl;
    open_or_running = λ q. rw (get-empty q) refl;
  };
  distinct = tt;
  known = λ k h. h;
}

module _ (config : Settings) (s : System) (v : IsValid config s) where
  -- A section that leaves the counter and the stream ids alone.
  pub with_worker-IsValid :
      (w : Worker) → IsKept w.requests → SameSlots s.worker w → IsValid config (with_worker w s)
  with_worker-IsValid w kept (same, seen) = record {
    counted = same ∙ v.counted;
    bounded = v.bounded;
    kept = kept;
    distinct = v.distinct;
    known = λ k h. subst (λ ks. is_original k ks ≡ true) (sym seen) (v.known k h);
  }

  pub received-IsValid :
      (m : ParsedMessage) (w : Worker)
      → Grows (m.channel_id, stream_id m.payload) s.worker w
      → IsValid config (received m w s)
  received-IsValid m w g =
      let key : Key = (m.channel_id, stream_id m.payload) in
      record {
        counted = g.running ∙ v.counted;
        bounded = v.bounded;
        kept = g.kept;
        distinct =
            if-both Distinct (ltb (length s.worker.pending) (length w.pending))
              (λ h. (ground (arith, g.queued h, v.known key), v.distinct)) (λ _. v.distinct);
        known = λ k.
            if-both (λ ks. is_original k ks ≡ true → is_original k w.originals ≡ true)
              (ltb (length s.worker.pending) (length w.pending))
              (λ h mine. elim (is_original-cons k key s.dispatched mine) [
                | inl same ↦ subst (λ j. is_original j w.originals ≡ true) (sym same) (g.queued h).1
                | inr old ↦ g.seen k (v.known k old)
              ])
              (λ _ h. g.seen k (v.known k h));
      }

  pub accept-Grows :
      (m : ParsedMessage) (r : Accepted) (w : Worker) (abort : Option ℕ)
      → Grown (m.channel_id, stream_id m.payload) s.worker r
      → r ≡ ok (w, abort)
      → Grows (m.channel_id, stream_id m.payload) s.worker w
  accept-Grows m r w abort g h = subst (Grown _ s.worker) h g

  pub replayed-IsValid :
      (m : ParsedMessage) (w : Worker)
      → Grows (m.channel_id, stream_id m.payload) s.worker w
      → IsValid config (with_worker w s)
  replayed-IsValid m w g = record {
    counted = g.running ∙ v.counted;
    bounded = v.bounded;
    kept = g.kept;
    distinct = v.distinct;
    known = λ k h. g.seen k (v.known k h);
  }

  pub started-IsValid :
      (seq : ℕ) (w : Worker)
      → schedule config s.worker ≡ Scheduled.started seq w
      → IsValid config (record s { worker = w; tasks = seq ∷ s.tasks })
  started-IsValid seq w h =
      let (free, one_more, seen) =
        subst (Slots config s.worker) h (schedule-Slots config s.worker) in
      record {
        counted = ground (arith, v.counted);
        bounded = ground (arith, v.counted);
        kept =
            subst (AfterSchedule (λ w. IsKept w.requests)) h
              (schedule-IsKept config s.worker v.kept);
        distinct = v.distinct;
        known = λ k h. subst (λ ks. is_original k ks ≡ true) (sym seen) (v.known k h);
      }

  pub done-IsValid :
      (xs ys : List ℕ) (seq : ℕ) (r : RequestState)
      → s.tasks ≡ xs ++ (seq ∷ ys)
      → IsValid config (record s { worker = task_done r s.worker; tasks = xs ++ ys })
  unfolding task_done retire_locked set_request
  done-IsValid xs ys seq r split =
      let before : length s.tasks ≡ length xs + suc (length ys) =
        ap length split ∙ length-append xs (seq ∷ ys) in
      record {
        counted = ground (arith, before, v.counted, length-append xs ys);
        bounded = ground (arith, before, v.bounded, length-append xs ys);
        kept = task_done-IsKept r s.worker v.kept;
        distinct = v.distinct;
        known = λ k h. ground (arith, v.known k h);
      }
