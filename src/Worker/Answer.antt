-- ===== src/Worker/Answer.antt =====
-- A provider task whose publications succeed answers its request.
use openevent_modules_model.Base.{
  ℕ, suc, ◌≡◌, ◌≢◌, refl, ap, Bool, true, false, not, ◌&&◌, ◌||◌, Option, none, some, List, [], ◌∷◌,
  Outcome, ok, arith, if◌then◌else◌, if-both,
}
use openevent_modules_model.Models.Value.{Value}
use openevent_modules_model.Models.Payload.{Payload, infer_append}
use openevent_modules_model.Subscription.Delivery.{is_result, is_terminal_kind}
use openevent_modules_model.Worker.State.{RequestState}
use openevent_modules_model.Worker.Events.{
  ProviderKind, ProviderEvent, headers, result, append, completed, failed, unknown, output_event,
  error_event, append_of, result_of,
}
use openevent_modules_model.Worker.Task.{
  TaskError, raised, Loop, emitted, task_loop, failure_code, handled, finished, task_published,
}
use openevent_modules_model.Provider.Events.{Raised, provider_error, cancelled}
use openevent_modules_model.Provider.Shape.{
  is_ended, is_append_event, is_end_event, is_headers, is_whole, TailShape, CallShape,
}

abbrev pub ends_request : Payload → Bool
ends_request p = is_terminal_kind p || is_result true p

-- The last publication ends the request.
abbrev pub closes : List (ℕ × Payload) → Bool
closes [] = false
closes (x ∷ []) = ends_request x.1
closes (x ∷ y ∷ ps) = closes (y ∷ ps)

closes-cons :
    (x : ℕ × Payload) (ps : List (ℕ × Payload)) → closes ps ≡ true → closes (x ∷ ps) ≡ true
closes-cons x [] h = cc
closes-cons x (y ∷ ps) h = h

-- The bodies of the appends.
abbrev pub append_bodies : List (ℕ × Payload) → List Value
append_bodies [] = []
append_bodies ((seq, infer_append p) ∷ ps) = p.body ∷ append_bodies ps
append_bodies (x ∷ ps) = append_bodies ps

abbrev pub event_bodies : List ProviderEvent → List Value
event_bodies [] = []
event_bodies (e ∷ es) =
    let rest = event_bodies es in if is_append_event e then e.body ∷ rest else rest

error_event-ends_request :
    (r : RequestState) (code : ℕ) → ends_request (error_event r code false false) ≡ true
unfolding error_event
error_event-ends_request r code =
    if-both (λ p. ends_request p ≡ true) (r.streaming && not false && not (false && r.duplicate))
      (λ _. refl) (λ _. refl)

error_event-append_bodies :
    (r : RequestState) (seq code : ℕ)
    → append_bodies ((seq, error_event r code false false) ∷ []) ≡ []
unfolding error_event
error_event-append_bodies r seq code =
    if-both (λ p. append_bodies ((seq, p) ∷ []) ≡ [])
      (r.streaming && not false && not (false && r.duplicate)) (λ _. refl) (λ _. refl)

module _ (r : RequestState) (seqs : ℕ → ℕ) where
  abbrev pub emit : ℕ → Outcome TaskError ℕ
  emit i = ok (seqs i)

  -- A task that raises publishes its error event, unless it was cancelled.
  handled-closes :
      (i : ℕ) (x : Raised) → x ≢ cancelled → closes (handled r emit i (some (raised x))) ≡ true
  unfolding handled failure_code
  handled-closes i cancelled h = absurd (h refl)
  handled-closes i (provider_error code) h = error_event-ends_request r code
  handled-closes i _ h = error_event-ends_request r 60007

  handled-append_bodies :
      (i : ℕ) (x : Raised) → append_bodies (handled r emit i (some (raised x))) ≡ []
  unfolding handled failure_code
  handled-append_bodies i cancelled = refl
  handled-append_bodies i (provider_error code) = error_event-append_bodies r (seqs i) code
  handled-append_bodies i _ = error_event-append_bodies r (seqs i) 60007

  -- What a task publishes behind its headers.
  abbrev IsTail : List ProviderEvent → List (ℕ × Payload) → Type 0
  IsTail es ps = (closes ps ≡ true) × (append_bodies ps ≡ event_bodies es)

  IsTail-append :
      (w i : ℕ) (e : ProviderEvent) (es : List ProviderEvent) (again : ℕ → Loop)
      → is_append_event e ≡ true
      → ((seq : ℕ) → IsTail es (finished r emit (again seq)))
      → IsTail
          (e ∷ es)
          (finished r emit (emitted (output_event r (some w) e.kind e) (emit i) i again))
  unfolding emitted output_event
  IsTail-append w i e es again h rest =
      let k : e.kind ≡ append = ground (arith, h) in
      let (closing, bodies) = rest (seqs i) in
      rw k (
        closes-cons (seqs i, append_of r e w) (finished r emit (again (seqs i))) closing,
        ap (λ l. e.body ∷ l) bodies,
      )

  IsTail-end :
      (w i : ℕ) (e : ProviderEvent)
      → is_end_event e ≡ true
      → IsTail (e ∷ []) (finished r emit (task_loop r emit i (some w) (e ∷ []) none))
  unfolding task_loop emitted output_event handled
  IsTail-end w i e h = by_kind e.kind h refl
    where
      by_kind :
          (k : ProviderKind)
          → (elim k [ completed ↦ true | failed ↦ true | _ ↦ false ]) ≡ true
          → e.kind ≡ k
          → IsTail (e ∷ []) (finished r emit (task_loop r emit i (some w) (e ∷ []) none))
      by_kind completed t k = rw k (refl, refl)
      by_kind failed t k = rw k (refl, refl)
      by_kind append t k = cc
      by_kind headers t k = cc
      by_kind result t k = cc
      by_kind unknown t k = cc

  task_loop-IsTail :
      (w i : ℕ) (es : List ProviderEvent) (x : Option Raised)
      → TailShape (es, x)
      → x ≢ some cancelled
      → IsTail es (finished r emit (task_loop r emit i (some w) es x))
  unfolding task_loop is_ended
  task_loop-IsTail w i [] none h going = cc
  task_loop-IsTail w i [] (some x) h going =
      (handled-closes i x (λ e. going (ap (λ r. some r) e)), handled-append_bodies i x)
  task_loop-IsTail w i (e ∷ []) none h going = IsTail-end w i e h
  task_loop-IsTail w i (e ∷ f ∷ es) none h going =
      IsTail-append w i e (f ∷ es) _ (ground arith)
        (λ seq. task_loop-IsTail seq (suc i) (f ∷ es) none (ground arith) going)
  task_loop-IsTail w i (e ∷ es) (some x) h going =
      IsTail-append w i e es _ (ground arith)
        (λ seq. task_loop-IsTail seq (suc i) es (some x) (ground arith) going)

  IsTail-headers :
      (e : ProviderEvent) (es : List ProviderEvent) (again : ℕ → Loop)
      → is_headers e ≡ true
      → ((seq : ℕ) → IsTail es (finished r emit (again seq)))
      → IsTail (e ∷ es) (finished r emit (emitted (output_event r none e.kind e) (emit 0) 0 again))
  unfolding emitted output_event
  IsTail-headers e es again h rest =
      let k : e.kind ≡ headers = ground (arith, h) in
      let (closing, bodies) = rest (seqs 0) in
      rw k (closes-cons (seqs 0, result_of r e) (finished r emit (again (seqs 0))) closing, bodies)

  IsTail-result :
      (e : ProviderEvent)
      → is_whole (e ∷ []) ≡ true
      → IsTail (e ∷ []) (finished r emit (task_loop r emit 0 none (e ∷ []) none))
  unfolding task_loop emitted output_event handled
  IsTail-result e h =
      let k : e.kind ≡ result = ground (arith, h) in
      let b : e.has_body ≡ true = ground (arith, h) in rw (k, b) (refl, refl)

  -- All that a task publishes for events of the right shape.
  pub task_published-IsTail :
      (streaming : Bool) (es : List ProviderEvent) (x : Option Raised)
      → CallShape streaming (es, x)
      → x ≢ some cancelled
      → IsTail es (task_published r emit (es, x))
  unfolding task_published task_loop
  task_published-IsTail false [] none h going = cc
  task_published-IsTail false (e ∷ []) none h going = IsTail-result e h
  task_published-IsTail false (e ∷ f ∷ es) none h going = cc
  task_published-IsTail false [] (some x) h going =
      (handled-closes 0 x (λ e. going (ap (λ r. some r) e)), handled-append_bodies 0 x)
  task_published-IsTail false (e ∷ es) (some x) h going = cc
  task_published-IsTail true [] none h going = absurd h
  task_published-IsTail true [] (some x) h going =
      (handled-closes 0 x (λ e. going (ap (λ r. some r) e)), handled-append_bodies 0 x)
  task_published-IsTail true (e ∷ es) x (first, rest) going =
      IsTail-headers e es _ first (λ seq. task_loop-IsTail seq 1 es x rest going)
