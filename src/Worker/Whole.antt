-- ===== src/Worker/Whole.antt =====
-- From the provider's answer to the return of a client's call that does not stream.
use openevent_modules_model.Base.{
  ℕ, leb, ◌≡◌, ◌≢◌, refl, sym, subst, ap, ◌∙◌, String, Bool, true, false, ◌&&◌, Option, none, some,
  List, [], ◌∷◌, Outcome, arith, if◌then◌else◌, Bool-cases, Option-cases, inl, inr,
}
use openevent_modules_model.Models.Value.{Value}
use openevent_modules_model.Models.Payload.{Payload, ParsedMessage, infer_result}
use openevent_modules_model.Subscription.State.{Call}
use openevent_modules_model.Subscription.Accept.{new_receive}
use openevent_modules_model.Subscription.Client.{next_message}
use openevent_modules_model.Client.Errors.{ApiError, make_api_error, error_type}
use openevent_modules_model.Client.Create.{
  Created, response, fails, ResponseView, response_or, created_message, created,
}
use openevent_modules_model.Worker.State.{RequestState}
use openevent_modules_model.Worker.Events.{
  ProviderEvent, result, error_event, error_body, output_event, headers_or_none,
}
use openevent_modules_model.Worker.Task.{
  task_published, task_loop, emitted, handled, failure_code, provider_events,
}
use openevent_modules_model.Worker.Chain.{delivered}
use openevent_modules_model.Worker.Received.{items}
use openevent_modules_model.Worker.Answer.{emit}
use openevent_modules_model.Worker.EndToEnd.{answered, answered-queue}
use openevent_modules_model.Provider.Events.{Raised, cancelled, provider_error, Text, Yielded}
use openevent_modules_model.Provider.Call.{Response}
use openevent_modules_model.Provider.Shape.{CallShape, is_whole, call_events-CallShape}

-- The code of the error that a provider's exception becomes.
abbrev pub code_of : Raised → ℕ
code_of (provider_error code) = code
code_of _ = 60007

-- A status of success.
abbrev pub is_success : ℕ → Bool
is_success n = leb 200 n && leb n 299

-- What a call returns or raises for a status, a body and headers.
abbrev pub Answers : ℕ → Option Value → Value → Created → Type 0
Answers status hs body x =
    if is_success status
    then ((v : ResponseView) × (x ≡ response v)
        × (v.body ≡ body)
        × (v.status_code ≡ status)
        × (v.headers ≡ hs))
    else ((e : ApiError) × (x ≡ fails e) × (e.body ≡ some body) × (e.status_code ≡ some status))

-- The answer that the provider's call calls for.
abbrev pub AnswersCall : Yielded → Created → Type 0
AnswersCall (e ∷ es, none) x = Answers e.status_code (headers_or_none e.header_list) e.body x
AnswersCall ([], some r) x = Answers (code_of r) none (error_body (code_of r)) x
AnswersCall _ x = ⊥

success-error_type : (n : ℕ) → is_success n ≡ true → error_type n none ≡ none
unfolding error_type
success-error_type n h = ground (arith, h)

failure-error_type : (n : ℕ) → is_success n ≡ false → error_type n none ≢ none
unfolding error_type
failure-error_type n h e = ground (arith, h, e)

-- An outcome with this view and this context.
response_or-Answers :
    (status : ℕ) (hs : Option Value) (body : Value) (v : ResponseView) (e : ApiError)
    → v.body ≡ body
    → v.status_code ≡ status
    → v.headers ≡ hs
    → e.body ≡ some body
    → Answers status hs body (response_or v (make_api_error status none e))
unfolding make_api_error
response_or-Answers status hs body v e vb vs vh eb = elim (Bool-cases (is_success status)) [
  | inl good ↦
      let no_error = success-error_type status good in rw (good, no_error) (v, refl, vb, vs, vh)
  | inr bad ↦ elim (Option-cases (error_type status none)) [
    | inl no_error ↦ absurd (failure-error_type status bad no_error)
    | inr (t, some_error) ↦ rw (bad, some_error) (_, refl, eb, refl)
  ]
]

-- The result that a task publishes for a status, headers and a body.
abbrev result_payload : RequestState → ℕ → Option Value → Value → Payload
result_payload r status hs body = infer_result (record {
  stream_id = r.stream_id;
  prev_seq = r.request_seq;
  status_code = status;
  headers = hs;
  body = some body;
})

created_message-Answers :
    (r : RequestState) (status : ℕ) (hs : Option Value) (body : Value) (m : ParsedMessage)
    (c : Call)
    → Answers status hs body (created_message (result_payload r status hs body) m c)
unfolding created_message
created_message-Answers r status hs body m c =
    response_or-Answers status hs body _ _ refl refl refl refl

module _ (principal : ℕ) (uuid : ℕ → ℕ) (r : RequestState) where
  -- A queue of one published result.
  created-Answers :
      (seq status : ℕ) (hs : Option Value) (body : Value) (c : Call)
      → c.queue ≡ items principal uuid r ((seq, result_payload r status hs body) ∷ [])
      → Answers status hs body (created (next_message c))
  unfolding created next_message
  created-Answers seq status hs body c queue = rw queue (
      created_message-Answers r status hs body
        (delivered principal uuid r (seq, result_payload r status hs body)) _)

  module _ (seqs : ℕ → ℕ) (single : r.streaming ≡ false) where
    published-result :
        (e : ProviderEvent)
        → is_whole (e ∷ []) ≡ true
        → task_published r (emit r seqs) (e ∷ [], none)
          ≡ (seqs 0, result_payload r e.status_code (headers_or_none e.header_list) e.body) ∷ []
    unfolding task_published task_loop emitted output_event handled
    published-result e h =
        let k : e.kind ≡ result = ground (arith, h) in
        let b : e.has_body ≡ true = ground (arith, h) in rw (k, b) refl

    single-error_event :
        (code : ℕ) → error_event r code false false ≡ result_payload r code none (error_body code)
    unfolding error_event
    single-error_event code = ground (arith, single)

    published-error :
        (x : Raised)
        → x ≢ cancelled
        → task_published r (emit r seqs) ([], some x)
          ≡ (seqs 0, result_payload r (code_of x) none (error_body (code_of x))) ∷ []
    unfolding task_published task_loop handled failure_code
    published-error cancelled h = absurd (h refl)
    published-error (provider_error code) h = ap (λ p. (seqs 0, p) ∷ []) (single-error_event code)
    published-error _ h = ap (λ p. (seqs 0, p) ∷ []) (single-error_event 60007)

    published-AnswersCall :
        (y : Yielded) (c : Call)
        → CallShape false y
        → y.1 ≢ some cancelled
        → c.queue ≡ items principal uuid r (task_published r (emit r seqs) y)
        → AnswersCall y (created (next_message c))
    published-AnswersCall ([], none) c h going queue = cc
    published-AnswersCall (e ∷ [], none) c h going queue =
        created-Answers (seqs 0) e.status_code (headers_or_none e.header_list) e.body c
          (queue ∙ ap (items principal uuid r) (published-result e h))
    published-AnswersCall (e ∷ f ∷ es, none) c h going queue = cc
    published-AnswersCall ([], some x) c h going queue =
        created-Answers (seqs 0) (code_of x) none (error_body (code_of x)) c (
          queue ∙ ap (items principal uuid r) (published-error x (λ e. going (ap (λ r. some r) e))))
    published-AnswersCall (e ∷ es, some x) c h going queue = cc

    -- A client's call that does not stream returns, when the one result of the provider has a status
    -- of 200 to 299, that result's body, status and headers; for another status it raises with the
    -- status and the body; and when the provider's call raises it raises with the code of the
    -- exception: when the publication succeeds and the call is not cancelled.
    pub provider_call-created :
        (decode : List ℕ → Option Text) (loads : Text → Option Value) (lower : String → String)
        (limit : ℕ) (check : Option Raised) (o : Outcome Raised Response) (c : Call)
        → c.streaming ≡ false
        → c.receive ≡ some (new_receive r.request_seq)
        → c.queue ≡ []
        → (provider_events decode loads lower limit check o r).1 ≢ some cancelled
        → AnswersCall (provider_events decode loads lower limit check o r) (
            created
              (next_message (answered principal uuid r decode loads lower limit check o seqs c)))
    provider_call-created decode loads lower limit check o c streaming bound empty going =
        let y = provider_events decode loads lower limit check o r in
        let shape = call_events-CallShape decode loads lower limit r.path r.streaming check o in
        published-AnswersCall y (answered principal uuid r decode loads lower limit check o seqs c)
          (subst (λ b. CallShape b y) single shape) going
          (answered-queue principal uuid r decode loads lower limit check o seqs c
            (streaming ∙ sym single) bound empty)
