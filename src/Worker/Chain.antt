-- ===== src/Worker/Chain.antt =====
-- What a provider task publishes for a stream is what the client's reader accepts.
use openevent_modules_model.Base.{
  ℕ, suc, ◌≡◌, refl, ap, ◌∙◌, String, Bool, true, false, Option, none, some, List, [], ◌∷◌, ◌++◌,
  map, arith, append-nil, append_assoc,
}
use openevent_modules_model.Models.Payload.{Payload, ParsedMessage}
use openevent_modules_model.Subscription.State.{Call, ReceiveState, Item, message}
use openevent_modules_model.Subscription.Output.{judge, queued}
use openevent_modules_model.Subscription.Accept.{new_receive}
use openevent_modules_model.Subscription.Delivery.{
  receive_open, receive_from, receive_one, received,
}
use openevent_modules_model.Subscription.Preserve.{note_message-fields}
use openevent_modules_model.Worker.State.{RequestState}
use openevent_modules_model.Worker.Events.{
  ProviderKind, ProviderEvent, headers, append, completed, failed, output_event, publish_output,
  task_outputs, result_of, end_of, append_of,
}

-- The publication as OpenEvent delivers it to the requester.
abbrev pub delivered : ℕ → (ℕ → ℕ) → RequestState → ℕ × Payload → ParsedMessage
delivered principal uuid r (seq, p) = record {
  payload = p;
  uuid = uuid seq;
  seq = seq;
  channel_id = r.channel_id;
  principal = principal;
  recipients = r.request_principal ∷ [];
  object_keys = [];
  ts_ms = 0;
}

-- The outputs of a stream behind its headers: appends, and at most one end.
abbrev tail_at : ProviderKind → List ProviderEvent → Bool → Bool
tail_at append es rest = rest
tail_at completed [] rest = true
tail_at failed [] rest = true
tail_at _ es rest = false

unfoldable pub is_tail : List ProviderEvent → Bool
is_tail [] = true
is_tail (e ∷ es) = let rest = is_tail es in tail_at e.kind es rest

-- The receive state behind a chain element.
abbrev pub open_behind : ℕ → ℕ → ReceiveState
open_behind request_seq w = record {
  request_seq = request_seq;
  chain_seq = w;
  head_seen = true;
  terminal = false;
}

module _ (principal : ℕ) (uuid : ℕ → ℕ) (r : RequestState) where
  abbrev sent : List (ℕ × Payload) → List ParsedMessage
  sent = map (delivered principal uuid r)

  receive_one-append :
      (c : Call) (w seq : ℕ) (e : ProviderEvent)
      → c.streaming ≡ true
      → c.receive ≡ some (open_behind r.request_seq w)
      → let m = delivered principal uuid r (seq, append_of r e w) in
        let c' = receive_one m c in
        (c'.streaming ≡ true)
        × (c'.receive ≡ some (open_behind r.request_seq seq))
        × (c'.queue ≡ c.queue ++ (message m ∷ []))
  unfolding receive_one receive_from receive_open judge queued
  receive_one-append c w seq e streaming bound =
      let m = delivered principal uuid r (seq, append_of r e w) in
      let c' = record c {
        receive = some (open_behind r.request_seq seq);
        queue = c.queue ++ (message m ∷ []);
      } in
      ground (arith, note_message-fields m c')

  receive_one-end :
      (c : Call) (w seq : ℕ) (e : ProviderEvent) (end_status : String)
      → c.streaming ≡ true
      → c.receive ≡ some (open_behind r.request_seq w)
      → let m = delivered principal uuid r (seq, end_of r end_status e) in
        (receive_one m c).queue ≡ c.queue ++ (message m ∷ [])
  unfolding receive_one receive_from receive_open judge queued
  receive_one-end c w seq e end_status streaming bound =
      let m = delivered principal uuid r (seq, end_of r end_status e) in
      let c' = record c {
        receive = some (open_behind r.request_seq w);
        queue = c.queue ++ (message m ∷ []);
      } in
      ground (arith, note_message-fields m c')

  receive_one-headers :
      (c : Call) (seq : ℕ) (e : ProviderEvent)
      → c.streaming ≡ true
      → e.has_body ≡ false
      → c.receive ≡ some (new_receive r.request_seq)
      → let m = delivered principal uuid r (seq, result_of r e) in
        let c' = receive_one m c in
        (c'.streaming ≡ true)
        × (c'.receive ≡ some (open_behind r.request_seq seq))
        × (c'.queue ≡ c.queue ++ (message m ∷ []))
  unfolding receive_one receive_from receive_open judge queued
  receive_one-headers c seq e streaming bodyless bound =
      let m = delivered principal uuid r (seq, result_of r e) in
      let c' = record c {
        receive = some (open_behind r.request_seq seq);
        queue = c.queue ++ (message m ∷ []);
      } in
      ground (arith, note_message-fields m c')

  -- The items of the queue for what was published.
  abbrev items : List (ℕ × Payload) → List Item
  items = map (λ x. message (delivered principal uuid r x))

  -- One more message is received, and queued.
  received-cons :
      (x : ℕ × Payload) (xs : List (ℕ × Payload)) (c : Call)
      → (receive_one (delivered principal uuid r x) c).queue
        ≡ c.queue ++ (message (delivered principal uuid r x) ∷ [])
      → (received (sent xs) (receive_one (delivered principal uuid r x) c)).queue
        ≡ (receive_one (delivered principal uuid r x) c).queue ++ items xs
      → (received (sent (x ∷ xs)) c).queue ≡ c.queue ++ items (x ∷ xs)
  unfolding received
  received-cons x xs c one rest =
      rest
      ∙ ap (λ q. q ++ items xs) one
      ∙ append_assoc c.queue (message (delivered principal uuid r x) ∷ []) (items xs)

  -- What was published is what the call's queue gets.
  abbrev IsChained : Call → List (ℕ × Payload) → Type 0
  IsChained c ps = (received (sent ps) c).queue ≡ c.queue ++ items ps

  []-IsChained : (c : Call) → IsChained c []
  unfolding received
  []-IsChained c = rw append-nil refl

  -- One output, by its kind and what its publication did.
  publish_output-IsChained :
      (w : ℕ) (e : ProviderEvent) (es : List ProviderEvent) (c : Call)
      (again : ℕ → List (ℕ × Payload))
      → c.streaming ≡ true
      → c.receive ≡ some (open_behind r.request_seq w)
      → ((seq : ℕ) (d : Call)
          → d.streaming ≡ true
          → d.receive ≡ some (open_behind r.request_seq seq)
          → is_tail es ≡ true
          → IsChained d (again seq))
      → ((seq : ℕ) → es ≡ [] → again seq ≡ [])
      → (k : ProviderKind) (o : Option ℕ) → tail_at k es (is_tail es) ≡ true
      → IsChained c (publish_output (output_event r (some w) k e) o again)
  unfolding publish_output output_event
  publish_output-IsChained w e es c again streaming bound ih last append none tail = []-IsChained c
  publish_output-IsChained w e es c again streaming bound ih last append (some seq) tail =
      let (s, b, q) = receive_one-append c w seq e streaming bound in
      received-cons (seq, append_of r e w) (again seq) c q (ih seq _ s b tail)
  publish_output-IsChained w e [] c again streaming bound ih last completed none tail =
      []-IsChained c
  publish_output-IsChained w e [] c again streaming bound ih last completed (some seq) tail =
      received-cons (seq, end_of r "completed" e) (again seq) c
        (receive_one-end c w seq e "completed" streaming bound)
        (rw (last seq refl) ([]-IsChained _))
  publish_output-IsChained w e [] c again streaming bound ih last failed none tail = []-IsChained c
  publish_output-IsChained w e [] c again streaming bound ih last failed (some seq) tail =
      received-cons (seq, end_of r "failed" e) (again seq) c
        (receive_one-end c w seq e "failed" streaming bound) (rw (last seq refl) ([]-IsChained _))
  publish_output-IsChained w e es c again streaming bound ih last _ o tail = cc

  task_outputs-IsChained :
      (emit : ℕ → Option ℕ) (i w : ℕ) (es : List ProviderEvent) (c : Call)
      → c.streaming ≡ true
      → c.receive ≡ some (open_behind r.request_seq w)
      → is_tail es ≡ true
      → IsChained c (task_outputs r emit i (some w) es)
  unfolding task_outputs is_tail
  task_outputs-IsChained emit i w [] c streaming bound tail = []-IsChained c
  task_outputs-IsChained emit i w (e ∷ es) c streaming bound tail =
      publish_output-IsChained w e es c (λ seq. task_outputs r emit (suc i) (some seq) es) streaming
        bound (λ seq d s b t. task_outputs-IsChained emit (suc i) seq es d s b t)
        (λ seq empty. rw empty refl) e.kind (emit i) tail

  headers-IsChained :
      (emit : ℕ → Option ℕ) (e : ProviderEvent) (es : List ProviderEvent) (c : Call)
      → c.streaming ≡ true
      → e.has_body ≡ false
      → c.receive ≡ some (new_receive r.request_seq)
      → is_tail es ≡ true
      → (o : Option ℕ)
      → IsChained c
          (publish_output (some (result_of r e)) o (λ seq. task_outputs r emit 1 (some seq) es))
  unfolding publish_output
  headers-IsChained emit e es c streaming bodyless bound tail none = []-IsChained c
  headers-IsChained emit e es c streaming bodyless bound tail (some seq) =
      let (s, b, q) = receive_one-headers c seq e streaming bodyless bound in
      received-cons (seq, result_of r e) _ c q (task_outputs-IsChained emit 1 seq es _ s b tail)

  -- A task publishes the outputs of a streaming provider call, which are its headers, appends and at
  -- most one end. Wherever it breaks off, the requester's call, bound to the request and with an empty
  -- queue, queues every message that was published, in that order, and no protocol fault.
  pub task_outputs-received :
      (emit : ℕ → Option ℕ) (e : ProviderEvent) (es : List ProviderEvent) (c : Call)
      → c.streaming ≡ true
      → c.receive ≡ some (new_receive r.request_seq)
      → c.queue ≡ []
      → e.kind ≡ headers
      → e.has_body ≡ false
      → is_tail es ≡ true
      → let ps = task_outputs r emit 0 none (e ∷ es) in
        (received (map (delivered principal uuid r) ps) c).queue
        ≡ map (λ x. message (delivered principal uuid r x)) ps
  unfolding task_outputs output_event
  task_outputs-received emit e es c streaming bound empty kind bodyless tail = rw kind (
      headers-IsChained emit e es c streaming bodyless bound tail (emit 0)
      ∙ ap
          (λ q.
            q
            ++ items (
                publish_output (some (result_of r e)) (emit 0)
                  (λ seq. task_outputs r emit 1 (some seq) es)))
          empty)
