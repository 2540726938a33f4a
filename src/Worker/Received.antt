-- ===== src/Worker/Received.antt =====
-- The reader of the requester takes in a whole chain of publications.
use openevent_modules_model.Base.{
  ℕ, ◌≡◌, refl, sym, ap, ◌∙◌, String, true, false, Option, none, some, List, [], ◌∷◌, ◌++◌, map,
  arith, append-nil, append_assoc, is_some, Outcome,
}
use openevent_modules_model.Models.Value.{Value}
use openevent_modules_model.Models.Payload.{
  Payload, InferResult, InferAppend, InferEnd, infer_result, infer_append, infer_end, ParsedMessage,
}
use openevent_modules_model.Subscription.State.{Call, ReceiveState, Item, message}
use openevent_modules_model.Subscription.Output.{judge, queued}
use openevent_modules_model.Subscription.Accept.{new_receive}
use openevent_modules_model.Subscription.Delivery.{
  receive_open, receive_from, receive_one, received,
}
use openevent_modules_model.Subscription.Preserve.{note_message-fields}
use openevent_modules_model.Worker.State.{RequestState}
use openevent_modules_model.Worker.Chain.{delivered, open_behind}
use openevent_modules_model.Worker.Linked.{Linked, nothing, whole, head, more, last}
use openevent_modules_model.Worker.Linked.Published.{task_published-Linked}
use openevent_modules_model.Worker.Task.{TaskError, provider_events, task_published}
use openevent_modules_model.Provider.Events.{Raised, Text, Yielded}
use openevent_modules_model.Provider.Call.{Response}
use openevent_modules_model.Provider.Shape.{call_events-CallShape}

-- The receive state that matches the chain.
abbrev pub receive_behind : RequestState → Option ℕ → ReceiveState
receive_behind r none = new_receive r.request_seq
receive_behind r (some w) = open_behind r.request_seq w

module _ (principal : ℕ) (uuid : ℕ → ℕ) (r : RequestState) where
  abbrev pub sent : List (ℕ × Payload) → List ParsedMessage
  sent = map (delivered principal uuid r)

  abbrev pub items : List (ℕ × Payload) → List Item
  items = map (λ x. message (delivered principal uuid r x))

  -- A message that leaves the stream open.
  abbrev GoesOn : Call → ℕ → Payload → Type 0
  GoesOn c seq p =
      let m = delivered principal uuid r (seq, p) in
      let c' = receive_one m c in
      (c'.streaming ≡ true)
      × (c'.receive ≡ some (open_behind r.request_seq seq))
      × (c'.queue ≡ c.queue ++ (message m ∷ []))

  -- One that is queued, whatever follows.
  abbrev IsQueued : Call → ℕ → Payload → Type 0
  IsQueued c seq p =
      let m = delivered principal uuid r (seq, p) in
      (receive_one m c).queue ≡ c.queue ++ (message m ∷ [])

  receive_one-more :
      (c : Call) (w seq : ℕ) (p : InferAppend)
      → c.streaming ≡ true
      → c.receive ≡ some (open_behind r.request_seq w)
      → p.prev_seq ≡ w
      → GoesOn c seq (infer_append p)
  unfolding receive_one receive_from receive_open judge queued
  receive_one-more c w seq p streaming bound chained =
      let m = delivered principal uuid r (seq, infer_append p) in
      let c' = record c {
        receive = some (open_behind r.request_seq seq);
        queue = c.queue ++ (message m ∷ []);
      } in
      ground (arith, note_message-fields m c')

  receive_one-head :
      (c : Call) (seq : ℕ) (p : InferResult)
      → c.streaming ≡ true
      → c.receive ≡ some (new_receive r.request_seq)
      → is_some p.body ≡ false
      → GoesOn c seq (infer_result p)
  unfolding receive_one receive_from receive_open judge queued
  receive_one-head c seq p streaming bound bodyless =
      let m = delivered principal uuid r (seq, infer_result p) in
      let c' = record c {
        receive = some (open_behind r.request_seq seq);
        queue = c.queue ++ (message m ∷ []);
      } in
      ground (arith, note_message-fields m c')

  receive_one-whole :
      (c : Call) (seq : ℕ) (p : InferResult)
      → c.receive ≡ some (new_receive r.request_seq)
      → is_some p.body ≡ true
      → IsQueued c seq (infer_result p)
  unfolding receive_one receive_from receive_open judge queued
  receive_one-whole c seq p bound full =
      let m = delivered principal uuid r (seq, infer_result p) in
      let c' = record c {
        receive = some (record (new_receive r.request_seq) { head_seen = true });
        queue = c.queue ++ (message m ∷ []);
      } in
      ground (arith, note_message-fields m c')

  receive_one-last :
      (c : Call) (w : Option ℕ) (seq : ℕ) (p : InferEnd)
      → c.streaming ≡ true
      → c.receive ≡ some (receive_behind r w)
      → IsQueued c seq (infer_end p)
  unfolding receive_one receive_from receive_open judge queued
  receive_one-last c none seq p streaming bound =
      let m = delivered principal uuid r (seq, infer_end p) in
      let c' = record c {
        receive = some (new_receive r.request_seq);
        queue = c.queue ++ (message m ∷ []);
      } in
      ground (arith, note_message-fields m c')
  receive_one-last c (some w) seq p streaming bound =
      let m = delivered principal uuid r (seq, infer_end p) in
      let c' = record c {
        receive = some (open_behind r.request_seq w);
        queue = c.queue ++ (message m ∷ []);
      } in
      ground (arith, note_message-fields m c')

  pub Linked-received :
      {w : Option ℕ} {ps : List (ℕ × Payload)} (c : Call)
      → Linked r w ps
      → c.streaming ≡ r.streaming
      → c.receive ≡ some (receive_behind r w)
      → (received (sent ps) c).queue ≡ c.queue ++ items ps
  unfolding received
  Linked-received c nothing same bound = rw append-nil refl
  Linked-received c (whole {seq} {p} named full) same bound = receive_one-whole c seq p bound full
  Linked-received c (head {seq} {p} {ps} streams named bodyless rest) same bound =
      let (s, b, q) = receive_one-head c seq p (same ∙ streams) bound bodyless in
      Linked-received (receive_one (delivered principal uuid r (seq, infer_result p)) c) rest
        (s ∙ sym streams) b
      ∙ ap (λ q. q ++ items ps) q
      ∙ append_assoc c.queue (message (delivered principal uuid r (seq, infer_result p)) ∷ [])
          (items ps)
  Linked-received c (more {w} {seq} {p} {ps} streams named chained rest) same bound =
      let (s, b, q) = receive_one-more c w seq p (same ∙ streams) bound chained in
      Linked-received (receive_one (delivered principal uuid r (seq, infer_append p)) c) rest
        (s ∙ sym streams) b
      ∙ ap (λ q. q ++ items ps) q
      ∙ append_assoc c.queue (message (delivered principal uuid r (seq, infer_append p)) ∷ [])
          (items ps)
  Linked-received c (last {w} {seq} {p} streams named) same bound =
      receive_one-last c w seq p (same ∙ streams) bound

  module _ (decode : List ℕ → Option Text) (loads : Text → Option Value) (lower : String → String)
      (limit : ℕ) (check : Option Raised) (o : Outcome Raised Response) where
    abbrev events : Yielded
    events = provider_events decode loads lower limit check o r

    -- Whatever a provider answers and wherever its call or a publication breaks off: what the task
    -- publishes, its error event included, is queued whole, in that order and without a protocol fault
    -- by the requester's call, when that is bound to the request and has an empty queue.
    pub task_published-received :
        (emit : ℕ → Outcome TaskError ℕ) (c : Call)
        → c.streaming ≡ r.streaming
        → c.receive ≡ some (new_receive r.request_seq)
        → c.queue ≡ []
        → let ps = task_published r emit events in (received (sent ps) c).queue ≡ items ps
    task_published-received emit c same bound empty =
        let ps = task_published r emit events in
        let shape = call_events-CallShape decode loads lower limit r.path r.streaming check o in
        Linked-received c (task_published-Linked r emit events shape) same bound
        ∙ ap (λ q. q ++ items ps) empty
