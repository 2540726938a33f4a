-- ===== src/Worker/EndToEnd.antt =====
-- From the provider's answer to the client's iteration.
use openevent_modules_model.Base.{
  ℕ, ◌<◌, ◌≡◌, ◌≢◌, refl, sym, subst, ap, ◌∙◌, String, true, Option, some, List, [], ◌∷◌, map,
  Outcome, arith, length, length-append,
}
use openevent_modules_model.Models.Value.{Value, null}
use openevent_modules_model.Models.Payload.{
  Payload, ParsedMessage, infer_result, infer_append, infer_end, infer_request, infer_cancel,
}
use openevent_modules_model.Subscription.State.{Call, Item}
use openevent_modules_model.Subscription.Accept.{new_receive}
use openevent_modules_model.Subscription.Delivery.{received}
use openevent_modules_model.Client.Final.{EndsFinal, is_open}
use openevent_modules_model.Client.Stream.{iterate}
use openevent_modules_model.Client.Iterate.{
  appended, ending_of, with_queue, is_over, iterate-EndsFinal, appended-final, ending_of-is_over,
}
use openevent_modules_model.Worker.State.{RequestState}
use openevent_modules_model.Worker.Task.{provider_events, task_published}
use openevent_modules_model.Worker.Linked.{Linked, nothing, whole, head, more, last}
use openevent_modules_model.Worker.Linked.Published.{task_published-Linked}
use openevent_modules_model.Worker.Received.{sent, items, task_published-received}
use openevent_modules_model.Worker.Answer.{
  closes, append_bodies, event_bodies, emit, task_published-IsTail,
}
use openevent_modules_model.Provider.Events.{Raised, cancelled, Text, Yielded}
use openevent_modules_model.Provider.Call.{Response}
use openevent_modules_model.Provider.Shape.{CallShape, call_events-CallShape}

-- The JSON value that a chunk of the client is a view of.
abbrev pub chunk_body : ParsedMessage → Value
chunk_body m = elim m.payload [ infer_append p ↦ p.body | _ ↦ null ]

module _ (principal : ℕ) (uuid : ℕ → ℕ) (r : RequestState) where
  EndsFinal-cons : (x : Item) (q : List Item) → is_open x ≡ true → EndsFinal q → EndsFinal (x ∷ q)
  EndsFinal-cons x q h (xs, y, split, open_, final) =
      (x ∷ xs, y, ap (λ q. x ∷ q) split, (h, open_), final)

  Linked-EndsFinal :
      {w : Option ℕ} {ps : List (ℕ × Payload)}
      → Linked r w ps
      → closes ps ≡ true
      → EndsFinal (items principal uuid r ps)
  Linked-EndsFinal nothing h = cc
  Linked-EndsFinal (whole {seq} {p} named full) h = ([], _, refl, tt, h)
  Linked-EndsFinal (head {ps = []} streams named bodyless rest) h = ground (arith, h, bodyless)
  Linked-EndsFinal (head {ps = x ∷ ps} streams named bodyless rest) h =
      EndsFinal-cons _ _ (ground (arith, bodyless)) (Linked-EndsFinal rest h)
  Linked-EndsFinal (more {ps = []} streams named chained rest) h = cc
  Linked-EndsFinal (more {ps = x ∷ ps} streams named chained rest) h =
      EndsFinal-cons _ _ refl (Linked-EndsFinal rest h)
  Linked-EndsFinal (last streams named) h = ([], _, refl, tt, h)

  appended-items :
      (ps : List (ℕ × Payload))
      → map chunk_body (appended (items principal uuid r ps)) ≡ append_bodies ps
  unfolding appended
  appended-items [] = refl
  appended-items ((seq, infer_append p) ∷ ps) = ap (λ l. p.body ∷ l) (appended-items ps)
  appended-items ((seq, infer_request p) ∷ ps) = appended-items ps
  appended-items ((seq, infer_result p) ∷ ps) = appended-items ps
  appended-items ((seq, infer_end p) ∷ ps) = appended-items ps
  appended-items ((seq, infer_cancel p) ∷ ps) = appended-items ps

  module _ (decode : List ℕ → Option Text) (loads : Text → Option Value) (lower : String → String)
      (limit : ℕ) (check : Option Raised) (o : Outcome Raised Response) (seqs : ℕ → ℕ) where
    abbrev events : Yielded
    events = provider_events decode loads lower limit check o r

    -- What the task publishes when every publication succeeds, and the requester's call behind it.
    abbrev pub published : List (ℕ × Payload)
    published = task_published r (emit r seqs) events

    abbrev pub answered : Call → Call
    answered c = received (sent principal uuid r published) c

    pub answered-queue :
        (c : Call)
        → c.streaming ≡ r.streaming
        → c.receive ≡ some (new_receive r.request_seq)
        → c.queue ≡ []
        → (answered c).queue ≡ items principal uuid r published
    answered-queue c same bound empty =
        task_published-received principal uuid r decode loads lower limit check o (emit r seqs) c
          same bound empty

    shape : CallShape r.streaming events
    shape = call_events-CallShape decode loads lower limit r.path r.streaming check o

    -- When every publication of a task succeeds and its call is not cancelled, the requester's call
    -- gets an answer, whatever the provider did: its queue ends with one final item (a result with a
    -- body or an end), and the items before it leave the stream open.
    pub task_published-answers :
        (c : Call)
        → c.streaming ≡ r.streaming
        → c.receive ≡ some (new_receive r.request_seq)
        → c.queue ≡ []
        → events.1 ≢ some cancelled
        → EndsFinal (answered c).queue
    task_published-answers c same bound empty going =
        let (closing, bodies) =
          task_published-IsTail r seqs r.streaming events.0 events.1 shape going in
        subst EndsFinal (sym (answered-queue c same bound empty))
          (Linked-EndsFinal (task_published-Linked r (emit r seqs) events shape) closing)

    -- A client that iterates over the stream gets the bodies of the provider's events as its chunks, in
    -- their order, and then the iteration is over, within as many calls as the queue has items: when
    -- every publication of the task succeeds and its call is not cancelled.
    pub provider_call-iterated :
        (c : Call)
        → c.streaming ≡ r.streaming
        → c.receive ≡ some (new_receive r.request_seq)
        → c.queue ≡ []
        → events.1 ≢ some cancelled
        → let c' = answered c in
          let run = iterate (length c'.queue) c' in
          (map chunk_body run.0 ≡ event_bodies events.0) × (is_over run.1 ≡ true)
    provider_call-iterated c same bound empty going =
        let c' = answered c in
        let (closing, bodies) =
          task_published-IsTail r seqs r.streaming events.0 events.1 shape going in
        let (xs, x, split, open_, final) = task_published-answers c same bound empty going in
        let enough : length xs < length c'.queue =
          omega (arith, ap length split, length-append xs (x ∷ [])) in
        let run : iterate (length c'.queue) c' ≡ (appended xs, ending_of x (with_queue [] c')) =
          subst
            (λ q.
              iterate (length c'.queue) (with_queue q c')
              ≡ (appended xs, ending_of x (with_queue [] c')))
            (sym split) (iterate-EndsFinal (length c'.queue) xs x c' open_ final enough) in
        let same_bodies : map chunk_body (appended xs) ≡ event_bodies events.0 =
          ap (map chunk_body) (
            sym (appended-final xs x final)
            ∙ ap appended (sym split ∙ answered-queue c same bound empty))
          ∙ appended-items published
          ∙ bodies in
        rw run (same_bodies, ending_of-is_over x (with_queue [] c') final)
