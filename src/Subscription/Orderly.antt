-- ===== src/Subscription/Orderly.antt =====
-- The queue that a call receives follows the grammar of `Delivered`.
use openevent_modules_model.Base.{
  ℕ, ◌==◌, ◌≡◌, refl, Bool, true, false, not, Option, none, some, List, [], ◌∷◌, ◌++◌, is_some,
  ◌&&◌, if-both, append-nil, arith, if◌then◌else◌,
}
use openevent_modules_model.Models.Payload.{
  ParsedMessage, Payload, infer_request, infer_result, infer_append, infer_end, infer_cancel,
}
use openevent_modules_model.Subscription.State.{Call, ReceiveState, Item, message, protocol_fault}
use openevent_modules_model.Subscription.Output.{Verdict, ignore, faulty, accepted, judge, queued}
use openevent_modules_model.Subscription.Preserve.{note_message-fields}
use openevent_modules_model.Subscription.Accept.{new_receive}
use openevent_modules_model.Subscription.Delivery.{
  Phase, waiting, open_at, closed, is_terminal_kind, Delivered, start, whole, head, append, finish,
  bodyless, early, broken, phase_of, finished, receive_open, receive_from, receive_one, received,
  IsOrderly,
}

-- What a verdict adds to the queue, and the phase behind it.
abbrev items : Verdict → ParsedMessage → List Item
items ignore m = []
items (faulty f) m = protocol_fault f m ∷ []
items (accepted _ _) m = message m ∷ []

abbrev after : ReceiveState → Verdict → Phase
after r ignore = phase_of r
after r (faulty _) = closed
after r (accepted r' terminal) = if terminal then closed else phase_of r'

module _ (streaming : Bool) (xs : List Item) (r : ReceiveState) (live : r.terminal ≡ false)
    (o : Delivered streaming xs (phase_of r)) where
  abbrev Extends : ParsedMessage → Verdict → Type 0
  Extends m d = Delivered streaming (xs ++ items d m) (after r d)

  unchanged : (m : ParsedMessage) → Extends m ignore
  unchanged m = rw append-nil o

  at_start : r.head_seen ≡ false → Delivered streaming xs waiting
  at_start h = rw (live, h) at o

  behind : r.head_seen ≡ true → Delivered streaming xs (open_at r.chain_seq)
  behind h = rw (live, h) at o

  closes :
      (m : ParsedMessage)
      → is_terminal_kind m.payload ≡ true
      → streaming ≡ true
      → Extends m (accepted r true)
  closes m k s = finish m o (ground arith) s k refl

  judge-Extends :
      (m : ParsedMessage) (p : Payload) → m.payload ≡ p → Extends m (judge streaming r m.seq p)
  unfolding judge
  judge-Extends m (infer_request p) e = unchanged m
  judge-Extends m (infer_result p) e =
      if-both (Extends m) r.head_seen (λ _. unchanged m)
        (λ h.
          if-both (Extends m) (not streaming && not (is_some p.body))
            (λ b. bodyless m (at_start h) (ground arith) (rw e (ground arith)) refl)
            (λ b.
              if-both (Extends m) (is_some p.body) (λ b. whole m (at_start h) (rw e b) refl)
                (λ n. rw live (head m (at_start h) (ground arith) (rw e (ground arith)) refl))))
  judge-Extends m (infer_append p) e =
      if-both (Extends m) (not streaming) (λ _. unchanged m)
        (λ s.
          if-both (Extends m) (not r.head_seen)
            (λ h. early m (at_start (ground arith)) (ground arith) (rw e) refl)
            (λ h.
              if-both (Extends m) (not (p.prev_seq == r.chain_seq))
                (λ b.
                  broken m (behind (ground arith)) (ground arith) (rw e) (rw e (ground arith)) refl)
                (λ b.
                  let seen : r.head_seen ≡ true = ground arith in
                  rw (live, seen)
                    (append m (behind seen) (ground arith) (rw e (ground arith)) refl))))
  judge-Extends m (infer_end p) e =
      if-both (Extends m) streaming (λ s. closes m (rw e) s) (λ _. unchanged m)
  judge-Extends m (infer_cancel p) e =
      if-both (Extends m) streaming (λ s. closes m (rw e) s) (λ _. unchanged m)

-- The call behind a verdict has the verdict's items and phase.
pub finished-fields :
    (d : Verdict) (r : ReceiveState) (m : ParsedMessage) (c : Call)
    → c.receive ≡ some r
    → let c' = finished d (queued d m c) in
      (c'.queue ≡ c.queue ++ items d m)
      × (c'.streaming ≡ c.streaming)
      × ((r' : ReceiveState) × (c'.receive ≡ some r') × (phase_of r' ≡ after r d))
unfolding queued
finished-fields ignore r m c bound = (rw append-nil, refl, (r, bound, refl))
finished-fields (faulty f) r m c bound =
    (ground arith, ground arith, (record r { terminal = true }, ground arith, refl))
finished-fields (accepted r' true) r m c bound =
    let noted =
      note_message-fields m (record c { receive = some r'; queue = c.queue ++ (message m ∷ []) }) in
    (
      ground (arith, noted),
      ground (arith, noted),
      (record r' { terminal = true }, ground (arith, noted), refl),
    )
finished-fields (accepted r' false) r m c bound =
    let noted =
      note_message-fields m (record c { receive = some r'; queue = c.queue ++ (message m ∷ []) }) in
    (ground (arith, noted), ground (arith, noted), (r', ground (arith, noted), refl))

receive_open-IsOrderly :
    (r : ReceiveState) (m : ParsedMessage) (c : Call)
    → c.receive ≡ some r
    → IsOrderly c
    → IsOrderly (receive_open r m c)
unfolding receive_open
receive_open-IsOrderly r m c bound o =
    if-both IsOrderly r.terminal (λ _. o)
      (λ live r2 bound2.
        let d = judge c.streaming r m.seq m.payload in
        let (queue, streaming, (r1, bound1, phase)) = finished-fields d r m c bound in
        let same : phase_of r2 ≡ after r d = ground arith in
        rw (queue, streaming, same)
          (judge-Extends c.streaming c.queue r live (o r bound) m m.payload refl))

receive_one-IsOrderly : (m : ParsedMessage) (c : Call) → IsOrderly c → IsOrderly (receive_one m c)
unfolding receive_one
receive_one-IsOrderly m c o = from c.receive refl
  where
    from : (r : Option ReceiveState) → c.receive ≡ r → IsOrderly (receive_from r m c)
    from none e = unfold receive_from in o
    from (some r) e = unfold receive_from in receive_open-IsOrderly r m c e o

received-IsOrderly : (ms : List ParsedMessage) (c : Call) → IsOrderly c → IsOrderly (received ms c)
unfolding received
received-IsOrderly [] c o = o
received-IsOrderly (m ∷ ms) c o =
    received-IsOrderly ms (receive_one m c) (receive_one-IsOrderly m c o)

-- A call that is bound to its request with an empty queue gets, whatever messages of any kind and
-- order arrive for it, a queue that the grammar derives with the phase of its receive state: at most
-- one result, appends that each name the chain element before them, and nothing behind a terminal
-- item.
pub received-Delivered :
    (ms : List ParsedMessage) (c : Call) (seq : ℕ)
    → c.receive ≡ some (new_receive seq)
    → c.queue ≡ []
    → IsOrderly (received ms c)
received-Delivered ms c seq bound empty =
    received-IsOrderly ms c
      (λ r e. let fresh : phase_of r ≡ waiting = ground arith in rw (empty, fresh) start)
