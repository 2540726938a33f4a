-- ===== src/Client/Iterate.antt =====
-- Iterating over a stream whose call has had its terminal item.
use openevent_modules_model.Base.{
  ℕ, zero, suc, ◌<◌, ◌≡◌, refl, ap, ◌∙◌, Bool, true, false, ◌||◌, Option, none, some, List, [], ◌∷◌,
  ◌++◌, if◌then◌else◌, if-both, is_some, arith, length, Bool-cases, inl, inr,
}
use openevent_modules_model.Models.Payload.{
  ParsedMessage, Payload, infer_request, infer_result, infer_append, infer_end, infer_cancel,
}
use openevent_modules_model.Subscription.State.{Call, Item, message, protocol_fault}
use openevent_modules_model.Subscription.Client.{next_message}
use openevent_modules_model.Subscription.Delivery.{is_result, is_append, is_terminal_kind}
use openevent_modules_model.Client.Errors.{ApiError}
use openevent_modules_model.Client.Stream.{
  StreamNext, chunk, waits, read_payload, read_item, read_next, pull, stream_next, continued,
  iterate, Ending, stops_or, exhausted, raises,
}
use openevent_modules_model.Client.Final.{is_final, AllOpen}

-- The appends among the items, in their order.
unfoldable pub appended : List Item → List ParsedMessage
appended [] = []
appended (message m ∷ q) = let rest = appended q in if is_append m.payload then m ∷ rest else rest
appended (protocol_fault f m ∷ q) = appended q

-- How the client reads the last item of the queue.
unfoldable pub ending_of : Item → Call → Ending
ending_of x c = (continued (λ d. ([], Ending.blocked)) (read_item x c waits)).1

abbrev pub with_queue : List Item → Call → Call
with_queue q c = record c { queue = q }

read_payload-append :
    (p : Payload) (m : ParsedMessage) (c : Call) (again : StreamNext)
    → is_append p ≡ true
    → read_payload p m c again ≡ chunk m c
unfolding read_payload
read_payload-append (infer_append p) m c again h = refl
read_payload-append _ m c again h = cc

read_payload-head :
    (p : Payload) (m : ParsedMessage) (c : Call) (again : StreamNext)
    → is_result false p ≡ true
    → read_payload p m c again ≡ again
unfolding read_payload
read_payload-head (infer_result p) m c again h = ground arith
read_payload-head _ m c again h = cc

stream_next-item :
    (x : Item) (q : List Item) (c : Call)
    → stream_next false (with_queue (x ∷ q) c)
      ≡ read_item x (with_queue q c) (stream_next false (with_queue q c))
unfolding stream_next pull read_next next_message
stream_next-item x q c = refl

-- Past the final item nothing is read.
read_payload-final :
    (p : Payload) (m : ParsedMessage) (c : Call) (again : StreamNext)
    → is_terminal_kind p || is_result true p ≡ true
    → read_payload p m c again ≡ read_payload p m c waits
unfolding read_payload
read_payload-final (infer_request p) m c again h = cc
read_payload-final (infer_result p) m c again h = ground arith
read_payload-final (infer_append p) m c again h = cc
read_payload-final (infer_end p) m c again h = refl
read_payload-final (infer_cancel p) m c again h = refl

-- A final item yields no chunk.
abbrev EndsAt : StreamNext → Type 0
EndsAt r =
    (k : Call → List ParsedMessage × Ending)
    → continued k r ≡ ([], (continued (λ d. ([], Ending.blocked)) r).1)

classified-EndsAt : (o : Option ApiError) → EndsAt (stops_or o)
classified-EndsAt none k = refl
classified-EndsAt (some e) k = refl

read_payload-EndsAt :
    (p : Payload) (m : ParsedMessage) (c : Call)
    → is_terminal_kind p || is_result true p ≡ true
    → EndsAt (read_payload p m c waits)
unfolding read_payload
read_payload-EndsAt (infer_request p) m c h = λ k. refl
read_payload-EndsAt (infer_result p) m c h =
    if-both EndsAt (is_some p.body) (λ _. classified-EndsAt _) (λ _ k. refl)
read_payload-EndsAt (infer_append p) m c h = λ k. cc
read_payload-EndsAt (infer_end p) m c h = classified-EndsAt _
read_payload-EndsAt (infer_cancel p) m c h = λ k. refl

read_item-final :
    (x : Item) (c : Call) (again : StreamNext) (k : Call → List ParsedMessage × Ending)
    → is_final x ≡ true
    → continued k (read_item x c again) ≡ ([], ending_of x c)
unfolding read_item ending_of
read_item-final (message m) c again k h =
    rw (read_payload-final m.payload m c again h) (read_payload-EndsAt m.payload m c h k)
read_item-final (protocol_fault f m) c again k h = refl

iterate-item :
    (n : ℕ) (x : Item) (q : List Item) (c : Call)
    → iterate (suc n) (with_queue (x ∷ q) c)
      ≡ continued
          (λ d. iterate n d)
          (read_item x (with_queue q c) (stream_next false (with_queue q c)))
unfolding iterate
iterate-item n x q c = ap (continued (λ d. iterate n d)) (stream_next-item x q c)

iterate-append :
    (n : ℕ) (m : ParsedMessage) (q : List Item) (c : Call)
    → is_append m.payload ≡ true
    → iterate (suc n) (with_queue (message m ∷ q) c)
      ≡ ((m ∷ (iterate n (with_queue q c)).0), (iterate n (with_queue q c)).1)
unfolding read_item
iterate-append n m q c h =
    iterate-item n (message m) q c
    ∙ ap (continued (λ d. iterate n d))
        (read_payload-append m.payload m (with_queue q c) (stream_next false (with_queue q c)) h)

iterate-head :
    (n : ℕ) (m : ParsedMessage) (q : List Item) (c : Call)
    → is_result false m.payload ≡ true
    → iterate (suc n) (with_queue (message m ∷ q) c) ≡ iterate (suc n) (with_queue q c)
unfolding read_item iterate
iterate-head n m q c h =
    iterate-item n (message m) q c
    ∙ ap (continued (λ d. iterate n d))
        (read_payload-head m.payload m (with_queue q c) (stream_next false (with_queue q c)) h)

pub iterate-EndsFinal :
    (n : ℕ) (xs : List Item) (x : Item) (c : Call)
    → AllOpen xs
    → is_final x ≡ true
    → length xs < n
    → iterate n (with_queue (xs ++ (x ∷ [])) c) ≡ (appended xs, ending_of x (with_queue [] c))
unfolding appended
iterate-EndsFinal zero xs x c quiet final enough = absurd (omega arith)
iterate-EndsFinal (suc n) [] x c quiet final enough =
    iterate-item n x [] c ∙ read_item-final x (with_queue [] c) _ _ final
iterate-EndsFinal (suc n) (message m ∷ xs) x c (open_, quiet) final enough =
    elim (Bool-cases (is_append m.payload)) [
      | inl more ↦ rw more (
          iterate-append n m (xs ++ (x ∷ [])) c more
          ∙ ap (λ (r : List ParsedMessage × Ending). (m ∷ r.0, r.1))
              (iterate-EndsFinal n xs x c quiet final (omega arith)))
      | inr other ↦ rw other (
          iterate-head n m (xs ++ (x ∷ [])) c (ground arith)
          ∙ iterate-EndsFinal (suc n) xs x c quiet final (omega arith))
    ]
iterate-EndsFinal (suc n) (protocol_fault f m ∷ xs) x c (open_, quiet) final enough = cc

-- The appends of a queue that ends with its final item: those before it.
pub appended-final :
    (xs : List Item) (x : Item) → is_final x ≡ true → appended (xs ++ (x ∷ [])) ≡ appended xs
unfolding appended
appended-final [] (message m) h = ground arith
appended-final [] (protocol_fault f m) h = refl
appended-final (message m ∷ xs) x h = rw (appended-final xs x h) refl
appended-final (protocol_fault f m ∷ xs) x h = appended-final xs x h

-- The iteration is over: it stops, or raises for its outcome.
abbrev pub is_over : Ending → Bool
is_over exhausted = true
is_over (raises e) = true
is_over _ = false

abbrev ending : StreamNext → Ending
ending r = (continued (λ d. ([], Ending.blocked)) r).1

stops_or-is_over : (o : Option ApiError) → is_over (ending (stops_or o)) ≡ true
stops_or-is_over none = refl
stops_or-is_over (some e) = refl

read_payload-is_over :
    (p : Payload) (m : ParsedMessage) (c : Call)
    → is_terminal_kind p || is_result true p ≡ true
    → is_over (ending (read_payload p m c waits)) ≡ true
unfolding read_payload
read_payload-is_over (infer_request p) m c h = cc
read_payload-is_over (infer_result p) m c h = rw h (stops_or-is_over _)
read_payload-is_over (infer_append p) m c h = cc
read_payload-is_over (infer_end p) m c h = stops_or-is_over _
read_payload-is_over (infer_cancel p) m c h = refl

pub ending_of-is_over : (x : Item) (c : Call) → is_final x ≡ true → is_over (ending_of x c) ≡ true
unfolding ending_of read_item
ending_of-is_over (message m) c h = read_payload-is_over m.payload m c h
ending_of-is_over (protocol_fault f m) c h = refl
