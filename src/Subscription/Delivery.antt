-- ===== src/Subscription/Delivery.antt =====
-- What a call's queue receives over the life of its request, as a grammar of items that is stated
-- without the code's state. `received` is the queue's producer on one call: the reader delivers
-- messages to a call while its request is in the index, which is until its terminal item.
use openevent_modules_model.Base.{
  ℕ, ◌==◌, ◌≡◌, ◌≢◌, Bool, true, false, not, Option, none, some, List, [], ◌∷◌, ◌++◌, is_some,
  if◌then◌else◌,
}
use openevent_modules_model.Models.Payload.{
  ParsedMessage, Payload, infer_result, infer_append, infer_end, infer_cancel,
}
use openevent_modules_model.Subscription.State.{
  Call, ReceiveState, Item, message, protocol_fault, result_without_body, append_before_result,
  broken_chain,
}
use openevent_modules_model.Subscription.Output.{
  Verdict, ignore, faulty, accepted, judge, finish_receive, queued,
}

-- Where a request's stream stands: before its result, behind the chain element with the given seq,
-- or past its terminal item.
pub data Phase : Type 0 where
  waiting : Phase
  open_at : ℕ → Phase
  closed : Phase

-- A result that has, or that lacks, a body; an append that continues the chain; an end or a cancel.
abbrev pub is_result : Bool → Payload → Bool
is_result with_body (infer_result p) = if with_body then is_some p.body else not (is_some p.body)
is_result with_body _ = false

abbrev pub continues : ℕ → Payload → Bool
continues n (infer_append p) = p.prev_seq == n
continues n _ = false

abbrev pub is_append : Payload → Bool
is_append (infer_append _) = true
is_append _ = false

abbrev pub is_terminal_kind : Payload → Bool
is_terminal_kind (infer_end _) = true
is_terminal_kind (infer_cancel _) = true
is_terminal_kind _ = false

-- The item sequences of a request, by whether it streams, and the phase that they lead to. Nothing
-- follows a terminal item, since no rule starts from `closed`.
pub data Delivered (streaming : Bool) : List Item → Phase → Type 0 where
  start : Delivered streaming [] waiting
  -- a result with a body is the whole answer
  whole :
      {xs ys : List Item} (m : ParsedMessage)
      → Delivered streaming xs waiting
      → is_result true m.payload ≡ true
      → ys ≡ xs ++ (message m ∷ [])
      → Delivered streaming ys closed
  -- a result without one opens a stream, at its own seq
  head :
      {xs ys : List Item} (m : ParsedMessage)
      → Delivered streaming xs waiting
      → streaming ≡ true
      → is_result false m.payload ≡ true
      → ys ≡ xs ++ (message m ∷ [])
      → Delivered streaming ys (open_at m.seq)
  -- an append names the chain element before it
  append :
      {xs ys : List Item} {n : ℕ} (m : ParsedMessage)
      → Delivered streaming xs (open_at n)
      → streaming ≡ true
      → continues n m.payload ≡ true
      → ys ≡ xs ++ (message m ∷ [])
      → Delivered streaming ys (open_at m.seq)
  -- an end or a cancel, before or behind the result
  finish :
      {xs ys : List Item} {p : Phase} (m : ParsedMessage)
      → Delivered streaming xs p
      → p ≢ closed
      → streaming ≡ true
      → is_terminal_kind m.payload ≡ true
      → ys ≡ xs ++ (message m ∷ [])
      → Delivered streaming ys closed
  -- a result without a body for a request that does not stream
  bodyless :
      {xs ys : List Item} (m : ParsedMessage)
      → Delivered streaming xs waiting
      → streaming ≡ false
      → is_result false m.payload ≡ true
      → ys ≡ xs ++ (protocol_fault result_without_body m ∷ [])
      → Delivered streaming ys closed
  -- an append before the result
  early :
      {xs ys : List Item} (m : ParsedMessage)
      → Delivered streaming xs waiting
      → streaming ≡ true
      → is_append m.payload ≡ true
      → ys ≡ xs ++ (protocol_fault append_before_result m ∷ [])
      → Delivered streaming ys closed
  -- an append that names another element
  broken :
      {xs ys : List Item} {n : ℕ} (m : ParsedMessage)
      → Delivered streaming xs (open_at n)
      → streaming ≡ true
      → is_append m.payload ≡ true
      → continues n m.payload ≡ false
      → ys ≡ xs ++ (protocol_fault broken_chain m ∷ [])
      → Delivered streaming ys closed

abbrev pub phase_of : ReceiveState → Phase
phase_of r = if r.terminal then closed else if r.head_seen then open_at r.chain_seq else waiting

-- The call behind one message: `accept_output_locked` as far as it concerns the call.
abbrev pub finished : Verdict → Call → Call
finished ignore c = c
finished (faulty _) c = finish_receive (record c { frozen = none })
finished (accepted _ terminal) c =
    if terminal then finish_receive (record c { frozen = none }) else c

-- A call whose receive state is terminal is not found any more: `_accept_output_locked` takes it out of
-- `receives_by_seq`, and so the guard stands for that index here.
unfoldable pub receive_open : ReceiveState → ParsedMessage → Call → Call
receive_open r m c =
    if r.terminal
    then c
    else (let d = judge c.streaming r m.seq m.payload in finished d (queued d m c))

unfoldable pub receive_from : Option ReceiveState → ParsedMessage → Call → Call
receive_from none m c = c
receive_from (some r) m c = receive_open r m c

unfoldable pub receive_one : ParsedMessage → Call → Call
receive_one m c = receive_from c.receive m c

unfoldable pub received : List ParsedMessage → Call → Call
received [] c = c
received (m ∷ ms) c = received ms (receive_one m c)

-- The queue holds the items that led to the phase of the receive state.
abbrev pub IsOrderly : Call → Type 0
IsOrderly c = (r : ReceiveState) → c.receive ≡ some r → Delivered c.streaming c.queue (phase_of r)
