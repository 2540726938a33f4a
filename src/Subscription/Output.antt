-- ===== src/Subscription/Output.antt =====
-- `_accept_output_locked`: what a result, append, end or cancel does to the call that it belongs to.
use openevent_modules_model.Base.{
  ℕ, Bool, true, false, not, ◌&&◌, ◌==◌, none, some, [], ◌∷◌, ◌++◌, is_some, str_eq, if◌then◌else◌,
}
use openevent_modules_model.Models.Payload.{
  ParsedMessage, Payload, infer_request, infer_result, infer_append, infer_end, infer_cancel,
}
use openevent_modules_model.Subscription.State.{
  Call, ReceiveState, Subscription, message, protocol_fault, FaultKind, result_without_body,
  append_before_result, broken_chain, set_call,
}
use openevent_modules_model.Subscription.Locked.{detach_locked}

-- What the method decides before it touches the queue: to return at once, to queue a fault (which is
-- terminal), or to queue the message, with the new receive state.
pub data Verdict : Type 0 where
  ignore : Verdict
  faulty : FaultKind → Verdict
  accepted : ReceiveState → (terminal : Bool) → Verdict

unfoldable pub judge : Bool → ReceiveState → ℕ → Payload → Verdict
judge streaming r seq (infer_request p) = ignore
judge streaming r seq (infer_result p) =
    if r.head_seen
    then ignore
    else if not streaming && not (is_some p.body)
    then faulty result_without_body
    else if is_some p.body
    then accepted (record r { head_seen = true }) true
    else accepted (record r { head_seen = true; chain_seq = seq }) false
judge streaming r seq (infer_append p) =
    if not streaming
    then ignore
    else if not r.head_seen
    then faulty append_before_result
    else if not (p.prev_seq == r.chain_seq)
    then faulty broken_chain
    else accepted (record r { chain_seq = seq }) false
judge streaming r seq (infer_end p) = if streaming then accepted r true else ignore
judge streaming r seq (infer_cancel p) = if streaming then accepted r true else ignore

-- `call.result = message` for an accepted result, `call.completed = message` for a completed end.
abbrev note_result : ParsedMessage → Call → Call
note_result m c = elim m.payload [ infer_result _ ↦ record c { result = some m } | _ ↦ c ]

abbrev note_completed : ParsedMessage → Call → Call
note_completed m c = elim m.payload [
  | infer_end p ↦ if str_eq p.end_status "completed" then record c { completed = some m } else c
  | _ ↦ c
]

unfoldable pub note_message : ParsedMessage → Call → Call
note_message m c = note_completed m (note_result m c)

abbrev pub finish_receive : Call → Call
finish_receive c = elim c.receive [
  | none ↦ c
  | some r ↦ record c { receive = some (record r { terminal = true }) }
]

-- The call with the message, or with the fault, at the end of its queue.
unfoldable pub queued : Verdict → ParsedMessage → Call → Call
queued ignore m c = c
queued (faulty f) m c = record c { queue = c.queue ++ (protocol_fault f m ∷ []) }
queued (accepted r' terminal) m c =
    note_message m (record c { receive = some r'; queue = c.queue ++ (message m ∷ []) })

unfoldable pub apply_verdict : Verdict → ℕ → Call → ParsedMessage → Subscription → Subscription
apply_verdict ignore i c m s = s
apply_verdict (faulty f) i c m s = detach_locked i (queued (faulty f) m c) finish_receive s
apply_verdict (accepted r' terminal) i c m s =
    let c' = queued (accepted r' terminal) m c in
    if terminal then detach_locked i c' finish_receive s else set_call i c' s

unfoldable pub accept_output_locked :
    ℕ → Call → ReceiveState → ParsedMessage → Subscription → Subscription
accept_output_locked i c r m s = apply_verdict (judge c.streaming r m.seq m.payload) i c m s
