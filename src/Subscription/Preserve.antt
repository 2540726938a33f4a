-- ===== src/Subscription/Preserve.antt =====
-- Every operation of the subscription keeps its invariant.
use openevent_modules_model.Base.{
  ℕ, ◌≡◌, refl, String, Bool, true, false, ◌++◌, none, some, [], ◌∷◌, subst, arith, ok, Bool-cases,
  inl, inr,
}
use openevent_modules_model.Base.Dict.{get, contains, get-put, get-remove}
use openevent_modules_model.Publishing.Frozen.{FrozenPublication}
use openevent_modules_model.Models.Payload.{
  ParsedMessage, Payload, infer_request, infer_result, infer_append, infer_end, infer_cancel,
}
use openevent_modules_model.Subscription.State.{
  Call, ReceiveState, Subscription, SubscriptionError, set_call, message, protocol_fault,
}
use openevent_modules_model.Subscription.Locked.{
  stop_call_locked, invalidate_locked, close_locally, invalidated,
}
use openevent_modules_model.Subscription.Output.{
  Verdict, ignore, faulty, accepted, judge, apply_verdict, accept_output_locked, finish_receive,
  note_message, queued,
}
use openevent_modules_model.Subscription.Accept.{bind_request, new_receive}
use openevent_modules_model.Subscription.Client.{
  begin, begun, new_call, register, registered, dropped, received_other, published,
  publication_failed,
}
use openevent_modules_model.Subscription.Invariant.{
  IsValid, fail_locked-IsValid, detach_locked-IsValid, set_call-IsValid,
}

begun-IsValid :
    (stream_id : String) (streaming : Bool) (s : Subscription)
    → s.error ≡ none
    → IsValid s
    → IsValid (begun stream_id streaming s)
unfolding begun set_call
begun-IsValid stream_id streaming s alive v =
    let moved = λ (j : ℕ). get-put s.next_id j (new_call stream_id streaming) s.calls in
    record {
      failure = v.failure;
      uuids = λ u j h. ground (arith, v.uuids u j h, v.fresh s.next_id, moved j);
      seqs = λ n j h. ground (arith, v.seqs n j h, v.fresh s.next_id, moved j);
      fresh = λ j h. ground (arith, v.fresh j, moved j);
      no_uuids = v.no_uuids;
      no_seqs = v.no_seqs;
      settled = λ j h. ground (arith, v.failure);
    }

pub begin-IsValid :
    (stream_id : String) (streaming : Bool) (s : Subscription) {i : ℕ} {t : Subscription}
    → IsValid s
    → begin stream_id streaming s ≡ ok (i, t)
    → IsValid t
unfolding begin
begin-IsValid stream_id streaming s {i} {t} v h =
    let alive : s.error ≡ none = ground arith in
    let new : begun stream_id streaming s ≡ t = ground arith in
    subst IsValid new (begun-IsValid stream_id streaming s alive v)

-- An accepted message leaves the receive state bound to its request, and open.
abbrev Continues : Verdict → ReceiveState → Type 0
Continues ignore r = Unit
Continues (faulty _) r = Unit
Continues (accepted r' _) r = (r'.request_seq ≡ r.request_seq) × (r'.terminal ≡ r.terminal)

judge-Continues :
    (streaming : Bool) (r : ReceiveState) (seq : ℕ) (p : Payload)
    → Continues (judge streaming r seq p) r
unfolding judge
judge-Continues streaming r seq (infer_request p) = tt
judge-Continues streaming r seq (infer_result p) = ground arith
judge-Continues streaming r seq (infer_append p) = ground arith
judge-Continues streaming r seq (infer_end p) = ground arith
judge-Continues streaming r seq (infer_cancel p) = ground arith

-- Noting a message in the call touches neither what it waits for nor how it ends.
pub note_message-fields :
    (m : ParsedMessage) (c : Call)
    → let c' = note_message m c in
      (c'.receive ≡ c.receive)
      × (c'.frozen ≡ c.frozen)
      × (c'.error ≡ c.error)
      × (c'.local_closed ≡ c.local_closed)
      × (c'.queue ≡ c.queue)
      × (c'.streaming ≡ c.streaming)
unfolding note_message
note_message-fields m c = ground arith

module _ (i : ℕ) (c : Call) (s : Subscription) (v : IsValid s) (here : get i s.calls ≡ some c) where
  -- The detaching methods leave the call closed.
  pub stop_call_locked-IsValid : IsValid (stop_call_locked i c s)
  unfolding stop_call_locked
  stop_call_locked-IsValid =
      detach_locked-IsValid i s v c close_locally (λ e. cc) (rw here) (rw here) (λ _. refl)

  pub invalidate_locked-IsValid : (e : SubscriptionError) → IsValid (invalidate_locked i c e s)
  unfolding invalidate_locked
  invalidate_locked-IsValid e =
      detach_locked-IsValid i s v c (invalidated e) (λ e. cc) (rw here) (rw here) (λ _. refl)

  pub publication_failed-IsValid : IsValid (publication_failed i c s)
  unfolding publication_failed
  publication_failed-IsValid =
      detach_locked-IsValid i s v c dropped (λ e. cc) (rw here) (rw here) (λ _. refl)

  registered-IsValid :
      (f : FrozenPublication)
      → s.error ≡ none
      → contains f.uuid s.calls_by_uuid ≡ false
      → c.receive ≡ none
      → c.frozen ≡ none
      → IsValid (registered i c f s)
  unfolding registered set_call
  registered-IsValid f alive new unbound unregistered =
      let moved = λ (j : ℕ). get-put i j (record c { frozen = some f }) s.calls in
      let indexed = λ (u : ℕ). get-put f.uuid u i s.calls_by_uuid in
      record {
        failure = v.failure;
        uuids = λ u j h. ground (arith, v.uuids u j, here, moved j, indexed u);
        seqs = λ n j h. ground (arith, v.seqs n j h, here, moved j);
        fresh = λ j h. ground (arith, v.fresh j, here, moved j);
        no_uuids = λ u h. ground (arith, v.failure);
        no_seqs = v.no_seqs;
        settled = λ j h. ground (arith, v.failure);
      }

  -- A call is registered once, before anything is received for it.
  pub register-IsValid :
      (f : FrozenPublication) {t : Subscription}
      → c.receive ≡ none
      → c.frozen ≡ none
      → register i c f s ≡ ok t
      → IsValid t
  unfolding register
  register-IsValid f {t} unbound unregistered h =
      let alive : s.error ≡ none = ground arith in
      let new : contains f.uuid s.calls_by_uuid ≡ false = ground arith in
      let state : registered i c f s ≡ t = ground arith in
      subst IsValid state (registered-IsValid f alive new unbound unregistered)

  pub bind_request-IsValid :
      (f : FrozenPublication) (seq : ℕ)
      → s.failed ≡ false
      → c.frozen ≡ some f
      → get f.uuid s.calls_by_uuid ≡ some i
      → IsValid (bind_request i c f seq s)
  unfolding bind_request set_call
  bind_request-IsValid f seq alive frozen mine =
      let c' = record c { receive = some (new_receive seq); frozen = none } in
      let moved = λ (j : ℕ). get-put i j c' s.calls in
      let bound = λ (n : ℕ). get-put seq n i s.receives_by_seq in
      let left = λ (u : ℕ). get-remove f.uuid u s.calls_by_uuid in
      record {
        failure = v.failure;
        uuids = λ u j h. ground (arith, v.uuids u j, v.uuids f.uuid i mine, here, moved j, left u);
        seqs = λ n j h. ground (arith, v.seqs n j, v.uuids f.uuid i mine, here, moved j, bound n);
        fresh = λ j h. ground (arith, v.fresh j, here, moved j);
        no_uuids = λ u h. cc;
        no_seqs = λ n h. cc;
        settled = λ j h. cc;
      }

  published-set : (seq : ℕ) → IsValid (set_call i (record c { request_seq = some seq }) s)
  published-set seq =
      set_call-IsValid i c s v here (record c { request_seq = some seq }) refl refl refl
        (λ h. ground (arith, v.settled i h))

  pub apply_verdict-IsValid :
      (d : Verdict) (r : ReceiveState) (m : ParsedMessage)
      → c.receive ≡ some r
      → Continues d r
      → IsValid (apply_verdict d i c m s)
  unfolding apply_verdict queued
  apply_verdict-IsValid ignore r m bound k = v
  apply_verdict-IsValid (faulty f) r m bound k =
      detach_locked-IsValid i s v (record c { queue = c.queue ++ (protocol_fault f m ∷ []) })
        finish_receive (λ e. cc) (rw here) (rw here) (λ _. ground arith)
  apply_verdict-IsValid (accepted r' true) r m bound k =
      let c' = record c { receive = some r'; queue = c.queue ++ (message m ∷ []) } in
      let noted = note_message-fields m c' in
      detach_locked-IsValid i s v (note_message m c') finish_receive (λ e. cc)
        (ground (arith, noted)) (ground (arith, noted)) (λ _. ground (arith, noted))
  apply_verdict-IsValid (accepted r' false) r m bound k =
      let c' = record c { receive = some r'; queue = c.queue ++ (message m ∷ []) } in
      let noted = note_message-fields m c' in
      set_call-IsValid i c s v here (note_message m c') (ground (arith, noted))
        (ground (arith, noted)) (ground (arith, noted)) (λ h. ground (arith, noted, v.settled i h))

  -- A result, append, end or cancel for the call.
  pub accept_output_locked-IsValid :
      (r : ReceiveState) (m : ParsedMessage)
      → c.receive ≡ some r
      → IsValid (accept_output_locked i c r m s)
  unfolding accept_output_locked
  accept_output_locked-IsValid r m bound =
      apply_verdict-IsValid (judge c.streaming r m.seq m.payload) r m bound
        (judge-Continues c.streaming r m.seq m.payload)

-- The publisher's conclusion, whether or not it contradicts the subscribed request.
pub published-IsValid :
    (i : ℕ) (c : Call) (s : Subscription) (seq : ℕ)
    → IsValid s
    → get i s.calls ≡ some c
    → IsValid (published i c seq s)
unfolding published
published-IsValid i c s seq v here = elim (Bool-cases (received_other c.receive seq)) [
  | inl differs ↦ rw differs (
      fail_locked-IsValid _ _ (
        invalidate_locked-IsValid i (record c { request_seq = some seq })
          (set_call i (record c { request_seq = some seq }) s) (published-set i c s v here seq)
          (unfold set_call in
            ground (arith, get-put i i (record c { request_seq = some seq }) s.calls))
          _))
  | inr same ↦ rw same (published-set i c s v here seq)
]
