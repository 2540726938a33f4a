-- ===== src/Subscription/Client.antt =====
-- The methods of subscription.py that the client's threads call, each as what it does under the
-- lock. `wait` is a wait on the condition: the method is then run again.
use openevent_modules_model.Base.{
  ℕ, suc, ◌==◌, String, Bool, true, false, not, Option, none, some, [], ◌∷◌, Outcome, ok, err,
  is_some, if◌then◌else◌,
}
use openevent_modules_model.Base.Dict.{put, contains}
use openevent_modules_model.Publishing.Frozen.{FrozenPublication}
use openevent_modules_model.Subscription.State.{
  Call, ReceiveState, Subscription, SubscriptionError, Item, rpc, published_seq_differs, set_call,
}
use openevent_modules_model.Subscription.Locked.{
  detach_locked, invalidate_locked, fail_locked, request_failure,
}

-- `_check_locked`: raise the recorded error, or go on.
abbrev pub check_locked {ℓ} :
    {A : Type ℓ} → Subscription → Outcome SubscriptionError A → Outcome SubscriptionError A
check_locked s k = elim s.error [ some e ↦ err e | none ↦ k ]

-- The first locked part of `prepare`.
pub data Entry : Type 0 where
  raised : SubscriptionError → Entry
  ready : Entry
  starting : Subscription → Entry
  wait : Entry

unfoldable pub enter_checked : Option SubscriptionError → Subscription → Entry
enter_checked (some e) s = raised e
enter_checked none s =
    if is_some s.initial_from_seq
    then ready
    else if s.preparing
    then wait
    else starting (record s { preparing = true })

unfoldable pub prepare_enter : Subscription → Entry
prepare_enter s = enter_checked s.error s

-- The rest of `prepare`, by how its status RPC ended: the reader starts at the replay anchor, or the
-- subscription fails. In both cases `preparing` is reset.
unfoldable pub prepare_finish : Outcome (Option String) ℕ → Subscription → Subscription
prepare_finish (ok max_seq) s = record s {
  initial_from_seq = some max_seq;
  last_seen_seq = max_seq;
  preparing = false;
}
prepare_finish (err status) s = record (fail_locked (rpc status) s) { preparing = false }

abbrev pub new_call : String → Bool → Call
new_call stream_id streaming = record {
  stream_id = stream_id;
  streaming = streaming;
  frozen = none;
  request_seq = none;
  receive = none;
  queue = [];
  error = none;
  local_closed = false;
  result = none;
  completed = none;
  close_started = false;
  close_done = false;
}

-- `begin`: the identity of the new call, and the state with it.
unfoldable pub begun : String → Bool → Subscription → Subscription
begun stream_id streaming s =
    set_call s.next_id (new_call stream_id streaming) (record s { next_id = suc s.next_id })

unfoldable pub begin : String → Bool → Subscription → Outcome SubscriptionError (ℕ × Subscription)
begin stream_id streaming s = check_locked s (ok (s.next_id, begun stream_id streaming s))

-- What `register` raises: a subscription error, or `RuntimeError`.
pub data RegisterError : Type 0 where
  failed_already : SubscriptionError → RegisterError
  uuid_in_use : RegisterError

unfoldable pub registered : ℕ → Call → FrozenPublication → Subscription → Subscription
registered i c f s =
    set_call i (record c { frozen = some f })
      (record s { calls_by_uuid = put f.uuid i s.calls_by_uuid })

unfoldable pub register :
    ℕ → Call → FrozenPublication → Subscription → Outcome RegisterError Subscription
register i c f s = elim c.error [
  | some e ↦ err (failed_already e)
  | none ↦ elim s.error [
    | some e ↦ err (failed_already e)
    | none ↦ if contains f.uuid s.calls_by_uuid then err uuid_in_use else ok (registered i c f s)
  ]
]

abbrev pub received_other : Option ReceiveState → ℕ → Bool
received_other none seq = false
received_other (some r) seq = not (r.request_seq == seq)

unfoldable pub published : ℕ → Call → ℕ → Subscription → Subscription
published i c seq s =
    let c' = record c { request_seq = some seq } in
    let s' = set_call i c' s in
    if received_other c.receive seq
    then (let e = request_failure c' published_seq_differs in
        fail_locked e (invalidate_locked i c' e s'))
    else s'

abbrev pub dropped : Call → Call
dropped c = record c {
  local_closed = true;
  queue = [];
  result = none;
  completed = none;
  receive = none;
  error = none;
}

unfoldable pub publication_failed : ℕ → Call → Subscription → Subscription
publication_failed i c s = detach_locked i c dropped s

-- `next_message`
pub data Next : Type 0 where
  item : Item → Call → Next
  raised : SubscriptionError → Next
  stop_iteration : Next
  wait : Next

unfoldable pub next_message : Call → Next
next_message c = elim c.queue [
  | m ∷ rest ↦ item m (record c { queue = rest })
  | [] ↦ elim c.error [ some e ↦ raised e | none ↦ if c.local_closed then stop_iteration else wait ]
]

-- `check_stream_return`: raises only when nothing is queued.
unfoldable pub check_stream_return : Call → Outcome SubscriptionError (Unit {0})
check_stream_return c = elim c.queue [
  | m ∷ rest ↦ ok tt
  | [] ↦ elim c.error [ some e ↦ err e | none ↦ ok tt ]
]

-- The reader's branch for an exception of the stream: a retryable one of a connected stream leads to
-- the next round, any other is final.
unfoldable pub read_failed :
    (connected retryable : Bool) → Option String → Subscription → Subscription
read_failed connected retryable status s =
    if s.failed
    then s
    else if connected
    then (if retryable then s else fail_locked (rpc status) s)
    else fail_locked (rpc status) s
