-- ===== src/Subscription/Tests.antt =====
-- One streaming call from its begin to its end, on concrete messages.
use openevent_modules_model.Base.{
  ℕ, ◌≡◌, ◌≢◌, ◌≤◌, refl, ◌⊎◌, true, false, none, some, [], ◌∷◌, ok, arith,
}
use openevent_modules_model.Base.Dict.{get, put, remove}
use openevent_modules_model.Models.Value.{null, done, dict}
use openevent_modules_model.Models.Payload.{
  Bytes, RawMessage, ParsedMessage, Payload, infer_request, infer_result, infer_append, infer_end,
}
use openevent_modules_model.Publishing.Frozen.{FrozenPublication}
use openevent_modules_model.Subscription.State.{
  Call, Subscription, SubscriptionError, Item, set_call, request_differs,
}
use openevent_modules_model.Subscription.Locked.{
  detach_locked, fail_locked, fail_calls, fail_call, forget_frozen, forget_receive, request_failure,
}
use openevent_modules_model.Subscription.Output.{
  judge, queued, note_message, apply_verdict, accept_output_locked,
}
use openevent_modules_model.Subscription.Accept.{
  same_request, find_call, new_receive, bind_request, match_request, accept_request, deliver,
  accept_output, accept_message, accept_parsed, accept,
}
use openevent_modules_model.Subscription.Client.{
  new_call, begun, begin, registered, register, read_failed, wait, next_message,
}
use openevent_modules_model.Subscription.Invariant.{IsValid}
use openevent_modules_model.Subscription.Reach.{
  Reach, here, next, begins, registers, accepts, breaks, init, Reach-IsValid,
}
use openevent_modules_model.Subscription.Delivery.{IsOrderly, received, receive_one}
use openevent_modules_model.Subscription.Orderly.{received-Delivered}
use openevent_modules_model.Subscription.Refine.{accept_message-receive_one}
use openevent_modules_model.Subscription.Ended.{seen, accept-ended}
use openevent_modules_model.Subscription.Failure.{
  error_at, is_closed_at, failed-next_message, accept-cursor, accept_message-mismatch,
}

abbrev message_of : ℕ → ℕ → Payload → ParsedMessage
message_of seq uuid payload = record {
  payload = payload;
  uuid = uuid;
  seq = seq;
  channel_id = 1;
  principal = 2;
  recipients = [];
  object_keys = [];
  ts_ms = 1000;
}

abbrev raw_of : ℕ → ℕ → Bytes → RawMessage
raw_of seq uuid payload = record {
  seq = seq;
  uuid = uuid;
  channel_id = 1;
  principal = 2;
  recipients = [];
  object_keys = [];
  payload = payload;
  ts_ms = 1000;
}

abbrev request_message : ParsedMessage
request_message = message_of 5 99 (
    infer_request (record {
      stream_id = "stream_1";
      path = "/v1/responses";
      provider = none;
      stream = true;
      body = dict done;
    }))

abbrev head_message : ParsedMessage
head_message = message_of 6 100 (
    infer_result (record {
      stream_id = "stream_1";
      prev_seq = 5;
      status_code = 200;
      headers = none;
      body = none;
    }))

abbrev append_message : ParsedMessage
append_message =
    message_of 7 101
      (infer_append (record { stream_id = "stream_1"; request_seq = 5; prev_seq = 6; body = null }))

abbrev end_message : ParsedMessage
end_message = message_of 8 102 (
    infer_end (record {
      stream_id = "stream_1";
      request_seq = 5;
      status_code = 200;
      end_status = "completed";
      body = none;
    }))

abbrev frozen : FrozenPublication
frozen = record {
  uuid = 99;
  payload = 1 ∷ [];
  channel_id = 1;
  principal = 2;
  recipients = [];
  object_keys = [];
}

abbrev call : Call
call = new_call "stream_1" true

abbrev registered_call : Call
registered_call = record call { frozen = some frozen }

abbrev bound_call : Call
bound_call = record call { receive = some (new_receive 5) }

abbrev registered_state : Subscription
registered_state = registered 0 call frozen (begun "stream_1" true (init 1))

abbrev bound_state : Subscription
bound_state = (accept_parsed (raw_of 5 99 (1 ∷ [])) (ok request_message) registered_state).0

abbrev ended_state : Subscription
ended_state = (accept_parsed (raw_of 8 102 []) (ok end_message) bound_state).0

abbrev ended_call : Call
ended_call = receive_one end_message bound_call

abbrev failed_state : Subscription
failed_state = read_failed false false none bound_state

registered-Reach : Reach 1 registered_state
unfolding begin register begun registered set_call put get
registered-Reach =
    next (next here (begins "stream_1" true 0 refl)) (registers 0 call frozen refl refl refl refl)

bound-Reach : Reach 1 bound_state
bound-Reach = next registered-Reach (accepts (raw_of 5 99 (1 ∷ [])) (ok request_message) refl)

ended-Reach : Reach 1 ended_state
ended-Reach = next bound-Reach (accepts (raw_of 8 102 []) (ok end_message) refl)

failed-Reach : Reach 1 failed_state
failed-Reach = next bound-Reach (breaks false false none refl)

Reach-IsValid_example : IsValid bound_state
Reach-IsValid_example = Reach-IsValid bound-Reach

received-Delivered_example :
    IsOrderly (received (head_message ∷ append_message ∷ end_message ∷ []) bound_call)
received-Delivered_example =
    received-Delivered (head_message ∷ append_message ∷ end_message ∷ []) bound_call 5 refl refl

bound_state-call : get 0 bound_state.calls ≡ some bound_call
unfolding accept_parsed accept_message accept_request find_call match_request same_request
    bind_request registered begun set_call put get remove
bound_state-call = refl

bound_state-seq : get 5 bound_state.receives_by_seq ≡ some 0
unfolding accept_parsed accept_message accept_request find_call match_request same_request
    bind_request registered begun set_call put get remove
bound_state-seq = refl

accept_message-receive_one_example :
    let (t, go_on) = accept_message (raw_of 6 100 []) head_message bound_state in
    (get 0 t.calls ≡ some (receive_one head_message bound_call))
    × (t.last_seen_seq ≡ 6)
    × (go_on ≡ true)
accept_message-receive_one_example =
    accept_message-receive_one (raw_of 6 100 []) head_message bound_state 0 bound_call
      (Reach-IsValid bound-Reach) refl bound_state-seq bound_state-call refl

abbrev closed_call : Call
closed_call = record bound_call {
  receive = some (record (new_receive 5) { terminal = true });
  queue = Item.message end_message ∷ [];
  completed = some end_message;
}

ended_state-call : get 0 ended_state.calls ≡ some closed_call
unfolding accept_parsed accept_message accept_request accept_output deliver accept_output_locked
    apply_verdict judge queued note_message detach_locked forget_frozen forget_receive find_call
    match_request same_request bind_request registered begun set_call put get remove
ended_state-call = refl

accept-ended_example :
    seen (get 0 (accept (λ payload. none) (raw_of 9 103 []) ended_state).0.calls)
    ≡ seen (some closed_call)
accept-ended_example =
    accept-ended (λ payload. none) (raw_of 9 103 []) ended_state 0 closed_call
      (Reach-IsValid ended-Reach) ended_state-call refl

abbrev failed_call : Call
failed_call = record bound_call { error = some (SubscriptionError.rpc none) }

failed_state-call : get 0 failed_state.calls ≡ some failed_call
unfolding read_failed fail_locked fail_calls fail_call accept_parsed accept_message accept_request
    find_call match_request same_request bind_request registered begun set_call put get remove
failed_state-call = refl

failed_state-failed : failed_state.failed ≡ true
unfolding read_failed fail_locked accept_parsed accept_message accept_request find_call
    match_request same_request bind_request registered begun set_call put get remove
failed_state-failed = refl

failed-next_message_example : next_message failed_call ≢ wait
failed-next_message_example =
    failed-next_message 1 failed_state 0 failed_call failed-Reach failed_state-failed
      failed_state-call refl

bound_state-cursor : bound_state.last_seen_seq ≡ 5
unfolding accept_parsed accept_message accept_request find_call match_request same_request
    bind_request registered begun set_call put get remove
bound_state-cursor = refl

bound_state-replayed : 5 ≤ bound_state.last_seen_seq
bound_state-replayed = omega (arith, bound_state-cursor)

accept-cursor_example :
    let (t, go_on) = accept (λ payload. none) (raw_of 9 103 []) bound_state in
    (bound_state.last_seen_seq ≤ t.last_seen_seq) × ((go_on ≡ false) ⊎ (9 ≤ t.last_seen_seq))
accept-cursor_example =
    accept-cursor (λ payload. none) (raw_of 9 103 []) bound_state (Reach-IsValid bound-Reach)

registered_state-uuid : get 99 registered_state.calls_by_uuid ≡ some 0
unfolding registered begun set_call put get
registered_state-uuid = refl

registered_state-call : get 0 registered_state.calls ≡ some registered_call
unfolding registered begun set_call put get
registered_state-call = refl

registered_state-failed : registered_state.failed ≡ false
unfolding registered begun set_call
registered_state-failed = refl

request-same : same_request frozen none (raw_of 5 99 (1 ∷ [])) request_message ≡ true
unfolding same_request
request-same = refl

request-differs : same_request frozen none (raw_of 5 99 (2 ∷ [])) request_message ≡ false
unfolding same_request
request-differs = refl

accept_message-mismatch_example :
    let (t, go_on) = accept_message (raw_of 5 99 (2 ∷ [])) request_message registered_state in
    (t.failed ≡ true)
    × (error_at (get 0 t.calls) ≡ some (request_failure registered_call request_differs))
    × (is_closed_at (get 0 t.calls) ≡ true)
    × (t.error ≡ some (request_failure registered_call request_differs))
    × (t.last_seen_seq ≡ registered_state.last_seen_seq)
    × (go_on ≡ false)
accept_message-mismatch_example =
    accept_message-mismatch (raw_of 5 99 (2 ∷ [])) request_message registered_state 0
      registered_call frozen (Reach-IsValid registered-Reach) registered_state-failed refl
      registered_state-uuid registered_state-call refl request-differs
