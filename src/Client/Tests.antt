-- ===== src/Client/Tests.antt =====
-- A stream of one head, one append and a failed end; and outcomes.
use openevent_modules_model.Base.{ℕ, ◌≡◌, refl, true, false, none, some, List, [], ◌∷◌, arith}
use openevent_modules_model.Base.Dict.{get, put}
use openevent_modules_model.Models.Value.{null}
use openevent_modules_model.Models.Validate.{stream_id_matches, allowed_status, known_end_status}
use openevent_modules_model.Models.Payload.{
  ParsedMessage, Payload, InferEnd, infer_result, infer_append, infer_end,
}
use openevent_modules_model.Models.WellFormed.{IsWellFormed}
use openevent_modules_model.Subscription.State.{Call, Subscription, Item, message, set_call}
use openevent_modules_model.Subscription.Client.{new_call, begun, begin}
use openevent_modules_model.Subscription.Reach.{Reach, here, next, begins, init, Reach-IsValid}
use openevent_modules_model.Client.Errors.{ApiError}
use openevent_modules_model.Client.Stream.{context}
use openevent_modules_model.Client.Close.{closes, close_call, wants_cancel}
use openevent_modules_model.Client.Closed.{IsDetached, close_call-IsDetached}

abbrev message_at : ℕ → Payload → ParsedMessage
message_at seq payload = record {
  payload = payload;
  uuid = seq;
  seq = seq;
  channel_id = 1;
  principal = 3;
  recipients = 2 ∷ [];
  object_keys = [];
  ts_ms = 1000;
}

abbrev head_message : ParsedMessage
head_message = message_at 6 (
    infer_result
      (record { stream_id = "s"; prev_seq = 5; status_code = 200; headers = none; body = none }))

abbrev append_message : ParsedMessage
append_message =
    message_at 7
      (infer_append (record { stream_id = "s"; request_seq = 5; prev_seq = 6; body = null }))

abbrev interrupted : InferEnd
interrupted = record {
  stream_id = "s";
  request_seq = 5;
  status_code = 60003;
  end_status = "interrupted";
  body = some null;
}

abbrev end_message : ParsedMessage
end_message = message_at 8 (infer_end interrupted)

abbrev whole_queue : List Item
whole_queue = message head_message ∷ message append_message ∷ message end_message ∷ []

abbrev finished_call : Call
finished_call = record (new_call "s" true) { queue = whole_queue }

abbrev no_context : ApiError
no_context = context finished_call none

interrupted-valid : IsWellFormed (infer_end interrupted)
unfolding stream_id_matches allowed_status known_end_status
interrupted-valid = (refl, omega arith, refl, refl, refl)

abbrev begun_state : Subscription
begun_state = begun "s" true (init 1)

begun-Reach : Reach 1 begun_state
unfolding begin
begun-Reach = next here (begins "s" true 0 refl)

begun_state-call : get 0 begun_state.calls ≡ some (new_call "s" true)
unfolding begun set_call put get
begun_state-call = refl

abbrev closed_state : Subscription
closed_state = elim (close_call 0 (new_call "s" true) begun_state) [
  | closes cancel t ↦ t
  | _ ↦ begun_state
]

begun_state-closes : close_call 0 (new_call "s" true) begun_state ≡ closes false closed_state
unfolding close_call wants_cancel begun set_call
begun_state-closes = refl

close_call-IsDetached_example :
    IsDetached 0
      (new_call "s" true)
      begun_state
      (Reach-IsValid begun-Reach)
      begun_state-call
      closed_state
close_call-IsDetached_example =
    close_call-IsDetached 0 (new_call "s" true) begun_state (Reach-IsValid begun-Reach)
      begun_state-call begun_state-closes
