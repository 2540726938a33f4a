-- ===== src/Subscription/Refine.antt =====
-- `_accept` on the whole state: what it does to the call of a message, to other calls, to the cursor
-- and to a failed subscription.
use openevent_modules_model.Base.{ℕ, ◌≡◌, refl, true, false, Option, none, some, arith, str_eq}
use openevent_modules_model.Base.Dict.{Dict, get, get-put}
use openevent_modules_model.Models.Payload.{RawMessage, ParsedMessage, stream_id}
use openevent_modules_model.Subscription.State.{Call, ReceiveState, Subscription, set_call}
use openevent_modules_model.Subscription.Locked.{is_terminal, detach_locked}
use openevent_modules_model.Subscription.Output.{
  Verdict, ignore, faulty, accepted, judge, queued, apply_verdict, accept_output_locked,
}
use openevent_modules_model.Subscription.Accept.{
  find_call, deliver, accept_output, answered_seq, is_request, accept_message,
}
use openevent_modules_model.Subscription.Invariant.{IsValid}
use openevent_modules_model.Subscription.Delivery.{
  finished, receive_open, receive_from, receive_one,
}

apply_verdict-finished :
    (d : Verdict) (i : ℕ) (c : Call) (m : ParsedMessage) (s : Subscription)
    → get i s.calls ≡ some c
    → get i (apply_verdict d i c m s).calls ≡ some (finished d (queued d m c))
unfolding apply_verdict detach_locked set_call queued
apply_verdict-finished ignore i c m s here = here
apply_verdict-finished (faulty f) i c m s here =
    ground (arith, get-put i i (finished (faulty f) (queued (faulty f) m c)) s.calls)
apply_verdict-finished (accepted r true) i c m s here =
    ground (arith, get-put i i (finished (accepted r true) (queued (accepted r true) m c)) s.calls)
apply_verdict-finished (accepted r false) i c m s here =
    ground
      (arith, get-put i i (finished (accepted r false) (queued (accepted r false) m c)) s.calls)

deliver-receive_from :
    (m : ParsedMessage) (i : ℕ) (c : Call) (o : Option ReceiveState) (s : Subscription)
    → get i s.calls ≡ some c
    → is_terminal o ≡ false
    → str_eq (stream_id m.payload) c.stream_id ≡ true
    → get i (deliver m i c o s).calls ≡ some (receive_from o m c)
unfolding deliver receive_from receive_open accept_output_locked
deliver-receive_from m i c none s here live same = here
deliver-receive_from m i c (some r) s here live same =
    simp (same, live) (apply_verdict-finished (judge c.streaming r m.seq m.payload) i c m s here)

pub find_call-get :
    (i : ℕ) (d : Dict Call) {c : Call} → get i d ≡ some c → find_call (some i) d ≡ some (i, c)
unfolding find_call
find_call-get i d h = ground arith

-- In a valid subscription, a message that answers a bound call's request under the call's stream
-- id changes that call as `receive_one` says, moves the cursor to the message, and lets the
-- reader go on.
pub accept_message-receive_one :
    (raw : RawMessage) (m : ParsedMessage) (s : Subscription) (i : ℕ) (c : Call)
    → IsValid s
    → is_request m.payload ≡ false
    → get (answered_seq m.payload) s.receives_by_seq ≡ some i
    → get i s.calls ≡ some c
    → str_eq (stream_id m.payload) c.stream_id ≡ true
    → let (t, go_on) = accept_message raw m s in
      (get i t.calls ≡ some (receive_one m c)) × (t.last_seen_seq ≡ m.seq) × (go_on ≡ true)
unfolding accept_message accept_output receive_one
accept_message-receive_one raw m s i c v answer bound here same =
    let live : is_terminal c.receive ≡ false =
      ground (arith, v.seqs (answered_seq m.payload) i bound) in
    rw (answer, bound, find_call-get i s.calls here)
      (deliver-receive_from m i c c.receive s here live same, refl, refl)
