-- ===== src/Subscription/Ended.antt =====
-- A call that has ended: no later message, and no failure, changes what its client sees.
use openevent_modules_model.Base.{
  ℕ, leb, ◌==◌, ◌≡◌, ◌≢◌, refl, Bool, true, false, ◌||◌, Option, none, some, List, Outcome, ok, err,
  arith, str_eq, if-both,
}
use openevent_modules_model.Base.Dict.{get, get-put}
use openevent_modules_model.Models.Value.{Value}
use openevent_modules_model.Models.Validate.{PayloadError}
use openevent_modules_model.Models.Payload.{
  Bytes, RawMessage, ParsedMessage, stream_id, parse_message,
}
use openevent_modules_model.Publishing.Frozen.{FrozenPublication}
use openevent_modules_model.Subscription.State.{
  Call, ReceiveState, Subscription, SubscriptionError, Item, protocol, invalid_message,
  request_differs, set_call,
}
use openevent_modules_model.Subscription.Locked.{
  is_terminal, detach_locked, invalidate_locked, invalidated, fail_call, fail_locked,
  request_failure,
}
use openevent_modules_model.Subscription.Output.{
  Verdict, ignore, faulty, accepted, judge, queued, apply_verdict, accept_output_locked,
}
use openevent_modules_model.Subscription.Accept.{
  same_request, find_call, bind_request, new_receive, match_request, accept_request, deliver,
  accept_output, answered_seq, is_request, accept_message, accept_parsed, accept_check, done_or,
  accept,
}
use openevent_modules_model.Subscription.Invariant.{IsValid, get-fail_calls}
use openevent_modules_model.Subscription.Delivery.{finished}
use openevent_modules_model.Subscription.AcceptValid.{find_call-some}

-- What a client sees of a call.
abbrev pub Seen : Type 0
Seen = List Item × Option SubscriptionError × Option ParsedMessage × Option ParsedMessage

abbrev pub seen : Option Call → Option Seen
seen none = none
seen (some c) = some (c.queue, c.error, c.result, c.completed)

-- A final failure changes nothing that a client sees of a call that has ended or is closed.
fail_locked-seen :
    (e : SubscriptionError) (s : Subscription) (i : ℕ) (c : Call)
    → get i s.calls ≡ some c
    → c.local_closed || is_terminal c.receive ≡ true
    → seen (get i (fail_locked e s).calls) ≡ seen (some c)
unfolding fail_locked fail_call
fail_locked-seen e s i c here done = ground (arith, get-fail_calls e s.calls i)

apply_verdict-other :
    (d : Verdict) (i j : ℕ) (c : Call) (m : ParsedMessage) (s : Subscription)
    → i ≢ j
    → get j (apply_verdict d i c m s).calls ≡ get j s.calls
unfolding apply_verdict detach_locked set_call queued
apply_verdict-other ignore i j c m s ne = refl
apply_verdict-other (faulty f) i j c m s ne =
    ground (arith, get-put i j (finished (faulty f) (queued (faulty f) m c)) s.calls)
apply_verdict-other (accepted r true) i j c m s ne =
    ground (arith, get-put i j (finished (accepted r true) (queued (accepted r true) m c)) s.calls)
apply_verdict-other (accepted r false) i j c m s ne =
    ground
      (arith, get-put i j (finished (accepted r false) (queued (accepted r false) m c)) s.calls)

deliver-other :
    (m : ParsedMessage) (i j : ℕ) (c : Call) (o : Option ReceiveState) (s : Subscription)
    → i ≢ j
    → get j (deliver m i c o s).calls ≡ get j s.calls
unfolding deliver accept_output_locked
deliver-other m i j c none s ne = refl
deliver-other m i j c (some r) s ne =
    if-both (λ (t : Subscription). get j t.calls ≡ get j s.calls)
      (str_eq (stream_id m.payload) c.stream_id)
      (λ _. apply_verdict-other (judge c.streaming r m.seq m.payload) i j c m s ne) (λ _. refl)

module _ (raw : RawMessage) (m : ParsedMessage) (s : Subscription) (v : IsValid s) (j : ℕ)
    (b : Call) (here : get j s.calls ≡ some b) (ended : is_terminal b.receive ≡ true) where
  abbrev Same : Subscription × Bool → Type 0
  Same r = seen (get j r.0.calls) ≡ seen (some b)

  match_request-seen :
      (i : ℕ) (c : Call) (f : Option FrozenPublication) → i ≢ j → Same (match_request raw m i c f s)
  unfolding match_request bind_request invalidate_locked detach_locked set_call
  match_request-seen i c none ne = rw here
  match_request-seen i c (some f) ne =
      if-both Same (same_request f c.request_seq raw m)
        (λ _. ground (
          arith,
          here,
          get-put i j (record c { receive = some (new_receive m.seq); frozen = none }) s.calls,
        ))
        (λ _.
          let e = request_failure c request_differs in
          fail_locked-seen e (invalidate_locked i c e s) j b
            (ground (arith, here, get-put i j (invalidated e (record c { frozen = none })) s.calls))
            (ground arith))

  accept_request-seen :
      (o : Option (ℕ × Call))
      → find_call (get m.uuid s.calls_by_uuid) s.calls ≡ o
      → Same (accept_request raw m o s)
  unfolding accept_request
  accept_request-seen none found = rw here
  accept_request-seen (some (i, c)) found =
      let (mine, _) = find_call-some _ s.calls found in
      match_request-seen i c c.frozen (λ e. ground (arith, v.uuids m.uuid i mine))

  accept_output-seen :
      (o : Option (ℕ × Call)) (n : ℕ)
      → find_call (get n s.receives_by_seq) s.calls ≡ o
      → Same (accept_output m o s)
  unfolding accept_output
  accept_output-seen none n found = rw here
  accept_output-seen (some (i, c)) n found =
      let (mine, _) = find_call-some _ s.calls found in
      rw (deliver-other m i j c c.receive s (λ e. ground (arith, v.seqs n i mine))) (rw here)

  accept_message-seen : Same (accept_message raw m s)
  unfolding accept_message
  accept_message-seen =
      if-both Same (is_request m.payload) (λ _. accept_request-seen _ refl)
        (λ _. accept_output-seen _ (answered_seq m.payload) refl)

-- The same for the whole method, with any result of the parse.
module _ (raw : RawMessage) (s : Subscription) (v : IsValid s) (j : ℕ) (b : Call)
    (here : get j s.calls ≡ some b) (ended : is_terminal b.receive ≡ true) where
  abbrev Kept : Subscription × Bool → Type 0
  Kept r = seen (get j r.0.calls) ≡ seen (some b)

  accept_parsed-seen : (r : Outcome PayloadError ParsedMessage) → Kept (accept_parsed raw r s)
  unfolding accept_parsed
  accept_parsed-seen (ok m) =
      if-both Kept s.failed (λ _. rw here) (λ _. accept_message-seen raw m s v j b here ended)
  accept_parsed-seen (err e) =
      if-both Kept s.failed (λ _. rw here)
        (λ _. fail_locked-seen (protocol (invalid_message e)) s j b here (ground arith))

  abbrev KeptCheck : Option (Subscription × Bool) → Type 0
  KeptCheck o = (k : Subscription × Bool) → Kept k → Kept (done_or o k)

  accept_check-seen : KeptCheck (accept_check raw s)
  unfolding accept_check
  accept_check-seen =
      if-both KeptCheck s.failed (λ _ k h. rw here)
        (λ _.
          if-both KeptCheck (leb raw.seq s.last_seen_seq) (λ _ k h. rw here)
            (λ _. if-both KeptCheck (raw.principal == 0) (λ _ k h. rw here) (λ _ k h. h)))

-- In a valid subscription, a call that has had its terminal item keeps its queue, error, result and
-- completed end whatever message the reader accepts next, also one that fails the subscription.
pub accept-ended :
    (loads : Bytes → Option Value) (raw : RawMessage) (s : Subscription) (j : ℕ) (b : Call)
    → IsValid s
    → get j s.calls ≡ some b
    → is_terminal b.receive ≡ true
    → seen (get j (accept loads raw s).0.calls) ≡ seen (some b)
unfolding accept
accept-ended loads raw s j b v here ended =
    accept_check-seen raw s v j b here ended (accept_parsed raw (parse_message loads raw) s)
      (accept_parsed-seen raw s v j b here ended (parse_message loads raw))
