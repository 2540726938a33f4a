-- ===== src/Subscription/Failure.antt =====
-- The cursor, the binding of a request, and what a client finds after a final failure.
use openevent_modules_model.Base.{
  ℕ, ◌≤◌, leb, ◌==◌, ◌≡◌, ◌≢◌, refl, Bool, true, false, not, Option, none, some, ◌⊎◌, inl, inr,
  Outcome, ok, err, ap, subst, arith, if-both,
}
use openevent_modules_model.Base.Dict.{get, get-put, get-remove}
use openevent_modules_model.Models.Value.{Value}
use openevent_modules_model.Models.Validate.{PayloadError}
use openevent_modules_model.Models.Payload.{Bytes, RawMessage, ParsedMessage, parse_message}
use openevent_modules_model.Publishing.Frozen.{FrozenPublication}
use openevent_modules_model.Subscription.State.{
  Call, Subscription, SubscriptionError, protocol, invalid_message, request_differs, set_call,
}
use openevent_modules_model.Subscription.Locked.{
  is_terminal, detach_locked, invalidate_locked, invalidated, fail_call, fail_locked,
  request_failure,
}
use openevent_modules_model.Subscription.Accept.{
  same_request, find_call, bind_request, new_receive, match_request, accept_request, accept_message,
  accept_output, accept_parsed, accept_check, done_or, accept, is_request,
}
use openevent_modules_model.Subscription.Client.{wait, next_message}
use openevent_modules_model.Subscription.Invariant.{IsValid, frozen_uuid, get-fail_calls}
use openevent_modules_model.Subscription.Reach.{Reach, Reach-IsValid}
use openevent_modules_model.Subscription.Refine.{find_call-get}
use openevent_modules_model.Subscription.AcceptValid.{find_call-some}

-- In every reachable state of a subscription that has failed, the client of a call that has not had
-- its terminal item does not wait: an item is at hand, or the call raises or stops.
pub failed-next_message :
    (first : ℕ) (s : Subscription) (i : ℕ) (c : Call)
    → Reach first s
    → s.failed ≡ true
    → get i s.calls ≡ some c
    → is_terminal c.receive ≡ false
    → next_message c ≢ wait
unfolding next_message
failed-next_message first s i c reached failed here live e =
    ground (arith, (Reach-IsValid reached).settled i failed)

-- The reader skips a message at or before its cursor, whatever it holds, and changes nothing.
pub accept-replay :
    (loads : Bytes → Option Value) (raw : RawMessage) (s : Subscription)
    → raw.seq ≤ s.last_seen_seq
    → accept loads raw s ≡ (s, not s.failed)
unfolding accept accept_check
accept-replay loads raw s old = ground arith

-- The cursor behind a step of the reader that began at `s` with a message at `seq`.
abbrev Moves : Subscription → ℕ → Subscription × Bool → Type 0
Moves s seq (t, go_on) =
    (s.last_seen_seq ≤ t.last_seen_seq) × ((go_on ≡ false) ⊎ (seq ≤ t.last_seen_seq))

fail_locked-cursor :
    (e : SubscriptionError) (s : Subscription) → (fail_locked e s).last_seen_seq ≡ s.last_seen_seq
unfolding fail_locked
fail_locked-cursor e s = ground arith

module _ (raw : RawMessage) (m : ParsedMessage) (s : Subscription) (v : IsValid s)
    (new : s.last_seen_seq ≤ m.seq) where
  match_request-Moves :
      (i n : ℕ) (c : Call) (f : Option FrozenPublication)
      → frozen_uuid f ≡ some n
      → Moves s m.seq (match_request raw m i c f s)
  unfolding match_request invalidate_locked detach_locked set_call
  match_request-Moves i n c none waits = cc
  match_request-Moves i n c (some f) waits =
      let e = request_failure c request_differs in
      if-both (Moves s m.seq) (same_request f c.request_seq raw m) (λ _. (new, inr (omega arith)))
        (λ _. (omega (arith, fail_locked-cursor e (invalidate_locked i c e s)), inl refl))

  accept_request-Moves :
      (o : Option (ℕ × Call))
      → find_call (get m.uuid s.calls_by_uuid) s.calls ≡ o
      → Moves s m.seq (accept_request raw m o s)
  unfolding accept_request
  accept_request-Moves none found = (new, inr (omega arith))
  accept_request-Moves (some (i, c)) found =
      let (mine, here) = find_call-some _ s.calls found in
      match_request-Moves i m.uuid c c.frozen (ground (arith, v.uuids m.uuid i mine))

  accept_output-Moves : (o : Option (ℕ × Call)) → Moves s m.seq (accept_output m o s)
  unfolding accept_output
  accept_output-Moves none = (new, inr (omega arith))
  accept_output-Moves (some (i, c)) = (new, inr (omega arith))

  accept_message-Moves : Moves s m.seq (accept_message raw m s)
  unfolding accept_message
  accept_message-Moves =
      if-both (Moves s m.seq) (is_request m.payload) (λ _. accept_request-Moves _ refl)
        (λ _. accept_output-Moves _)

parse_message-seq :
    (loads : Bytes → Option Value) (raw : RawMessage) (m : ParsedMessage)
    → parse_message loads raw ≡ ok m
    → m.seq ≡ raw.seq
unfolding parse_message
parse_message-seq loads raw m h = ground arith

accept_parsed-Moves :
    (loads : Bytes → Option Value) (raw : RawMessage) (s : Subscription)
    → IsValid s
    → s.last_seen_seq ≤ raw.seq
    → (r : Outcome PayloadError ParsedMessage) → parse_message loads raw ≡ r
    → Moves s raw.seq (accept_parsed raw r s)
unfolding accept_parsed
accept_parsed-Moves loads raw s v new (err e) parsed =
    if-both (Moves s raw.seq) s.failed (λ _. (omega arith, inl refl))
      (λ _. (omega (arith, fail_locked-cursor (protocol (invalid_message e)) s), inl refl))
accept_parsed-Moves loads raw s v new (ok m) parsed =
    let same = parse_message-seq loads raw m parsed in
    if-both (Moves s raw.seq) s.failed (λ _. (omega arith, inl refl))
      (λ _.
        subst (λ n. Moves s n (accept_message raw m s)) same
          (accept_message-Moves raw m s v (omega arith)))

-- What a check that did not end the call leaves to the part behind the parse.
abbrev Resumes : Subscription → ℕ → Option (Subscription × Bool) → Type 0
Resumes s seq o =
    (k : Subscription × Bool) → (s.last_seen_seq ≤ seq → Moves s seq k) → Moves s seq (done_or o k)

accept_check-Resumes :
    (raw : RawMessage) (s : Subscription) → Resumes s raw.seq (accept_check raw s)
unfolding accept_check
accept_check-Resumes raw s =
    if-both (Resumes s raw.seq) s.failed (λ _ k h. (omega arith, inl refl))
      (λ _.
        if-both (Resumes s raw.seq) (leb raw.seq s.last_seen_seq)
          (λ old k h. (omega arith, inr (ground arith)))
          (λ new.
            if-both (Resumes s raw.seq) (raw.principal == 0)
              (λ _ k h. (ground arith, inr (omega arith))) (λ _ k h. h (ground arith))))

-- A step of the reader never moves the cursor back, and moves it past the message whenever the
-- reader may go on with the next one.
pub accept-cursor :
    (loads : Bytes → Option Value) (raw : RawMessage) (s : Subscription)
    → IsValid s
    → let (t, go_on) = accept loads raw s in
      (s.last_seen_seq ≤ t.last_seen_seq) × ((go_on ≡ false) ⊎ (raw.seq ≤ t.last_seen_seq))
unfolding accept
accept-cursor loads raw s v =
    accept_check-Resumes raw s (accept_parsed raw (parse_message loads raw) s)
      (λ new. accept_parsed-Moves loads raw s v new (parse_message loads raw) refl)

abbrev pub error_at : Option Call → Option SubscriptionError
error_at none = none
error_at (some c) = c.error

abbrev pub is_closed_at : Option Call → Bool
is_closed_at none = false
is_closed_at (some c) = c.local_closed

module _ (raw : RawMessage) (m : ParsedMessage) (s : Subscription) (i : ℕ) (c : Call)
    (f : FrozenPublication) (v : IsValid s) (alive : s.failed ≡ false)
    (request : is_request m.payload ≡ true) (mine : get m.uuid s.calls_by_uuid ≡ some i)
    (here : get i s.calls ≡ some c) (frozen : c.frozen ≡ some f) where
  accept_message-match : accept_message raw m s ≡ match_request raw m i c (some f) s
  unfolding accept_message accept_request
  accept_message-match =
      rw (request, mine, find_call-get i s.calls here)
        (ap (λ o. match_request raw m i c o s) frozen)

  -- In a valid subscription that has not failed, a subscribed request that equals a call's
  -- frozen publication binds the call to the message's seq: it is found under that seq, with an
  -- open receive state whose chain starts there, its uuid is free, and the reader goes on.
  pub accept_message-bind :
      same_request f c.request_seq raw m ≡ true
      → let (t, go_on) = accept_message raw m s in
        (get m.seq t.receives_by_seq ≡ some i)
        × (get i t.calls ≡ some (record c { receive = some (new_receive m.seq); frozen = none }))
        × (get m.uuid t.calls_by_uuid ≡ none)
        × (go_on ≡ true)
  unfolding match_request bind_request set_call same_request
  accept_message-bind same =
      let c' = record c { receive = some (new_receive m.seq); frozen = none } in
      rw (accept_message-match, same)
        (
          ground (arith, get-put m.seq m.seq i s.receives_by_seq),
          ground (arith, get-put i i c' s.calls),
          ground (arith, get-remove f.uuid m.uuid s.calls_by_uuid),
          refl,
        )

  -- In a valid subscription that has not failed, a subscribed request under the uuid of a call's
  -- frozen publication that differs from it fails the subscription for good: the reader stops
  -- with its cursor where it was, and the call is closed with the mismatch as its error.
  pub accept_message-mismatch :
      same_request f c.request_seq raw m ≡ false
      → let (t, go_on) = accept_message raw m s in
        (t.failed ≡ true)
        × (error_at (get i t.calls) ≡ some (request_failure c request_differs))
        × (is_closed_at (get i t.calls) ≡ true)
        × (t.error ≡ some (request_failure c request_differs))
        × (t.last_seen_seq ≡ s.last_seen_seq)
        × (go_on ≡ false)
  unfolding match_request fail_locked invalidate_locked detach_locked set_call fail_call
  accept_message-mismatch differs =
      let e = request_failure c request_differs in
      let closed = invalidated e (record c { frozen = none }) in
      let t = invalidate_locked i c e s in
      rw (accept_message-match, differs)
        (
          ground (arith, v.failure),
          ground (arith, v.failure, get-put i i closed s.calls, get-fail_calls e t.calls i),
          ground (arith, v.failure, get-put i i closed s.calls, get-fail_calls e t.calls i),
          ground (arith, v.failure),
          ground (arith, v.failure),
          refl,
        )
