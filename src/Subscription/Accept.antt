-- ===== src/Subscription/Accept.antt =====
-- `_accept` of subscription.py. The reader holds the lock for the check of the cursor, parses the
-- message outside the lock, and takes the lock again, so a failure may come in between: the two
-- locked parts are `accept_check` and `accept_parsed`, and `accept` runs them in a row.
use openevent_modules_model.Base.{
  ℕ, ltb, leb, ◌==◌, Bool, true, false, ◌&&◌, Option, none, some, List, [], ◌∷◌, Outcome, ok, err,
  str_eq, if◌then◌else◌,
}
use openevent_modules_model.Base.Dict.{Dict, get, put, remove}
use openevent_modules_model.Models.Value.{Value}
use openevent_modules_model.Models.Validate.{PayloadError}
use openevent_modules_model.Models.Payload.{
  Bytes, RawMessage, ParsedMessage, Payload, infer_request, infer_result, infer_append, infer_end,
  infer_cancel, parse_message, stream_id,
}
use openevent_modules_model.Publishing.Frozen.{FrozenPublication}
use openevent_modules_model.Subscription.State.{
  Call, ReceiveState, Subscription, protocol, invalid_message, request_differs, set_call,
}
use openevent_modules_model.Subscription.Locked.{invalidate_locked, fail_locked, request_failure}
use openevent_modules_model.Subscription.Output.{accept_output_locked}

abbrev pub list_eq {ℓ} : {A : Type ℓ} → (A → A → Bool) → List A → List A → Bool
list_eq eq [] [] = true
list_eq eq (x ∷ xs) (y ∷ ys) = eq x y && list_eq eq xs ys
list_eq eq _ _ = false

abbrev pub agrees : Option ℕ → ℕ → Bool
agrees none n = true
agrees (some k) n = k == n

-- The subscribed request is the frozen publication, field by field.
unfoldable pub same_request : FrozenPublication → Option ℕ → RawMessage → ParsedMessage → Bool
same_request f request_seq raw m =
    ltb 0 m.seq
    && (m.uuid == f.uuid)
    && (m.channel_id == f.channel_id)
    && (m.principal == f.principal)
    && list_eq ◌==◌ m.recipients f.recipients
    && list_eq str_eq m.object_keys f.object_keys
    && list_eq ◌==◌ raw.payload f.payload
    && agrees request_seq m.seq

-- An object of the store.
unfoldable pub find_call : Option ℕ → Dict Call → Option (ℕ × Call)
find_call none d = none
find_call (some i) d = elim (get i d) [ none ↦ none | some c ↦ some (i, c) ]

abbrev pub new_receive : ℕ → ReceiveState
new_receive seq = record { request_seq = seq; chain_seq = seq; head_seen = false; terminal = false }

-- `call.receive = ReceiveState(seq, seq)` and what follows it.
unfoldable pub bind_request : ℕ → Call → FrozenPublication → ℕ → Subscription → Subscription
bind_request i c f seq s =
    set_call i (record c { receive = some (new_receive seq); frozen = none })
      (record s {
        receives_by_seq = put seq i s.receives_by_seq;
        calls_by_uuid = remove f.uuid s.calls_by_uuid;
      })

abbrev pub advance : ℕ → Subscription → Subscription
advance seq s = record s { last_seen_seq = seq }

-- A request under a registered uuid, whose call has frozen the publication `f`. The Boolean is the
-- method's result. (A registered call has frozen one: see `IsValid`.)
unfoldable pub match_request :
    RawMessage
    → ParsedMessage
    → ℕ
    → Call
    → Option FrozenPublication
    → Subscription
    → Subscription × Bool
match_request raw m i c none s = (s, true)
match_request raw m i c (some f) s =
    if same_request f c.request_seq raw m
    then (advance m.seq (bind_request i c f m.seq s), true)
    else (let e = request_failure c request_differs in
        (fail_locked e (invalidate_locked i c e s), false))

-- The branch of a request.
unfoldable pub accept_request :
    RawMessage → ParsedMessage → Option (ℕ × Call) → Subscription → Subscription × Bool
accept_request raw m none s = (advance m.seq s, true)
accept_request raw m (some (i, c)) s = match_request raw m i c c.frozen s

-- A message under the request of a call. (Such a call has a receive state: see `IsValid`.)
unfoldable pub deliver :
    ParsedMessage → ℕ → Call → Option ReceiveState → Subscription → Subscription
deliver m i c none s = s
deliver m i c (some r) s =
    if str_eq (stream_id m.payload) c.stream_id then accept_output_locked i c r m s else s

-- The branch of any other kind.
unfoldable pub accept_output :
    ParsedMessage → Option (ℕ × Call) → Subscription → Subscription × Bool
accept_output m none s = (advance m.seq s, true)
accept_output m (some (i, c)) s = (advance m.seq (deliver m i c c.receive s), true)

-- `payload.prev_seq if payload.kind == "infer.result" else payload.request_seq`
abbrev pub answered_seq : Payload → ℕ
answered_seq (infer_request p) = 0
answered_seq (infer_result p) = p.prev_seq
answered_seq (infer_append p) = p.request_seq
answered_seq (infer_end p) = p.request_seq
answered_seq (infer_cancel p) = p.request_seq

abbrev pub is_request : Payload → Bool
is_request (infer_request _) = true
is_request _ = false

unfoldable pub accept_message : RawMessage → ParsedMessage → Subscription → Subscription × Bool
accept_message raw m s =
    if is_request m.payload
    then accept_request raw m (find_call (get m.uuid s.calls_by_uuid) s.calls) s
    else accept_output m (find_call (get (answered_seq m.payload) s.receives_by_seq) s.calls) s

-- The part behind the parse.
unfoldable pub accept_parsed :
    RawMessage → Outcome PayloadError ParsedMessage → Subscription → Subscription × Bool
accept_parsed raw (err e) s =
    if s.failed then (s, false) else (fail_locked (protocol (invalid_message e)) s, false)
accept_parsed raw (ok m) s = if s.failed then (s, false) else accept_message raw m s

-- The part before the parse: `some` result ends the call of `_accept`.
unfoldable pub accept_check : RawMessage → Subscription → Option (Subscription × Bool)
accept_check raw s =
    if s.failed
    then some (s, false)
    else if leb raw.seq s.last_seen_seq
    then some (s, true)
    else if raw.principal == 0
    then some (advance raw.seq s, true)
    else none

abbrev pub done_or : Option (Subscription × Bool) → Subscription × Bool → Subscription × Bool
done_or (some done) k = done
done_or none k = k

unfoldable pub accept : (Bytes → Option Value) → RawMessage → Subscription → Subscription × Bool
accept loads raw s = done_or (accept_check raw s) (accept_parsed raw (parse_message loads raw) s)
