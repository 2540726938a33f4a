-- ===== src/Subscription/Locked.antt =====
-- The methods of `Subscription` that run under its lock, on a call `c` with identity `i`.
use openevent_modules_model.Base.{
  ℕ, Bool, true, false, not, ◌&&◌, Option, none, some, [], ◌∷◌, is_some, if◌then◌else◌,
}
use openevent_modules_model.Base.Dict.{Dict, remove}
use openevent_modules_model.Publishing.Frozen.{FrozenPublication}
use openevent_modules_model.Subscription.State.{
  Call, ReceiveState, Subscription, SubscriptionError, protocol, Mismatch, request_error, set_call,
}

-- `_detach_locked`, on the indexes.
unfoldable pub forget_frozen : Option FrozenPublication → Dict ℕ → Dict ℕ
forget_frozen none d = d
forget_frozen (some f) d = remove f.uuid d

unfoldable pub forget_receive : Option ReceiveState → Dict ℕ → Dict ℕ
forget_receive none d = d
forget_receive (some r) d = remove r.request_seq d

-- `_detach_locked` and the assignment of the call's other fields: `f` is what the caller does to the
-- call behind it.
unfoldable pub detach_locked : ℕ → Call → (Call → Call) → Subscription → Subscription
detach_locked i c f s = set_call i (f (record c { frozen = none })) (record s {
  calls_by_uuid = forget_frozen c.frozen s.calls_by_uuid;
  receives_by_seq = forget_receive c.receive s.receives_by_seq;
})

abbrev pub close_locally : Call → Call
close_locally c = record c { local_closed = true }

unfoldable pub stop_call_locked : ℕ → Call → Subscription → Subscription
stop_call_locked i c s = detach_locked i c close_locally s

abbrev pub invalidated : SubscriptionError → Call → Call
invalidated e c = record c {
  queue = [];
  result = none;
  completed = none;
  error = some e;
  local_closed = true;
}

unfoldable pub invalidate_locked : ℕ → Call → SubscriptionError → Subscription → Subscription
invalidate_locked i c e s = detach_locked i c (invalidated e) s

-- `_request_error`
abbrev pub request_failure : Call → Mismatch → SubscriptionError
request_failure c m = protocol (request_error m c.stream_id c.request_seq)

abbrev pub is_terminal : Option ReceiveState → Bool
is_terminal none = false
is_terminal (some r) = r.terminal

abbrev or_else : Option SubscriptionError → SubscriptionError → Option SubscriptionError
or_else none e = some e
or_else (some old) e = some old

-- What `_fail_locked` does to each call.
unfoldable pub fail_call : SubscriptionError → Call → Call
fail_call e c = record c {
  error = if not c.local_closed && not (is_terminal c.receive) then or_else c.error e else c.error;
  frozen = none;
}

unfoldable pub fail_calls : SubscriptionError → Dict Call → Dict Call
fail_calls e [] = []
fail_calls e ((i, c) ∷ d) = (i, fail_call e c) ∷ fail_calls e d

-- `_fail_locked`; only the first failure is recorded.
unfoldable pub fail_locked : SubscriptionError → Subscription → Subscription
fail_locked e s = if is_some s.error then s else record s {
  error = some e;
  failed = true;
  calls = fail_calls e s.calls;
  calls_by_uuid = [];
  receives_by_seq = [];
}
