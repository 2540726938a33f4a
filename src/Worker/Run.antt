-- ===== src/Worker/Run.antt =====
-- The reader of `run`: its loop over the messages of a subscription, and over the subscriptions. A
-- `stop` by another thread is a value of `stopped` here.
use openevent_modules_model.Base.{
  ℕ, leb, ◌==◌, false, not, Option, List, [], ◌∷◌, Outcome, ok, err, ◌>>=◌, length, if◌then◌else◌,
}
use openevent_modules_model.Models.Value.{Value}
use openevent_modules_model.Models.Validate.{PayloadError}
use openevent_modules_model.Models.Payload.{Bytes, RawMessage, ParsedMessage, parse_message}
use openevent_modules_model.Rpc.Status.{Exception, is_retryable}
use openevent_modules_model.Worker.State.{Settings, Worker}
use openevent_modules_model.Worker.Accept.{ProtocolError, Accepted, accept}

-- What makes the worker fail: no subscription, an exception of one that is not retried, a payload
-- that does not parse, or a broken protocol.
pub data RunError : Type 0 where
  subscribe_failed : Exception → RunError
  subscription_failed : Exception → RunError
  invalid_payload : PayloadError → RunError
  protocol_failed : ProtocolError → RunError

-- `self.last_seen_seq = message.seq`
abbrev pub seen : ℕ → Worker → Worker
seen seq w = record w { last_seen_seq = seq }

abbrev pub accepted_live : ℕ → Accepted → Outcome RunError Worker
accepted_live seq (err e) = err (protocol_failed e)
accepted_live seq (ok (w, abort)) = ok (seen seq w)

abbrev pub accept_parsed :
    Settings → RawMessage → Outcome PayloadError ParsedMessage → Worker → Outcome RunError Worker
accept_parsed config raw (err e) w = err (invalid_payload e)
accept_parsed config raw (ok m) w =
    accepted_live raw.seq (accept config false (length raw.payload) m w)

module _ (config : Settings) (loads : Bytes → Option Value) where
  -- A message that has not been seen; a system message only moves the cursor.
  unfoldable pub read_new : RawMessage → Worker → Outcome RunError Worker
  read_new raw w =
      if raw.principal == 0
      then ok (seen raw.seq w)
      else accept_parsed config raw (parse_message loads raw) w

  unfoldable pub read_message : RawMessage → Worker → Outcome RunError Worker
  read_message raw w = if leb raw.seq w.last_seen_seq then ok w else read_new raw w

  -- `for response in stream`
  unfoldable pub read_stream : List RawMessage → Worker → Outcome RunError Worker
  read_stream [] w = ok w
  read_stream (raw ∷ raws) w =
      let rest = read_message raw w >>= λ v. read_stream raws v in if w.stopped then ok w else rest

-- A subscription: the messages that it delivers and the exception that ends it, which is a
-- `ConnectionError` where the server just ends it.
pub record Session : Type 0 where
  pub messages : List RawMessage
  pub ends_with : Exception

module _ (config : Settings) (loads : Bytes → Option Value) where
  -- Behind a subscription: the next one, or the end.
  unfoldable pub ended_session :
      Exception → Worker → Outcome RunError Worker → Outcome RunError Worker
  ended_session e w again =
      if w.stopped
      then ok w
      else if not (is_retryable e)
      then err (subscription_failed e)
      else again

  -- `while not self.stopped.is_set()`, on the results of `_rpc(self._connect)`
  unfoldable pub run_loop : List (Outcome Exception Session) → Worker → Outcome RunError Worker
  run_loop [] w = ok w
  run_loop (err e ∷ sessions) w = if w.stopped then ok w else err (subscribe_failed e)
  run_loop (ok s ∷ sessions) w =
      let rest = read_stream config loads s.messages w >>= λ v.
      ended_session s.ends_with v (run_loop sessions v) in
      if w.stopped then ok w else rest
