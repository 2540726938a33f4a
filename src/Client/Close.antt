-- ===== src/Client/Close.antt =====
-- `_close_call`: its section under the lock, and the decision to publish a cancel.
use openevent_modules_model.Base.{ℕ, Bool, true, not, ◌&&◌, is_some, if◌then◌else◌}
use openevent_modules_model.Subscription.State.{Call, Subscription, set_call}
use openevent_modules_model.Subscription.Locked.{is_terminal, stop_call_locked}

pub data Closing : Type 0 where
  waits : Closing
  closed_already : Closing
  closes : (cancel : Bool) → Subscription → Closing

-- Whether a cancel is published.
unfoldable pub wants_cancel : Subscription → Call → Bool
wants_cancel s c = not s.failed && is_some c.request_seq && not (is_terminal c.receive)

unfoldable pub close_call : ℕ → Call → Subscription → Closing
close_call i c s =
    if c.close_done
    then closed_already
    else if c.close_started
    then waits
    else (let c' = record c { close_started = true } in
        closes (wants_cancel s c) (stop_call_locked i c' (set_call i c' s)))
