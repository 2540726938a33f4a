-- ===== src/Rpc/Retry.antt =====
-- `call_rpc` of rpc.py.
use openevent_modules_model.Base.{
  ℕ, zero, suc, Bool, not, ◌||◌, ◌&&◌, Option, none, some, Outcome, ok, err, if◌then◌else◌,
}
use openevent_modules_model.Models.Value.{Value, is_natural, positive_int}
use openevent_modules_model.Rpc.Status.{Exception, rpc_stopped, is_retryable}

-- The outside of one loop, by the number of the attempt.
pub record World {ℓ} (A : Type ℓ) : Type ℓ where
  -- `stop_event.is_set()` before the attempt (false without an event)
  pub stopped : ℕ → Bool
  -- `before_rpc()` before the attempt
  pub before : ℕ → Outcome Exception (Unit {0})
  -- the RPC itself
  pub run : ℕ → Outcome Exception A
  -- `stop_event.is_set()` when the attempt has raised
  pub stopped_after : ℕ → Bool
  -- `stop_event.wait(delay)`: stopped during the delay (false without an event)
  pub stopped_in_delay : ℕ → Bool

-- `validate_retries`
unfoldable pub valid_retries : Value → Value → Bool
valid_retries max_retries retry_interval_ms =
    is_natural max_retries && positive_int retry_interval_ms

module _ {ℓ} {A : Type ℓ} (w : World A) where
  -- What stands before each RPC.
  unfoldable pub ready : ℕ → Outcome Exception (Unit {0})
  ready n = if w.stopped n then err rpc_stopped else w.before n

  abbrev pub last_or : Option Exception → Exception → Exception
  last_or (some e) _ = e
  last_or none e = e

  -- A stop before an attempt is reported as the last error, if there was an attempt.
  abbrev pub not_ready : Option Exception → Exception → Exception
  not_ready last rpc_stopped = last_or last rpc_stopped
  not_ready last e = e

  -- The raising branches that do not depend on the retries left.
  unfoldable pub gives_up : ℕ → Exception → Bool
  gives_up n e = not (is_retryable e) || w.stopped_after n || w.stopped_in_delay n

  -- One round: `failed` is what follows an RPC that raised.
  unfoldable pub ran :
      ℕ → Outcome Exception A → (Exception → ℕ × Outcome Exception A) → ℕ × Outcome Exception A
  ran n (ok a) failed = (suc n, ok a)
  ran n (err e) failed = failed e

  unfoldable pub checked :
      ℕ
      → Option Exception
      → Outcome Exception (Unit {0})
      → (Exception → ℕ × Outcome Exception A)
      → ℕ × Outcome Exception A
  checked n last (ok _) failed = ran n (w.run n) failed
  checked n last (err e) failed = (n, err (not_ready last e))

  -- The loop with so many retries left, at attempt `n`, with the last error: the number of RPCs made
  -- in all, and the result.
  unfoldable pub attempts : ℕ → ℕ → Option Exception → ℕ × Outcome Exception A
  attempts zero n last = checked n last (ready n) (λ e. (suc n, err e))
  attempts (suc k) n last =
      checked n last (ready n)
        (λ e. if gives_up n e then (suc n, err e) else attempts k (suc n) (some e))

  -- `call_rpc`, behind the check of its arguments.
  unfoldable pub call_rpc : ℕ → ℕ × Outcome Exception A
  call_rpc max_retries = attempts max_retries 0 none
