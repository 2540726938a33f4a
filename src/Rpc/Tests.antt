-- ===== src/Rpc/Tests.antt =====
-- A call that fails once and then returns.
use openevent_modules_model.Base.{ℕ, zero, suc, ◌≡◌, refl, false, Outcome, ok, err}
use openevent_modules_model.Rpc.Status.{Exception, coded, member, status_name, is_retryable}
use openevent_modules_model.Rpc.Retry.{World, ready, gives_up, ran, checked, attempts, call_rpc}
use openevent_modules_model.Rpc.Bounds.{Ends, call_rpc-Ends}

abbrev unavailable_once : ℕ → Outcome Exception ℕ
unavailable_once zero = err (coded (member "UNAVAILABLE"))
unavailable_once (suc n) = ok 42

abbrev flaky : World ℕ
flaky = record {
  stopped = λ n. false;
  before = λ n. ok tt;
  run = unavailable_once;
  stopped_after = λ n. false;
  stopped_in_delay = λ n. false;
}

flaky-recovers : call_rpc flaky 3 ≡ (2, ok 42)
unfolding call_rpc attempts checked ran ready gives_up is_retryable status_name
flaky-recovers = refl

call_rpc-Ends_example : Ends flaky 3 (call_rpc flaky 3)
call_rpc-Ends_example = call_rpc-Ends flaky 3
