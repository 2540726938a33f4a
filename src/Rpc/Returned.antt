-- ===== src/Rpc/Returned.antt =====
-- What `call_rpc` returns was returned by one of its RPCs.
use openevent_modules_model.Base.{ℕ, zero, suc, Option, some, Outcome, ok, err, Returns, if-both}
use openevent_modules_model.Rpc.Status.{Exception}
use openevent_modules_model.Rpc.Retry.{World, ready, gives_up, ran, checked, attempts, call_rpc}

module _ {ℓ κ} {A : Type ℓ} (P : A → Type κ) (w : World A)
    (runs : (n : ℕ) → Returns P (w.run n)) where
  checked-Returns :
      (n : ℕ) (last : Option Exception) (o : Outcome Exception (Unit {0}))
      (failed : Exception → ℕ × Outcome Exception A)
      → ((e : Exception) → Returns P (failed e).1)
      → Returns P (checked w n last o failed).1
  unfolding checked ran
  checked-Returns n last (err e) failed rest = tt
  checked-Returns n last (ok _) failed rest = from (w.run n) (runs n)
    where
      from : (o : Outcome Exception A) → Returns P o → Returns P (ran w n o failed).1
      from (ok a) h = h
      from (err e) h = rest e

  attempts-Returns : (k n : ℕ) (last : Option Exception) → Returns P (attempts w k n last).1
  unfolding attempts
  attempts-Returns zero n last = checked-Returns n last (ready w n) _ (λ e. tt)
  attempts-Returns (suc k) n last = checked-Returns n last (ready w n) _ (λ e.
      if-both (λ (r : ℕ × Outcome Exception A). Returns P r.1) (gives_up w n e) (λ _. tt)
        (λ _. attempts-Returns k (suc n) (some e)))

  pub call_rpc-Returns : (max_retries : ℕ) → Returns P (call_rpc w max_retries).1
  unfolding call_rpc
  call_rpc-Returns max_retries = attempts-Returns max_retries 0 _
