-- ===== src/Rpc/Bounds.antt =====
-- How often `call_rpc` calls, and when it returns or raises.
use openevent_modules_model.Base.{
  ℕ, zero, suc, ◌+◌, ◌≤◌, ◌<◌, ◌≡◌, refl, true, false, Option, none, some, Outcome, ok, err, arith,
  ◌⊎◌, inl, inr, if-both, sym, subst,
}
use native.Mathlib.Decide.{dec_lt}
use openevent_modules_model.Rpc.Status.{Exception, rpc_stopped, is_retryable}
use openevent_modules_model.Rpc.Retry.{
  World, ready, not_ready, gives_up, ran, checked, attempts, call_rpc,
}

module _ {ℓ} {A : Type ℓ} (w : World A) where
  -- A round ends before its RPC, by its result, or by what follows its exception.
  checked-rule {κ} :
      (P : ℕ × Outcome Exception A → Type κ) (n : ℕ) (last : Option Exception)
      (failed : Exception → ℕ × Outcome Exception A)
      → ((e : Exception) → ready w n ≡ err e → P (n, err (not_ready w last e)))
      → ((a : A) → w.run n ≡ ok a → P (suc n, ok a))
      → ((e : Exception) → w.run n ≡ err e → P (failed e))
      → P (checked w n last (ready w n) failed)
  checked-rule P n last failed stop done fail = from (ready w n) refl
    where
      ran_from : (r : Outcome Exception A) → w.run n ≡ r → P (ran w n r failed)
      ran_from (ok a) e = unfold ran in done a e
      ran_from (err x) e = unfold ran in fail x e

      from : (r : Outcome Exception (Unit {0})) → ready w n ≡ r → P (checked w n last r failed)
      from (ok _) e = unfold checked in ran_from (w.run n) refl
      from (err x) e = unfold checked in stop x e

  -- Every RPC before attempt `n` raised an error that may be retried.
  abbrev pub Retried : ℕ → Type ℓ
  Retried n = (j : ℕ) → j < n → (e : Exception) × (w.run j ≡ err e) × (is_retryable e ≡ true)

  -- Why the error of attempt `n` is not retried: the retries are used up, the error is final, the
  -- owner stopped behind the attempt, or before the next.
  abbrev pub IsFinal : ℕ → ℕ → Exception → Type 0
  IsFinal limit n e = (n ≡ limit) ⊎ (gives_up w n e ≡ true) ⊎ (ready w (suc n) ≡ err rpc_stopped)

  -- The result of a call with so many retries.
  abbrev pub Ends : ℕ → ℕ × Outcome Exception A → Type ℓ
  Ends limit (calls, ok a) = (n : ℕ) × (calls ≡ suc n) × (n ≤ limit) × (w.run n ≡ ok a) × Retried n
  Ends limit (calls, err e) =
      ((n : ℕ) × (calls ≡ suc n) × (n ≤ limit) × (w.run n ≡ err e) × Retried n × IsFinal limit n e)
      ⊎ ((calls ≤ limit) × (ready w calls ≡ err e) × Retried calls)

  -- The last error is that of the attempt before.
  abbrev Remembers : ℕ → Option Exception → Type ℓ
  Remembers zero last = (last ≡ none) × Unit {ℓ}
  Remembers (suc j) last =
      (e : Exception) × (last ≡ some e) × (w.run j ≡ err e) × (is_retryable e ≡ true)

  Retried-suc :
      (n : ℕ) (e : Exception)
      → Retried n
      → w.run n ≡ err e
      → is_retryable e ≡ true
      → Retried (suc n)
  Retried-suc n e before raised again j lt = elim (dec_lt j n) [
    | yes earlier ↦ before j earlier
    | no late ↦
        let here : j ≡ n = omega arith in
        subst (λ i. (x : Exception) × (w.run i ≡ err x) × (is_retryable x ≡ true)) (sym here)
          (e, raised, again)
  ]

  Retried-zero : Retried 0
  Retried-zero j lt = elim lt [ ]

  Retried-pred : (n : ℕ) → Retried (suc n) → Retried n
  Retried-pred n before j lt = before j (omega arith)

  stopped_before :
      (limit n : ℕ) (last : Option Exception) (e : Exception)
      → n ≤ limit
      → Retried n
      → Remembers n last
      → ready w n ≡ err e
      → Ends limit (n, err (not_ready w last e))
  stopped_before limit zero last rpc_stopped fits before memory stop =
      inr (omega arith, rw (memory.0) stop, before)
  stopped_before limit (suc n) last rpc_stopped fits before (l, kept, raised, again) stop =
      rw kept (inl (n, refl, omega arith, raised, Retried-pred n before, inr (inr stop)))
  stopped_before limit n last _ fits before memory stop = inr (fits, stop, before)

  retry : (n : ℕ) (e : Exception) → gives_up w n e ≡ false → is_retryable e ≡ true
  unfolding gives_up
  retry n e h = ground arith

  attempts-Ends :
      (k n limit : ℕ) (last : Option Exception)
      → n + k ≡ limit
      → Retried n
      → Remembers n last
      → Ends limit (attempts w k n last)
  unfolding attempts
  attempts-Ends zero n limit last fits before memory =
      checked-rule (Ends limit) n last _
        (λ e stop. stopped_before limit n last e (omega arith) before memory stop)
        (λ a done. (n, refl, omega arith, done, before))
        (λ e raised. inl (n, refl, omega arith, raised, before, inl (omega arith)))
  attempts-Ends (suc k) n limit last fits before memory =
      checked-rule (Ends limit) n last _
        (λ e stop. stopped_before limit n last e (omega arith) before memory stop)
        (λ a done. (n, refl, omega arith, done, before))
        (λ e raised.
          if-both (Ends limit) (gives_up w n e)
            (λ final. inl (n, refl, omega arith, raised, before, inr (inl final)))
            (λ again.
              attempts-Ends k (suc n) limit (some e) (omega arith)
                (Retried-suc n e before raised (retry n e again))
                (e, refl, raised, retry n e again)))

  -- A call makes at most one RPC more than its retries. It returns the result of the first RPC
  -- that did not raise, or raises: the error of its last RPC, and only where that is final, or
  -- what stood before its next RPC. Every earlier RPC raised a retryable error.
  pub call_rpc-Ends : (max_retries : ℕ) → Ends max_retries (call_rpc w max_retries)
  unfolding call_rpc
  call_rpc-Ends m = attempts-Ends m 0 m none (omega arith) Retried-zero (refl, tt)
