-- ===== src/Publishing/Calls.antt =====
-- How many Publish RPCs one publication makes.
use openevent_modules_model.Base.{
  ℕ, zero, suc, ◌+◌, ◌≤◌, ◌<◌, ◌≡◌, refl, Bool, ◌||◌, Option, none, some, Outcome, ok, err, arith,
  if-both,
}
use openevent_modules_model.Models.Validate.{PayloadError}
use openevent_modules_model.Models.Payload.{Bytes}
use openevent_modules_model.Publishing.Frozen.{FrozenPublication}
use openevent_modules_model.Rpc.Status.{Exception}
use openevent_modules_model.Rpc.Retry.{World, ready, call_rpc}
use openevent_modules_model.Publishing.Publish.{
  Reading, already_exists, rejected, uncertain, reading, Result, Hooks, Transport, Arguments,
  replies, freeze, check_arguments, publish_frozen, with_uuid, with_payload, with_arguments,
  publish, stopped_with, raised, published, round, is_uncertain, publish_loop,
}

module _ {ℓ} (H : Type ℓ) (uuid : ℕ) (w query : World ℕ) (max_retries : ℕ) where
  -- A round ends before its Publish, by its reply, or by what follows its exception.
  pub round-rule {κ} :
      (P : Result H → Type κ) (n : ℕ) (last : Option Exception) (failed : Exception → Result H)
      → ((e : Exception) → ready w n ≡ err e → P (n, stopped_with uuid w query max_retries last e))
      → ((seq : ℕ) → w.run n ≡ ok seq → P (suc n, ok seq))
      → ((e : Exception) → w.run n ≡ err e → P (failed e))
      → P (round uuid w query max_retries n last (ready w n) failed)
  round-rule P n last failed stop done fail = from (ready w n) refl
    where
      from_reply :
          (r : Outcome Exception ℕ)
          → w.run n ≡ r
          → P (published uuid w query max_retries n r failed)
      from_reply (ok seq) e = unfold published in done seq e
      from_reply (err x) e = unfold published in fail x e

      from :
          (r : Outcome Exception (Unit {0}))
          → ready w n ≡ r
          → P (round uuid w query max_retries n last r failed)
      from (ok _) e = unfold round in from_reply (w.run n) refl
      from (err x) e = unfold round in stop x e

  raised-calls :
      (limit n : ℕ) (earlier : Bool) (e : Exception) (r : Reading) (again : Result H)
      → n < limit
      → again.0 ≤ limit
      → (raised uuid w query max_retries n earlier e r again).0 ≤ limit
  unfolding raised
  raised-calls limit n earlier e already_exists again lt le = lt
  raised-calls limit n earlier e rejected again lt le = lt
  raised-calls limit n earlier e uncertain again lt le =
      if-both (λ (r : Result H). r.0 ≤ limit) (w.stopped_after n || w.stopped_in_delay n) (λ _. lt)
        (λ _. le)

  -- The loop makes at most one Publish more than its retries.
  publish_loop-calls :
      (k n : ℕ) (last : Option Exception)
      → (publish_loop {H = H} uuid w query max_retries k n last).0 ≤ suc (n + k)
  unfolding publish_loop
  publish_loop-calls zero n last =
      round-rule (λ r. r.0 ≤ suc (n + 0)) n last _ (λ e stop. omega arith) (λ seq done. omega arith)
        (λ e failed.
          raised-calls (suc (n + 0)) n (is_uncertain last) e (reading e) _ (omega arith)
            (omega arith))
  publish_loop-calls (suc k) n last =
      round-rule (λ r. r.0 ≤ suc (n + suc k)) n last _ (λ e stop. omega arith)
        (λ seq done. omega arith)
        (λ e failed.
          raised-calls (suc (n + suc k)) n (is_uncertain last) e (reading e) _ (omega arith)
            (omega (arith, publish_loop-calls k (suc n) (some e))))

module _ {ℓ} {H : Type ℓ} (hooks : Hooks H) (t : Transport) (max_retries : ℕ) (a : Arguments)
    (payload : Bytes) where
  abbrev IsBounded : Result H → Type 0
  IsBounded r = r.0 ≤ suc max_retries

  publish_frozen-IsBounded :
      (f : FrozenPublication) (o : Outcome H (Unit {0}))
      → IsBounded (publish_frozen hooks t max_retries f o)
  unfolding publish_frozen
  publish_frozen-IsBounded f (err h) = omega arith
  publish_frozen-IsBounded f (ok _) = omega (
    arith,
    publish_loop-calls H f.uuid (replies (t.publish f.uuid)) (replies (t.query f.uuid)) max_retries
        max_retries 0 none,
  )

  with_uuid-IsBounded :
      (r : Outcome Exception ℕ) → IsBounded (with_uuid hooks t max_retries a payload r)
  unfolding with_uuid
  with_uuid-IsBounded (err e) = omega arith
  with_uuid-IsBounded (ok uuid) =
      let f = freeze a payload uuid in publish_frozen-IsBounded f (hooks.before_publish f)

  with_payload-IsBounded :
      (o : Outcome H (Unit {0})) → IsBounded (with_payload hooks t max_retries a payload o)
  unfolding with_payload
  with_payload-IsBounded (err h) = omega arith
  with_payload-IsBounded (ok _) = with_uuid-IsBounded (call_rpc (replies t.get_uuid) max_retries).1

  with_arguments-IsBounded :
      (o : Outcome PayloadError (Unit {0}))
      → IsBounded (with_arguments hooks t max_retries a payload o)
  unfolding with_arguments
  with_arguments-IsBounded (err e) = omega arith
  with_arguments-IsBounded (ok _) = with_payload-IsBounded (hooks.validate_payload payload)

  -- A publication makes at most one Publish RPC more than its retries, whatever happens.
  pub publish-calls : (publish hooks t max_retries a payload).0 ≤ suc max_retries
  unfolding publish
  publish-calls = with_arguments-IsBounded (check_arguments a)
