-- ===== src/Publishing/Positive.antt =====
-- A publication that returns has a positive seq, and what its hooks raise passes through.
use openevent_modules_model.Base.{
  ℕ, zero, suc, ◌<◌, ◌||◌, Bool, Option, none, some, Outcome, ok, err, Returns, pos, arith, if-both,
  ◌≡◌,
}
use openevent_modules_model.Models.Value.{Value, int}
use openevent_modules_model.Models.Validate.{PayloadError}
use openevent_modules_model.Models.Payload.{Bytes}
use openevent_modules_model.Rpc.Status.{Exception, rpc_stopped}
use openevent_modules_model.Rpc.Retry.{World}
use openevent_modules_model.Rpc.Returned.{call_rpc-Returns}
use openevent_modules_model.Publishing.Frozen.{FrozenPublication}
use openevent_modules_model.Publishing.Publish.{
  PublishError, hook_raised, Hooks, Transport, Arguments, Result, Reading, already_exists, rejected,
  uncertain, reading, positive_reply, reply_of, replies, queried, raised, publish_loop,
  is_uncertain, stopped_with, publish_frozen, with_uuid, with_payload, with_arguments, freeze,
  no_uuid, publish,
}
use openevent_modules_model.Publishing.Calls.{round-rule}

-- A positive seq, or an exception that is none of a hook, or one of a hook with the property `K`.
abbrev pub Promised {ℓ} : {H : Type ℓ} → (H → Type 0) → Outcome (PublishError H) ℕ → Type 0
Promised K (ok seq) = 0 < seq
Promised K (err (hook_raised h)) = K h
Promised K (err _) = Unit

abbrev pub Refuses {ℓ} : {H : Type ℓ} → (H → Type 0) → Outcome H (Unit {0}) → Type 0
Refuses K (ok _) = Unit
Refuses K (err h) = K h

positive_reply-Returns : (v : Value) → Returns (λ seq. 0 < seq) (positive_reply v)
unfolding positive_reply
positive_reply-Returns (int (pos n)) = ground arith
positive_reply-Returns _ = tt

reply_of-Returns : (o : Outcome Exception Value) → Returns (λ seq. 0 < seq) (reply_of o)
reply_of-Returns (ok v) = positive_reply-Returns v
reply_of-Returns (err e) = tt

module _ {ℓ} (H : Type ℓ) (K : H → Type 0) (uuid : ℕ) (w query : World ℕ) (max_retries : ℕ)
    (runs : (n : ℕ) → Returns (λ seq. 0 < seq) (w.run n))
    (queries : (n : ℕ) → Returns (λ seq. 0 < seq) (query.run n)) where
  queried-Promised :
      (e : Exception) (o : Outcome Exception ℕ)
      → Returns (λ seq. 0 < seq) o
      → Promised K (queried {H = H} uuid w query max_retries e o)
  unfolding queried
  queried-Promised e (ok seq) h = h
  queried-Promised e (err rpc_stopped) h = tt
  queried-Promised e (err _) h = tt

  raised-Promised :
      (n : ℕ) (earlier : Bool) (e : Exception) (r : Reading) (again : Result H)
      → Promised K again.1
      → Promised K (raised uuid w query max_retries n earlier e r again).1
  unfolding raised
  raised-Promised n earlier e already_exists again h =
      queried-Promised e _ (call_rpc-Returns (λ seq. 0 < seq) query queries max_retries)
  raised-Promised n earlier e rejected again h = tt
  raised-Promised n earlier e uncertain again h =
      if-both (λ (r : Result H). Promised K r.1) (w.stopped_after n || w.stopped_in_delay n)
        (λ _. tt) (λ _. h)

  stopped_with-Promised :
      (n : ℕ) (last : Option Exception) (e : Exception)
      → Promised K (stopped_with {H = H} uuid w query max_retries last e)
  stopped_with-Promised n none e = tt
  stopped_with-Promised n (some l) rpc_stopped = tt
  stopped_with-Promised n (some l) _ = tt

  run-positive : (n seq : ℕ) → w.run n ≡ ok seq → 0 < seq
  run-positive n seq e = rw e at (runs n)

  pub publish_loop-Promised :
      (k n : ℕ) (last : Option Exception)
      → Promised K (publish_loop {H = H} uuid w query max_retries k n last).1
  unfolding publish_loop
  publish_loop-Promised zero n last =
      round-rule H uuid w query max_retries (λ r. Promised K r.1) n last _
        (λ e h. stopped_with-Promised n last e) (run-positive n)
        (λ e failed. raised-Promised n (is_uncertain last) e (reading e) _ tt)
  publish_loop-Promised (suc k) n last =
      round-rule H uuid w query max_retries (λ r. Promised K r.1) n last _
        (λ e h. stopped_with-Promised n last e) (run-positive n)
        (λ e failed.
          raised-Promised n (is_uncertain last) e (reading e) _
            (publish_loop-Promised k (suc n) (some e)))

module _ {ℓ} {H : Type ℓ} (hooks : Hooks H) (t : Transport) (max_retries : ℕ) (K : H → Type 0)
    (validates : (p : Bytes) → Refuses K (hooks.validate_payload p))
    (hands_off : (f : FrozenPublication) → Refuses K (hooks.before_publish f)) where
  publish_frozen-Promised :
      (f : FrozenPublication) (o : Outcome H (Unit {0}))
      → Refuses K o
      → Promised K (publish_frozen hooks t max_retries f o).1
  unfolding publish_frozen
  publish_frozen-Promised f (err h) refused = refused
  publish_frozen-Promised f (ok _) refused =
      publish_loop-Promised H K f.uuid (replies (t.publish f.uuid)) (replies (t.query f.uuid))
        max_retries (λ n. reply_of-Returns ((t.publish f.uuid).run n))
        (λ n. reply_of-Returns ((t.query f.uuid).run n)) max_retries 0 none

  no_uuid-Promised : (e : Exception) → Promised K (err (no_uuid hooks t max_retries e))
  no_uuid-Promised rpc_stopped = tt
  no_uuid-Promised _ = tt

  with_uuid-Promised :
      (a : Arguments) (payload : Bytes) (o : Outcome Exception ℕ)
      → Promised K (with_uuid hooks t max_retries a payload o).1
  unfolding with_uuid
  with_uuid-Promised a payload (err e) = no_uuid-Promised e
  with_uuid-Promised a payload (ok uuid) =
      let f = freeze a payload uuid in
      publish_frozen-Promised f (hooks.before_publish f) (hands_off f)

  with_payload-Promised :
      (a : Arguments) (payload : Bytes) (o : Outcome H (Unit {0}))
      → Refuses K o
      → Promised K (with_payload hooks t max_retries a payload o).1
  unfolding with_payload
  with_payload-Promised a payload (err h) refused = refused
  with_payload-Promised a payload (ok _) refused = with_uuid-Promised a payload _

  with_arguments-Promised :
      (a : Arguments) (payload : Bytes) (o : Outcome PayloadError (Unit {0}))
      → Promised K (with_arguments hooks t max_retries a payload o).1
  unfolding with_arguments
  with_arguments-Promised a payload (err e) = tt
  with_arguments-Promised a payload (ok _) =
      with_payload-Promised a payload (hooks.validate_payload payload) (validates payload)

  pub publish-Promised :
      (a : Arguments) (payload : Bytes) → Promised K (publish hooks t max_retries a payload).1
  unfolding publish
  publish-Promised a payload = with_arguments-Promised a payload _
