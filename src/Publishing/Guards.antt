-- ===== src/Publishing/Guards.antt =====
-- A publication makes a Publish RPC only behind its two hooks.
use openevent_modules_model.Base.{ℕ, ◌<◌, ◌≡◌, refl, Outcome, ok, err, arith}
use openevent_modules_model.Models.Validate.{PayloadError}
use openevent_modules_model.Models.Payload.{Bytes}
use openevent_modules_model.Rpc.Status.{Exception}
use openevent_modules_model.Rpc.Retry.{call_rpc}
use openevent_modules_model.Publishing.Publish.{
  Hooks, Transport, Arguments, replies, freeze, check_arguments, publish_frozen, with_uuid,
  with_payload, with_arguments, publish,
}

module _ {ℓ κ} {H : Type ℓ} (hooks : Hooks H) (t : Transport) (max_retries : ℕ) (a : Arguments)
    (payload : Bytes) (P : Type κ)
    (called : (uuid : ℕ)
      → hooks.validate_payload payload ≡ ok tt
      → hooks.before_publish (freeze a payload uuid) ≡ ok tt
      → P) where
  publish_frozen-rule :
      (uuid : ℕ) (o : Outcome H (Unit {0}))
      → hooks.validate_payload payload ≡ ok tt
      → hooks.before_publish (freeze a payload uuid) ≡ o
      → 0 < (publish_frozen hooks t max_retries (freeze a payload uuid) o).0
      → P
  unfolding publish_frozen
  publish_frozen-rule uuid (err h) valid e calls = absurd (omega (arith, calls))
  publish_frozen-rule uuid (ok _) valid e calls = called uuid valid e

  with_uuid-rule :
      (r : Outcome Exception ℕ)
      → hooks.validate_payload payload ≡ ok tt
      → 0 < (with_uuid hooks t max_retries a payload r).0
      → P
  unfolding with_uuid
  with_uuid-rule (err e) valid calls = absurd (omega (arith, calls))
  with_uuid-rule (ok uuid) valid calls = publish_frozen-rule uuid _ valid refl calls

  with_payload-rule :
      (o : Outcome H (Unit {0}))
      → hooks.validate_payload payload ≡ o
      → 0 < (with_payload hooks t max_retries a payload o).0
      → P
  unfolding with_payload
  with_payload-rule (err h) e calls = absurd (omega (arith, calls))
  with_payload-rule (ok _) e calls =
      with_uuid-rule (call_rpc (replies t.get_uuid) max_retries).1 e calls

  with_arguments-rule :
      (o : Outcome PayloadError (Unit {0}))
      → 0 < (with_arguments hooks t max_retries a payload o).0
      → P
  unfolding with_arguments
  with_arguments-rule (err e) calls = absurd (omega (arith, calls))
  with_arguments-rule (ok _) calls = with_payload-rule _ refl calls

  -- What follows from both hooks' return follows from a Publish RPC.
  pub publish-rule : 0 < (publish hooks t max_retries a payload).0 → P
  unfolding publish
  publish-rule calls = with_arguments-rule (check_arguments a) calls
