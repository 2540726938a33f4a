-- ===== src/Publishing/Sound.antt =====
-- What the result of `_publish` says about the server.
use openevent_modules_model.Base.{
  ℕ, zero, suc, ◌<◌, ◌≡◌, refl, Bool, true, false, ◌||◌, Option, none, some, Outcome, ok, err, ◌∙◌,
  arith, if-both,
}
use openevent_modules_model.Models.Validate.{PayloadError}
use openevent_modules_model.Models.Payload.{Bytes}
use openevent_modules_model.Publishing.Frozen.{FrozenPublication}
use openevent_modules_model.Rpc.Status.{Exception, rpc_stopped}
use openevent_modules_model.Rpc.Retry.{World, call_rpc}
use openevent_modules_model.Publishing.Publish.{
  not_committed, committed, unknown, before_raised, publish_error, Reading, already_exists,
  rejected, uncertain, reading, Result, queried, Hooks, Transport, Arguments, replies, freeze,
  check_arguments, publish_frozen, with_uuid, with_payload, with_arguments, publish, stopped_with,
  raised, is_uncertain, publish_loop,
}
use openevent_modules_model.Publishing.Calls.{round-rule}

-- The server's side of a publication: whether the event with the uuid is stored after so many
-- Publish RPCs. A reply or ALREADY_EXISTS is sent only with the event stored; a refusal stores
-- nothing. An RPC that fails otherwise may have stored it.
pub record Server (w : World ℕ) : Type 0 where
  pub stored : ℕ → Bool
  pub unused : stored 0 ≡ false
  pub replied : (n seq : ℕ) → w.run n ≡ ok seq → stored (suc n) ≡ true
  pub existed :
      (n : ℕ) (e : Exception) → w.run n ≡ err e → reading e ≡ already_exists → stored (suc n) ≡ true
  pub kept_out :
      (n : ℕ) (e : Exception) → w.run n ≡ err e → reading e ≡ rejected → stored (suc n) ≡ stored n

-- The claim that a result makes of the commit is true after the RPCs made.
abbrev pub IsTrue {ℓ} : {H : Type ℓ} {w : World ℕ} → Server w → Result H → Type 0
IsTrue v (calls, ok seq) = v.stored calls ≡ true
IsTrue v (calls, err (publish_error committed u status)) = v.stored calls ≡ true
IsTrue v (calls, err (publish_error not_committed u status)) = v.stored calls ≡ false
IsTrue v (calls, err (publish_error unknown u status)) = 0 < calls
IsTrue v (calls, err (before_raised e)) = Unit
IsTrue v (calls, err _) = calls ≡ 0

module _ {ℓ} (H : Type ℓ) (uuid : ℕ) (w query : World ℕ) (max_retries : ℕ) (v : Server w) where
  queried-IsTrue :
      (calls : ℕ) (e : Exception) (r : Outcome Exception ℕ)
      → v.stored calls ≡ true
      → IsTrue v (calls, queried {H = H} uuid w query max_retries e r)
  unfolding queried
  queried-IsTrue calls e (ok seq) h = h
  queried-IsTrue calls e (err rpc_stopped) h = h
  queried-IsTrue calls e (err _) h = h

  -- Before the first uncertain attempt nothing is stored.
  abbrev Fresh : ℕ → Option Exception → Type 0
  Fresh n none = v.stored n ≡ false
  Fresh n (some _) = 0 < n

  stopped_with-IsTrue :
      (n : ℕ) (last : Option Exception) (e : Exception)
      → Fresh n last
      → IsTrue v (n, stopped_with {H = H} uuid w query max_retries last e)
  stopped_with-IsTrue n none e h = tt
  stopped_with-IsTrue n (some l) rpc_stopped h = h
  stopped_with-IsTrue n (some l) _ h = tt

  raised-IsTrue :
      (n : ℕ) (last : Option Exception) (e : Exception) (r : Reading) (again : Result H)
      → w.run n ≡ err e
      → reading e ≡ r
      → Fresh n last
      → IsTrue v again
      → IsTrue v (raised uuid w query max_retries n (is_uncertain last) e r again)
  unfolding raised
  raised-IsTrue n last e already_exists again failed read h k =
      queried-IsTrue (suc n) e (call_rpc query max_retries).1 (v.existed n e failed read)
  raised-IsTrue n none e rejected again failed read h k = v.kept_out n e failed read ∙ h
  raised-IsTrue n (some l) e rejected again failed read h k = omega arith
  raised-IsTrue n last e uncertain again failed read h k =
      if-both (IsTrue v) (w.stopped_after n || w.stopped_in_delay n) (λ _. omega arith) (λ _. k)

  publish_loop-IsTrue :
      (k n : ℕ) (last : Option Exception)
      → Fresh n last
      → IsTrue v (publish_loop {H = H} uuid w query max_retries k n last)
  unfolding publish_loop
  publish_loop-IsTrue zero n last h =
      round-rule H uuid w query max_retries (IsTrue v) n last _
        (λ e stop. stopped_with-IsTrue n last e h) (λ seq done. v.replied n seq done)
        (λ e failed. raised-IsTrue n last e (reading e) _ failed refl h (omega arith))
  publish_loop-IsTrue (suc k) n last h =
      round-rule H uuid w query max_retries (IsTrue v) n last _
        (λ e stop. stopped_with-IsTrue n last e h) (λ seq done. v.replied n seq done)
        (λ e failed.
          raised-IsTrue n last e (reading e) _ failed refl h
            (publish_loop-IsTrue k (suc n) (some e) (omega arith)))

module _ {ℓ} {H : Type ℓ} (hooks : Hooks H) (t : Transport) (max_retries : ℕ) (a : Arguments)
    (payload : Bytes) where
  publish_frozen-IsTrue :
      (f : FrozenPublication) (v : Server (replies (t.publish f.uuid))) (o : Outcome H (Unit {0}))
      → IsTrue v (publish_frozen hooks t max_retries f o)
  unfolding publish_frozen
  publish_frozen-IsTrue f v (err h) = refl
  publish_frozen-IsTrue f v (ok _) =
      publish_loop-IsTrue H f.uuid (replies (t.publish f.uuid)) (replies (t.query f.uuid))
        max_retries v max_retries 0 none v.unused

  with_payload-IsTrue :
      (uuid : ℕ) (v : Server (replies (t.publish uuid))) (o : Outcome H (Unit {0}))
      → (call_rpc (replies t.get_uuid) max_retries).1 ≡ ok uuid
      → IsTrue v (with_payload hooks t max_retries a payload o)
  unfolding with_payload with_uuid
  with_payload-IsTrue uuid v (err h) allocated = refl
  with_payload-IsTrue uuid v (ok _) allocated =
      let f = freeze a payload uuid in
      rw allocated (publish_frozen-IsTrue f v (hooks.before_publish f))

  with_arguments-IsTrue :
      (uuid : ℕ) (v : Server (replies (t.publish uuid))) (o : Outcome PayloadError (Unit {0}))
      → (call_rpc (replies t.get_uuid) max_retries).1 ≡ ok uuid
      → IsTrue v (with_arguments hooks t max_retries a payload o)
  unfolding with_arguments
  with_arguments-IsTrue uuid v (err e) allocated = refl
  with_arguments-IsTrue uuid v (ok _) allocated =
      with_payload-IsTrue uuid v (hooks.validate_payload payload) allocated

  -- Whatever the hooks and the RPCs do once a UUID was allocated: a returned seq or a COMMITTED error
  -- means that the event is stored, a NOT_COMMITTED error that it is not, an UNKNOWN error that at
  -- least one Publish was made, and an argument or hook error that none was.
  pub publish-IsTrue :
      (uuid : ℕ) (v : Server (replies (t.publish uuid)))
      → (call_rpc (replies t.get_uuid) max_retries).1 ≡ ok uuid
      → IsTrue v (publish hooks t max_retries a payload)
  unfolding publish
  publish-IsTrue uuid v allocated = with_arguments-IsTrue uuid v (check_arguments a) allocated
