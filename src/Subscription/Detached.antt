-- ===== src/Subscription/Detached.antt =====
-- A call that is detached is in no index.
use openevent_modules_model.Base.{ℕ, ◌≡◌, ◌≢◌, refl, Option, none, some, arith}
use openevent_modules_model.Base.Dict.{get, get-remove}
use openevent_modules_model.Publishing.Frozen.{FrozenPublication}
use openevent_modules_model.Subscription.State.{Call, ReceiveState, Subscription, set_call}
use openevent_modules_model.Subscription.Locked.{detach_locked, forget_frozen, forget_receive}
use openevent_modules_model.Subscription.Invariant.{IsValid}

-- No request and no uuid leads to the call.
abbrev pub IsForgotten : ℕ → Subscription → Type 0
IsForgotten i t =
    ((n : ℕ) → get n t.receives_by_seq ≢ some i) × ((u : ℕ) → get u t.calls_by_uuid ≢ some i)

module _ (i : ℕ) (c : Call) (s : Subscription) (v : IsValid s) (here : get i s.calls ≡ some c) where
  forgotten_receive :
      (n : ℕ) (o : Option ReceiveState)
      → c.receive ≡ o
      → get n (forget_receive o s.receives_by_seq) ≢ some i
  unfolding forget_receive
  forgotten_receive n none e h = ground (arith, v.seqs n i h, here)
  forgotten_receive n (some r) e h =
      ground (arith, v.seqs n i, here, get-remove r.request_seq n s.receives_by_seq)

  forgotten_uuid :
      (u : ℕ) (o : Option FrozenPublication)
      → c.frozen ≡ o
      → get u (forget_frozen o s.calls_by_uuid) ≢ some i
  unfolding forget_frozen
  forgotten_uuid u none e h = ground (arith, v.uuids u i h, here)
  forgotten_uuid u (some f) e h =
      ground (arith, v.uuids u i, here, get-remove f.uuid u s.calls_by_uuid)

  pub detach_locked-IsForgotten : (f : Call → Call) → IsForgotten i (detach_locked i c f s)
  unfolding detach_locked set_call
  detach_locked-IsForgotten f =
      (λ n. forgotten_receive n c.receive refl, λ u. forgotten_uuid u c.frozen refl)
