-- ===== src/Client/Closed.antt =====
-- What closing a stream does to the subscription.
use openevent_modules_model.Base.{ℕ, ◌≡◌, refl, Bool, true, none, some, arith, subst}
use openevent_modules_model.Base.Dict.{get, put, get-put}
use openevent_modules_model.Subscription.State.{Call, Subscription, set_call}
use openevent_modules_model.Subscription.Locked.{detach_locked, stop_call_locked}
use openevent_modules_model.Subscription.Invariant.{IsValid, set_call-IsValid}
use openevent_modules_model.Subscription.Preserve.{stop_call_locked-IsValid}
use openevent_modules_model.Subscription.Detached.{IsForgotten, detach_locked-IsForgotten}
use openevent_modules_model.Client.Close.{closes, close_call}

module _ (i : ℕ) (c : Call) (s : Subscription) (v : IsValid s) (here : get i s.calls ≡ some c) where
  abbrev closing : Call
  closing = record c { close_started = true }

  closing-IsValid : IsValid (set_call i closing s)
  closing-IsValid =
      set_call-IsValid i c s v here closing refl refl refl (λ e. ground (arith, v.settled i e))

  -- What closing promises of the state that it leaves.
  abbrev pub IsDetached : Subscription → Type 0
  IsDetached t =
      IsValid t
      × (get i t.calls
          ≡ some (record c { close_started = true; local_closed = true; frozen = none }))
      × IsForgotten i t

  stopped : Subscription
  stopped = stop_call_locked i closing (set_call i closing s)

  stopped-call :
      get i stopped.calls
      ≡ some (record c { close_started = true; local_closed = true; frozen = none })
  unfolding stopped stop_call_locked detach_locked set_call
  stopped-call =
      let closed = record c { close_started = true; local_closed = true; frozen = none } in
      ground (arith, get-put i i closed (put i closing s.calls))

  closing-found : get i (set_call i closing s).calls ≡ some closing
  unfolding set_call
  closing-found = ground (arith, get-put i i closing s.calls)

  stopped-IsForgotten : IsForgotten i stopped
  unfolding stopped stop_call_locked
  stopped-IsForgotten =
      detach_locked-IsForgotten i closing (set_call i closing s) closing-IsValid closing-found _

  -- Closing a call of a valid subscription, when no close of it has begun, keeps the
  -- subscription valid, closes the call with its queue and its outcome as they are, and takes it
  -- out of both indexes.
  pub close_call-IsDetached :
      {cancel : Bool} {t : Subscription} → close_call i c s ≡ closes cancel t → IsDetached t
  unfolding close_call stopped
  close_call-IsDetached {cancel} {t} h =
      let same : stopped ≡ t = ground arith in
      let valid =
        stop_call_locked-IsValid i closing (set_call i closing s) closing-IsValid closing-found in
      subst IsDetached same (valid, stopped-call, stopped-IsForgotten)
