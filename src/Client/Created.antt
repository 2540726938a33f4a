-- ===== src/Client/Created.antt =====
-- What a failed publication leaves behind.
use openevent_modules_model.Base.{ℕ, ◌≡◌, refl, true, none, some, err, is_some, arith}
use openevent_modules_model.Base.Dict.{get, get-put}
use openevent_modules_model.Publishing.Publish.{PublishError}
use openevent_modules_model.Subscription.State.{Call, Subscription, set_call}
use openevent_modules_model.Subscription.Locked.{detach_locked}
use openevent_modules_model.Subscription.Client.{publication_failed, dropped}
use openevent_modules_model.Subscription.Invariant.{IsValid}
use openevent_modules_model.Subscription.Detached.{IsForgotten, detach_locked-IsForgotten}
use openevent_modules_model.Subscription.Preserve.{publication_failed-IsValid}
use openevent_modules_model.Client.Create.{create_published}

-- A call of a valid subscription whose publication fails, whatever the exception is: `_create` raises,
-- the subscription stays valid, no index leads to the call any more, and the call is closed with an
-- empty queue, no outcome and nothing frozen.
pub create_published-forgets {ℓ} :
    {H : Type ℓ} (i : ℕ) (c : Call) (e : PublishError H) (s : Subscription)
    → IsValid s
    → get i s.calls ≡ some c
    → let (t, raised) = create_published i c (err e) s in
      (is_some raised ≡ true)
      × IsValid t
      × IsForgotten i t
      × (get i t.calls ≡ some (dropped (record c { frozen = none })))
unfolding create_published publication_failed detach_locked set_call
create_published-forgets i c e s v here = (
  refl,
  (unfold publication_failed in publication_failed-IsValid i c s v here),
  detach_locked-IsForgotten i c s v here dropped,
  ground (arith, get-put i i (dropped (record c { frozen = none })) s.calls),
)
