-- ===== src/Client/CreateTests.antt =====
-- A new call whose publication is refused, and the request of some arguments.
use openevent_modules_model.Base.{◌≡◌, refl, true, none, some, err, is_some}
use openevent_modules_model.Base.Dict.{get, put}
use openevent_modules_model.Models.Value.{Fields, str, bool, dict, field, done, null, get_field}
use openevent_modules_model.Models.Input.{request_input}
use openevent_modules_model.Publishing.Publish.{PublishError, publish_error, not_committed}
use openevent_modules_model.Subscription.State.{Call, Subscription, set_call}
use openevent_modules_model.Subscription.Client.{new_call, begun, begin, dropped}
use openevent_modules_model.Subscription.Reach.{here, next, begins, init, Reach-IsValid}
use openevent_modules_model.Subscription.Invariant.{IsValid}
use openevent_modules_model.Subscription.Detached.{IsForgotten}
use openevent_modules_model.Client.Create.{create_published, create_input, body_fields, popped}
use openevent_modules_model.Client.Created.{create_published-forgets}

abbrev state : Subscription
state = begun "s" true (init 1)

state-IsValid : IsValid state
unfolding begin
state-IsValid = Reach-IsValid (next here (begins "s" true 0 refl))

abbrev call : Call
call = new_call "s" true

state-call : get 0 state.calls ≡ some call
unfolding begun set_call get put
state-call = refl

abbrev refusal : PublishError (Unit {0})
refusal = publish_error not_committed (some 9) (some "NOT_FOUND")

create_published-forgets_example :
    let (t, raised) = create_published 0 call (err refusal) state in
    (is_some raised ≡ true)
    × IsValid t
    × IsForgotten 0 t
    × (get 0 t.calls ≡ some (dropped (record call { frozen = none })))
create_published-forgets_example =
    create_published-forgets 0 call refusal state state-IsValid state-call

abbrev kwargs : Fields
kwargs =
    field (str "model") (str "m")
      (field (str "provider") null (field (str "stream") (bool true) done))

request-input :
    create_input "stream_1" "/v1/responses" kwargs
    ≡ request_input
        (str "stream_1")
        (str "POST")
        (str "/v1/responses")
        (dict (field (str "model") (str "m") (field (str "stream") (bool true) done)))
        none
        none
unfolding create_input body_fields popped get_field
request-input = refl
