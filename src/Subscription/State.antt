-- ===== src/Subscription/State.antt =====
-- The state of subscription.py. A `Call` object is shared by the client, the two indexes and the
-- reader, so the calls stand in a store, and the indexes hold their identities. The store also is
-- the `WeakSet` of live calls: collection of unused calls is not modelled.
use openevent_modules_model.Base.{ℕ, String, Bool, Option, List}
use openevent_modules_model.Base.Dict.{Dict, put}
use openevent_modules_model.Models.Validate.{PayloadError}
use openevent_modules_model.Models.Payload.{ParsedMessage}
use openevent_modules_model.Publishing.Frozen.{FrozenPublication}

pub record ReceiveState : Type 0 where
  pub request_seq : ℕ
  pub chain_seq : ℕ
  pub head_seen : Bool
  pub terminal : Bool

-- The message of a `ProtocolFault`.
pub data FaultKind : Type 0 where
  result_without_body append_before_result broken_chain : FaultKind

-- What a call's queue holds: a `ParsedMessage`, or a `ProtocolFault` with its event.
pub data Item : Type 0 where
  message : ParsedMessage → Item
  protocol_fault : FaultKind → ParsedMessage → Item

pub data Mismatch : Type 0 where
  published_seq_differs request_differs : Mismatch

-- The `protocol_error` of a subscription error.
pub data ProtocolDetail : Type 0 where
  invalid_message : PayloadError → ProtocolDetail
  request_error : Mismatch → String → Option ℕ → ProtocolDetail

-- `OpenEventSubscriptionError`, by its reason.
pub data SubscriptionError : Type 0 where
  rpc : Option String → SubscriptionError
  protocol : ProtocolDetail → SubscriptionError

pub record Call : Type 0 where
  pub stream_id : String
  pub streaming : Bool
  pub frozen : Option FrozenPublication
  pub request_seq : Option ℕ
  pub receive : Option ReceiveState
  pub queue : List Item
  pub error : Option SubscriptionError
  pub local_closed : Bool
  pub result : Option ParsedMessage
  pub completed : Option ParsedMessage
  pub close_started : Bool
  pub close_done : Bool

pub record Subscription : Type 0 where
  pub channel_id : ℕ
  pub initial_from_seq : Option ℕ
  pub last_seen_seq : ℕ
  pub preparing : Bool
  pub failed : Bool
  pub error : Option SubscriptionError
  pub calls_by_uuid : Dict ℕ
  pub receives_by_seq : Dict ℕ
  pub calls : Dict Call
  -- the identity that the next `Call` object gets
  pub next_id : ℕ

-- An assignment to fields of a call.
unfoldable pub set_call : ℕ → Call → Subscription → Subscription
set_call i c s = record s { calls = put i c s.calls }
