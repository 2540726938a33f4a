-- ===== src/Publishing/Frozen.antt =====
-- The frozen publication of publishing.py.
use openevent_modules_model.Base.{ℕ, String, List}
use openevent_modules_model.Models.Payload.{Bytes}

pub record FrozenPublication : Type 0 where
  pub uuid : ℕ
  pub payload : Bytes
  pub channel_id : ℕ
  pub principal : ℕ
  pub recipients : List ℕ
  pub object_keys : List String
