-- ===== src/Publishing/Api.antt =====
-- The client record of publishing.py with its checks, and the functions that publish one kind of
-- event.
use openevent_modules_model.Base.{
  ℕ, ltb, String, Bool, true, false, ◌&&◌, Option, none, some, Outcome, ok, err, ◌>>=◌, ◌>>◌,
  require, if◌then◌else◌, str_eq, pos, not,
}
use openevent_modules_model.Models.Value.{Value, int, str, positive_int}
use openevent_modules_model.Models.Kind.{Kind, request, result, append, end, cancel}
use openevent_modules_model.Models.Payload.{Bytes}
use openevent_modules_model.Publishing.Frozen.{FrozenPublication}
use openevent_modules_model.Publishing.Publish.{
  bad_argument, Arguments, Hooks, Transport, Result, argument_error, publish,
}

-- Which check raised the `ConfigurationError`.
pub data ClientError : Type 0 where
  bad_token bad_api bad_max_retries bad_retry_interval : ClientError

-- The arguments of `ModelProxyProtocolClient`, which Python does not type; of the OpenEvent client,
-- whether each of its methods is there.
pub record ClientArguments : Type 0 where
  pub has_get_uuid : Bool
  pub has_publish_auto_seq : Bool
  pub has_get_seq_by_uuid : Bool
  pub token : Value
  pub max_retries : Value
  pub retry_interval_ms : Value

pub record ProtocolClient : Type 0 where
  pub token : String
  pub max_retries : ℕ
  pub retry_interval_ms : ℕ

unfoldable pub checked_token : Value → Outcome ClientError String
checked_token (str s) = if str_eq s "" then err bad_token else ok s
checked_token _ = err bad_token

unfoldable pub checked_max_retries : Value → Outcome ClientError ℕ
checked_max_retries (int (pos n)) = ok n
checked_max_retries _ = err bad_max_retries

unfoldable pub checked_interval : Value → Outcome ClientError ℕ
checked_interval (int (pos n)) = if ltb 0 n then ok n else err bad_retry_interval
checked_interval _ = err bad_retry_interval

abbrev pub built : String → ℕ → ℕ → ProtocolClient
built token retries interval = record {
  token = token;
  max_retries = retries;
  retry_interval_ms = interval;
}

-- `validate_retries`, and the client with its numbers
unfoldable pub with_retries : ClientArguments → String → Outcome ClientError ProtocolClient
with_retries a token = checked_max_retries a.max_retries >>= λ retries.
    checked_interval a.retry_interval_ms >>= λ interval. ok (built token retries interval)

abbrev pub has_methods : ClientArguments → Bool
has_methods a = a.has_get_uuid && a.has_publish_auto_seq && a.has_get_seq_by_uuid

-- `__post_init__`
unfoldable pub create_client : ClientArguments → Outcome ClientError ProtocolClient
create_client a =
    checked_token a.token >>= λ token. require (has_methods a) bad_api >> with_retries a token

-- An input object as `_publish` reads it, with its encoding.
pub record Event : Type 0 where
  pub kind : Kind
  pub stream_id : String
  pub payload : Bytes

-- `isinstance(event, expected_type)`: no input class derives from another.
abbrev pub same_kind : Kind → Kind → Bool
same_kind request request = true
same_kind result result = true
same_kind append append = true
same_kind end end = true
same_kind cancel cancel = true
same_kind _ _ = false

-- The call of a helper: `valid_client` is whether it is given a `ModelProxyProtocolClient`.
pub record Site : Type 0 where
  pub valid_client : Bool
  pub max_retries : ℕ
  pub channel_id : Value
  pub principal : Value
  pub transport : Transport

unfoldable pub site_arguments : Site → Option Value → Event → Kind → Arguments
site_arguments s request_principal e expected = record {
  expected_type = same_kind e.kind expected;
  channel_id = s.channel_id;
  principal = s.principal;
  request_principal = request_principal;
  valid_client = s.valid_client;
  kind = e.kind;
  stream_id = e.stream_id;
}

abbrev pub only_before {ℓ} : {H : Type ℓ} → (FrozenPublication → Outcome H (Unit {0})) → Hooks H
only_before before = record { validate_payload = λ payload. ok tt; before_publish = before }

module _ {ℓ} {H : Type ℓ} where
  unfoldable pub publish_as :
      (FrozenPublication → Outcome H (Unit {0})) → Site → Option Value → Event → Kind → Result H
  publish_as before s request_principal e expected =
      publish (only_before before) s.transport s.max_retries
        (site_arguments s request_principal e expected) e.payload

  unfoldable pub publish_request :
      (FrozenPublication → Outcome H (Unit {0})) → Site → Event → Result H
  publish_request before s e = publish_as before s none e request

  unfoldable pub publish_infer_request : Site → Event → Result H
  publish_infer_request s e = publish_request (λ f. ok tt) s e

  -- `_publish_output`
  unfoldable pub publish_output : Site → Value → Event → Kind → Result H
  publish_output s request_principal e expected =
      if not (positive_int request_principal)
      then (0, err (bad_argument (argument_error none none)))
      else publish_as (λ f. ok tt) s (some request_principal) e expected

  unfoldable pub publish_infer_result : Site → Value → Event → Result H
  publish_infer_result s request_principal e = publish_output s request_principal e result

  unfoldable pub publish_infer_append : Site → Value → Event → Result H
  publish_infer_append s request_principal e = publish_output s request_principal e append

  unfoldable pub publish_infer_end : Site → Value → Event → Result H
  publish_infer_end s request_principal e = publish_output s request_principal e end

  -- `publish_infer_cancel`, and `publish_cancel` by what it hands to `_publish`.
  unfoldable pub publish_infer_cancel : Site → Event → Result H
  publish_infer_cancel s e = publish_as (λ f. ok tt) s none e cancel
