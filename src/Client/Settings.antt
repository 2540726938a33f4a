-- ===== src/Client/Settings.antt =====
-- The constructor of `OpenAI`: its checks, and the protocol client that it creates.
use openevent_modules_model.Base.{
  ℕ, leb, ◌==◌, String, Bool, true, Option, none, some, length, Outcome, ok, err, ◌>>=◌, ◌>>◌,
  require, map_err, if◌then◌else◌, pos,
}
use openevent_modules_model.Models.Value.{Value, int, str}
use openevent_modules_model.Models.Validate.{codes}
use openevent_modules_model.Config.Checks.{strip}
use openevent_modules_model.Publishing.Api.{
  ClientError, ClientArguments, ProtocolClient, create_client,
}

-- Which check raised the `ConfigurationError`, with the argument's name.
pub data OpenAiError : Type 0 where
  bad_text bad_integer : String → OpenAiError
  bad_callback : OpenAiError
  client_refused : ClientError → OpenAiError

-- The arguments, which Python does not type; of `on_subscription_error`, whether it can be called.
pub record OpenAiArguments : Type 0 where
  pub openevent_addr : Value
  pub openevent_token : Value
  pub openevent_channel_id : Value
  pub openevent_principal : Value
  pub rpc_timeout_ms : Value
  pub max_retries : Value
  pub retry_interval_ms : Value
  pub on_subscription_error : Option Bool

pub record OpenAi : Type 0 where
  pub addr : String
  pub rpc_timeout_ms : ℕ
  pub protocol : ProtocolClient
  pub channel_id : ℕ
  pub principal : ℕ

unfoldable pub named_text : String → Value → Outcome OpenAiError String
named_text name (str s) = if length (strip (codes s)) == 0 then err (bad_text name) else ok s
named_text name _ = err (bad_text name)

unfoldable pub named_integer : String → ℕ → Value → Outcome OpenAiError ℕ
named_integer name minimum (int (pos n)) = if leb minimum n then ok n else err (bad_integer name)
named_integer name minimum _ = err (bad_integer name)

abbrev pub is_callback : Option Bool → Bool
is_callback none = true
is_callback (some callable) = callable

-- The values that pass the checks.
pub record CheckedArguments : Type 0 where
  pub addr : String
  pub token : String
  pub channel_id : ℕ
  pub principal : ℕ
  pub rpc_timeout_ms : ℕ
  pub max_retries : ℕ
  pub retry_interval_ms : ℕ

abbrev pub checked_arguments : String → String → ℕ → ℕ → ℕ → ℕ → ℕ → CheckedArguments
checked_arguments addr token channel_id principal timeout retries interval = record {
  addr = addr;
  token = token;
  channel_id = channel_id;
  principal = principal;
  rpc_timeout_ms = timeout;
  max_retries = retries;
  retry_interval_ms = interval;
}

unfoldable pub check_openai : OpenAiArguments → Outcome OpenAiError CheckedArguments
check_openai a = named_text "openevent_addr" a.openevent_addr >>= λ addr.
    named_text "openevent_token" a.openevent_token >>= λ token.
    named_integer "openevent_channel_id" 1 a.openevent_channel_id >>= λ channel_id.
    named_integer "openevent_principal" 1 a.openevent_principal >>= λ principal.
    named_integer "rpc_timeout_ms" 1 a.rpc_timeout_ms >>= λ timeout.
    named_integer "max_retries" 0 a.max_retries >>= λ retries.
    named_integer "retry_interval_ms" 1 a.retry_interval_ms >>= λ interval.
    require (is_callback a.on_subscription_error) bad_callback
    >> ok (checked_arguments addr token channel_id principal timeout retries interval)

-- The arguments of `create_client`. `OpenEventClient` has its methods.
abbrev pub client_arguments : CheckedArguments → ClientArguments
client_arguments c = record {
  has_get_uuid = true;
  has_publish_auto_seq = true;
  has_get_seq_by_uuid = true;
  token = str c.token;
  max_retries = int (pos c.max_retries);
  retry_interval_ms = int (pos c.retry_interval_ms);
}

abbrev pub openai_of : CheckedArguments → ProtocolClient → OpenAi
openai_of c protocol = record {
  addr = c.addr;
  rpc_timeout_ms = c.rpc_timeout_ms;
  protocol = protocol;
  channel_id = c.channel_id;
  principal = c.principal;
}

-- `OpenAI.__init__`
unfoldable pub openai : OpenAiArguments → Outcome OpenAiError OpenAi
openai a = check_openai a >>= λ c.
    map_err client_refused (create_client (client_arguments c)) >>= λ protocol.
    ok (openai_of c protocol)
