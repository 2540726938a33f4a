-- ===== src/Config/Parse.antt =====
-- `parse_config` of config.py, on a decoded YAML value. `urlsplit` is a parameter.
use openevent_modules_model.Base.{
  ℕ, leb, ◌==◌, String, Bool, true, false, not, ◌&&◌, ◌||◌, Option, none, some, List, [], ◌∷◌, any,
  str_eq, ◌>>=◌, ok, err, require, ◌>>◌, pos,
}
use openevent_modules_model.Models.Value.{
  Value, Items, Fields, int, list, dict, nil, cons, done, field, is_text, get_field,
}
use openevent_modules_model.Models.Validate.{codes}
use openevent_modules_model.Config.Checks.{
  bad_protocol, bad_channels, duplicate_channels, bad_providers, bad_type, bad_base_url,
  unknown_default, Checked, fields, integer, string,
}

pub record OpenEventConfig : Type 0 where
  pub addr : String
  pub rpc_timeout_ms : ℕ

pub record WorkerConfig : Type 0 where
  pub max_concurrency : ℕ
  pub max_retries : ℕ
  pub retry_interval_ms : ℕ

pub record ProviderTimeout : Type 0 where
  pub response_header_ms : ℕ
  pub idle_ms : ℕ

-- The field `type` is `openai_compatible` in each.
pub record ProviderConfig : Type 0 where
  pub base_url : String
  pub api_key : String
  pub timeout : ProviderTimeout

abbrev pub Providers : Type 0
Providers = List (String × ProviderConfig)

-- The field `protocol` is `llm.v1` in each.
pub record Config : Type 0 where
  pub open_event : OpenEventConfig
  pub worker : WorkerConfig
  pub principal : ℕ
  pub token : String
  pub channels : List ℕ
  pub max_payload_bytes : ℕ
  pub default_provider : String
  pub providers : Providers

-- The result of `urlsplit`; `port` is `none` where reading it raises a `ValueError`.
pub record SplitUrl : Type 0 where
  pub scheme : String
  pub hostname : Option String
  pub netloc : String
  pub username : Option String
  pub password : Option String
  pub port : Option (Option ℕ)

abbrev has_char : ℕ → String → Bool
has_char c s = any (λ d. d == c) (codes s)

-- The truth value of a text that may be `None`.
abbrev is_given : Option String → Bool
is_given none = false
is_given (some s) = not (str_eq s "")

abbrev valid_port : Option (Option ℕ) → Bool
valid_port none = false
valid_port (some none) = true
valid_port (some (some n)) = leb 1 n && leb n 65535

-- The `valid` of a provider's `base_url`; `none` is a `ValueError` of `urlsplit`.
unfoldable pub valid_url : String → Option SplitUrl → Bool
valid_url base_url none = false
valid_url base_url (some url) =
    (str_eq url.scheme "http" || str_eq url.scheme "https")
    && is_given url.hostname
    && not (str_eq url.netloc "")
    && not (is_given url.username)
    && not (is_given url.password)
    && not (has_char b'@' url.netloc)
    && not (has_char b'?' base_url)
    && not (has_char b'#' base_url)
    && valid_port url.port

-- `data[k]` behind `_fields`, which has checked that a required key is there.
abbrev pub at : Option Value → Value
at none = Value.null
at (some v) = v

-- `data.get(k, default)`
abbrev pub or_else : Value → Option Value → Value
or_else default none = default
or_else default (some v) = v

abbrev pub natural : ℕ → Value
natural n = int (pos n)

abbrev pub provider_fields : List String
provider_fields = "type" ∷ "base_url" ∷ "api_key" ∷ "timeout" ∷ []

abbrev timeout_fields : List String
timeout_fields = "response_header_ms" ∷ "idle_ms" ∷ []

abbrev top_fields : List String
top_fields =
    "protocol" ∷ "open_event" ∷ "worker" ∷ "principal" ∷ "token" ∷ "channels" ∷ "max_payload_bytes"
    ∷ "default_provider" ∷ "providers" ∷ []

abbrev required_fields : List String
required_fields =
    "protocol" ∷ "open_event" ∷ "principal" ∷ "token" ∷ "channels" ∷ "default_provider"
    ∷ "providers" ∷ []

-- `tuple(_integer(c, "channels[]") for c in channels)`
abbrev pub integers : Items → Checked (List ℕ)
integers nil = ok []
integers (cons c cs) = do n ← integer 1 c; ns ← integers cs; ok (n ∷ ns)

abbrev pub distinct : List ℕ → Bool
distinct [] = true
distinct (n ∷ ns) = not (any (λ m. m == n) ns) && distinct ns

-- `data["channels"]`
unfoldable pub parse_channels : Value → Checked (List ℕ)
parse_channels (list (cons c cs)) = do
  ns ← integers (cons c cs)
  require (distinct ns) duplicate_channels
  ok ns
parse_channels _ = err bad_channels

-- `default not in providers`
abbrev pub names_provider : String → Providers → Bool
names_provider name ps = any (λ p. str_eq p.0 name) ps

module _ (urlsplit : String → Option SplitUrl) where
  -- The body of the loop over the providers.
  unfoldable pub parse_provider : Value → Value → Checked (String × ProviderConfig)
  parse_provider key raw = do
    name ← string true key
    p ← fields raw provider_fields provider_fields
    require (is_text "openai_compatible" (get_field "type" p)) bad_type
    base_url ← string true (at (get_field "base_url" p))
    require (valid_url base_url (urlsplit base_url)) bad_base_url
    timeout ← fields (at (get_field "timeout" p)) timeout_fields ("response_header_ms" ∷ [])
    api_key ← string true (at (get_field "api_key" p))
    header ← integer 1 (at (get_field "response_header_ms" timeout))
    idle ← integer 1 (or_else (natural 30000) (get_field "idle_ms" timeout))
    ok (
      name,
      record {
        base_url = base_url;
        api_key = api_key;
        timeout = record { response_header_ms = header; idle_ms = idle };
      },
    )

  -- The providers in the order of the dict. Its keys are distinct where the document was read by
  -- `mapping`; this function does not check it.
  unfoldable pub parse_each : Fields → Checked Providers
  parse_each done = ok []
  parse_each (field key raw fs) = do p ← parse_provider key raw; ps ← parse_each fs; ok (p ∷ ps)

  -- `data["providers"]`
  unfoldable pub parse_providers : Value → Checked Providers
  parse_providers (dict (field key raw fs)) = parse_each (field key raw fs)
  parse_providers _ = err bad_providers

  unfoldable pub parse_config : Value → Checked Config
  parse_config value = do
    top ← fields value top_fields required_fields
    require (is_text "llm.v1" (get_field "protocol" top)) bad_protocol
    oe ← fields (at (get_field "open_event" top)) ("addr" ∷ "rpc_timeout_ms" ∷ []) ("addr" ∷ [])
    wc ←
        fields (or_else (dict done) (get_field "worker" top))
          ("max_concurrency" ∷ "max_retries" ∷ "retry_interval_ms" ∷ []) []
    channels ← parse_channels (at (get_field "channels" top))
    providers ← parse_providers (at (get_field "providers" top))
    default ← string false (at (get_field "default_provider" top))
    require (names_provider default providers) unknown_default
    addr ← string false (at (get_field "addr" oe))
    rpc ← integer 1 (or_else (natural 30000) (get_field "rpc_timeout_ms" oe))
    concurrency ← integer 1 (or_else (natural 8) (get_field "max_concurrency" wc))
    retries ← integer 0 (or_else (natural 3) (get_field "max_retries" wc))
    interval ← integer 1 (or_else (natural 1000) (get_field "retry_interval_ms" wc))
    principal ← integer 1 (at (get_field "principal" top))
    token ← string false (at (get_field "token" top))
    limit ← integer 4096 (or_else (natural 16777216) (get_field "max_payload_bytes" top))
    ok (record {
      open_event = record { addr = addr; rpc_timeout_ms = rpc };
      worker = record {
        max_concurrency = concurrency;
        max_retries = retries;
        retry_interval_ms = interval;
      };
      principal = principal;
      token = token;
      channels = channels;
      max_payload_bytes = limit;
      default_provider = default;
      providers = providers;
    })
