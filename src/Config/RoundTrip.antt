-- ===== src/Config/RoundTrip.antt =====
-- Every configuration that satisfies the constraints can be written down, and is read back.
use openevent_modules_model.Base.{
  ℕ, ◌≤◌, ◌≡◌, refl, String, true, false, Option, List, [], ◌∷◌, length, All, ok, arith,
}
use openevent_modules_model.Models.Value.{
  Value, Items, Fields, str, list, dict, nil, cons, done, field, get_field,
}
use openevent_modules_model.Models.Validate.{no_unknown, no_missing}
use openevent_modules_model.Config.Checks.{integer, string, fields}
use openevent_modules_model.Config.Parse.{
  OpenEventConfig, WorkerConfig, ProviderTimeout, ProviderConfig, Providers, Config, SplitUrl,
  integers, distinct, parse_channels, names_provider, natural, parse_provider, parse_each,
  parse_providers, parse_config,
}
use openevent_modules_model.Config.Sound.{IsGiven, IsClean, IsValidProvider, IsValidConfig}

-- The decoded YAML document of a configuration, with every field written.
abbrev open_event_value : OpenEventConfig → Value
open_event_value o =
    dict (
      field (str "addr") (str o.addr)
        (field (str "rpc_timeout_ms") (natural o.rpc_timeout_ms) done))

abbrev worker_value : WorkerConfig → Value
worker_value w = dict (
    field (str "max_concurrency") (natural w.max_concurrency) (
      field (str "max_retries") (natural w.max_retries)
        (field (str "retry_interval_ms") (natural w.retry_interval_ms) done)))

abbrev timeout_value : ProviderTimeout → Value
timeout_value t = dict (
    field (str "response_header_ms") (natural t.response_header_ms)
      (field (str "idle_ms") (natural t.idle_ms) done))

abbrev provider_value : ProviderConfig → Value
provider_value p = dict (
    field (str "type") (str "openai_compatible") (
      field (str "base_url") (str p.base_url) (
        field (str "api_key") (str p.api_key)
          (field (str "timeout") (timeout_value p.timeout) done))))

abbrev provider_values : Providers → Fields
provider_values [] = done
provider_values ((name, p) ∷ ps) = field (str name) (provider_value p) (provider_values ps)

abbrev channel_values : List ℕ → Items
channel_values [] = nil
channel_values (n ∷ ns) = cons (natural n) (channel_values ns)

unfoldable pub config_value : Config → Value
config_value c = dict (
    field (str "protocol") (str "llm.v1") (
      field (str "open_event") (open_event_value c.open_event) (
        field (str "worker") (worker_value c.worker) (
          field (str "principal") (natural c.principal) (
            field (str "token") (str c.token) (
              field (str "channels") (list (channel_values c.channels)) (
                field (str "max_payload_bytes") (natural c.max_payload_bytes) (
                  field (str "default_provider") (str c.default_provider)
                    (field (str "providers") (dict (provider_values c.providers)) done)))))))))

integer-natural : (minimum n : ℕ) → minimum ≤ n → integer minimum (natural n) ≡ ok n
unfolding integer
integer-natural minimum n h = ground (arith, h)

string-given : (s : String) → IsGiven s → string false (str s) ≡ ok s
unfolding string
string-given s h = rw h refl

string-clean : (s : String) → IsClean s → string true (str s) ≡ ok s
unfolding string
string-clean s (given, clean) = rw (given, clean) refl

integers-values : (ns : List ℕ) → All (λ n. 1 ≤ n) ns → integers (channel_values ns) ≡ ok ns
integers-values [] h = refl
integers-values (n ∷ ns) (h, hs) = rw (integer-natural 1 n h, integers-values ns hs) refl

parse_channels-values :
    (ns : List ℕ)
    → 1 ≤ length ns
    → All (λ n. 1 ≤ n) ns
    → distinct ns ≡ true
    → parse_channels (list (channel_values ns)) ≡ ok ns
unfolding parse_channels
parse_channels-values [] h hs d = absurd (omega arith)
parse_channels-values (n ∷ ns) h hs d = rw (integers-values (n ∷ ns) hs, d) refl

module _ (urlsplit : String → Option SplitUrl) where
  parse_provider-value :
      (name : String) (p : ProviderConfig)
      → IsValidProvider urlsplit name p
      → parse_provider urlsplit (str name) (provider_value p) ≡ ok (name, p)
  unfolding parse_provider fields no_unknown no_missing get_field
  parse_provider-value name p v =
      rw
        (
          string-clean name v.name_clean,
          string-clean p.base_url v.base_url_clean,
          v.base_url_valid,
          string-clean p.api_key v.api_key_clean,
          integer-natural 1 p.timeout.response_header_ms v.header_positive,
          integer-natural 1 p.timeout.idle_ms v.idle_positive,
        )
        refl

  parse_each-values :
      (ps : Providers)
      → All (λ p. IsValidProvider urlsplit p.0 p.1) ps
      → parse_each urlsplit (provider_values ps) ≡ ok ps
  unfolding parse_each
  parse_each-values [] h = refl
  parse_each-values ((name, p) ∷ ps) (h, hs) =
      rw (parse_provider-value name p h, parse_each-values ps hs) refl

  parse_providers-values :
      (name : String) (ps : Providers)
      → names_provider name ps ≡ true
      → All (λ p. IsValidProvider urlsplit p.0 p.1) ps
      → parse_providers urlsplit (dict (provider_values ps)) ≡ ok ps
  unfolding parse_providers
  parse_providers-values name [] h hs = cc
  parse_providers-values name (p ∷ ps) h hs = parse_each-values (p ∷ ps) hs

  -- A configuration that satisfies the constraints of `IsValidConfig` is what `parse_config` reads from
  -- the document that writes down all of its fields: no further constraint is imposed.
  pub parse_config-config_value :
      (c : Config) → IsValidConfig urlsplit c → parse_config urlsplit (config_value c) ≡ ok c
  unfolding parse_config config_value fields no_unknown no_missing get_field
  parse_config-config_value c v =
      rw
        (
          parse_channels-values c.channels v.some_channel v.channels_positive v.channels_distinct,
          parse_providers-values c.default_provider c.providers v.default_known v.providers_valid,
          string-given c.default_provider v.default_given,
          v.default_known,
          string-given c.open_event.addr v.addr_given,
          integer-natural 1 c.open_event.rpc_timeout_ms v.rpc_positive,
          integer-natural 1 c.worker.max_concurrency v.concurrency_positive,
          integer-natural 0 c.worker.max_retries (omega arith),
          integer-natural 1 c.worker.retry_interval_ms v.interval_positive,
          integer-natural 1 c.principal v.principal_positive,
          string-given c.token v.token_given,
          integer-natural 4096 c.max_payload_bytes v.limit_bounded,
        )
        refl
