-- ===== src/Config/Tests.antt =====
-- A configuration with one provider and every default, one that repeats a channel, and a mapping.
use openevent_modules_model.Base.{
  ◌≡◌, refl, String, Option, none, some, true, List, [], ◌∷◌, ok, err,
}
use openevent_modules_model.Models.Value.{
  Value, Fields, str, list, dict, cons, nil, field, done, get_field,
}
use openevent_modules_model.Models.Validate.{no_unknown, no_missing}
use openevent_modules_model.Config.Checks.{
  Checked, duplicate_channels, duplicate_key, unclean_string, fields, integer, string, is_clean,
  strip, is_space, is_control,
}
use openevent_modules_model.Config.Mapping.{mapping, has_key, same_key}
use openevent_modules_model.Config.Distinct.{Reads, AreDistinct, mapping-Reads}
use openevent_modules_model.Config.Parse.{
  Config, SplitUrl, natural, valid_url, parse_channels, parse_provider, parse_each, parse_providers,
  parse_config,
}
use openevent_modules_model.Config.Sound.{IsValidConfig, parse_config-IsValidConfig}
use openevent_modules_model.Config.RoundTrip.{config_value, parse_config-config_value}

abbrev pub urlsplit : String → Option SplitUrl
urlsplit s = some (record {
  scheme = "http";
  hostname = some "host";
  netloc = "host";
  username = none;
  password = none;
  port = some none;
})

abbrev provider : Value
provider = dict (
    field (str "type") (str "openai_compatible") (
      field (str "base_url") (str "http://host") (
        field (str "api_key") (str "key") (
          field (str "timeout") (dict (field (str "response_header_ms") (natural 1000) done))
            done))))

-- A document with these channels.
abbrev pub document : Value → Value
document channels = dict (
    field (str "protocol") (str "llm.v1") (
      field (str "open_event") (dict (field (str "addr") (str "localhost:1") done)) (
        field (str "principal") (natural 7) (
          field (str "token") (str "secret") (
            field (str "channels") channels (
              field (str "default_provider") (str "default")
                (field (str "providers") (dict (field (str "default") provider done)) done)))))))

abbrev pub one_channel : Value
one_channel = list (cons (natural 3) nil)

abbrev pub config : Config
config = record {
  open_event = record { addr = "localhost:1"; rpc_timeout_ms = 30000 };
  worker = record { max_concurrency = 8; max_retries = 3; retry_interval_ms = 1000 };
  principal = 7;
  token = "secret";
  channels = 3 ∷ [];
  max_payload_bytes = 16777216;
  default_provider = "default";
  providers =
      (
        "default",
        record {
          base_url = "http://host";
          api_key = "key";
          timeout = record { response_header_ms = 1000; idle_ms = 30000 };
        },
      )
      ∷ [];
}

pub document-config : parse_config urlsplit (document one_channel) ≡ ok config
unfolding parse_config fields no_unknown no_missing get_field parse_channels integer parse_providers
    parse_each parse_provider string is_clean strip is_space is_control valid_url
document-config = refl

document-duplicate :
    parse_config urlsplit (document (list (cons (natural 3) (cons (natural 3) nil))))
    ≡ err duplicate_channels
unfolding parse_config fields no_unknown no_missing get_field parse_channels integer
document-duplicate = refl

string-clean_refused : string true (str " key") ≡ err unclean_string
unfolding string is_clean strip is_space is_control
string-clean_refused = refl

parse_config-IsValidConfig_example : IsValidConfig urlsplit config
parse_config-IsValidConfig_example =
    parse_config-IsValidConfig urlsplit (document one_channel) document-config

parse_config-config_value_example : parse_config urlsplit (config_value config) ≡ ok config
parse_config-config_value_example =
    parse_config-config_value urlsplit config parse_config-IsValidConfig_example

-- Every node constructs itself.
abbrev construct : Value → Checked Value
construct v = ok v

abbrev nodes : List (Value × Value)
nodes = (str "a", natural 1) ∷ (str "b", natural 2) ∷ []

abbrev read_nodes : Fields
read_nodes = field (str "a") (natural 1) (field (str "b") (natural 2) done)

nodes-read : mapping construct nodes done ≡ ok read_nodes
unfolding mapping has_key same_key
nodes-read = refl

nodes-duplicate : mapping construct ((str "b", natural 1) ∷ nodes) done ≡ err duplicate_key
unfolding mapping has_key same_key
nodes-duplicate = refl

mapping-Reads_example : Reads construct nodes read_nodes × AreDistinct done read_nodes
mapping-Reads_example = mapping-Reads construct nodes nodes-read
