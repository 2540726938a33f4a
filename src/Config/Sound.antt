-- ===== src/Config/Sound.antt =====
-- Every configuration that `parse_config` returns satisfies the documented constraints.
use openevent_modules_model.Base.{
  ℕ, suc, ◌≤◌, ◌≡◌, refl, String, Bool, true, false, Option, List, length, str_eq, All, ok, Returns,
  >>=-Returns, require-Returns, after, Returns-ok, arith, pos,
}
use openevent_modules_model.Models.Value.{
  Value, Items, Fields, int, str, list, dict, nil, cons, done, field, is_text, get_field,
}
use openevent_modules_model.Models.Validate.{codes}
use openevent_modules_model.Config.Checks.{integer, string, is_clean, fields}
use openevent_modules_model.Config.Parse.{
  ProviderConfig, Providers, Config, SplitUrl, valid_url, integers, distinct, parse_channels,
  names_provider, provider_fields, parse_provider, parse_each, parse_providers, parse_config,
}

abbrev size : Items → ℕ
size nil = 0
size (cons c cs) = suc (size cs)

-- A nonempty text, and one that is clean too.
abbrev pub IsGiven : String → Type 0
IsGiven s = str_eq s "" ≡ false

abbrev pub IsClean : String → Type 0
IsClean s = IsGiven s × (is_clean (codes s) ≡ true)

pub record IsValidProvider (urlsplit : String → Option SplitUrl) (name : String)
    (p : ProviderConfig) : Type 0 where
  pub name_clean : IsClean name
  pub base_url_clean : IsClean p.base_url
  pub base_url_valid : valid_url p.base_url (urlsplit p.base_url) ≡ true
  pub api_key_clean : IsClean p.api_key
  pub header_positive : 1 ≤ p.timeout.response_header_ms
  pub idle_positive : 1 ≤ p.timeout.idle_ms

pub record IsValidConfig (urlsplit : String → Option SplitUrl) (c : Config) : Type 0 where
  pub addr_given : IsGiven c.open_event.addr
  pub rpc_positive : 1 ≤ c.open_event.rpc_timeout_ms
  pub concurrency_positive : 1 ≤ c.worker.max_concurrency
  pub interval_positive : 1 ≤ c.worker.retry_interval_ms
  pub principal_positive : 1 ≤ c.principal
  pub token_given : IsGiven c.token
  pub some_channel : 1 ≤ length c.channels
  pub channels_positive : All (λ n. 1 ≤ n) c.channels
  pub channels_distinct : distinct c.channels ≡ true
  pub limit_bounded : 4096 ≤ c.max_payload_bytes
  pub default_given : IsGiven c.default_provider
  pub default_known : names_provider c.default_provider c.providers ≡ true
  pub providers_valid : All (λ p. IsValidProvider urlsplit p.0 p.1) c.providers

integer-Returns : (minimum : ℕ) (v : Value) → Returns (λ n. minimum ≤ n) (integer minimum v)
unfolding integer
integer-Returns minimum (int (pos m)) = ground arith
integer-Returns minimum _ = tt

string-Returns : (clean : Bool) (v : Value) → Returns IsGiven (string clean v)
unfolding string
string-Returns clean (str s) = ground arith
string-Returns clean _ = tt

string-IsClean : (v : Value) → Returns IsClean (string true v)
unfolding string
string-IsClean (str s) = ground arith
string-IsClean _ = tt

integers-Returns :
    (cs : Items) → Returns (λ ns. (length ns ≡ size cs) × All (λ n. 1 ≤ n) ns) (integers cs)
integers-Returns nil = (refl, tt)
integers-Returns (cons c cs) =
    let Q : List ℕ → Type 0 = λ ns. (length ns ≡ size (cons c cs)) × All (λ n. 1 ≤ n) ns in
    >>=-Returns (λ n. 1 ≤ n) Q (integer 1 c) _ (integer-Returns 1 c)
      (λ n one.
        >>=-Returns (λ ns. (length ns ≡ size cs) × All (λ n. 1 ≤ n) ns) Q (integers cs) _
          (integers-Returns cs) (λ ns (many, rest). (omega (arith, many), (one, rest))))

abbrev AreChannels : List ℕ → Type 0
AreChannels ns = (1 ≤ length ns) × All (λ n. 1 ≤ n) ns × (distinct ns ≡ true)

parse_channels-Returns : (v : Value) → Returns AreChannels (parse_channels v)
unfolding parse_channels
parse_channels-Returns (list (cons c cs)) =
    >>=-Returns (λ ns. (length ns ≡ size (cons c cs)) × All (λ n. 1 ≤ n) ns) AreChannels
      (integers (cons c cs)) _ (integers-Returns (cons c cs))
      (λ ns (many, positive).
        require-Returns AreChannels (distinct ns) _ _ (λ d. (omega (arith, many), positive, d)))
parse_channels-Returns _ = tt

module _ (urlsplit : String → Option SplitUrl) where
  abbrev IsProvider : String × ProviderConfig → Type 0
  IsProvider p = IsValidProvider urlsplit p.0 p.1

  parse_provider-Returns : (key raw : Value) → Returns IsProvider (parse_provider urlsplit key raw)
  unfolding parse_provider
  parse_provider-Returns key raw =
      >>=-Returns IsClean IsProvider (string true key) _ (string-IsClean key) λ name named.
        after IsProvider (fields raw provider_fields provider_fields) _ λ p.
          require-Returns IsProvider (is_text "openai_compatible" (get_field "type" p)) _ _ λ _.
            >>=-Returns IsClean IsProvider (string true _) _ (string-IsClean _) λ url clean.
              require-Returns IsProvider (valid_url url (urlsplit url)) _ _ λ valid.
                after IsProvider (fields _ _ _) _ λ timeout.
                  >>=-Returns IsClean IsProvider (string true _) _ (string-IsClean _)
                    λ api_key key_clean.
                      >>=-Returns (λ n. 1 ≤ n) IsProvider (integer 1 _) _ (integer-Returns 1 _)
                        λ header h.
                          >>=-Returns (λ n. 1 ≤ n) IsProvider (integer 1 _) _ (integer-Returns 1 _)
                            λ idle i. record {
                              name_clean = named;
                              base_url_clean = clean;
                              base_url_valid = valid;
                              api_key_clean = key_clean;
                              header_positive = h;
                              idle_positive = i;
                            }

  abbrev AreProviders : Providers → Type 0
  AreProviders = All IsProvider

  parse_each-Returns : (fs : Fields) → Returns AreProviders (parse_each urlsplit fs)
  unfolding parse_each
  parse_each-Returns done = tt
  parse_each-Returns (field key raw fs) =
      >>=-Returns IsProvider AreProviders (parse_provider urlsplit key raw) _
        (parse_provider-Returns key raw)
        λ p valid.
          >>=-Returns AreProviders AreProviders (parse_each urlsplit fs) _ (parse_each-Returns fs)
            λ ps rest. (valid, rest)

  parse_providers-Returns : (v : Value) → Returns AreProviders (parse_providers urlsplit v)
  unfolding parse_providers
  parse_providers-Returns (dict (field key raw fs)) = parse_each-Returns (field key raw fs)
  parse_providers-Returns _ = tt

  abbrev IsConfig : Config → Type 0
  IsConfig = IsValidConfig urlsplit

  parse_config-Returns : (value : Value) → Returns IsConfig (parse_config urlsplit value)
  unfolding parse_config
  parse_config-Returns value = after IsConfig (fields value _ _) _ λ top.
      require-Returns IsConfig (is_text "llm.v1" (get_field "protocol" top)) _ _ λ _.
        after IsConfig (fields _ _ _) _ λ oe. after IsConfig (fields _ _ _) _ λ wc.
          >>=-Returns AreChannels IsConfig (parse_channels _) _ (parse_channels-Returns _)
            λ channels listed.
              >>=-Returns AreProviders IsConfig (parse_providers urlsplit _) _
                (parse_providers-Returns _)
                λ providers valid.
                  >>=-Returns IsGiven IsConfig (string false _) _ (string-Returns false _)
                    λ default given.
                      require-Returns IsConfig (names_provider default providers) _ _ λ known.
                        >>=-Returns IsGiven IsConfig (string false _) _ (string-Returns false _)
                          λ addr addressed.
                            >>=-Returns (λ n. 1 ≤ n) IsConfig (integer 1 _) _ (integer-Returns 1 _)
                              λ rpc h1.
                                >>=-Returns (λ n. 1 ≤ n) IsConfig (integer 1 _) _
                                  (integer-Returns 1 _)
                                  λ concurrency h2. after IsConfig (integer 0 _) _ λ retries.
                                    >>=-Returns (λ n. 1 ≤ n) IsConfig (integer 1 _) _
                                      (integer-Returns 1 _)
                                      λ interval h3.
                                        >>=-Returns (λ n. 1 ≤ n) IsConfig (integer 1 _) _
                                          (integer-Returns 1 _)
                                          λ principal h4.
                                            >>=-Returns IsGiven IsConfig (string false _) _
                                              (string-Returns false _)
                                              λ token secret.
                                                >>=-Returns (λ n. 4096 ≤ n) IsConfig
                                                  (integer 4096 _) _ (integer-Returns 4096 _)
                                                  λ limit h5. record {
                                                    addr_given = addressed;
                                                    rpc_positive = h1;
                                                    concurrency_positive = h2;
                                                    interval_positive = h3;
                                                    principal_positive = h4;
                                                    token_given = secret;
                                                    some_channel = listed.0;
                                                    channels_positive = listed.1;
                                                    channels_distinct = listed.2;
                                                    limit_bounded = h5;
                                                    default_given = given;
                                                    default_known = known;
                                                    providers_valid = valid;
                                                  }

  -- Whatever the decoded YAML value is and however `urlsplit` reads the URLs, a configuration that
  -- `parse_config` returns has an address, a token, a principal and positive periods; at least one
  -- thread; at least one channel, each positive and none twice; payloads of at least 4096 bytes; a
  -- default provider that is one of the providers; and providers whose names, keys and URLs are clean,
  -- whose URLs are accepted and whose timeouts are positive.
  pub parse_config-IsValidConfig :
      (value : Value) {c : Config} → parse_config urlsplit value ≡ ok c → IsConfig c
  parse_config-IsValidConfig value h =
      Returns-ok IsConfig (parse_config urlsplit value) (parse_config-Returns value) h
