-- ===== src/Client/SettingsAccepted.antt =====
-- The protocol client accepts what the constructor of `OpenAI` has checked.
use openevent_modules_model.Base.{
  ◌<◌, leb, ◌==◌, ltb, ◌≡◌, refl, ap, ◌∙◌, false, true, String, length, str_eq, ok, Returns,
  >>=-Returns, require-Returns, after, require, ◌>>=◌, ◌>>◌, map_err, >>=-cong, if-both, Bool-cases,
  inl, inr, eq_iff, pos, arith,
}
use openevent_modules_model.Models.Value.{Value, int, str}
use openevent_modules_model.Models.Validate.{codes}
use openevent_modules_model.Config.Checks.{strip}
use openevent_modules_model.Publishing.Api.{
  built, checked_token, checked_max_retries, checked_interval, with_retries, create_client,
}
use openevent_modules_model.Client.Settings.{
  bad_callback, client_refused, OpenAiArguments, CheckedArguments, named_text, named_integer,
  is_callback, checked_arguments, check_openai, client_arguments, openai_of, openai,
}

abbrev IsNamed : String → Type 0
IsNamed s = str_eq s "" ≡ false

empty-blank : (length (strip (codes "")) == 0) ≡ true
unfolding strip
empty-blank = refl

nonblank-IsNamed : (s : String) → (length (strip (codes s)) == 0) ≡ false → IsNamed s
nonblank-IsNamed s h = elim (Bool-cases (str_eq s "")) [
  | inl same ↦
      let empty : s ≡ "" = (eq_iff s "").0 (ground (arith, same)) in
      let blank : (length (strip (codes s)) == 0) ≡ true =
        ap (λ t. length (strip (codes t)) == 0) empty ∙ empty-blank in
      absurd (ground (arith, h, blank))
  | inr other ↦ other
]

named_text-IsNamed : (name : String) (v : Value) → Returns IsNamed (named_text name v)
unfolding named_text
named_text-IsNamed name (str s) =
    if-both (Returns IsNamed) (length (strip (codes s)) == 0) (λ _. tt) (nonblank-IsNamed s)
named_text-IsNamed name _ = tt

named_integer-positive : (name : String) (v : Value) → Returns (λ n. 0 < n) (named_integer name 1 v)
unfolding named_integer
named_integer-positive name (int (pos n)) =
    if-both (Returns (λ n. 0 < n)) (leb 1 n) (λ h. ground (arith, h)) (λ _. tt)
named_integer-positive name _ = tt

abbrev IsAccepted : CheckedArguments → Type 0
IsAccepted c = IsNamed c.token × (0 < c.retry_interval_ms)

create_client-accepts :
    (c : CheckedArguments)
    → IsAccepted c
    → create_client (client_arguments c) ≡ ok (built c.token c.max_retries c.retry_interval_ms)
unfolding create_client checked_token with_retries checked_max_retries checked_interval
create_client-accepts c (named, positive) =
    let at : ltb 0 c.retry_interval_ms ≡ true = ground (arith, positive) in rw (named, at) refl

check_openai-IsAccepted : (a : OpenAiArguments) → Returns IsAccepted (check_openai a)
unfolding check_openai
check_openai-IsAccepted a =
    after IsAccepted (named_text "openevent_addr" a.openevent_addr) _ λ addr.
      >>=-Returns IsNamed IsAccepted (named_text "openevent_token" a.openevent_token) _
        (named_text-IsNamed "openevent_token" a.openevent_token)
        λ token named.
          after IsAccepted (named_integer "openevent_channel_id" 1 a.openevent_channel_id) _
            λ channel_id.
              after IsAccepted (named_integer "openevent_principal" 1 a.openevent_principal) _
                λ principal.
                  after IsAccepted (named_integer "rpc_timeout_ms" 1 a.rpc_timeout_ms) _ λ timeout.
                    after IsAccepted (named_integer "max_retries" 0 a.max_retries) _ λ retries.
                      >>=-Returns (λ n. 0 < n) IsAccepted
                        (named_integer "retry_interval_ms" 1 a.retry_interval_ms)
                        (λ interval.
                          require (is_callback a.on_subscription_error) bad_callback
                          >> ok (
                              checked_arguments addr token channel_id principal timeout retries
                                interval))
                        (named_integer-positive "retry_interval_ms" a.retry_interval_ms)
                        λ interval at.
                          require-Returns IsAccepted (is_callback a.on_subscription_error)
                            bad_callback
                            (ok (
                              checked_arguments addr token channel_id principal timeout retries
                                interval))
                            (λ _. (named, at))

-- The constructor raises by its own checks only: past them, `create_client` returns a client with the
-- token and the retries of the arguments.
pub openai-accepted :
    (a : OpenAiArguments)
    → openai a
      ≡ (check_openai a >>= λ c. ok (openai_of c (built c.token c.max_retries c.retry_interval_ms)))
unfolding openai
openai-accepted a = >>=-cong IsAccepted (check_openai a) _ _ (check_openai-IsAccepted a) (λ c h.
    ap (λ o. map_err client_refused o >>= λ protocol. ok (openai_of c protocol))
      (create_client-accepts c h))
