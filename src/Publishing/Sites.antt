-- ===== src/Publishing/Sites.antt =====
-- What reaches OpenEvent by the functions of publishing.py.
use openevent_modules_model.Base.{
  ℕ, ◌<◌, ◌≤◌, ◌≡◌, refl, true, false, not, ltb, str_eq, some, Outcome, ok, err, if-both, arith,
  Returns, >>=-Returns, require-Returns, after, require, ◌>>◌, suc, pos, String,
}
use openevent_modules_model.Models.Value.{Value, int, str, positive_int}
use openevent_modules_model.Models.Kind.{Kind}
use openevent_modules_model.Models.Validate.{PayloadError}
use openevent_modules_model.Models.Payload.{Bytes}
use openevent_modules_model.Publishing.Publish.{
  Arguments, Hooks, Transport, Result, optional_positive, check_arguments, with_arguments, publish,
}
use openevent_modules_model.Publishing.Calls.{publish-calls}
use openevent_modules_model.Publishing.Api.{
  ClientArguments, ProtocolClient, checked_token, checked_max_retries, checked_interval, bad_api,
  built, has_methods, with_retries, create_client, Event, Site, site_arguments, only_before,
  publish_as, publish_output,
}

abbrev pub IsClient : ProtocolClient → Type 0
IsClient c = (str_eq c.token "" ≡ false) × (0 < c.retry_interval_ms)

checked_token-nonempty : (v : Value) → Returns (λ s. str_eq s "" ≡ false) (checked_token v)
unfolding checked_token
checked_token-nonempty (str t) =
    if-both (Returns (λ s. str_eq s "" ≡ false)) (str_eq t "") (λ _. tt) (λ h. h)
checked_token-nonempty _ = tt

checked_interval-positive : (v : Value) → Returns (λ n. 0 < n) (checked_interval v)
unfolding checked_interval
checked_interval-positive (int (pos m)) =
    if-both (Returns (λ n. 0 < n)) (ltb 0 m) (λ h. ground (arith, h)) (λ _. tt)
checked_interval-positive _ = tt

with_retries-IsClient :
    (a : ClientArguments) (token : String)
    → str_eq token "" ≡ false
    → Returns IsClient (with_retries a token)
unfolding with_retries
with_retries-IsClient a token named =
    after IsClient (checked_max_retries a.max_retries) _ (λ retries.
      >>=-Returns (λ n. 0 < n) IsClient (checked_interval a.retry_interval_ms)
        (λ n. ok (built token retries n)) (checked_interval-positive a.retry_interval_ms)
        (λ n at. (named, at)))

-- A client that is created has a token, and waits between its attempts.
pub create_client-IsClient : (a : ClientArguments) → Returns IsClient (create_client a)
unfolding create_client
create_client-IsClient a =
    >>=-Returns (λ s. str_eq s "" ≡ false) IsClient (checked_token a.token)
      (λ token. require (has_methods a) bad_api >> with_retries a token)
      (checked_token-nonempty a.token)
      (λ token named.
        require-Returns IsClient (has_methods a) bad_api (with_retries a token)
          (λ _. with_retries-IsClient a token named))

-- The arguments that pass the checks of `_publish`.
abbrev pub Checked : Arguments → Type 0
Checked a =
    (a.expected_type ≡ true)
    × (positive_int a.channel_id ≡ true)
    × (positive_int a.principal ≡ true)
    × (optional_positive a.request_principal ≡ true)
    × (a.valid_client ≡ true)

check_arguments-Checked : (a : Arguments) → check_arguments a ≡ ok tt → Checked a
unfolding check_arguments
check_arguments-Checked a h =
    (ground (arith, h), ground (arith, h), ground (arith, h), ground (arith, h), ground (arith, h))

module _ {ℓ} {H : Type ℓ} (hooks : Hooks H) (t : Transport) (max_retries : ℕ) (a : Arguments)
    (payload : Bytes) where
  with_arguments-Checked :
      (o : Outcome PayloadError (Unit {0}))
      → check_arguments a ≡ o
      → 0 < (with_arguments hooks t max_retries a payload o).0
      → Checked a
  unfolding with_arguments
  with_arguments-Checked (err e) at calls = absurd (omega (arith, calls))
  with_arguments-Checked (ok _) at calls = check_arguments-Checked a at

  pub publish-Checked : 0 < (publish hooks t max_retries a payload).0 → Checked a
  unfolding publish
  publish-Checked calls = with_arguments-Checked (check_arguments a) refl calls

-- An output reaches OpenEvent only as an event of its class, to a positive principal, by positive
-- numbers, and by at most one Publish RPC more than the retries.
pub publish_output-Checked {ℓ} :
    (H : Type ℓ) (s : Site) (request_principal : Value) (e : Event) (expected : Kind)
    → 0 < (publish_output {H = H} s request_principal e expected).0
    → Checked (site_arguments s (some request_principal) e expected)
      × (publish_output {H = H} s request_principal e expected).0 ≤ suc s.max_retries
unfolding publish_output publish_as
publish_output-Checked H s request_principal e expected =
    if-both
      (λ (r : Result H).
        0 < r.0
        → Checked (site_arguments s (some request_principal) e expected) × r.0 ≤ suc s.max_retries)
      (not (positive_int request_principal)) (λ _ calls. absurd (omega (arith, calls)))
      (λ _ calls. (
        publish-Checked (only_before (λ f. ok tt)) s.transport s.max_retries
            (site_arguments s (some request_principal) e expected) e.payload calls,
        publish-calls (only_before (λ f. ok tt)) s.transport s.max_retries
            (site_arguments s (some request_principal) e expected) e.payload,
      ))
