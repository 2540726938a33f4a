-- ===== src/Provider/Call.antt =====
-- `ProviderCall.__iter__`: the events of a call, and the exceptions that it turns into codes. `lower`
-- is `str.lower`. What precedes the response headers is its outcome.
use text.Mathlib.Text.{starts_with}
use openevent_modules_model.Base.{
  ℕ, String, Bool, true, false, not, ◌||◌, Option, none, some, List, [], ◌∷◌, str_eq, if◌then◌else◌,
  Outcome, ok, err,
}
use openevent_modules_model.Models.Value.{Value, Items, null, str, dict, done, field, nil, cons}
use openevent_modules_model.Worker.Events.{ProviderKind, ProviderEvent, headers, result, completed}
use openevent_modules_model.Provider.Events.{
  Raised, provider_error, incomplete_read, http_exception, os_error, Text, Yielded, event, sse,
  json_body,
}

-- A response whose headers have been read: `chunks` is what `_decoded_body` yields, and `broken` what
-- it raises behind them.
pub record Response : Type 0 where
  pub status : ℕ
  pub header_pairs : List (String × String)
  pub media_type : String
  pub chunks : List (List ℕ)
  pub broken : Option Raised

-- The response headers that are passed on.
unfoldable pub kept_header : String → Bool
kept_header name =
    str_eq name "content-type"
    || str_eq name "retry-after"
    || str_eq name "x-request-id"
    || starts_with name "x-ratelimit-"

abbrev pub header_value : String → String → Value
header_value name value =
    dict (field (str "name") (str name) (field (str "value") (str value) done))

unfoldable pub header_items : (String → String) → List (String × String) → Items
header_items lower [] = nil
header_items lower ((k, v) ∷ hs) =
    let rest = header_items lower hs in
    if kept_header (lower k) then cons (header_value (lower k) v) rest else rest

-- `self._check()` in front of a `ProviderError`: a cancellation or a deadline goes first.
abbrev checked : Option Raised → ℕ → Raised
checked none code = provider_error code
checked (some r) code = r

-- The `except` clauses; `check` is what `_check` raises there.
unfoldable pub translated : Option Raised → Raised → Raised
translated check incomplete_read = checked check 60003
translated check http_exception = checked check 60007
translated check os_error = checked check 60003
translated check r = r

abbrev pub translated_end : Option Raised → Yielded → Yielded
translated_end check (es, none) = (es, none)
translated_end check (es, some r) = (es, some (translated check r))

-- The one event of a body that is read whole.
abbrev pub whole : (Value → ProviderEvent) → Outcome Raised Value → Yielded
whole make (ok v) = (make v ∷ [], none)
whole make (err r) = ([], some r)

abbrev pub behind : ProviderEvent → Yielded → Yielded
behind e (es, r) = (e ∷ es, r)

abbrev pub headers_event :
    (String → String) → ProviderKind → Response → Value → Bool → ProviderEvent
headers_event lower kind r body has_body = record {
  kind = kind;
  status_code = r.status;
  header_list = header_items lower r.header_pairs;
  body = body;
  has_body = has_body;
}

module _ (decode : List ℕ → Option Text) (loads : Text → Option Value)
    (lower : String → String) where
  unfoldable pub response_events : ℕ → String → (streaming : Bool) → Response → Yielded
  response_events limit path streaming r =
      if not streaming
      then whole (λ v. headers_event lower result r v true)
          (json_body decode loads limit [] r.chunks r.broken)
      else behind (headers_event lower headers r null false) (
          if str_eq r.media_type "text/event-stream"
          then sse decode loads limit path r.status r.chunks r.broken
          else whole (event completed r.status) (json_body decode loads limit [] r.chunks r.broken))

  unfoldable pub call_events :
      ℕ → String → (streaming : Bool) → (check : Option Raised) → Outcome Raised Response → Yielded
  call_events limit path streaming check (ok r) =
      translated_end check (response_events limit path streaming r)
  call_events limit path streaming check (err r) = ([], some (translated check r))
