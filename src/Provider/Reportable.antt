-- ===== src/Provider/Reportable.antt =====
-- Every event of a provider call can be put into an event of the protocol, and so can what it raises.
use openevent_modules_model.Base.{
  ℕ, ltb, ◌≡◌, refl, String, Bool, true, false, ◌&&◌, ◌||◌, Option, none, some, List, [], ◌∷◌, ◌++◌,
  length, All, Outcome, ok, err, str_eq, if◌then◌else◌, if-both, Option-cases, inl, inr, arith,
}
use openevent_modules_model.Models.Value.{Value, str, list, dict}
use openevent_modules_model.Models.Validate.{is_http, all_headers}
use openevent_modules_model.Config.Checks.{same_codes}
use openevent_modules_model.Worker.Events.{ProviderEvent, completed, failed}
use openevent_modules_model.Provider.Frames.{Reader, read_chunks, new_reader}
use openevent_modules_model.Provider.Events.{
  Raised, provider_error, cancelled, incomplete_read, http_exception, os_error, other, Text,
  Yielded, FrameResult, skips, yields, ends, stops, typed_event, type_of, parsed_event, data_event,
  join_lines, done_text, text_event, and_then, frame_events, raised_behind, sse, json, json_body,
  event,
}
use openevent_modules_model.Provider.Call.{
  Response, whole, translated, translated_end, response_events, call_events,
}
use openevent_modules_model.Provider.Headers.{Lowers, AreAscii, header_items-valid}
use openevent_modules_model.Provider.Codes.{Known, Known?, Raises}

-- An HTTP status, a body for a failure, and headers that a result may carry.
abbrev pub is_reportable : ProviderEvent → Bool
is_reportable e =
    is_http e.status_code
    && (e.has_body || elim e.kind [ failed ↦ false | _ ↦ true ])
    && all_headers e.header_list

abbrev pub Reportable : Yielded → Type 0
Reportable (es, r) = All (λ e. is_reportable e ≡ true) es × Known? r

abbrev FrameReportable : FrameResult → Type 0
FrameReportable skips = Unit
FrameReportable (yields e) = is_reportable e ≡ true
FrameReportable (ends e) = is_reportable e ≡ true
FrameReportable (stops r) = Known r

and_then-Reportable :
    (f : FrameResult) (y : Yielded) → FrameReportable f → Reportable y → Reportable (and_then f y)
and_then-Reportable skips y h rest = rest
and_then-Reportable (yields e) (es, r) h (all, known) = ((h, all), known)
and_then-Reportable (ends e) y h rest = ((h, tt), tt)
and_then-Reportable (stops r) y h rest = (tt, h)

module _ (status : ℕ) (http : is_http status ≡ true) where
  typed_event-FrameReportable :
      (v : Value) (o : Option Value) → FrameReportable (typed_event status v o)
  unfolding typed_event
  typed_event-FrameReportable v none = tt
  typed_event-FrameReportable v (some (str k)) = ground (arith, http)
  typed_event-FrameReportable v (some (list _)) = tt
  typed_event-FrameReportable v (some (dict _)) = tt
  typed_event-FrameReportable v (some _) = ground (arith, http)

  parsed_event-FrameReportable :
      (path : String) (o : Option Value) → FrameReportable (parsed_event path status o)
  unfolding parsed_event
  parsed_event-FrameReportable path none = refl
  parsed_event-FrameReportable path (some v) =
      if-both FrameReportable (str_eq path "/v1/responses")
        (λ _. typed_event-FrameReportable v (type_of v)) (λ _. ground (arith, http))

  module _ (decode : List ℕ → Option Text) (loads : Text → Option Value) (limit : ℕ)
      (path : String) where
    data_event-FrameReportable :
        (ls : List Text) → FrameReportable (data_event decode loads path status ls)
    unfolding data_event
    data_event-FrameReportable [] = tt
    data_event-FrameReportable (l ∷ ls) =
        let value = join_lines (l ∷ ls) in
        if-both FrameReportable (str_eq path "/v1/chat/completions" && same_codes value done_text)
          (λ _. ground (arith, http)) (λ _. parsed_event-FrameReportable path (loads value))

    text_event-FrameReportable :
        (o : Option Text) → FrameReportable (text_event decode loads path status o)
    unfolding text_event
    text_event-FrameReportable none = refl
    text_event-FrameReportable (some text) = data_event-FrameReportable _

    frame_events-Reportable :
        (fs : List (List ℕ)) (last : Raised)
        → Known last
        → Reportable (frame_events decode loads path status fs last)
    unfolding frame_events
    frame_events-Reportable [] last known = (tt, known)
    frame_events-Reportable (f ∷ fs) last known =
        and_then-Reportable _ _ (text_event-FrameReportable (decode f))
          (frame_events-Reportable fs last known)

    raised_behind-Known :
        (o : Option Reader) (broken : Option Raised)
        → Known? broken
        → Known (raised_behind o broken)
    raised_behind-Known none broken known = refl
    raised_behind-Known (some r) (some b) known = known
    raised_behind-Known (some r) none known = refl

    pub sse-Reportable :
        (chunks : List (List ℕ)) (broken : Option Raised)
        → Known? broken
        → Reportable (sse decode loads limit path status chunks broken)
    unfolding sse
    sse-Reportable chunks broken known =
        let (frames, reader) = read_chunks limit [] chunks new_reader in
        frame_events-Reportable frames (raised_behind reader broken)
          (raised_behind-Known reader broken known)

module _ (decode : List ℕ → Option Text) (loads : Text → Option Value) where
  json-Raises : (bytes : List ℕ) → Raises (json decode loads bytes)
  json-Raises bytes = elim (Option-cases (decode bytes)) [
    | inl e ↦ rw e refl
    | inr (text, e) ↦
        rw e (elim (Option-cases (loads text)) [ inl f ↦ rw f refl | inr (v, f) ↦ rw f tt ])
  ]

  json_body-Raises :
      (limit : ℕ) (body : List ℕ) (parts : List (List ℕ)) (broken : Option Raised)
      → Known? broken
      → Raises (json_body decode loads limit body parts broken)
  unfolding json_body
  json_body-Raises limit body [] (some r) known = known
  json_body-Raises limit body [] none known = json-Raises body
  json_body-Raises limit body (part ∷ parts) broken known =
      if-both Raises (ltb limit (length (body ++ part))) (λ _. refl)
        (λ _. json_body-Raises limit (body ++ part) parts broken known)

whole-Reportable :
    (make : Value → ProviderEvent) (o : Outcome Raised Value)
    → ((v : Value) → is_reportable (make v) ≡ true)
    → Raises o
    → Reportable (whole make o)
whole-Reportable make (ok v) h known = ((h v, tt), tt)
whole-Reportable make (err r) h known = (tt, known)

translated-Known :
    (check : Option Raised) (r : Raised) → Known? check → Known r → Known (translated check r)
unfolding translated
translated-Known none incomplete_read c h = refl
translated-Known none http_exception c h = refl
translated-Known none os_error c h = refl
translated-Known (some x) incomplete_read c h = c
translated-Known (some x) http_exception c h = c
translated-Known (some x) os_error c h = c
translated-Known check (provider_error code) c h = h
translated-Known check cancelled c h = tt
translated-Known check other c h = tt

-- A response with an HTTP status and ASCII header names, behind which a known exception may stand.
pub record IsHttp (r : Response) : Type 0 where
  pub status_http : is_http r.status ≡ true
  pub names_ascii : AreAscii r.header_pairs
  pub broken_known : Known? r.broken

-- The outcome of the request: such a response, or a known exception.
abbrev pub IsExchange : Outcome Raised Response → Type 0
IsExchange (ok r) = IsHttp r
IsExchange (err r) = Known r

module _ (decode : List ℕ → Option Text) (loads : Text → Option Value) (lower : String → String)
    (limit : ℕ) (path : String) (lowers : Lowers lower) where
  response_events-Reportable :
      (streaming : Bool) (r : Response)
      → IsHttp r
      → Reportable (response_events decode loads lower limit path streaming r)
  unfolding response_events
  response_events-Reportable false r h =
      let valid = header_items-valid lower r.header_pairs lowers h.names_ascii in
      whole-Reportable _ _ (λ v. ground (arith, h.status_http, valid))
        (json_body-Raises decode loads limit [] r.chunks r.broken h.broken_known)
  response_events-Reportable true r h =
      let rest : Reportable (
          if str_eq r.media_type "text/event-stream"
          then sse decode loads limit path r.status r.chunks r.broken
          else whole (event completed r.status)
              (json_body decode loads limit [] r.chunks r.broken)) =
        if-both Reportable (str_eq r.media_type "text/event-stream")
          (λ _.
            sse-Reportable r.status h.status_http decode loads limit path r.chunks r.broken
              h.broken_known)
          (λ _.
            whole-Reportable _ _ (λ v. ground (arith, h.status_http))
              (json_body-Raises decode loads limit [] r.chunks r.broken h.broken_known)) in
      let valid = header_items-valid lower r.header_pairs lowers h.names_ascii in
      ((ground (arith, h.status_http, valid), rest.0), rest.1)

  translated_end-Reportable :
      (check : Option Raised) (y : Yielded)
      → Known? check
      → Reportable y
      → Reportable (translated_end check y)
  translated_end-Reportable check (es, none) c h = h
  translated_end-Reportable check (es, some r) c (all, known) =
      (all, translated-Known check r c known)

  pub call_events-Reportable :
      (streaming : Bool) (check : Option Raised) (o : Outcome Raised Response)
      → Known? check
      → IsExchange o
      → Reportable (call_events decode loads lower limit path streaming check o)
  unfolding call_events
  call_events-Reportable streaming check (ok r) c h =
      translated_end-Reportable check _ c (response_events-Reportable streaming r h)
  call_events-Reportable streaming check (err r) c h = (tt, translated-Known check r c h)
