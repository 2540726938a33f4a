-- ===== src/Provider/Shape.antt =====
-- The shape of the events of a provider call: one result, or headers, appends and one end; a call that
-- raises has yielded no result and no end.
use openevent_modules_model.Base.{
  ℕ, ◌≡◌, refl, String, Bool, true, false, not, ◌&&◌, Option, none, some, List, [], ◌∷◌, all,
  str_eq, if-both, Outcome, ok, err, arith,
}
use openevent_modules_model.Models.Value.{Value, str, list, dict}
use openevent_modules_model.Worker.Events.{
  ProviderEvent, headers, result, append, completed, failed,
}
use openevent_modules_model.Config.Checks.{same_codes}
use openevent_modules_model.Provider.Frames.{read_chunks, new_reader}
use openevent_modules_model.Provider.Events.{
  Raised, Text, Yielded, FrameResult, skips, yields, ends, stops, typed_event, type_of,
  parsed_event, data_event, join_lines, done_text, text_event, and_then, frame_events, sse,
  json_body, event,
}
use openevent_modules_model.Provider.Call.{
  Response, whole, headers_event, translated_end, response_events, call_events,
}

abbrev pub is_append_event : ProviderEvent → Bool
is_append_event e = elim e.kind [ append ↦ true | _ ↦ false ]

abbrev pub is_end_event : ProviderEvent → Bool
is_end_event e = elim e.kind [ completed ↦ true | failed ↦ true | _ ↦ false ]

-- Appends and then one end.
unfoldable pub is_ended : List ProviderEvent → Bool
is_ended [] = false
is_ended (e ∷ []) = is_end_event e
is_ended (e ∷ f ∷ es) = is_append_event e && is_ended (f ∷ es)

-- Appends.
abbrev pub is_open : List ProviderEvent → Bool
is_open = all is_append_event

-- The events behind the headers, by whether the call raised.
abbrev pub TailShape : Yielded → Type 0
TailShape (es, none) = is_ended es ≡ true
TailShape (es, some r) = is_open es ≡ true

-- One whole result.
abbrev pub is_whole : List ProviderEvent → Bool
is_whole (e ∷ []) = e.has_body && elim e.kind [ result ↦ true | _ ↦ false ]
is_whole _ = false

abbrev pub is_headers : ProviderEvent → Bool
is_headers e = not e.has_body && elim e.kind [ headers ↦ true | _ ↦ false ]

-- All events of a call. One that raises before the response headers has none.
abbrev pub CallShape : Bool → Yielded → Type 0
CallShape false (es, none) = is_whole es ≡ true
CallShape false (es, some r) = es ≡ []
CallShape true ([], none) = ⊥
CallShape true ([], some r) = Unit
CallShape true (e ∷ es, r) = (is_headers e ≡ true) × TailShape (es, r)

abbrev FrameShape : FrameResult → Type 0
FrameShape skips = Unit
FrameShape (yields e) = is_append_event e ≡ true
FrameShape (ends e) = is_end_event e ≡ true
FrameShape (stops r) = Unit

typed_event-FrameShape :
    (status : ℕ) (v : Value) (o : Option Value) → FrameShape (typed_event status v o)
unfolding typed_event
typed_event-FrameShape status v none = tt
typed_event-FrameShape status v (some (str k)) = ground arith
typed_event-FrameShape status v (some (list _)) = tt
typed_event-FrameShape status v (some (dict _)) = tt
typed_event-FrameShape status v (some _) = refl

parsed_event-FrameShape :
    (path : String) (status : ℕ) (o : Option Value) → FrameShape (parsed_event path status o)
unfolding parsed_event
parsed_event-FrameShape path status none = tt
parsed_event-FrameShape path status (some v) =
    if-both FrameShape (str_eq path "/v1/responses")
      (λ _. typed_event-FrameShape status v (type_of v)) (λ _. refl)

and_then-TailShape :
    (f : FrameResult) (y : Yielded) → FrameShape f → TailShape y → TailShape (and_then f y)
unfolding is_ended
and_then-TailShape skips y h t = t
and_then-TailShape (yields e) ([], none) h t = cc
and_then-TailShape (yields e) (f ∷ es, none) h t = rw h t
and_then-TailShape (yields e) (es, some r) h t = rw h t
and_then-TailShape (ends e) y h t = h
and_then-TailShape (stops r) y h t = refl

module _ (decode : List ℕ → Option Text) (loads : Text → Option Value) (lower : String → String)
    (limit : ℕ) (path : String) where
  data_event-FrameShape :
      (status : ℕ) (ls : List Text) → FrameShape (data_event decode loads path status ls)
  unfolding data_event
  data_event-FrameShape status [] = tt
  data_event-FrameShape status (l ∷ ls) =
      let value = join_lines (l ∷ ls) in
      if-both FrameShape (str_eq path "/v1/chat/completions" && same_codes value done_text)
        (λ _. refl) (λ _. parsed_event-FrameShape path status (loads value))

  text_event-FrameShape :
      (status : ℕ) (o : Option Text) → FrameShape (text_event decode loads path status o)
  unfolding text_event
  text_event-FrameShape status none = tt
  text_event-FrameShape status (some text) = data_event-FrameShape status _

  frame_events-TailShape :
      (status : ℕ) (fs : List (List ℕ)) (last : Raised)
      → TailShape (frame_events decode loads path status fs last)
  unfolding frame_events
  frame_events-TailShape status [] last = refl
  frame_events-TailShape status (f ∷ fs) last =
      and_then-TailShape _ _ (text_event-FrameShape status (decode f))
        (frame_events-TailShape status fs last)

  sse-TailShape :
      (status : ℕ) (chunks : List (List ℕ)) (broken : Option Raised)
      → TailShape (sse decode loads limit path status chunks broken)
  unfolding sse
  sse-TailShape status chunks broken =
      frame_events-TailShape status (read_chunks limit [] chunks new_reader).0 _

  whole-TailShape :
      (status : ℕ) (o : Outcome Raised Value) → TailShape (whole (event completed status) o)
  unfolding is_ended
  whole-TailShape status (ok v) = refl
  whole-TailShape status (err r) = refl

  whole-CallShape :
      (r : Response) (o : Outcome Raised Value)
      → CallShape false (whole (λ v. headers_event lower result r v true) o)
  whole-CallShape r (ok v) = refl
  whole-CallShape r (err e) = refl

  response_events-CallShape :
      (streaming : Bool) (r : Response)
      → CallShape streaming (response_events decode loads lower limit path streaming r)
  unfolding response_events
  response_events-CallShape false r =
      whole-CallShape r (json_body decode loads limit [] r.chunks r.broken)
  response_events-CallShape true r = (
    refl,
    if-both TailShape (str_eq r.media_type "text/event-stream")
        (λ _. sse-TailShape r.status r.chunks r.broken) (λ _. whole-TailShape r.status _),
  )

  translated_end-CallShape :
      (streaming : Bool) (check : Option Raised) (y : Yielded)
      → CallShape streaming y
      → CallShape streaming (translated_end check y)
  translated_end-CallShape false check (es, none) h = h
  translated_end-CallShape false check (es, some r) h = h
  translated_end-CallShape true check ([], none) h = h
  translated_end-CallShape true check ([], some r) h = h
  translated_end-CallShape true check (e ∷ es, none) h = h
  translated_end-CallShape true check (e ∷ es, some r) h = h

  -- Whatever a provider answers, in whatever chunks, and wherever the call breaks off: without `stream`
  -- it yields one result with a body, or raises and has yielded nothing; with `stream` it yields its
  -- headers, appends and one end, or it raises and has yielded no end.
  pub call_events-CallShape :
      (streaming : Bool) (check : Option Raised) (o : Outcome Raised Response)
      → CallShape streaming (call_events decode loads lower limit path streaming check o)
  unfolding call_events
  call_events-CallShape streaming check (ok r) =
      translated_end-CallShape streaming check _ (response_events-CallShape streaming r)
  call_events-CallShape false check (err r) = refl
  call_events-CallShape true check (err r) = tt
