-- ===== src/Provider/Chat.antt =====
-- A chat stream that is written down is read back, however it is cut into chunks.
use openevent_modules_model.Base.{
  ℕ, ◌+◌, ◌≤◌, ◌≡◌, refl, ap, ◌∙◌, String, false, Option, none, some, List, [], ◌∷◌, ◌++◌, length,
  All, arith, map,
}
use openevent_modules_model.Models.Value.{Value}
use openevent_modules_model.Config.Checks.{same_codes}
use openevent_modules_model.Worker.Events.{append}
use openevent_modules_model.Provider.Frames.{read_bytes, new_reader, read_chunks}
use openevent_modules_model.Provider.Chunks.{joined, unmarked, read_chunks-joined}
use openevent_modules_model.Provider.Events.{
  Raised, Text, data_lines, done_text, done_event, event, parsed_event, data_event, text_event,
  frame_events, sse, FrameResult, raised_behind,
}
use openevent_modules_model.Provider.Printed.{
  Plain, data_frame, printed, IsPrintable, read_bytes-printed, data_lines-data_frame,
  unmarked-printed,
}

module _ (decode : List ℕ → Option Text) (loads : Text → Option Value) (value : Text → Value)
    (limit status : ℕ) where
  -- A text that is an event of a chat stream: a JSON text on one line that decodes to its value.
  pub record IsEvent (t : Text) : Type 0 where
    pub plain : Plain t
    pub fits : length t + 8 ≤ limit
    pub decoded : decode (data_frame t) ≡ some (data_frame t)
    pub loaded : loads t ≡ some (value t)
    pub not_done : same_codes t done_text ≡ false

  abbrev pub chat_path : String
  chat_path = "/v1/chat/completions"

  text_event-IsEvent :
      (t : Text)
      → IsEvent t
      → text_event decode loads chat_path status (decode (data_frame t))
        ≡ FrameResult.yields (event append status (value t))
  unfolding text_event data_event parsed_event
  text_event-IsEvent t h =
      rw (h.decoded, data_lines-data_frame t h.plain, h.not_done, h.loaded) refl

  text_event-done :
      decode (data_frame done_text) ≡ some (data_frame done_text)
      → text_event decode loads chat_path status (decode (data_frame done_text))
        ≡ FrameResult.ends (done_event status)
  unfolding text_event data_event data_lines
  text_event-done decoded = rw decoded refl

  frame_events-chat :
      (ts : List Text) (last : Raised)
      → All IsEvent ts
      → decode (data_frame done_text) ≡ some (data_frame done_text)
      → frame_events decode loads chat_path status (map data_frame (ts ++ (done_text ∷ []))) last
        ≡ (map (λ t. event append status (value t)) ts ++ (done_event status ∷ []), none)
  unfolding frame_events
  frame_events-chat [] last h decoded = rw (text_event-done decoded) refl
  frame_events-chat (t ∷ ts) last (h, hs) decoded =
      rw (text_event-IsEvent t h, frame_events-chat ts last hs decoded) refl

  IsEvent-IsPrintable :
      (ts : List Text) → All IsEvent ts → 14 ≤ limit → IsPrintable limit (ts ++ (done_text ∷ []))
  IsEvent-IsPrintable [] h fits = (
    (
      (
        (refl, refl),
        ((refl, refl), ((refl, refl), ((refl, refl), ((refl, refl), ((refl, refl), tt))))),
      ),
      omega (arith, fits),
    ),
    tt,
  )
  IsEvent-IsPrintable (t ∷ ts) (h, hs) fits = ((h.plain, h.fits), IsEvent-IsPrintable ts hs fits)

  printed-unmarked :
      (ts : List Text)
      → unmarked (printed (ts ++ (done_text ∷ []))) ≡ printed (ts ++ (done_text ∷ []))
  printed-unmarked [] = unmarked-printed done_text []
  printed-unmarked (t ∷ ts) = unmarked-printed t (ts ++ (done_text ∷ []))

  -- A chat stream of data lines, one JSON text each, and of the end marker: the reader yields one append for
  -- each text, with its value and in their order, then `completed`, and raises nothing. This holds for
  -- every way of cutting the stream into chunks, when each frame is within the limit, decodes to
  -- itself, and no text is the marker.
  pub sse-printed :
      (ts : List Text) (chunks : List (List ℕ)) (broken : Option Raised)
      → All IsEvent ts
      → 14 ≤ limit
      → decode (data_frame done_text) ≡ some (data_frame done_text)
      → joined chunks ≡ printed (ts ++ (done_text ∷ []))
      → sse decode loads limit chat_path status chunks broken
        ≡ (map (λ t. event append status (value t)) ts ++ (done_event status ∷ []), none)
  unfolding sse
  sse-printed ts chunks broken h fits decoded same =
      let all = ts ++ (done_text ∷ []) in
      let framed : read_chunks limit [] chunks new_reader ≡ (map data_frame all, some new_reader) =
        read_chunks-joined limit chunks new_reader
        ∙ ap (λ bs. read_bytes limit bs new_reader) (ap unmarked same ∙ printed-unmarked ts)
        ∙ read_bytes-printed limit all (IsEvent-IsPrintable ts h fits) in
      rw framed (frame_events-chat ts (raised_behind (some new_reader) broken) h decoded)
