-- ===== src/Provider/Events.antt =====
-- What `_sse` does with a frame, and the events of one provider call (`__iter__` behind the response
-- headers). Texts are lists of code points. `decode` is `bytes.decode("utf-8")`, and `loads` is
-- `json.loads` with the hooks of `_json`; each is `none` where it raises. A value that was decoded is
-- encoded for `_json`, which decodes it again: this is left out.
use openevent_modules_model.Base.{
  ℕ, ◌==◌, ltb, String, true, false, ◌&&◌, ◌||◌, Option, none, some, List, [], ◌∷◌, ◌++◌, length,
  str_eq, if◌then◌else◌, Outcome, ok, err,
}
use openevent_modules_model.Models.Value.{Value, null, str, list, dict, nil, get_field}
use openevent_modules_model.Config.Checks.{same_codes}
use openevent_modules_model.Worker.Events.{ProviderKind, ProviderEvent, append, completed, failed}
use openevent_modules_model.Provider.Frames.{Reader, read_chunks, new_reader}

-- What the iterator raises: a `ProviderError` with its code, a `ProviderCancelled`, an
-- `IncompleteRead` or `RemoteDisconnected`, another `HTTPException`, an `OSError`, or another
-- exception.
pub data Raised : Type 0 where
  provider_error : ℕ → Raised
  cancelled : Raised
  incomplete_read : Raised
  http_exception : Raised
  os_error : Raised
  other : Raised

abbrev pub Text : Type 0
Text = List ℕ

-- `text.split("\n")`: the line that is being read, and the rest.
abbrev pub split_lines : Text → Text → List Text
split_lines line [] = line ∷ []
split_lines line (c ∷ cs) =
    let ends = split_lines [] cs in
    let goes_on = split_lines (line ++ (c ∷ [])) cs in if c == b'\n' then line ∷ ends else goes_on

-- `key, _, value = line.partition(":")`: the key that is being read, and the rest.
abbrev pub partition : Text → Text → Text × Text
partition key [] = (key, [])
partition key (c ∷ cs) =
    let more = partition (key ++ (c ∷ [])) cs in if c == b':' then (key, cs) else more

abbrev data_key : Text
data_key = b'd' ∷ b'a' ∷ b't' ∷ b'a' ∷ []

-- `value[1:] if value.startswith(" ") else value`
abbrev pub drop_space : Text → Text
drop_space [] = []
drop_space (c ∷ cs) = if c == b' ' then cs else c ∷ cs

-- The data of the lines, in their order.
unfoldable pub data_lines : List Text → List Text
data_lines [] = []
data_lines (line ∷ lines) =
    let rest = data_lines lines in
    let (key, value) = partition [] line in
    if same_codes key data_key then drop_space value ∷ rest else rest

-- `"\n".join(data)`
abbrev pub join_lines : List Text → Text
join_lines [] = []
join_lines (l ∷ []) = l
join_lines (l ∷ m ∷ ls) = l ++ (b'\n' ∷ join_lines (m ∷ ls))

abbrev pub done_text : Text
done_text = b'[' ∷ b'D' ∷ b'O' ∷ b'N' ∷ b'E' ∷ b']' ∷ []

-- What a frame leads to: nothing, an event, the last event, or an exception.
pub data FrameResult : Type 0 where
  skips : FrameResult
  yields : ProviderEvent → FrameResult
  ends : ProviderEvent → FrameResult
  stops : Raised → FrameResult

abbrev pub event : ProviderKind → ℕ → Value → ProviderEvent
event kind status body = record {
  kind = kind;
  status_code = status;
  header_list = nil;
  body = body;
  has_body = true;
}

abbrev pub done_event : ℕ → ProviderEvent
done_event status = record {
  kind = completed;
  status_code = status;
  header_list = nil;
  body = null;
  has_body = false;
}

-- `kind in {...}` of a hashable kind, and the event that the kind makes.
unfoldable pub typed_event : ℕ → Value → Option Value → FrameResult
typed_event status parsed none = stops other
typed_event status parsed (some (list _)) = stops other
typed_event status parsed (some (dict _)) = stops other
typed_event status parsed (some (str kind)) =
    if str_eq kind "response.completed"
    then ends (event completed status parsed)
    else if str_eq kind "response.failed" || str_eq kind "response.incomplete"
    then ends (event failed status parsed)
    else yields (event append status parsed)
typed_event status parsed (some _) = yields (event append status parsed)

-- `parsed["type"]` raises where `parsed` is no dict, and for a missing key.
abbrev pub type_of : Value → Option Value
type_of (dict fs) = get_field "type" fs
type_of _ = none

unfoldable pub parsed_event : String → ℕ → Option Value → FrameResult
parsed_event path status none = stops (provider_error 60007)
parsed_event path status (some parsed) =
    if str_eq path "/v1/responses"
    then typed_event status parsed (type_of parsed)
    else yields (event append status parsed)

-- The events that were yielded, and what was raised behind them.
abbrev pub Yielded : Type 0
Yielded = List ProviderEvent × Option Raised

-- One frame and what the rest yields.
abbrev pub and_then : FrameResult → Yielded → Yielded
and_then skips rest = rest
and_then (yields e) (es, r) = (e ∷ es, r)
and_then (ends e) rest = (e ∷ [], none)
and_then (stops r) rest = ([], some r)

-- The exception behind all bytes: of the size limit, of the source of the chunks, or for the end of
-- the stream.
abbrev pub raised_behind : Option Reader → Option Raised → Raised
raised_behind none broken = provider_error 60008
raised_behind (some r) (some b) = b
raised_behind (some r) none = provider_error 60007

module _ (decode : List ℕ → Option Text) (loads : Text → Option Value) where
  unfoldable pub data_event : String → ℕ → List Text → FrameResult
  data_event path status [] = skips
  data_event path status (l ∷ ls) =
      let value = join_lines (l ∷ ls) in
      if str_eq path "/v1/chat/completions" && same_codes value done_text
      then ends (done_event status)
      else parsed_event path status (loads value)

  unfoldable pub text_event : String → ℕ → Option Text → FrameResult
  text_event path status none = stops (provider_error 60007)
  text_event path status (some text) = data_event path status (data_lines (split_lines [] text))

  -- The frames that the byte loop yields, and what is raised behind them.
  unfoldable pub frame_events : String → ℕ → List (List ℕ) → Raised → Yielded
  frame_events path status [] last = ([], some last)
  frame_events path status (f ∷ fs) last =
      and_then (text_event path status (decode f)) (frame_events path status fs last)

  -- `_sse`, on the chunks of `_decoded_body` and the exception behind them
  unfoldable pub sse : ℕ → String → ℕ → List (List ℕ) → Option Raised → Yielded
  sse limit path status chunks broken =
      let (frames, reader) = read_chunks limit [] chunks new_reader in
      frame_events path status frames (raised_behind reader broken)

  -- `_json`
  abbrev pub json : List ℕ → Outcome Raised Value
  json bytes = loaded (decode bytes)
    where
      loaded : Option Text → Outcome Raised Value
      loaded none = err (provider_error 60007)
      loaded (some text) = value (loads text)
        where
          value : Option Value → Outcome Raised Value
          value none = err (provider_error 60007)
          value (some v) = ok v

  -- `_json_body`, on the parts of `_decoded_body` and the exception behind them
  unfoldable pub json_body : ℕ → List ℕ → List (List ℕ) → Option Raised → Outcome Raised Value
  json_body limit body [] (some broken) = err broken
  json_body limit body [] none = json body
  json_body limit body (part ∷ parts) broken =
      let more = json_body limit (body ++ part) parts broken in
      if ltb limit (length (body ++ part)) then err (provider_error 60008) else more
