-- ===== src/Models/Kind.antt =====
-- The message kinds of llm.v1 and their fields: `_REQUIRED` and `_OPTIONAL` of models.py.
use openevent_modules_model.Base.{
  String, List, [], ◌∷◌, ◌++◌, Option, none, some, str_eq, if◌then◌else◌,
}

pub data Kind : Type 0 where
  request result append end cancel : Kind

-- `kind if kind in _REQUIRED else None`
abbrev pub kind_of : String → Option Kind
kind_of s =
    if str_eq s "infer.request"
    then some request
    else if str_eq s "infer.result"
    then some result
    else if str_eq s "infer.append"
    then some append
    else if str_eq s "infer.end"
    then some end
    else if str_eq s "infer.cancel"
    then some cancel
    else none

abbrev common : List String
common = "kind" ∷ "stream_id" ∷ "ts_ms" ∷ []

unfoldable pub required : Kind → List String
required request = common ++ ("method" ∷ "path" ∷ "body" ∷ [])
required result = common ++ ("prev_seq" ∷ "status_code" ∷ [])
required append = common ++ ("request_seq" ∷ "prev_seq" ∷ "body" ∷ [])
required end = common ++ ("request_seq" ∷ "status_code" ∷ "end_status" ∷ [])
required cancel = common ++ ("request_seq" ∷ [])

unfoldable pub optional : Kind → List String
optional request = "provider" ∷ "prev_seq" ∷ []
optional result = "headers" ∷ "body" ∷ []
optional append = []
optional end = "body" ∷ []
optional cancel = []
