-- ===== src/Rpc/Status.antt =====
-- `status_name` and `is_retryable` of rpc.py. An exception is what they read of it.
use Prim.Native.String.{slice, len}
use text.Mathlib.Text.{starts_with}
use openevent_modules_model.Base.{
  String, Bool, true, Option, none, some, List, [], ◌∷◌, any, str_eq, if◌then◌else◌,
}

-- What `exc.code()` returns: an enum member, a text, or anything else.
pub data StatusValue : Type 0 where
  member : String → StatusValue
  plain_text : String → StatusValue
  other : StatusValue

pub data Exception : Type 0 where
  -- `RPCStopped`
  rpc_stopped : Exception
  -- no callable `code`
  plain : Exception
  -- `code()` raises
  code_raises : Exception
  coded : StatusValue → Exception

unfoldable pub status_name : Exception → Option String
status_name rpc_stopped = none
status_name plain = none
status_name code_raises = none
status_name (coded (member name)) = some name
status_name (coded (plain_text s)) =
    some (if starts_with s "StatusCode." then slice s (len "StatusCode.") (len s) else s)
status_name (coded other) = none

abbrev pub one_of : List String → String → Bool
one_of names s = any (str_eq s) names

abbrev pub retryable_statuses : List String
retryable_statuses = "CANCELLED" ∷ "DEADLINE_EXCEEDED" ∷ "UNKNOWN" ∷ "UNAVAILABLE" ∷ "INTERNAL" ∷ []

abbrev retryable_status : Option String → Bool
retryable_status none = true
retryable_status (some s) = one_of retryable_statuses s

unfoldable pub is_retryable : Exception → Bool
is_retryable e = retryable_status (status_name e)
