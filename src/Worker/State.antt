-- ===== src/Worker/State.antt =====
-- The state of the worker. A `RequestState` stays in `requests` while its task runs, so the index by
-- request seq is the store of these objects. Logging and the elapsed time are left out.
use openevent_modules_model.Base.{
  ℕ, String, Bool, true, false, not, ◌&&◌, Option, List, is_some, if◌then◌else◌,
}
use openevent_modules_model.Base.Dict.{Dict, put, remove}
use openevent_modules_model.Models.Value.{Value}

pub data RequestPhase : Type 0 where
  pending running done : RequestPhase

pub record RequestState : Type 0 where
  pub channel_id : ℕ
  pub request_seq : ℕ
  pub request_principal : ℕ
  pub stream_id : String
  pub streaming : Bool
  pub path : String
  pub body : Option Value
  pub duplicate : Bool
  pub provider : Option String
  pub phase : RequestPhase
  pub chain_seq : Option ℕ
  pub terminal_seq : Option ℕ
  -- whether `operation` holds the task's abort handle
  pub operation : Bool

-- The parts of the configuration that the worker's logic reads.
pub record Settings : Type 0 where
  pub max_concurrency : ℕ
  pub max_payload_bytes : ℕ
  pub default_provider : String
  pub providers : List String

-- `(channel_id, stream_id)`
abbrev pub Key : Type 0
Key = ℕ × String

pub record Worker : Type 0 where
  pub stopped : Bool
  pub requests : Dict RequestState
  pub originals : List Key
  pub pending : List ℕ
  pub controls : List (ℕ × ℕ)
  pub running : ℕ
  pub last_seen_seq : ℕ

abbrev pub is_running : RequestPhase → Bool
is_running running = true
is_running _ = false

-- An assignment to fields of a request state, which `_retire_locked` may follow.
unfoldable pub set_request : RequestState → Worker → Worker
set_request r w = record w { requests = put r.request_seq r w.requests }

-- `_retire_locked`
unfoldable pub retire_locked : RequestState → Worker → Worker
retire_locked r w =
    if is_some r.terminal_seq && not (is_running r.phase)
    then record w { requests = remove r.request_seq w.requests }
    else w

-- `_can_output`
abbrev pub can_output : RequestState → Worker → Bool
can_output r w = not w.stopped && not (is_some r.terminal_seq)
