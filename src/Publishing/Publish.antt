-- ===== src/Publishing/Publish.antt =====
-- `_publish` of publishing.py: the argument checks, the UUID, the hooks, and the loop of Publish RPCs
-- with the reconciliation of ALREADY_EXISTS.
use openevent_modules_model.Base.{
  ℕ, zero, suc, ltb, String, Bool, true, false, not, ◌||◌, Option, none, some, List, [], ◌∷◌,
  Outcome, ok, err, if◌then◌else◌, str_eq, pos,
}
use openevent_modules_model.Models.Value.{Value, int, positive_int}
use openevent_modules_model.Models.Validate.{PayloadError, invalid_publish_argument}
use openevent_modules_model.Models.Kind.{Kind}
use openevent_modules_model.Models.Payload.{Bytes}
use openevent_modules_model.Publishing.Frozen.{FrozenPublication}
use openevent_modules_model.Rpc.Status.{Exception, rpc_stopped, plain, status_name, one_of}
use openevent_modules_model.Rpc.Retry.{World, ready, call_rpc}

pub data CommitState : Type 0 where
  not_committed committed unknown : CommitState

-- What `_publish` raises: an argument error, what a hook raises, `RPCStopped` or another exception of
-- `before_rpc`, or `ResultPublishError` with its state, uuid and last status.
pub data PublishError {ℓ} (H : Type ℓ) : Type ℓ where
  bad_argument : PayloadError → PublishError H
  hook_raised : H → PublishError H
  before_raised : Exception → PublishError H
  publish_error : CommitState → Option ℕ → Option String → PublishError H

abbrev pub not_committed_statuses : List String
not_committed_statuses =
    "UNAUTHENTICATED" ∷ "PERMISSION_DENIED" ∷ "NOT_FOUND" ∷ "INVALID_ARGUMENT"
    ∷ "RESOURCE_EXHAUSTED" ∷ []

-- `_positive_reply`: its `RuntimeError` has no status.
unfoldable pub positive_reply : Value → Outcome Exception ℕ
positive_reply (int (pos n)) = if ltb 0 n then ok n else err plain
positive_reply _ = err plain

abbrev pub reply_of : Outcome Exception Value → Outcome Exception ℕ
reply_of (ok v) = positive_reply v
reply_of (err e) = err e

-- The RPC as the loop sees it: a reply that is no positive number raises.
abbrev pub replies : World Value → World ℕ
replies w = record {
  stopped = w.stopped;
  before = w.before;
  run = λ n. reply_of (w.run n);
  stopped_after = w.stopped_after;
  stopped_in_delay = w.stopped_in_delay;
}

-- How a Publish that raised is read.
pub data Reading : Type 0 where
  already_exists rejected uncertain : Reading

abbrev read_status : Option String → Reading
read_status none = uncertain
read_status (some s) =
    if str_eq s "ALREADY_EXISTS"
    then already_exists
    else if one_of not_committed_statuses s
    then rejected
    else uncertain

unfoldable pub reading : Exception → Reading
reading e = read_status (status_name e)

-- The number of Publish RPCs made, and the result.
abbrev pub Result {ℓ} : Type ℓ → Type ℓ
Result H = ℕ × Outcome (PublishError H) ℕ

abbrev pub is_uncertain : Option Exception → Bool
is_uncertain none = false
is_uncertain (some _) = true

module _ {ℓ} {H : Type ℓ} (uuid : ℕ) (w : World ℕ) (query : World ℕ) (max_retries : ℕ) where
  -- The end of the query of the UUID.
  unfoldable pub queried : Exception → Outcome Exception ℕ → Outcome (PublishError H) ℕ
  queried e (ok seq) = ok seq
  queried e (err rpc_stopped) = err (publish_error committed (some uuid) (status_name e))
  queried e (err q) = err (publish_error committed (some uuid) (status_name q))

  abbrev pub lost : Exception → Outcome (PublishError H) ℕ
  lost e = err (publish_error unknown (some uuid) (status_name e))

  abbrev pub refused : Bool → Exception → Outcome (PublishError H) ℕ
  refused earlier e =
      err (publish_error (if earlier then unknown else not_committed) (some uuid) (status_name e))

  -- What stands before a Publish raised.
  abbrev pub stopped_with : Option Exception → Exception → Outcome (PublishError H) ℕ
  stopped_with (some l) rpc_stopped = lost l
  stopped_with last e = err (before_raised e)

  -- A Publish raised `e`; `again` is the next round.
  unfoldable pub raised : ℕ → Bool → Exception → Reading → Result H → Result H
  raised n earlier e already_exists again = (suc n, queried e (call_rpc query max_retries).1)
  raised n earlier e rejected again = (suc n, refused earlier e)
  raised n earlier e uncertain again =
      if w.stopped_after n || w.stopped_in_delay n then (suc n, lost e) else again

  unfoldable pub published : ℕ → Outcome Exception ℕ → (Exception → Result H) → Result H
  published n (ok seq) failed = (suc n, ok seq)
  published n (err e) failed = failed e

  unfoldable pub round :
      ℕ → Option Exception → Outcome Exception (Unit {0}) → (Exception → Result H) → Result H
  round n last (ok _) failed = published n (w.run n) failed
  round n last (err e) failed = (n, stopped_with last e)

  -- The loop with so many retries left, at attempt `n`: the number of Publish RPCs made, and the
  -- result. `uncertain` is set together with `last_error`, so the one Option stands for both.
  unfoldable pub publish_loop : ℕ → ℕ → Option Exception → Result H
  publish_loop zero n last =
      round n last (ready w n) (λ e. raised n (is_uncertain last) e (reading e) (suc n, lost e))
  publish_loop (suc k) n last = round n last (ready w n) (λ e.
      let again = publish_loop k (suc n) (some e) in
      raised n (is_uncertain last) e (reading e) again)

-- The arguments of `_publish` that it checks.
pub record Arguments : Type 0 where
  pub expected_type : Bool
  pub channel_id : Value
  pub principal : Value
  pub request_principal : Option Value
  pub valid_client : Bool
  pub kind : Kind
  pub stream_id : String

abbrev pub optional_positive : Option Value → Bool
optional_positive none = true
optional_positive (some v) = positive_int v

abbrev pub argument_error : Option Kind → Option String → PayloadError
argument_error k s = record { code = invalid_publish_argument; kind = k; stream_id = s }

unfoldable pub check_arguments : Arguments → Outcome PayloadError (Unit {0})
check_arguments a =
    if not a.expected_type
    then err (argument_error none none)
    else if not (positive_int a.channel_id)
        || not (positive_int a.principal)
        || not (optional_positive a.request_principal)
    then err (argument_error (some a.kind) (some a.stream_id))
    else if not a.valid_client
    then err (argument_error none none)
    else ok tt

abbrev number : Value → ℕ
number (int (pos n)) = n
number _ = 0

abbrev recipients_of : Option Value → List ℕ
recipients_of none = []
recipients_of (some v) = number v ∷ []

abbrev pub freeze : Arguments → Bytes → ℕ → FrozenPublication
freeze a payload uuid = record {
  uuid = uuid;
  payload = payload;
  channel_id = number a.channel_id;
  principal = number a.principal;
  recipients = recipients_of a.request_principal;
  object_keys = [];
}

-- The hooks: `validate_payload` and `before_publish`, which return or raise.
pub record Hooks {ℓ} (H : Type ℓ) : Type ℓ where
  pub validate_payload : Bytes → Outcome H (Unit {0})
  pub before_publish : FrozenPublication → Outcome H (Unit {0})

-- The RPCs of one publication; `publish` and `query` are those with the given uuid.
pub record Transport : Type 0 where
  pub get_uuid : World Value
  pub publish : ℕ → World Value
  pub query : ℕ → World Value

module _ {ℓ} {H : Type ℓ} (hooks : Hooks H) (t : Transport) (max_retries : ℕ) where
  abbrev pub no_uuid : Exception → PublishError H
  no_uuid rpc_stopped = before_raised rpc_stopped
  no_uuid e = publish_error not_committed none (status_name e)

  unfoldable pub publish_frozen : FrozenPublication → Outcome H (Unit {0}) → Result H
  publish_frozen f (err h) = (0, err (hook_raised h))
  publish_frozen f (ok _) =
      publish_loop f.uuid (replies (t.publish f.uuid)) (replies (t.query f.uuid)) max_retries
        max_retries 0 none

  unfoldable pub with_uuid : Arguments → Bytes → Outcome Exception ℕ → Result H
  with_uuid a payload (err e) = (0, err (no_uuid e))
  with_uuid a payload (ok uuid) =
      let f = freeze a payload uuid in publish_frozen f (hooks.before_publish f)

  unfoldable pub with_payload : Arguments → Bytes → Outcome H (Unit {0}) → Result H
  with_payload a payload (err h) = (0, err (hook_raised h))
  with_payload a payload (ok _) = with_uuid a payload (call_rpc (replies t.get_uuid) max_retries).1

  unfoldable pub with_arguments : Arguments → Bytes → Outcome PayloadError (Unit {0}) → Result H
  with_arguments a payload (err e) = (0, err (bad_argument e))
  with_arguments a payload (ok _) = with_payload a payload (hooks.validate_payload payload)

  -- `_publish`: the number of Publish RPCs made, and the result.
  unfoldable pub publish : Arguments → Bytes → Result H
  publish a payload = with_arguments a payload (check_arguments a)
