-- ===== src/Worker/Emit.antt =====
-- `_emit` of the worker: a publication of an output, guarded by its two hooks.
use openevent_modules_model.Base.{
  ℕ, ltb, Bool, true, some, Outcome, ok, err, length, if◌then◌else◌, pos,
}
use openevent_modules_model.Models.Value.{int}
use openevent_modules_model.Models.Kind.{Kind}
use openevent_modules_model.Models.Payload.{Bytes}
use openevent_modules_model.Rpc.Status.{rpc_stopped}
use openevent_modules_model.Publishing.Publish.{
  PublishError, bad_argument, hook_raised, before_raised, publish_error, Arguments, Hooks,
  Transport, Result, publish,
}
use openevent_modules_model.Provider.Events.{provider_error, other}
use openevent_modules_model.Worker.State.{RequestState, Worker, can_output}
use openevent_modules_model.Worker.Task.{TaskError, raised, stopped, publish_failed}

-- What a section under the lock sees: the worker and the state of the request.
pub record View : Type 0 where
  pub worker : Worker
  pub request : RequestState

-- What the outside world does to one call: the two views of the request, whether the worker is stopped
-- where an exception is caught, and the RPCs.
pub record Emission : Type 0 where
  pub at_start : View
  pub at_publish : View
  pub stopped_at_error : Bool
  pub transport : Transport

unfoldable pub emit_hooks : ℕ → View → Hooks TaskError
emit_hooks max_payload_bytes v = record {
  validate_payload = λ payload.
      if ltb max_payload_bytes (length payload) then err (raised (provider_error 60008)) else ok tt;
  before_publish = λ frozen. if can_output v.request v.worker then ok tt else err stopped;
}

abbrev pub emit_arguments : ℕ → Bool → Kind → RequestState → Arguments
emit_arguments principal valid_client kind r = record {
  expected_type = true;
  channel_id = int (pos r.channel_id);
  principal = int (pos principal);
  request_principal = some (int (pos r.request_principal));
  valid_client = valid_client;
  kind = kind;
  stream_id = r.stream_id;
}

-- The exceptions of `_publish` as the task sees them.
unfoldable pub emit_error : Bool → PublishError TaskError → TaskError
emit_error is_stopped (bad_argument e) = raised other
emit_error is_stopped (hook_raised x) = x
emit_error is_stopped (before_raised rpc_stopped) = if is_stopped then stopped else raised other
emit_error is_stopped (before_raised _) = raised other
emit_error is_stopped (publish_error _ _ _) = if is_stopped then stopped else publish_failed

abbrev pub emit_result : Bool → Outcome (PublishError TaskError) ℕ → Outcome TaskError ℕ
emit_result is_stopped (ok seq) = ok seq
emit_result is_stopped (err x) = err (emit_error is_stopped x)

module _ (max_payload_bytes max_retries principal : ℕ) (valid_client : Bool) where
  -- The publication, with the number of its Publish RPCs.
  unfoldable pub emit_publish : Emission → Kind → Bytes → Result TaskError
  emit_publish x kind payload =
      publish (emit_hooks max_payload_bytes x.at_publish) x.transport max_retries
        (emit_arguments principal valid_client kind x.at_start.request) payload

  -- `_emit` of an event of that kind, whose encoding is `payload`: the number of Publish RPCs, and the
  -- seq or the exception.
  unfoldable pub emit : Emission → Kind → Bytes → ℕ × Outcome TaskError ℕ
  emit x kind payload =
      let r = emit_publish x kind payload in
      if can_output x.at_start.request x.at_start.worker
      then (r.0, emit_result x.stopped_at_error r.1)
      else (0, err stopped)
