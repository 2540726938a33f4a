-- ===== src/Worker/Emitted.antt =====
-- What `_emit` promises to a provider task, and when it publishes.
use openevent_modules_model.Base.{
  ℕ, ltb, ◌<◌, ◌≤◌, ◌≡◌, Bool, true, String, Option, List, All, Outcome, refl, ok, err, length,
  arith, if-both,
}
use openevent_modules_model.Models.Kind.{Kind}
use openevent_modules_model.Models.Payload.{Bytes}
use openevent_modules_model.Publishing.Frozen.{FrozenPublication}
use openevent_modules_model.Rpc.Status.{rpc_stopped}
use openevent_modules_model.Publishing.Publish.{
  PublishError, bad_argument, hook_raised, before_raised, publish_error, freeze,
}
use openevent_modules_model.Publishing.Guards.{publish-rule}
use openevent_modules_model.Publishing.Positive.{Promised, Refuses, publish-Promised}
use openevent_modules_model.Worker.State.{RequestState, can_output}
use openevent_modules_model.Worker.Task.{TaskError, provider_events, task_published}
use openevent_modules_model.Models.Value.{Value}
use openevent_modules_model.Models.Validate.{stream_id_matches}
use openevent_modules_model.Models.WellFormed.{IsWellFormed}
use openevent_modules_model.Provider.Events.{Raised, Text}
use openevent_modules_model.Provider.Call.{Response}
use openevent_modules_model.Provider.Connect.{Attempt, Handshake, opened}
use openevent_modules_model.Provider.Headers.{Lowers}
use openevent_modules_model.Provider.Codes.{Known?}
use openevent_modules_model.Provider.Reportable.{IsExchange}
use openevent_modules_model.Worker.WellFormed.{KnownError, IsEmit, provider_task-AreWellFormed}
use openevent_modules_model.Worker.Emit.{
  View, Emission, emit_hooks, emit_arguments, emit_result, emit_error, emit_publish, emit,
}

module _ (max_payload_bytes max_retries principal : ℕ) (valid_client : Bool) (x : Emission)
    (kind : Kind) (payload : Bytes) where
  abbrev Allowed : Type 0
  Allowed =
      length payload ≤ max_payload_bytes
      × can_output x.at_start.request x.at_start.worker ≡ true
      × can_output x.at_publish.request x.at_publish.worker ≡ true

  within :
      (emit_hooks max_payload_bytes x.at_publish).validate_payload payload ≡ ok tt
      → length payload ≤ max_payload_bytes
  unfolding emit_hooks
  within h = ground (arith, h)

  outputs :
      (uuid : ℕ)
      → (emit_hooks max_payload_bytes x.at_publish).before_publish
          (freeze (emit_arguments principal valid_client kind x.at_start.request) payload uuid)
        ≡ ok tt
      → can_output x.at_publish.request x.at_publish.worker ≡ true
  unfolding emit_hooks
  outputs uuid h = ground (arith, h)

  -- `_emit` makes a Publish RPC only for a payload of at most `max_payload_bytes`, and only if the
  -- worker was not stopped and the request not over, both at its start and behind the UUID.
  pub emit-guards :
      0 < (emit max_payload_bytes max_retries principal valid_client x kind payload).0
      → length payload ≤ max_payload_bytes
        × can_output x.at_start.request x.at_start.worker ≡ true
        × can_output x.at_publish.request x.at_publish.worker ≡ true
  unfolding emit emit_publish
  emit-guards =
      if-both (λ (r : ℕ × Outcome TaskError ℕ). 0 < r.0 → Allowed)
        (can_output x.at_start.request x.at_start.worker)
        (λ start calls.
          publish-rule (emit_hooks max_payload_bytes x.at_publish) x.transport max_retries
            (emit_arguments principal valid_client kind x.at_start.request) payload Allowed
            (λ uuid valid before. (within valid, start, outputs uuid before)) calls)
        (λ _ calls. absurd (omega (arith, calls)))

emit_result-IsEmit :
    (b : Bool) (o : Outcome (PublishError TaskError) ℕ)
    → Promised KnownError o
    → IsEmit (emit_result b o)
unfolding emit_error
emit_result-IsEmit b (ok seq) h = h
emit_result-IsEmit b (err (bad_argument e)) h = tt
emit_result-IsEmit b (err (hook_raised x)) h = h
emit_result-IsEmit b (err (before_raised rpc_stopped)) h = if-both KnownError b (λ _. tt) (λ _. tt)
emit_result-IsEmit b (err (before_raised _)) h = tt
emit_result-IsEmit b (err (publish_error _ _ _)) h = if-both KnownError b (λ _. tt) (λ _. tt)

validate_payload-Refuses :
    (limit : ℕ) (v : View) (payload : Bytes)
    → Refuses KnownError ((emit_hooks limit v).validate_payload payload)
unfolding emit_hooks
validate_payload-Refuses limit v payload =
    if-both (Refuses KnownError) (ltb limit (length payload)) (λ _. refl) (λ _. tt)

before_publish-Refuses :
    (limit : ℕ) (v : View) (f : FrozenPublication)
    → Refuses KnownError ((emit_hooks limit v).before_publish f)
unfolding emit_hooks
before_publish-Refuses limit v f =
    if-both (Refuses KnownError) (can_output v.request v.worker) (λ _. tt) (λ _. tt)

-- `_emit` returns a positive seq, or raises an exception that the task can report.
pub emit-IsEmit :
    (max_payload_bytes max_retries principal : ℕ) (valid_client : Bool) (x : Emission) (kind : Kind)
    (payload : Bytes)
    → IsEmit (emit max_payload_bytes max_retries principal valid_client x kind payload).1
unfolding emit emit_publish
emit-IsEmit max_payload_bytes max_retries principal valid_client x kind payload =
    if-both (λ (r : ℕ × Outcome TaskError ℕ). IsEmit r.1)
      (can_output x.at_start.request x.at_start.worker)
      (λ _. emit_result-IsEmit x.stopped_at_error _ (
        publish-Promised (emit_hooks max_payload_bytes x.at_publish) x.transport max_retries
          KnownError (validate_payload-Refuses max_payload_bytes x.at_publish)
          (before_publish-Refuses max_payload_bytes x.at_publish)
          (emit_arguments principal valid_client kind x.at_start.request) payload))
      (λ _. tt)

-- Whatever a provider answers with an HTTP status and ASCII header names, and wherever the connection,
-- the exchange, the body or a publication breaks off, when the exceptions before the response have no
-- unknown code: every event that the task publishes by `_emit`, its error event included, has a stream
-- id of the pattern, positive seqs, a status that its shape allows, a known end status, a body where an
-- end needs one, and no headers or a list of allowed lower-case ones.
pub task_published-emit-AreWellFormed :
    (r : RequestState)
    → stream_id_matches r.stream_id ≡ true
    → 0 < r.request_seq
    → (max_payload_bytes max_retries principal : ℕ) (valid_client : Bool) (x : ℕ → Emission)
      (kind : ℕ → Kind) (payload : ℕ → Bytes) (decode : List ℕ → Option Text)
      (loads : Text → Option Value) (lower : String → String) (limit : ℕ)
      (check : ℕ → Option Raised) (last_check : Option Raised) (addresses : Option (List Attempt))
      (tls : Option Handshake) (exchange : Outcome Raised Response)
    → Lowers lower
    → ((n : ℕ) → Known? (check n))
    → Known? last_check
    → IsExchange exchange
    → let o = opened check addresses tls exchange in
      let emitted = λ (i : ℕ).
        (emit max_payload_bytes max_retries principal valid_client (x i) (kind i) (payload i)).1 in
      All
        (λ e. IsWellFormed e.1)
        (task_published r emitted (provider_events decode loads lower limit last_check o r))
task_published-emit-AreWellFormed r valid positive max_payload_bytes max_retries principal
      valid_client x kind payload =
    provider_task-AreWellFormed r _ valid positive (λ i.
      emit-IsEmit max_payload_bytes max_retries principal valid_client (x i) (kind i) (payload i))
