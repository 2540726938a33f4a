-- ===== src/Worker/ErrorEvent.antt =====
-- The worker's error events pass the validation of models.py.
use openevent_modules_model.Base.{
  ℕ, ◌<◌, ◌≡◌, refl, Bool, true, not, ◌&&◌, arith, if-both, if◌then◌else◌,
}
use openevent_modules_model.Models.Validate.{
  stream_id_matches, result_codes, interrupted_codes, elem, allowed_status, known_end_status,
}
use openevent_modules_model.Models.WellFormed.{IsWellFormed}
use openevent_modules_model.Worker.State.{RequestState}
use openevent_modules_model.Worker.Events.{error_event}

-- The error event of a request with a valid stream id and seq is well formed, for every code of the
-- table when it is a rejection, and otherwise for every code that an interrupted end may carry.
pub error_event-IsWellFormed :
    (r : RequestState) (code : ℕ) (recovery rejection : Bool)
    → stream_id_matches r.stream_id ≡ true
    → 0 < r.request_seq
    → elem code (if rejection then result_codes else interrupted_codes) ≡ true
    → IsWellFormed (error_event r code recovery rejection)
unfolding error_event allowed_status known_end_status
error_event-IsWellFormed r code recovery rejection valid positive known =
    if-both IsWellFormed (r.streaming && not rejection && not (recovery && r.duplicate))
      (λ h. (valid, positive, refl, refl, ground arith)) (λ h. (valid, positive, ground arith, tt))
