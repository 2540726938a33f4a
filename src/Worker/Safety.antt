-- ===== src/Worker/Safety.antt =====
-- What holds of the worker in every state that its threads can reach.
use openevent_modules_model.Base.{
  ℕ, ◌≤◌, ◌≡◌, refl, true, false, Option, none, some, length, arith, sym, subst,
}
use openevent_modules_model.Worker.State.{
  RequestState, done, Settings, Worker, set_request, retire_locked,
}
use openevent_modules_model.Worker.Queues.{control_done, task_begin, task_operation, stop}
use openevent_modules_model.Worker.Reach.{
  System, Step, Reach, start, next, with_worker, replays, interrupts, recovers, receives, schedules,
  passes, rejects, forgets, rejected, begins, operates, finishes, stops,
}
use openevent_modules_model.Worker.Kept.{
  IsKept, AfterSchedule, AfterControl, set_request-IsKept, schedule-IsKept, control-IsKept,
  control_done-IsKept, task_begin-IsKept, task_operation-IsKept, stop-IsKept,
}
use openevent_modules_model.Worker.Grows.{accept-Grown}
use openevent_modules_model.Worker.Slots.{Slots, schedule-Slots, SameSlots, control-SameSlots}
use openevent_modules_model.Worker.Invariant.{
  IsValid, Distinct, init-IsValid, with_worker-IsValid, received-IsValid, replayed-IsValid,
  started-IsValid, done-IsValid, accept-Grows,
}

control_done-SameSlots : (r : RequestState) (w : Worker) → SameSlots w (control_done r w)
unfolding control_done retire_locked set_request
control_done-SameSlots r w = ground arith

task_begin-SameSlots : (r : RequestState) (w : Worker) → SameSlots w (task_begin r w).0
unfolding task_begin set_request
task_begin-SameSlots r w = ground arith

task_operation-SameSlots : (r : RequestState) (w : Worker) → SameSlots w (task_operation r w).0
unfolding task_operation set_request
task_operation-SameSlots r w = ground arith

-- The control thread takes up a refusal, or is through with it.
rejecting-IsValid :
    (config : Settings) (s : System) (o : Option ℕ)
    → IsValid config s
    → IsValid config (record s { rejecting = o })
rejecting-IsValid config s o v = record {
  counted = v.counted;
  bounded = v.bounded;
  kept = v.kept;
  distinct = v.distinct;
  known = v.known;
}

pub Step-IsValid :
    (config : Settings) (s t : System) → IsValid config s → Step config s t → IsValid config t
unfolding set_request stop
Step-IsValid config s t v (replays m w abort live h new) = subst (IsValid config) (sym new) (
    replayed-IsValid config s v m w
      (accept-Grows config s v m _ w abort (accept-Grown config true 0 m s.worker v.kept) h))
Step-IsValid config s t v (interrupts seq r live here open_ new) =
    subst (IsValid config) (sym new) (
      with_worker-IsValid config s v _
        (set_request-IsKept (record r { phase = done }) s.worker v.kept (ground arith))
        (unfold set_request in (refl, refl)))
Step-IsValid config s t v (recovers target live new) = subst (IsValid config) (sym new) record {
  counted = v.counted;
  bounded = v.bounded;
  kept = v.kept;
  distinct = v.distinct;
  known = v.known;
}
Step-IsValid config s t v (receives m payload_bytes w abort live later h new) =
    subst (IsValid config) (sym new) (
      received-IsValid config s v m w (
        accept-Grows config s v m _ w abort
          (accept-Grown config false payload_bytes m s.worker v.kept) h))
Step-IsValid config s t v (schedules seq w live h new) =
    subst (IsValid config) (sym new) (started-IsValid config s v seq w h)
Step-IsValid config s t v (passes w live h new) = subst (IsValid config) (sym new) (
    with_worker-IsValid config s v w
      (subst (AfterSchedule (λ w. IsKept w.requests)) h (schedule-IsKept config s.worker v.kept))
      (subst (Slots config s.worker) h (schedule-Slots config s.worker)))
Step-IsValid config s t v (rejects r code w live free h new) = subst (IsValid config) (sym new) (
    rejecting-IsValid config (with_worker w s) (some r.request_seq) (
      with_worker-IsValid config s v w
        (subst (AfterControl (λ w. IsKept w.requests)) h (control-IsKept s.worker v.kept))
        (subst (AfterControl (SameSlots s.worker)) h (control-SameSlots s.worker))))
Step-IsValid config s t v (forgets w live free h new) = subst (IsValid config) (sym new) (
    with_worker-IsValid config s v w
      (subst (AfterControl (λ w. IsKept w.requests)) h (control-IsKept s.worker v.kept))
      (subst (AfterControl (SameSlots s.worker)) h (control-SameSlots s.worker)))
Step-IsValid config s t v (rejected seq r mine here new) = subst (IsValid config) (sym new) (
    rejecting-IsValid config (with_worker (control_done r s.worker) s) none (
      with_worker-IsValid config s v _ (control_done-IsKept r s.worker v.kept)
        (control_done-SameSlots r s.worker)))
Step-IsValid config s t v (begins seq r runs new) = subst (IsValid config) (sym new) (
    with_worker-IsValid config s v _ (task_begin-IsKept r s.worker v.kept)
      (task_begin-SameSlots r s.worker))
Step-IsValid config s t v (operates seq r runs new) = subst (IsValid config) (sym new) (
    with_worker-IsValid config s v _ (task_operation-IsKept r s.worker v.kept)
      (task_operation-SameSlots r s.worker))
Step-IsValid config s t v (finishes xs ys seq r split here new) =
    subst (IsValid config) (sym new) (done-IsValid config s v xs ys seq r split)
Step-IsValid config s t v (stops new) =
    subst (IsValid config) (sym new)
      (with_worker-IsValid config s v _ (stop-IsKept s.worker v.kept) (refl, refl))

pub Reach-IsValid : (config : Settings) {s : System} → Reach config s → IsValid config s
Reach-IsValid config start = init-IsValid config
Reach-IsValid config (next {s} {t} r step) = Step-IsValid config s t (Reach-IsValid config r) step

-- In every reachable state the counter `running` is the number of the provider threads that have not finished, and at most
-- `max_concurrency` of them run at once.
pub Reach-running :
    (config : Settings) (s : System)
    → Reach config s
    → (s.worker.running ≡ length s.tasks) × (length s.tasks ≤ config.max_concurrency)
Reach-running config s r = let v = Reach-IsValid config r in (v.counted, v.bounded)

-- In every reachable state, no two of the requests that were queued for a provider have the same channel and
-- stream id.
pub Reach-Distinct : (config : Settings) (s : System) → Reach config s → Distinct s.dispatched
Reach-Distinct config s r = (Reach-IsValid config r).distinct

-- In every reachable state, a request that the worker keeps stands under its own seq, and one that has ended is kept only while
-- it is running.
pub Reach-IsKept : (config : Settings) (s : System) → Reach config s → IsKept s.worker.requests
Reach-IsKept config s r = (Reach-IsValid config r).kept
