-- ===== src/Worker/Progress.antt =====
-- A provider thread and the control thread find their request when they are through: it is kept, and
-- running, until then. So a slot of the scheduler comes back.
use openevent_modules_model.Base.{
  ℕ, ◌+◌, ◌<◌, ◌≡◌, refl, ◌∙◌, ap, true, false, Option, none, some, List, ◌∷◌, ◌++◌, length,
  length-append, arith, sym, subst,
}
use openevent_modules_model.Base.Dict.{Dict, get}
use openevent_modules_model.Worker.State.{
  RequestState, is_running, Settings, Worker, set_request, retire_locked,
}
use openevent_modules_model.Worker.Queues.{task_begin, task_operation, task_done, stop}
use openevent_modules_model.Worker.Reach.{
  System, Step, Reach, start, next, replays, interrupts, recovers, receives, schedules, passes,
  rejects, forgets, rejected, begins, operates, finishes, stops,
}
use openevent_modules_model.Worker.Kept.{IsKept}
use openevent_modules_model.Worker.Safety.{Reach-IsKept, Reach-running}
use openevent_modules_model.Worker.Running.{running_at, count, count-append, Queued, accept-Queued}
use openevent_modules_model.Worker.Takes.{
  Takes, TakesControl, schedule-Takes, control-TakesControl, task_begin-KeepsRunning,
  task_operation-KeepsRunning, drop_body-running_at,
}
use openevent_modules_model.Worker.Held.{
  holders, IsHeld, init-IsHeld, with_worker-IsHeld, received-IsHeld, replayed-IsHeld,
  interrupted-IsHeld, started-IsHeld, skipped-IsHeld, rejects-IsHeld, forgets-IsHeld,
  rejected-IsHeld, finished-IsHeld,
}

-- A request in the store stands under its own seq.
at-seq :
    (seq : ℕ) (r : RequestState) (d : Dict RequestState)
    → IsKept d
    → get seq d ≡ some r
    → r.request_seq ≡ seq
at-seq seq r d k here = ground (arith, k.placed seq, here)

at-own :
    (seq : ℕ) (r : RequestState) (d : Dict RequestState)
    → IsKept d
    → get seq d ≡ some r
    → get r.request_seq d ≡ some r
at-own seq r d k here = subst (λ n. get n d ≡ some r) (sym (at-seq seq r d k here)) here

abbrev SameQueues : Worker → Worker → Type 0
SameQueues w w' =
    (w'.pending ≡ w.pending) × (w'.controls ≡ w.controls) × (w'.last_seen_seq ≡ w.last_seen_seq)

task_begin-same : (r : RequestState) (w : Worker) → SameQueues w (task_begin r w).0
unfolding task_begin set_request
task_begin-same r w = ground arith

task_operation-same : (r : RequestState) (w : Worker) → SameQueues w (task_operation r w).0
unfolding task_operation set_request
task_operation-same r w = ground arith

Step-IsHeld :
    (config : Settings) (s t : System)
    → IsKept s.worker.requests
    → IsHeld s
    → Step config s t
    → IsHeld t
unfolding set_request stop
Step-IsHeld config s t k v (replays m w abort before h new) = subst IsHeld (sym new) (
    replayed-IsHeld s v m.seq w before
      (subst (Queued true m.seq s.worker) h (accept-Queued config true 0 m s.worker k)))
Step-IsHeld config s t k v (interrupts seq r before here open_ new) =
    subst IsHeld (sym new) (interrupted-IsHeld s v _ before refl refl)
Step-IsHeld config s t k v (recovers target before new) = subst IsHeld (sym new) record {
  single = v.single;
  old = λ q h. v.quiet before q;
  quiet = λ h q. v.quiet before q;
  runs = v.runs;
}
Step-IsHeld config s t k v (receives m payload_bytes w abort live later h new) =
    subst IsHeld (sym new) (
      received-IsHeld s v m w live later (
        subst (Queued false m.seq s.worker) h
          (accept-Queued config false payload_bytes m s.worker k)))
Step-IsHeld config s t k v (schedules seq w live h new) =
    subst IsHeld (sym new)
      (started-IsHeld s v seq w live (subst (Takes s.worker) h (schedule-Takes config s.worker k)))
Step-IsHeld config s t k v (passes w live h new) =
    subst IsHeld (sym new)
      (skipped-IsHeld s v w live (subst (Takes s.worker) h (schedule-Takes config s.worker k)))
Step-IsHeld config s t k v (rejects r code w live free h new) = subst IsHeld (sym new) (
    rejects-IsHeld s v r code w live free
      (subst (TakesControl s.worker) h (control-TakesControl s.worker k)))
Step-IsHeld config s t k v (forgets w live free h new) =
    subst IsHeld (sym new) (
      forgets-IsHeld s v w live (subst (TakesControl s.worker) h (control-TakesControl s.worker k)))
Step-IsHeld config s t k v (rejected seq r mine here new) =
    subst IsHeld (sym new) (rejected-IsHeld s v seq r mine (at-seq seq r s.worker.requests k here))
Step-IsHeld config s t k v (begins seq r (held, here) new) =
    let (pending, controls, cursor) = task_begin-same r s.worker in
    subst IsHeld (sym new) (
      with_worker-IsHeld s v _ pending controls cursor
        (task_begin-KeepsRunning r s.worker (at-own seq r s.worker.requests k here)))
Step-IsHeld config s t k v (operates seq r (held, here) new) =
    let (pending, controls, cursor) = task_operation-same r s.worker in
    subst IsHeld (sym new) (
      with_worker-IsHeld s v _ pending controls cursor
        (task_operation-KeepsRunning r s.worker (at-own seq r s.worker.requests k here)))
Step-IsHeld config s t k v (finishes xs ys seq r split here new) =
    subst IsHeld (sym new)
      (finished-IsHeld s v xs ys seq r split (at-seq seq r s.worker.requests k here))
Step-IsHeld config s t k v (stops new) = subst IsHeld (sym new) (
    with_worker-IsHeld s v _ refl refl refl
      (λ q h. rw (drop_body-running_at q s.worker.requests) h))

Reach-IsHeld : (config : Settings) {s : System} → Reach config s → IsHeld s
Reach-IsHeld config start = init-IsHeld
Reach-IsHeld config (next {s} {t} r step) =
    Step-IsHeld config s t (Reach-IsKept config s r) (Reach-IsHeld config r) step

running_at-some :
    (o : Option RequestState)
    → running_at o ≡ true
    → (r : RequestState) × (o ≡ some r) × (is_running r.phase ≡ true)
running_at-some none h = cc
running_at-some (some r) h = (r, refl, h)

-- In every reachable state, a request that the provider threads or the control thread hold is held by
-- one of them only, is in the store, and is running.
pub Reach-held :
    (config : Settings) (s : System) (q : ℕ)
    → Reach config s
    → 0 < holders q s
    → (holders q s ≡ 1)
      × ((r : RequestState) × (get q s.worker.requests ≡ some r) × (is_running r.phase ≡ true))
Reach-held config s q reach held =
    let v = Reach-IsHeld config reach in
    (omega (arith, v.single q, held), running_at-some (get q s.worker.requests) (v.runs q held))

-- In every reachable state with a provider thread, a step ends that thread and gives its slot back.
pub Reach-finishes :
    (config : Settings) (s : System) (xs ys : List ℕ) (seq : ℕ)
    → Reach config s
    → s.tasks ≡ xs ++ (seq ∷ ys)
    → (t : System) × Step config s t
      × (t.tasks ≡ xs ++ ys)
      × (t.worker.running + 1 ≡ s.worker.running)
unfolding task_done retire_locked set_request
Reach-finishes config s xs ys seq reach split =
    let before = ap (count seq) split ∙ count-append seq xs (seq ∷ ys) in
    let (alone, (r, here, runs)) = Reach-held config s seq reach (ground (arith, before)) in
    let t = record s { worker = task_done r s.worker; tasks = xs ++ ys } in
    let (counted, bounded) = Reach-running config s reach in
    let long = ap length split ∙ length-append xs (seq ∷ ys) in
    (t, finishes xs ys seq r split here refl, refl, ground (arith, counted, long))
