-- ===== src/Worker/Kept.antt =====
-- What every section under the worker's lock keeps of the requests: each stands under its own seq,
-- and one that has ended is there only while it is running.
use openevent_modules_model.Base.{
  ℕ, ltb, ◌≡◌, refl, Bool, true, false, not, ◌&&◌, Option, none, some, List, [], ◌∷◌, map, is_some,
  arith, sym, subst, if-both,
}
use openevent_modules_model.Base.Dict.{Dict, get, put, get-put, get-remove}
use openevent_modules_model.Models.Value.{Value}
use openevent_modules_model.Worker.State.{
  RequestState, running, done, is_running, Settings, Worker, set_request, retire_locked, can_output,
}
use openevent_modules_model.Worker.Queues.{
  Scheduled, Control, start_request, take_pending, reject_request, take_control, schedule, control,
  control_done, task_begin, task_operation, task_done, stop, drop_body,
}

abbrev pub retired_at : Option RequestState → Bool
retired_at none = false
retired_at (some r) = is_some r.terminal_seq && not (is_running r.phase)

abbrev pub seq_at : ℕ → Option RequestState → ℕ
seq_at q none = q
seq_at q (some r) = r.request_seq

pub record IsKept (requests : Dict RequestState) : Type 0 where
  pub placed : (q : ℕ) → seq_at q (get q requests) ≡ q
  pub open_or_running : (q : ℕ) → retired_at (get q requests) ≡ false

pub set_request-IsKept :
    (r : RequestState) (w : Worker)
    → IsKept w.requests
    → retired_at (some r) ≡ false
    → IsKept (set_request r w).requests
unfolding set_request
set_request-IsKept r w v live = record {
  placed = λ q. ground (arith, v.placed q, get-put r.request_seq q r w.requests);
  open_or_running = λ q. ground (arith, v.open_or_running q, get-put r.request_seq q r w.requests);
}

-- An assignment that `_retire_locked` follows.
pub retire_locked-IsKept :
    (r : RequestState) (w : Worker)
    → IsKept w.requests
    → IsKept (retire_locked r (set_request r w)).requests
unfolding retire_locked set_request
retire_locked-IsKept r w v =
    let putted = λ (q : ℕ). get-put r.request_seq q r w.requests in
    let left = λ (q : ℕ). get-remove r.request_seq q (put r.request_seq r w.requests) in
    record {
      placed = λ q. ground (arith, v.placed q, putted q, left q);
      open_or_running = λ q. ground (arith, v.open_or_running q, putted q, left q);
    }

get-drop_body :
    (q : ℕ) (d : Dict RequestState)
    → (seq_at q (get q (map drop_body d)) ≡ seq_at q (get q d))
      × (retired_at (get q (map drop_body d)) ≡ retired_at (get q d))
unfolding get
get-drop_body q [] = (refl, refl)
get-drop_body q ((n, r) ∷ d) = let rest = get-drop_body q d in ground arith

pub stop-IsKept : (w : Worker) → IsKept w.requests → IsKept (stop w).requests
unfolding stop
stop-IsKept w v = record {
  placed = λ q. ground (arith, v.placed q, get-drop_body q w.requests);
  open_or_running = λ q. ground (arith, v.open_or_running q, get-drop_body q w.requests);
}

pub control_done-IsKept :
    (r : RequestState) (w : Worker) → IsKept w.requests → IsKept (control_done r w).requests
unfolding control_done
control_done-IsKept r w v = retire_locked-IsKept (record r { phase = done }) w v

pub task_begin-IsKept :
    (r : RequestState) (w : Worker) → IsKept w.requests → IsKept (task_begin r w).0.requests
unfolding task_begin
task_begin-IsKept r w v =
    if-both (λ (p : Worker × Option Value). IsKept p.0.requests) (can_output r w)
      (λ h. set_request-IsKept (record r { body = none }) w v (ground arith)) (λ _. v)

pub task_operation-IsKept :
    (r : RequestState) (w : Worker) → IsKept w.requests → IsKept (task_operation r w).0.requests
unfolding task_operation
task_operation-IsKept r w v =
    if-both (λ (p : Worker × Bool). IsKept p.0.requests) (can_output r w)
      (λ h. set_request-IsKept (record r { operation = true }) w v (ground arith)) (λ _. v)

pub task_done-IsKept :
    (r : RequestState) (w : Worker) → IsKept w.requests → IsKept (task_done r w).requests
unfolding task_done retire_locked set_request
task_done-IsKept r w v =
    let r' = record r { operation = false; body = none; phase = done } in
    let kept = retire_locked-IsKept r' w v in
    let same : (task_done r w).requests ≡ (retire_locked r' (set_request r' w)).requests =
      unfold task_done in ground arith in
    subst IsKept (sym same) kept

-- The worker that a round of the scheduler leaves.
abbrev pub AfterSchedule : (Worker → Type 0) → Scheduled → Type 0
AfterSchedule P Scheduled.waits = Unit
AfterSchedule P (Scheduled.skipped w) = P w
AfterSchedule P (Scheduled.started seq w) = P w

abbrev pub AfterControl : (Worker → Type 0) → Control → Type 0
AfterControl P Control.waits = Unit
AfterControl P (Control.skipped w) = P w
AfterControl P (Control.rejects r code w) = P w

start_request-IsKept :
    (o : Option RequestState) (seq : ℕ) (w : Worker)
    → IsKept w.requests
    → AfterSchedule (λ w. IsKept w.requests) (start_request o seq w)
start_request-IsKept none seq w v = v
start_request-IsKept (some r) seq w v =
    set_request-IsKept (record r { phase = running }) w v (ground arith)

take_pending-IsKept :
    (queue : List ℕ) (w : Worker)
    → IsKept w.requests
    → AfterSchedule (λ w. IsKept w.requests) (take_pending queue w)
take_pending-IsKept [] w v = tt
take_pending-IsKept (seq ∷ rest) w v = start_request-IsKept _ seq (record w { pending = rest }) v

pub schedule-IsKept :
    (config : Settings) (w : Worker)
    → IsKept w.requests
    → AfterSchedule (λ w. IsKept w.requests) (schedule config w)
unfolding schedule
schedule-IsKept config w v =
    if-both (AfterSchedule (λ w. IsKept w.requests))
      (not w.stopped && ltb w.running config.max_concurrency)
      (λ _. take_pending-IsKept w.pending w v) (λ _. tt)

reject_request-IsKept :
    (o : Option RequestState) (code : ℕ) (w : Worker)
    → IsKept w.requests
    → AfterControl (λ w. IsKept w.requests) (reject_request o code w)
reject_request-IsKept none code w v = v
reject_request-IsKept (some r) code w v =
    set_request-IsKept (record r { phase = running }) w v (ground arith)

take_control-IsKept :
    (queue : List (ℕ × ℕ)) (w : Worker)
    → IsKept w.requests
    → AfterControl (λ w. IsKept w.requests) (take_control queue w)
take_control-IsKept [] w v = tt
take_control-IsKept ((seq, code) ∷ rest) w v =
    reject_request-IsKept _ code (record w { controls = rest }) v

pub control-IsKept :
    (w : Worker) → IsKept w.requests → AfterControl (λ w. IsKept w.requests) (control w)
unfolding control
control-IsKept w v =
    if-both (AfterControl (λ w. IsKept w.requests)) w.stopped (λ _. tt)
      (λ _. take_control-IsKept w.controls w v)
