-- ===== src/Worker/Takes.antt =====
-- What the scheduler and the control thread take from their queues, and who runs then.
use openevent_modules_model.Base.{
  ℕ, ◌+◌, ◌≤◌, ltb, ◌≡◌, ◌≢◌, refl, Bool, true, false, not, ◌&&◌, Option, none, some, List, [], ◌∷◌,
  map, arith, if-both,
}
use openevent_modules_model.Base.Dict.{Dict, get, put, get-put, get-remove}
use openevent_modules_model.Models.Value.{Value}
use openevent_modules_model.Worker.State.{
  RequestState, running, done, Settings, Worker, set_request, retire_locked, can_output,
}
use openevent_modules_model.Worker.Queues.{
  Scheduled, Control, start_request, take_pending, reject_request, take_control, schedule, control,
  control_done, task_begin, task_operation, task_done, drop_body,
}
use openevent_modules_model.Worker.Kept.{IsKept, seq_at}
use openevent_modules_model.Worker.Running.{
  running_at, count, count_control, once, KeepsRunning, set_request-KeepsRunning,
}

-- What the queues and the cursor have to do with those before.
abbrev pub SameControls : Worker → Worker → Type 0
SameControls w w' = (w'.controls ≡ w.controls) × (w'.last_seen_seq ≡ w.last_seen_seq)

abbrev pub SamePending : Worker → Worker → Type 0
SamePending w w' = (w'.pending ≡ w.pending) × (w'.last_seen_seq ≡ w.last_seen_seq)

-- A round of the scheduler takes the first seq of the queue; its request runs, or is gone.
abbrev pub Takes : Worker → Scheduled → Type 0
Takes w Scheduled.waits = Unit
Takes w (Scheduled.skipped w') =
    ((q : ℕ) → count q w'.pending ≤ count q w.pending)
    × SameControls w w'
    × KeepsRunning w.requests w'.requests
Takes w (Scheduled.started seq w') =
    ((q : ℕ) → count q w'.pending + once q seq ≡ count q w.pending)
    × SameControls w w'
    × KeepsRunning w.requests w'.requests
    × (running_at (get seq w'.requests) ≡ true)

start_request-Takes :
    (w : Worker) (seq : ℕ) (rest : List ℕ) (o : Option RequestState)
    → w.pending ≡ seq ∷ rest
    → seq_at seq o ≡ seq
    → Takes w (start_request o seq (record w { pending = rest }))
unfolding set_request
start_request-Takes w seq rest none split placed =
    (λ q. ground (arith, split), (refl, refl), λ q h. h)
start_request-Takes w seq rest (some r) split placed =
    let r' = record r { phase = running } in
    (
      λ q. ground (arith, split),
      (refl, refl),
      set_request-KeepsRunning r' w (λ _. refl),
      ground (arith, placed, get-put r.request_seq seq r' w.requests),
    )

take_pending-Takes :
    (w : Worker) (queue : List ℕ)
    → IsKept w.requests
    → w.pending ≡ queue
    → Takes w (take_pending queue w)
take_pending-Takes w [] v e = tt
take_pending-Takes w (seq ∷ rest) v e =
    start_request-Takes w seq rest (get seq w.requests) e (v.placed seq)

pub schedule-Takes :
    (config : Settings) (w : Worker) → IsKept w.requests → Takes w (schedule config w)
unfolding schedule
schedule-Takes config w v =
    if-both (Takes w) (not w.stopped && ltb w.running config.max_concurrency)
      (λ _. take_pending-Takes w w.pending v refl) (λ _. tt)

-- The same for the control thread.
abbrev pub TakesControl : Worker → Control → Type 0
TakesControl w Control.waits = Unit
TakesControl w (Control.skipped w') =
    ((q : ℕ) → count_control q w'.controls ≤ count_control q w.controls)
    × SamePending w w'
    × KeepsRunning w.requests w'.requests
TakesControl w (Control.rejects r code w') =
    ((q : ℕ) → count_control q w'.controls + once q r.request_seq ≡ count_control q w.controls)
    × SamePending w w'
    × KeepsRunning w.requests w'.requests
    × (running_at (get r.request_seq w'.requests) ≡ true)

reject_request-TakesControl :
    (w : Worker) (seq code : ℕ) (rest : List (ℕ × ℕ)) (o : Option RequestState)
    → w.controls ≡ (seq, code) ∷ rest
    → seq_at seq o ≡ seq
    → TakesControl w (reject_request o code (record w { controls = rest }))
unfolding set_request
reject_request-TakesControl w seq code rest none split placed =
    (λ q. ground (arith, split), (refl, refl), λ q h. h)
reject_request-TakesControl w seq code rest (some r) split placed =
    let r' = record r { phase = running } in
    (
      λ q. ground (arith, split, placed),
      (refl, refl),
      set_request-KeepsRunning r' w (λ _. refl),
      ground (arith, get-put r.request_seq r.request_seq r' w.requests),
    )

take_control-TakesControl :
    (w : Worker) (queue : List (ℕ × ℕ))
    → IsKept w.requests
    → w.controls ≡ queue
    → TakesControl w (take_control queue w)
take_control-TakesControl w [] v e = tt
take_control-TakesControl w ((seq, code) ∷ rest) v e =
    reject_request-TakesControl w seq code rest (get seq w.requests) e (v.placed seq)

pub control-TakesControl : (w : Worker) → IsKept w.requests → TakesControl w (control w)
unfolding control
control-TakesControl w v =
    if-both (TakesControl w) w.stopped (λ _. tt)
      (λ _. take_control-TakesControl w w.controls v refl)

-- The end of a task or of a refusal touches no other request.
pub control_done-other :
    (r : RequestState) (w : Worker) (q : ℕ)
    → q ≢ r.request_seq
    → get q (control_done r w).requests ≡ get q w.requests
unfolding control_done retire_locked set_request
control_done-other r w q ne =
    let r' = record r { phase = done } in
    ground (
      arith,
      get-put r.request_seq q r' w.requests,
      get-remove r.request_seq q (put r.request_seq r' w.requests),
    )

pub task_done-other :
    (r : RequestState) (w : Worker) (q : ℕ)
    → q ≢ r.request_seq
    → get q (task_done r w).requests ≡ get q w.requests
unfolding task_done retire_locked set_request
task_done-other r w q ne =
    let r' = record r { operation = false; body = none; phase = done } in
    ground (
      arith,
      get-put r.request_seq q r' w.requests,
      get-remove r.request_seq q (put r.request_seq r' w.requests),
    )

pub task_begin-KeepsRunning :
    (r : RequestState) (w : Worker)
    → get r.request_seq w.requests ≡ some r
    → KeepsRunning w.requests (task_begin r w).0.requests
unfolding task_begin
task_begin-KeepsRunning r w here =
    if-both (λ (p : Worker × Option Value). KeepsRunning w.requests p.0.requests) (can_output r w)
      (λ _. set_request-KeepsRunning (record r { body = none }) w (λ h. ground (arith, here)))
      (λ _ q h. h)

pub task_operation-KeepsRunning :
    (r : RequestState) (w : Worker)
    → get r.request_seq w.requests ≡ some r
    → KeepsRunning w.requests (task_operation r w).0.requests
unfolding task_operation
task_operation-KeepsRunning r w here =
    if-both (λ (p : Worker × Bool). KeepsRunning w.requests p.0.requests) (can_output r w)
      (λ _. set_request-KeepsRunning (record r { operation = true }) w (λ h. ground (arith, here)))
      (λ _ q h. h)

pub drop_body-running_at :
    (q : ℕ) (d : Dict RequestState) → running_at (get q (map drop_body d)) ≡ running_at (get q d)
unfolding get
drop_body-running_at q [] = refl
drop_body-running_at q ((n, r) ∷ d) = let rest = drop_body-running_at q d in ground arith
