-- ===== src/Worker/Slots.antt =====
-- The slots of the scheduler: what its round does to the counter of running tasks, and the control
-- thread's leaves alone.
use openevent_modules_model.Base.{
  ℕ, ◌+◌, ◌<◌, ltb, ◌≡◌, refl, not, ◌&&◌, Option, none, some, List, [], ◌∷◌, arith, if-both,
}
use openevent_modules_model.Base.Dict.{get}
use openevent_modules_model.Worker.State.{RequestState, Settings, Worker, set_request}
use openevent_modules_model.Worker.Queues.{
  Scheduled, start_request, take_pending, reject_request, take_control, schedule, control,
}
use openevent_modules_model.Worker.Kept.{AfterControl}

-- What a round may do to the counters of the worker `w`.
abbrev pub Slots : Settings → Worker → Scheduled → Type 0
Slots config w Scheduled.waits = Unit
Slots config w (Scheduled.skipped w') = (w'.running ≡ w.running) × (w'.originals ≡ w.originals)
Slots config w (Scheduled.started seq w') =
    (w.running < config.max_concurrency)
    × (w'.running ≡ w.running + 1)
    × (w'.originals ≡ w.originals)

start_request-Slots :
    (config : Settings) (o : Option RequestState) (seq : ℕ) (rest : List ℕ) (w : Worker)
    → w.running < config.max_concurrency
    → Slots config w (start_request o seq (record w { pending = rest }))
unfolding set_request
start_request-Slots config none seq rest w free = (refl, refl)
start_request-Slots config (some r) seq rest w free = (free, refl, refl)

take_pending-Slots :
    (config : Settings) (queue : List ℕ) (w : Worker)
    → w.running < config.max_concurrency
    → Slots config w (take_pending queue w)
take_pending-Slots config [] w free = tt
take_pending-Slots config (seq ∷ rest) w free =
    start_request-Slots config (get seq w.requests) seq rest w free

pub schedule-Slots : (config : Settings) (w : Worker) → Slots config w (schedule config w)
unfolding schedule
schedule-Slots config w =
    if-both (Slots config w) (not w.stopped && ltb w.running config.max_concurrency)
      (λ h. take_pending-Slots config w.pending w (ground arith)) (λ _. tt)

-- The control thread takes no slot.
abbrev pub SameSlots : Worker → Worker → Type 0
SameSlots w w' = (w'.running ≡ w.running) × (w'.originals ≡ w.originals)

reject_request-SameSlots :
    (o : Option RequestState) (code : ℕ) (rest : List (ℕ × ℕ)) (w : Worker)
    → AfterControl (SameSlots w) (reject_request o code (record w { controls = rest }))
unfolding set_request
reject_request-SameSlots none code rest w = (refl, refl)
reject_request-SameSlots (some r) code rest w = (refl, refl)

take_control-SameSlots :
    (queue : List (ℕ × ℕ)) (w : Worker) → AfterControl (SameSlots w) (take_control queue w)
take_control-SameSlots [] w = tt
take_control-SameSlots ((seq, code) ∷ rest) w =
    reject_request-SameSlots (get seq w.requests) code rest w

pub control-SameSlots : (w : Worker) → AfterControl (SameSlots w) (control w)
unfolding control
control-SameSlots w =
    if-both (AfterControl (SameSlots w)) w.stopped (λ _. tt)
      (λ _. take_control-SameSlots w.controls w)
