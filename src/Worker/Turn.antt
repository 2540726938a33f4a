-- ===== src/Worker/Turn.antt =====
-- The queue of pending requests never stalls under a configuration that `parse_config` returned.
use openevent_modules_model.Base.{
  ℕ, ◌-◌, ◌≤◌, ◌<◌, ltb, ◌≡◌, refl, ap, ◌∙◌, String, true, false, Option, List, [], ◌∷◌, length,
  Bool-cases, Option-cases, inl, inr, ok, arith,
}
use openevent_modules_model.Base.Dict.{get}
use openevent_modules_model.Models.Value.{Value}
use openevent_modules_model.Config.Parse.{Config, SplitUrl, parse_config}
use openevent_modules_model.Config.Sound.{parse_config-IsValidConfig}
use openevent_modules_model.Config.Settings.{settings_of}
use openevent_modules_model.Worker.State.{
  RequestState, Settings, Worker, retire_locked, set_request,
}
use openevent_modules_model.Worker.Queues.{start_request, schedule, task_done}
use openevent_modules_model.Worker.Running.{count}
use openevent_modules_model.Worker.Reach.{System, Step, Reach, schedules, passes, finishes}
use openevent_modules_model.Worker.Safety.{Reach-running}
use openevent_modules_model.Worker.Progress.{Reach-held}

-- One or two steps.
pub data Leads (config : Settings) (s : System) : System → Type 0 where
  one : {t : System} → Step config s t → Leads config s t
  two : {t u : System} → Step config s t → Step config t u → Leads config s u

-- The scheduler has a slot.
record HasTurn (config : Settings) (seq : ℕ) (rest : List ℕ) (s : System) : Type 0 where
  live : s.live ≡ true
  going : s.worker.stopped ≡ false
  queued : s.worker.pending ≡ seq ∷ rest
  slot : s.worker.running < config.max_concurrency

HasTurn-schedule :
    (config : Settings) (seq : ℕ) (rest : List ℕ) (s : System)
    → HasTurn config seq rest s
    → schedule config s.worker
      ≡ start_request (get seq s.worker.requests) seq (record s.worker { pending = rest })
unfolding schedule
HasTurn-schedule config seq rest s h =
    let free : ltb s.worker.running config.max_concurrency ≡ true = ground (arith, h.slot) in
    rw (h.going, free, h.queued) refl

HasTurn-Step :
    (config : Settings) (seq : ℕ) (rest : List ℕ) (s : System)
    → HasTurn config seq rest s
    → (t : System) × Step config s t × (t.worker.pending ≡ rest)
unfolding set_request
HasTurn-Step config seq rest s h =
    let w = record s.worker { pending = rest } in
    let taken = HasTurn-schedule config seq rest s h in
    elim (Option-cases (get seq s.worker.requests)) [
      | inl gone ↦ (_, passes _ h.live (taken ∙ ap (λ o. start_request o seq w) gone) refl, refl)
      | inr (r, here) ↦
          (_, schedules seq _ h.live (taken ∙ ap (λ o. start_request o seq w) here) refl, refl)
    ]

-- What the end of a task leaves as it was.
task_done-fields :
    (r : RequestState) (w : Worker)
    → ((task_done r w).stopped ≡ w.stopped)
      × ((task_done r w).pending ≡ w.pending)
      × ((task_done r w).running ≡ w.running - 1)
unfolding task_done retire_locked set_request
task_done-fields r w = ground arith

-- No slot is free: a thread runs, and its end frees one.
Reach-frees :
    (config : Settings) (seq : ℕ) (rest : List ℕ) (s : System)
    → Reach config s
    → 1 ≤ config.max_concurrency
    → s.live ≡ true
    → s.worker.stopped ≡ false
    → s.worker.pending ≡ seq ∷ rest
    → config.max_concurrency ≤ s.worker.running
    → (xs : List ℕ) → s.tasks ≡ xs
    → (t : System) × Step config s t × HasTurn config seq rest t
Reach-frees config seq rest s reach positive live going queued full [] tasks =
    let (counted, bounded) = Reach-running config s reach in
    absurd (omega (arith, counted, ap length tasks))
Reach-frees config seq rest s reach positive live going queued full (q ∷ qs) tasks =
    let (counted, bounded) = Reach-running config s reach in
    let (alone, (r, here, runs)) =
      Reach-held config s q reach (ground (arith, ap (count q) tasks)) in
    let (same, kept, fewer) = task_done-fields r s.worker in
    (
      record s { worker = task_done r s.worker; tasks = qs },
      finishes [] qs q r tasks here refl,
      record {
        live = live;
        going = same ∙ going;
        queued = kept ∙ queued;
        slot = omega (arith, fewer, bounded, full, positive);
      },
    )

Reach-turn :
    (config : Settings) (seq : ℕ) (rest : List ℕ) (s : System)
    → Reach config s
    → 1 ≤ config.max_concurrency
    → s.live ≡ true
    → s.worker.stopped ≡ false
    → s.worker.pending ≡ seq ∷ rest
    → (t : System) × Leads config s t × (t.worker.pending ≡ rest)
Reach-turn config seq rest s reach positive live going queued =
    elim (Bool-cases (ltb s.worker.running config.max_concurrency)) [
      | inl free ↦
          let h : HasTurn config seq rest s = record {
            live = live;
            going = going;
            queued = queued;
            slot = ground (arith, free);
          } in
          let (t, step, e) = HasTurn-Step config seq rest s h in (t, one step, e)
      | inr full ↦
          let (t, first, h) =
            Reach-frees config seq rest s reach positive live going queued (ground (arith, full))
              s.tasks refl in
          let (u, second, e) = HasTurn-Step config seq rest t h in (u, two first second, e)
    ]

-- Under a configuration that `parse_config` returned, the first pending request of a worker that is
-- live and not stopped leaves the queue within two steps: the scheduler's, behind the end of one
-- provider thread where every slot is taken.
pub parse_config-turn :
    (urlsplit : String → Option SplitUrl) (value : Value) (c : Config) (seq : ℕ) (rest : List ℕ)
    (s : System)
    → parse_config urlsplit value ≡ ok c
    → Reach (settings_of c) s
    → s.live ≡ true
    → s.worker.stopped ≡ false
    → s.worker.pending ≡ seq ∷ rest
    → (t : System) × Leads (settings_of c) s t × (t.worker.pending ≡ rest)
parse_config-turn urlsplit value c seq rest s parsed reach live going queued =
    let v = parse_config-IsValidConfig urlsplit value parsed in
    Reach-turn (settings_of c) seq rest s reach (unfold settings_of in v.concurrency_positive) live
      going queued
