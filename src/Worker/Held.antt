-- ===== src/Worker/Held.antt =====
-- Where a request may be: in one of the worker's queues or with one thread, which keeps it running.
use openevent_modules_model.Base.{
  ℕ, ◌+◌, ◌≤◌, ◌<◌, ◌≡◌, ◌≢◌, ◌∙◌, ap, true, false, Option, none, some, List, ◌∷◌, ◌++◌, arith,
}
use openevent_modules_model.Base.Dict.{get}
use openevent_modules_model.Models.Payload.{ParsedMessage}
use openevent_modules_model.Worker.State.{RequestState, Worker, set_request, retire_locked}
use openevent_modules_model.Worker.Queues.{Scheduled, Control, control_done, task_done}
use openevent_modules_model.Worker.Reach.{System, init, received, with_worker}
use openevent_modules_model.Worker.Running.{
  running_at, count, count_control, once, count-append, KeepsRunning, Queues,
}
use openevent_modules_model.Worker.Takes.{Takes, TakesControl, control_done-other, task_done-other}

abbrev pub rejecting_count : ℕ → Option ℕ → ℕ
rejecting_count q none = 0
rejecting_count q (some n) = once q n

-- The threads that hold a request, and all places of a seq.
abbrev pub holders : ℕ → System → ℕ
holders q s = count q s.tasks + rejecting_count q s.rejecting

abbrev pub places : ℕ → System → ℕ
places q s = count q s.worker.pending + count_control q s.worker.controls + holders q s

pub record IsHeld (s : System) : Type 0 where
  -- a request waits in one queue, or is held by one thread, and is an old one
  pub single : (q : ℕ) → places q s ≤ 1
  pub old : (q : ℕ) → s.worker.last_seen_seq < q → places q s ≡ 0
  pub quiet : s.live ≡ false → (q : ℕ) → places q s ≡ 0
  -- a request that a thread holds is running
  pub runs : (q : ℕ) → 0 < holders q s → running_at (get q s.worker.requests) ≡ true

pub init-IsHeld : IsHeld init
unfolding init
init-IsHeld = record {
  single = λ q. omega arith;
  old = λ q h. omega arith;
  quiet = λ h q. omega arith;
  runs = λ q h. absurd (omega arith);
}

module _ (s : System) (v : IsHeld s) where
  -- A section that leaves the queues alone and keeps the running requests.
  pub with_worker-IsHeld :
      (w : Worker)
      → w.pending ≡ s.worker.pending
      → w.controls ≡ s.worker.controls
      → w.last_seen_seq ≡ s.worker.last_seen_seq
      → KeepsRunning s.worker.requests w.requests
      → IsHeld (with_worker w s)
  with_worker-IsHeld w p c l keeps = record {
    single = λ q. rw (p, c) (v.single q);
    old = λ q h. rw (p, c) (v.old q (ground (arith, l)));
    quiet = λ h q. rw (p, c) (v.quiet h q);
    runs = λ q h. keeps q (v.runs q h);
  }

  pub received-IsHeld :
      (m : ParsedMessage) (w : Worker)
      → s.live ≡ true
      → s.worker.last_seen_seq < m.seq
      → Queues false m.seq s.worker w
      → IsHeld (received m w s)
  received-IsHeld m w live later g = record {
    single = λ q. ground (arith, v.single q, v.old q, g.queues q);
    old = λ q h. ground (arith, v.old q, g.queues q);
    quiet = λ h q. cc;
    runs = λ q h. g.keeps q (v.runs q h);
  }

  pub replayed-IsHeld :
      (n : ℕ) (w : Worker) → s.live ≡ false → Queues true n s.worker w → IsHeld (with_worker w s)
  replayed-IsHeld n w before g = record {
    single = λ q. omega (arith, v.quiet before q, g.queues q);
    old = λ q h. omega (arith, v.quiet before q, g.queues q);
    quiet = λ h q. omega (arith, v.quiet before q, g.queues q);
    runs = λ q h. g.keeps q (v.runs q h);
  }

  pub interrupted-IsHeld :
      (w : Worker)
      → s.live ≡ false
      → w.pending ≡ s.worker.pending
      → w.controls ≡ s.worker.controls
      → IsHeld (with_worker w s)
  interrupted-IsHeld w before p c = record {
    single = λ q. rw (p, c) (v.single q);
    old = λ q h. rw (p, c) (v.quiet before q);
    quiet = λ h q. rw (p, c) (v.quiet before q);
    runs = λ q h. absurd (omega (arith, v.quiet before q));
  }

  pub started-IsHeld :
      (seq : ℕ) (w : Worker)
      → s.live ≡ true
      → Takes s.worker (Scheduled.started seq w)
      → IsHeld (record s { worker = w; tasks = seq ∷ s.tasks })
  started-IsHeld seq w live (pending, (controls, cursor), keeps, here) = record {
    single = λ q. ground (arith, v.single q, pending q, controls);
    old = λ q h. ground (arith, v.old q, pending q, controls, cursor);
    quiet = λ h q. cc;
    runs = λ q h. ground (arith, here, keeps q, v.runs q);
  }

  pub skipped-IsHeld :
      (w : Worker) → s.live ≡ true → Takes s.worker (Scheduled.skipped w) → IsHeld (with_worker w s)
  skipped-IsHeld w live (pending, (controls, cursor), keeps) = record {
    single = λ q. ground (arith, v.single q, pending q, controls);
    old = λ q h. ground (arith, v.old q, pending q, controls, cursor);
    quiet = λ h q. cc;
    runs = λ q h. keeps q (v.runs q h);
  }

  pub rejects-IsHeld :
      (r : RequestState) (code : ℕ) (w : Worker)
      → s.live ≡ true
      → s.rejecting ≡ none
      → TakesControl s.worker (Control.rejects r code w)
      → IsHeld (record s { worker = w; rejecting = some r.request_seq })
  rejects-IsHeld r code w live free (controls, (pending, cursor), keeps, here) = record {
    single = λ q. ground (arith, v.single q, controls q, pending, free);
    old = λ q h. ground (arith, v.old q, controls q, pending, cursor, free);
    quiet = λ h q. cc;
    runs = λ q h. ground (arith, here, keeps q, v.runs q, free);
  }

  pub forgets-IsHeld :
      (w : Worker)
      → s.live ≡ true
      → TakesControl s.worker (Control.skipped w)
      → IsHeld (with_worker w s)
  forgets-IsHeld w live (controls, (pending, cursor), keeps) = record {
    single = λ q. ground (arith, v.single q, controls q, pending);
    old = λ q h. ground (arith, v.old q, controls q, pending, cursor);
    quiet = λ h q. cc;
    runs = λ q h. keeps q (v.runs q h);
  }

  -- It held no request that a task holds.
  rejected-runs :
      (seq : ℕ) (r : RequestState)
      → s.rejecting ≡ some seq
      → r.request_seq ≡ seq
      → (q : ℕ) → 0 < count q s.tasks + 0
      → running_at (get q (control_done r s.worker).requests) ≡ true
  rejected-runs seq r mine at q held =
      let other : q ≢ r.request_seq = λ e. ground (arith, v.single q, mine, at, e, held) in
      rw (control_done-other r s.worker q other) (v.runs q (omega (arith, held)))

  finished-runs :
      (xs ys : List ℕ) (seq : ℕ) (r : RequestState)
      → s.tasks ≡ xs ++ (seq ∷ ys)
      → r.request_seq ≡ seq
      → (q : ℕ) → 0 < count q (xs ++ ys) + rejecting_count q s.rejecting
      → running_at (get q (task_done r s.worker).requests) ≡ true
  finished-runs xs ys seq r split at q held =
      let before = ap (count q) split ∙ count-append q xs (seq ∷ ys) in
      let other : q ≢ r.request_seq =
        λ e. ground (arith, v.single q, before, count-append q xs ys, at, e, held) in
      rw (task_done-other r s.worker q other)
        (v.runs q (ground (arith, before, count-append q xs ys, held)))

  -- The control thread is through with the request that it held.
  pub rejected-IsHeld :
      (seq : ℕ) (r : RequestState)
      → s.rejecting ≡ some seq
      → r.request_seq ≡ seq
      → IsHeld (record s { worker = control_done r s.worker; rejecting = none })
  unfolding control_done retire_locked set_request
  rejected-IsHeld seq r mine at = record {
    single = λ q. ground (arith, v.single q, mine);
    old = λ q h. ground (arith, v.old q, mine);
    quiet = λ h q. ground (arith, v.quiet h q, mine);
    runs = λ q h. rejected-runs seq r mine at q h;
  }

  -- A task is through: its seq leaves the list.
  pub finished-IsHeld :
      (xs ys : List ℕ) (seq : ℕ) (r : RequestState)
      → s.tasks ≡ xs ++ (seq ∷ ys)
      → r.request_seq ≡ seq
      → IsHeld (record s { worker = task_done r s.worker; tasks = xs ++ ys })
  unfolding task_done retire_locked set_request
  finished-IsHeld xs ys seq r split at =
      let before = λ (q : ℕ). ap (count q) split ∙ count-append q xs (seq ∷ ys) in
      record {
        single = λ q. ground (arith, v.single q, before q, count-append q xs ys);
        old = λ q h. ground (arith, v.old q, before q, count-append q xs ys);
        quiet = λ h q. ground (arith, v.quiet h q, before q, count-append q xs ys);
        runs = λ q h. finished-runs xs ys seq r split at q (omega (arith, h));
      }
