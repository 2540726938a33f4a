-- ===== src/Worker/Resumed.antt =====
-- What `recover` publishes behind its scan.
use openevent_modules_model.Base.{
  ℕ, suc, ◌<◌, ◌≤◌, leb, ◌≡◌, refl, ap, ◌∙◌, true, false, Option, none, some, List, [], ◌∷◌, map,
  All, Outcome, ok, if-both, if◌then◌else◌, Bool-cases, inl, inr, arith,
}
use openevent_modules_model.Base.Dict.{values}
use mathlib.Core.List.{Perm}
use mathlib.Core.List.Perm
use openevent_modules_model.Models.Payload.{Payload}
use openevent_modules_model.Models.Validate.{stream_id_matches}
use openevent_modules_model.Models.WellFormed.{IsWellFormed}
use openevent_modules_model.Worker.State.{RequestState, Worker}
use openevent_modules_model.Worker.ErrorEvent.{error_event-IsWellFormed}
use openevent_modules_model.Worker.Task.{TaskError}
use openevent_modules_model.Worker.Resume.{
  insert, sorted, Resumed, interruption, is_open, settled, interrupted, interrupt_all, moved_to,
  resume,
}

-- Each element is at most the next.
abbrev pub Ascending : List RequestState → Type 0
Ascending [] = Unit
Ascending (r ∷ rs) = All (λ (s : RequestState). r.request_seq ≤ s.request_seq) rs × Ascending rs

insert-All {κ} :
    (P : RequestState → Type κ) (r : RequestState) (rs : List RequestState)
    → P r
    → All P rs
    → All P (insert r rs)
unfolding insert
insert-All P r [] h hs = (h, tt)
insert-All P r (s ∷ ss) h (at, rest) =
    if-both (All P) (leb r.request_seq s.request_seq) (λ _. (h, (at, rest)))
      (λ _. (at, insert-All P r ss h rest))

All-raise :
    (m n : ℕ) (rs : List RequestState)
    → m ≤ n
    → All (λ (s : RequestState). n ≤ s.request_seq) rs
    → All (λ (s : RequestState). m ≤ s.request_seq) rs
All-raise m n [] le h = tt
All-raise m n (r ∷ rs) le (at, rest) = (omega (arith, le, at), All-raise m n rs le rest)

insert-Ascending :
    (r : RequestState) (rs : List RequestState) → Ascending rs → Ascending (insert r rs)
unfolding insert
insert-Ascending r [] h = (tt, tt)
insert-Ascending r (s ∷ ss) (at, rest) =
    if-both Ascending (leb r.request_seq s.request_seq)
      (λ le.
        let small : r.request_seq ≤ s.request_seq = ground (arith, le) in
        ((small, All-raise r.request_seq s.request_seq ss small at), (at, rest)))
      (λ gt. (
        insert-All (λ (x : RequestState). s.request_seq ≤ x.request_seq) r ss (ground (arith, gt))
            at,
        insert-Ascending r ss rest,
      ))

pub sorted-Ascending : (rs : List RequestState) → Ascending (sorted rs)
unfolding sorted
sorted-Ascending [] = tt
sorted-Ascending (r ∷ rs) = insert-Ascending r (sorted rs) (sorted-Ascending rs)

sorted-All {κ} : (P : RequestState → Type κ) (rs : List RequestState) → All P rs → All P (sorted rs)
unfolding sorted
sorted-All P [] h = tt
sorted-All P (r ∷ rs) (at, rest) = insert-All P r (sorted rs) at (sorted-All P rs rest)

insert-Perm : (r : RequestState) (rs : List RequestState) → Perm (insert r rs) (r ∷ rs)
unfolding insert
insert-Perm r [] = Perm.rfl
insert-Perm r (s ∷ ss) =
    let deeper = Perm.trans (Perm.cons s (insert-Perm r ss)) (Perm.swap r s ss) in
    if-both (λ out. Perm out (r ∷ s ∷ ss)) (leb r.request_seq s.request_seq) (λ _. Perm.rfl)
      (λ _. deeper)

sorted-Perm : (rs : List RequestState) → Perm (sorted rs) rs
unfolding sorted
sorted-Perm [] = Perm.rfl
sorted-Perm (r ∷ rs) = Perm.trans (insert-Perm r (sorted rs)) (Perm.cons r (sorted-Perm rs))

-- The events that answer the open ones of some requests.
abbrev pub interruptions : List RequestState → List Payload
interruptions [] = []
interruptions (r ∷ rs) =
    let rest = interruptions rs in if is_open r then interruption r ∷ rest else rest

abbrev payloads : List (ℕ × Payload) → List Payload
payloads = map (λ x. x.1)

module _ (emit : ℕ → Outcome TaskError ℕ) where
  moved_to-published :
      (target : ℕ) (x : Option TaskError) (s : Resumed)
      → (moved_to target x s).published ≡ s.published
  moved_to-published target none s = refl
  moved_to-published target (some x) s = refl

  module _ (seqs : ℕ → ℕ) (emits : (i : ℕ) → emit i ≡ ok (seqs i)) where
    interrupt_all-published :
        (i : ℕ) (rs : List RequestState) (w : Worker)
        → payloads (interrupt_all emit i rs w).published ≡ interruptions rs
    unfolding interrupt_all interrupted
    interrupt_all-published i [] w = refl
    interrupt_all-published i (r ∷ rs) w = elim (Bool-cases (is_open r)) [
      | inl at ↦
          rw (at, emits i)
            (ap (λ ps. interruption r ∷ ps) (interrupt_all-published (suc i) rs (settled r w)))
      | inr over ↦ rw over (interrupt_all-published i rs w)
    ]

    -- When every publication succeeds, a recovery publishes the answers of the open requests among
    -- `sorted` requests, which are those of the history, each once, in the order of their seqs.
    pub resume-published :
        (target : ℕ) (w : Worker)
        → let rs = sorted (values w.requests) in
          (map (λ x. x.1) (resume emit target w).published ≡ interruptions rs)
          × Perm rs (values w.requests)
          × Ascending rs
    unfolding resume
    resume-published target w =
        let rs = sorted (values w.requests) in
        let s = interrupt_all emit 0 rs w in
        (
          ap payloads (moved_to-published target s.failure s) ∙ interrupt_all-published 0 rs w,
          sorted-Perm (values w.requests),
          sorted-Ascending (values w.requests),
        )

abbrev pub IsAnswerable : RequestState → Type 0
IsAnswerable r = (stream_id_matches r.stream_id ≡ true) × (0 < r.request_seq)

interruptions-AreWellFormed :
    (rs : List RequestState) → All IsAnswerable rs → All IsWellFormed (interruptions rs)
interruptions-AreWellFormed [] h = tt
interruptions-AreWellFormed (r ∷ rs) ((valid, positive), rest) =
    let others = interruptions-AreWellFormed rs rest in
    if-both (All IsWellFormed) (is_open r)
      (λ _. (error_event-IsWellFormed r 60007 true false valid positive refl, others)) (λ _. others)

-- The answers of a recovery satisfy the constraints of the protocol.
pub resumed-AreWellFormed :
    (rs : List RequestState) → All IsAnswerable rs → All IsWellFormed (interruptions (sorted rs))
resumed-AreWellFormed rs h = interruptions-AreWellFormed (sorted rs) (sorted-All IsAnswerable rs h)
