-- ===== src/Worker/History.antt =====
-- The scan of the history is the replay of the messages up to the target, whatever pages the server
-- makes of them.
use openevent_modules_model.Base.{
  ℕ, suc, ◌≤◌, ◌<◌, ltb, leb, ◌≡◌, refl, ◌&&◌, Option, List, [], ◌∷◌, ◌++◌, Outcome, ok, err,
  if◌then◌else◌, arith, Bool-cases, inl, inr, if-both,
}
use openevent_modules_model.Models.Value.{Value}
use openevent_modules_model.Models.Payload.{Bytes, RawMessage}
use openevent_modules_model.Rpc.Status.{Exception}
use openevent_modules_model.Worker.State.{Settings, Worker}
use openevent_modules_model.Worker.Recover.{RecoverError, Page, replay, then_scan}

-- The messages with a seq from `a` on and before `b`.
unfoldable pub between : ℕ → ℕ → List RawMessage → List RawMessage
between a b [] = []
between a b (m ∷ ms) =
    let rest = between a b ms in if leb a m.seq && ltb m.seq b then m ∷ rest else rest

-- The seqs rise, from `a` on.
abbrev pub Rises : ℕ → List RawMessage → Type 0
Rises a [] = Unit
Rises a (m ∷ ms) = (a ≤ m.seq) × Rises (suc m.seq) ms

-- What Fetch promises: the cursor advances, and the page holds the history between its ends.
pub record Serves (history : List RawMessage) (fetch : ℕ → Outcome Exception Page) : Type 0 where
  pub page_at : ℕ → Page
  pub returned : (cursor : ℕ) → fetch cursor ≡ ok (page_at cursor)
  pub advances : (cursor : ℕ) → cursor < (page_at cursor).next_seq
  pub holds :
      (cursor : ℕ) → (page_at cursor).messages ≡ between cursor (page_at cursor).next_seq history

module _ (config : Settings) (loads : Bytes → Option Value) where
  unfoldable pub replay_all : List RawMessage → Worker → Outcome RecoverError Worker
  replay_all [] w = ok w
  replay_all (m ∷ ms) w = then_scan (replay config loads m w) (λ v. replay_all ms v)

  pub replay_all-append :
      (xs ys : List RawMessage) (w : Worker)
      → replay_all (xs ++ ys) w ≡ then_scan (replay_all xs w) (λ v. replay_all ys v)
  unfolding replay_all
  replay_all-append [] ys w = refl
  replay_all-append (x ∷ xs) ys w = from (replay config loads x w) (λ v. replay_all-append xs ys v)
    where
      from :
          (r : Outcome RecoverError Worker)
          → ((v : Worker)
              → replay_all (xs ++ ys) v ≡ then_scan (replay_all xs v) (λ u. replay_all ys u))
          → then_scan r (λ v. replay_all (xs ++ ys) v)
            ≡ then_scan (then_scan r (λ v. replay_all xs v)) (λ v. replay_all ys v)
      from (err e) ih = refl
      from (ok v) ih = ih v

-- A part of the history rises, too.
Rises-weaken : (a b : ℕ) (ms : List RawMessage) → a ≤ b → Rises b ms → Rises a ms
Rises-weaken a b [] le r = tt
Rises-weaken a b (m ∷ ms) le (h, r) = (omega arith, r)

pub between-Rises : (k a b : ℕ) (ms : List RawMessage) → Rises k ms → Rises k (between a b ms)
unfolding between
between-Rises k a b [] r = tt
between-Rises k a b (m ∷ ms) (h, r) =
    if-both (Rises k) (leb a m.seq && ltb m.seq b) (λ _. (h, between-Rises (suc m.seq) a b ms r))
      (λ _.
        Rises-weaken k (suc m.seq) (between a b ms) (omega arith)
          (between-Rises (suc m.seq) a b ms r))

-- Nothing lies between the ends, or before the first.
pub between-late : (k a b : ℕ) (ms : List RawMessage) → b ≤ k → Rises k ms → between a b ms ≡ []
unfolding between
between-late k a b [] le r = refl
between-late k a b (m ∷ ms) le (h, r) =
    let rest = between-late (suc m.seq) a b ms (omega arith) r in ground arith

pub between-append :
    (k a b c : ℕ) (ms : List RawMessage)
    → a ≤ b
    → b ≤ c
    → Rises k ms
    → between a c ms ≡ between a b ms ++ between b c ms
unfolding between
between-append k a b c [] ab bc r = refl
between-append k a b c (m ∷ ms) ab bc (h, r) =
    let rest = between-append (suc m.seq) a b c ms ab bc r in
    elim (Bool-cases (ltb m.seq b)) [
      | inl early ↦ ground (arith, rest)
      | inr late ↦
          let gone = between-late (suc m.seq) a b ms (ground arith) r in ground (arith, rest, gone)
    ]
