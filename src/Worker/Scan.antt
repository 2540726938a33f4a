-- ===== src/Worker/Scan.antt =====
-- The scan replays the history up to the target, in its order.
use openevent_modules_model.Base.{
  ℕ, zero, suc, ◌+◌, ◌≤◌, ◌<◌, ltb, leb, ◌≡◌, refl, sym, ap, ◌∙◌, true, false, ◌||◌, ◌&&◌, Option,
  List, [], ◌∷◌, Outcome, ok, err, All, arith, Bool-cases, inl, inr, if-both,
}
use openevent_modules_model.Models.Value.{Value}
use openevent_modules_model.Models.Payload.{Bytes, RawMessage}
use openevent_modules_model.Rpc.Status.{Exception}
use openevent_modules_model.Worker.State.{Settings, Worker}
use openevent_modules_model.Worker.Recover.{
  RecoverError, Page, replay, then_scan, scan_page, scan, scan_history,
}
use openevent_modules_model.Worker.History.{
  between, Rises, Serves, replay_all, replay_all-append, between-Rises, between-late,
  between-append,
}

between-empty : (a b : ℕ) (ms : List RawMessage) → b ≤ a → between a b ms ≡ []
unfolding between
between-empty a b [] le = refl
between-empty a b (m ∷ ms) le = ground (arith, between-empty a b ms le)

between-inner :
    (a b c : ℕ) (ms : List RawMessage) → b ≤ c → between 0 c (between a b ms) ≡ between a b ms
unfolding between
between-inner a b c [] le = refl
between-inner a b c (m ∷ ms) le =
    let rest = between-inner a b c ms le in
    elim (Bool-cases (leb a m.seq && ltb m.seq b)) [
      | inl kept ↦ rw kept (ground (arith, rest, kept))
      | inr skipped ↦ rw skipped rest
    ]

between-cut :
    (a b c : ℕ) (ms : List RawMessage) → c ≤ b → between 0 c (between a b ms) ≡ between a c ms
unfolding between
between-cut a b c [] le = refl
between-cut a b c (m ∷ ms) le =
    let rest = between-cut a b c ms le in
    elim (Bool-cases (leb a m.seq && ltb m.seq b)) [
      | inl kept ↦ rw kept (ground (arith, rest, kept))
      | inr skipped ↦ rw skipped (ground (arith, rest, skipped))
    ]

between-All : (a b : ℕ) (ms : List RawMessage) → All (λ m. m.seq < b) (between a b ms)
unfolding between
between-All a b [] = tt
between-All a b (m ∷ ms) =
    if-both (All (λ m. m.seq < b)) (leb a m.seq && ltb m.seq b)
      (λ h. (ground arith, between-All a b ms)) (λ _. between-All a b ms)

between-from : (k a b : ℕ) (ms : List RawMessage) → Rises k ms → Rises a (between a b ms)
unfolding between
between-from k a b [] r = tt
between-from k a b (m ∷ ms) (h, r) =
    if-both (Rises a) (leb a m.seq && ltb m.seq b)
      (λ kept. (ground arith, between-Rises (suc m.seq) a b ms r))
      (λ _. between-from (suc m.seq) a b ms r)

then_scan-cong :
    (r : Outcome RecoverError Worker) (f : Worker → Outcome RecoverError (ℕ × Worker))
    (g : Worker → Outcome RecoverError Worker) (again : ℕ × Worker → Outcome RecoverError Worker)
    (rest : Worker → Outcome RecoverError Worker)
    → ((v : Worker) → then_scan (f v) again ≡ then_scan (g v) rest)
    → then_scan (then_scan r f) again ≡ then_scan (then_scan r g) rest
then_scan-cong (err e) f g again rest same = refl
then_scan-cong (ok v) f g again rest same = same v

then_scan-ok : (r : Outcome RecoverError Worker) → then_scan r (λ v. ok v) ≡ r
then_scan-ok (err e) = refl
then_scan-ok (ok v) = refl

module _ (config : Settings) (loads : Bytes → Option Value) (target : ℕ) where
  -- A page in order is replayed up to the target, whatever follows it.
  scan_page-replays :
      (next cursor previous k : ℕ) (ms : List RawMessage) (w : Worker)
      (again : ℕ → Worker → Outcome RecoverError Worker)
      (rest : Worker → Outcome RecoverError Worker)
      → cursor ≤ k
      → previous < k
      → previous < next
      → Rises k ms
      → All (λ m. m.seq < next) ms
      → ((p : ℕ) (v : Worker) → p < next → again p v ≡ rest v)
      → then_scan (scan_page config loads target cursor previous ms w) (λ r. again r.0 r.1)
        ≡ then_scan (replay_all config loads (between 0 (suc target) ms) w) rest
  unfolding scan_page replay_all between
  scan_page-replays next cursor previous k [] w again rest from before inside rises all_inside
        same =
      same previous w inside
  scan_page-replays next cursor previous k (m ∷ ms) w again rest from before inside (h, rises)
        (here, all_inside) same =
      elim (Bool-cases (ltb target m.seq)) [
        | inl past ↦
            let gone = between-late (suc m.seq) 0 (suc target) ms (ground arith) rises in
            let out : leb 0 m.seq && ltb m.seq (suc target) ≡ false = ground arith in
            rw (past, out, gone) (same previous w inside)
        | inr within ↦
            let ordered : ltb m.seq cursor || leb m.seq previous ≡ false = ground arith in
            let included : leb 0 m.seq && ltb m.seq (suc target) ≡ true = ground arith in
            rw (within, ordered, included)
              (then_scan-cong (replay config loads m w)
                (λ v. scan_page config loads target cursor m.seq ms v)
                (λ v. replay_all config loads (between 0 (suc target) ms) v) _ rest
                (λ v.
                  scan_page-replays next cursor m.seq (suc m.seq) ms v again rest (omega arith)
                    (omega arith) here rises all_inside same))
      ]

  module _ (history : List RawMessage) (fetch : ℕ → Outcome Exception Page)
      (server : Serves history fetch) (start : ℕ) (rises : Rises start history) where
    -- A page and the replay of what follows it are the replay from its first message on.
    page-replays :
        (cursor next : ℕ) (w : Worker)
        → cursor < next
        → cursor ≤ target
        → then_scan
            (replay_all config loads (between 0 (suc target) (between cursor next history)) w)
            (λ v. replay_all config loads (between next (suc target) history) v)
          ≡ replay_all config loads (between cursor (suc target) history) w
    page-replays cursor next w more within = elim (Bool-cases (leb next target)) [
      | inl short ↦ rw (between-inner cursor next (suc target) history (ground arith)) (
          sym (
            replay_all-append config loads (between cursor next history)
              (between next (suc target) history) w)
          ∙ ap (λ ms. replay_all config loads ms w)
              (sym (
                between-append start cursor next (suc target) history (omega arith) (ground arith)
                  rises)))
      | inr long ↦
          rw
            (
              between-cut cursor next (suc target) history (ground arith),
              between-empty next (suc target) history (ground arith),
            )
            (unfold replay_all in
              then_scan-ok (replay_all config loads (between cursor (suc target) history) w))
    ]

    scan-replays :
        (n cursor previous : ℕ) (w : Worker)
        → target < cursor + n
        → previous < cursor
        → scan config loads target fetch n cursor previous w
          ≡ replay_all config loads (between cursor (suc target) history) w
    unfolding scan
    scan-replays zero cursor previous w enough before =
        let over : leb cursor target ≡ false = ground arith in
        rw (over, between-empty cursor (suc target) history (omega arith))
          (unfold replay_all in refl)
    scan-replays (suc n) cursor previous w enough before =
        let next = (server.page_at cursor).next_seq in
        let more = server.advances cursor in
        let advanced : leb next cursor ≡ false = ground (arith, more) in
        elim (Bool-cases (leb cursor target)) [
          | inl within ↦
              rw (within, server.returned cursor, advanced, server.holds cursor)
                (scan_page-replays next cursor previous cursor (between cursor next history) w
                    (λ p v. scan config loads target fetch n next p v)
                    (λ v. replay_all config loads (between next (suc target) history) v)
                    (omega arith) before (omega arith)
                    (between-from start cursor next history rises) (between-All cursor next history)
                    (λ p v inside. scan-replays n next p v (omega arith) inside)
                  ∙ page-replays cursor next w more (ground arith))
          | inr over ↦
              rw (over, between-empty cursor (suc target) history (ground arith))
                (unfold replay_all in refl)
        ]

    -- However the server pages its history, whose seqs rise, the scan ends within its fuel, and does to
    -- the worker what accepting the messages with a seq from 1 to the target does, one after the other,
    -- with the same error if one is raised.
    pub scan_history-replays :
        (w : Worker)
        → scan_history config loads target fetch w
          ≡ replay_all config loads (between 1 (suc target) history) w
    unfolding scan_history
    scan_history-replays w = scan-replays target 1 0 w (omega arith) (omega arith)
