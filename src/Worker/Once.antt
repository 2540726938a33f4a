-- ===== src/Worker/Once.antt =====
-- Every message of the channel is accepted once, in its order, however the subscriptions break off.
use openevent_modules_model.Base.{
  ℕ, ◌≤◌, ◌<◌, leb, ◌==◌, ◌≡◌, refl, sym, ap, ◌∙◌, true, false, not, Option, List, [], ◌∷◌, ◌++◌,
  Outcome, ok, err, ◌>>=◌, Returns, >>=-Returns, >>=-cong, >>=-ext, >>=-assoc, if-false, if-true,
  All, arith, if-both,
}
use openevent_modules_model.Models.Value.{Value}
use openevent_modules_model.Models.Validate.{PayloadError}
use openevent_modules_model.Models.Payload.{Bytes, RawMessage, ParsedMessage, parse_message}
use openevent_modules_model.Rpc.Status.{Exception, is_retryable}
use openevent_modules_model.Worker.State.{Settings, Worker}
use openevent_modules_model.Worker.Accept.{Accepted}
use openevent_modules_model.Worker.Run.{
  RunError, accepted_live, accept_parsed, read_new, read_message, read_stream, Session,
  ended_session, run_loop,
}
use openevent_modules_model.Worker.Stops.{SameStop, accept-SameStop}

-- What reading a new message leaves: the cursor at it, and a worker that goes on.
abbrev Moved : ℕ → Worker → Outcome RunError Worker → Type 0
Moved seq w (err e) = Unit
Moved seq w (ok v) = (v.last_seen_seq ≡ seq) × (v.stopped ≡ w.stopped)

module _ (config : Settings) (loads : Bytes → Option Value) where
  accepted_live-Moved :
      (seq : ℕ) (w : Worker) (a : Accepted) → SameStop w a → Moved seq w (accepted_live seq a)
  accepted_live-Moved seq w (err e) h = tt
  accepted_live-Moved seq w (ok (v, abort)) h = (refl, h)

  accept_parsed-Moved :
      (raw : RawMessage) (r : Outcome PayloadError ParsedMessage) (w : Worker)
      → Moved raw.seq w (accept_parsed config raw r w)
  accept_parsed-Moved raw (err e) w = tt
  accept_parsed-Moved raw (ok m) w =
      accepted_live-Moved raw.seq w _ (accept-SameStop w config false _ m)

  read_new-Moved : (raw : RawMessage) (w : Worker) → Moved raw.seq w (read_new config loads raw w)
  unfolding read_new
  read_new-Moved raw w =
      if-both (Moved raw.seq w) (raw.principal == 0) (λ _. (refl, refl))
        (λ _. accept_parsed-Moved raw (parse_message loads raw) w)

  -- Each message, once and in this order.
  unfoldable pub read_all : List RawMessage → Worker → Outcome RunError Worker
  read_all [] w = ok w
  read_all (raw ∷ raws) w = read_new config loads raw w >>= λ v. read_all raws v

-- The seqs rise above `n`.
abbrev pub Above : ℕ → List RawMessage → Type 0
Above n [] = Unit
Above n (m ∷ ms) = (n < m.seq) × Above m.seq ms

abbrev pub last_of : ℕ → List RawMessage → ℕ
last_of n [] = n
last_of n (m ∷ ms) = last_of m.seq ms

-- What the server delivers, when the messages behind `n` are `log`: a subscription starts with messages
-- that have been seen, goes on in order, and ends with an error that is retried.
pub data Delivers : ℕ → List (Outcome Exception Session) → List RawMessage → Type 0 where
  finished : {n : ℕ} → Delivers n [] []
  session :
      {n : ℕ} {sessions : List (Outcome Exception Session)} {log : List RawMessage}
      (olds news : List RawMessage) (e : Exception)
      → All (λ m. m.seq ≤ n) olds
      → is_retryable e ≡ true
      → Delivers (last_of n news) sessions log
      → Delivers n (ok (record { messages = olds ++ news; ends_with = e }) ∷ sessions) (news ++ log)

Above-append :
    (n : ℕ) (xs ys : List RawMessage) → Above n (xs ++ ys) → Above n xs × Above (last_of n xs) ys
Above-append n [] ys h = (tt, h)
Above-append n (x ∷ xs) ys (first, h) =
    let (left, right) = Above-append x.seq xs ys h in ((first, left), right)

-- The worker behind messages up to `n`.
abbrev At : ℕ → Worker → Type 0
At n w = (w.last_seen_seq ≡ n) × (w.stopped ≡ false)

module _ (config : Settings) (loads : Bytes → Option Value) where
  read_new-At :
      (raw : RawMessage) (w : Worker)
      → w.stopped ≡ false
      → Returns (At raw.seq) (read_new config loads raw w)
  read_new-At raw w going = from (read_new config loads raw w) (read_new-Moved config loads raw w)
    where
      from : (o : Outcome RunError Worker) → Moved raw.seq w o → Returns (At raw.seq) o
      from (ok v) (moved, same) = (moved, same ∙ going)
      from (err e) h = tt

  read_stream-olds :
      (olds news : List RawMessage) (w : Worker)
      → All (λ m. m.seq ≤ w.last_seen_seq) olds
      → w.stopped ≡ false
      → read_stream config loads (olds ++ news) w ≡ read_stream config loads news w
  unfolding read_stream read_message
  read_stream-olds [] news w h going = refl
  read_stream-olds (m ∷ olds) news w (seen_before, h) going =
      let skip : leb m.seq w.last_seen_seq ≡ true = ground (arith, seen_before) in
      if-false w.stopped (ok w) _ going
      ∙ ap (λ o. o >>= λ v. read_stream config loads (olds ++ news) v)
          (if-true (leb m.seq w.last_seen_seq) (ok w) (read_new config loads m w) skip)
      ∙ read_stream-olds olds news w h going

  read_stream-news :
      (news : List RawMessage) (n : ℕ) (w : Worker)
      → Above n news
      → At n w
      → read_stream config loads news w ≡ read_all config loads news w
  unfolding read_stream read_message read_all
  read_stream-news [] n w h at = refl
  read_stream-news (m ∷ news) n w (above, h) (at, going) =
      let new : leb m.seq w.last_seen_seq ≡ false = ground (arith, above, at) in
      if-false w.stopped (ok w) _ going
      ∙ ap (λ o. o >>= λ v. read_stream config loads news v)
          (if-false (leb m.seq w.last_seen_seq) (ok w) (read_new config loads m w) new)
      ∙ >>=-cong (At m.seq) (read_new config loads m w) _ _ (read_new-At m w going)
          (λ v at. read_stream-news news m.seq v h at)

  read_all-At :
      (news : List RawMessage) (n : ℕ) (w : Worker)
      → At n w
      → Returns (At (last_of n news)) (read_all config loads news w)
  unfolding read_all
  read_all-At [] n w at = at
  read_all-At (m ∷ news) n w (at, going) =
      >>=-Returns (At m.seq) (At (last_of m.seq news)) (read_new config loads m w) _
        (read_new-At m w going) (λ v at. read_all-At news m.seq v at)

  read_all-append :
      (xs ys : List RawMessage) (w : Worker)
      → read_all config loads (xs ++ ys) w
        ≡ (read_all config loads xs w >>= λ v. read_all config loads ys v)
  unfolding read_all
  read_all-append [] ys w = refl
  read_all-append (x ∷ xs) ys w =
      >>=-ext (read_new config loads x w) _ _ (λ v. read_all-append xs ys v)
      ∙ sym (>>=-assoc (read_new config loads x w) _ _)

  run_loop-Delivers :
      (n : ℕ) (sessions : List (Outcome Exception Session)) (log : List RawMessage) (w : Worker)
      → Delivers n sessions log
      → Above n log
      → At n w
      → run_loop config loads sessions w ≡ read_all config loads log w
  unfolding run_loop ended_session
  run_loop-Delivers n _ _ w finished h at = unfold read_all in refl
  run_loop-Delivers n _ _ w
        (session {sessions = ss} {log = log} olds news e seen_before retried rest) h (at, going) =
      let (above, above_rest) = Above-append n news log h in
      let streamed : read_stream config loads (olds ++ news) w ≡ read_all config loads news w =
        read_stream-olds olds news w (rw at seen_before) going
        ∙ read_stream-news news n w above (at, going) in
      if-false w.stopped (ok w) _ going
      ∙ ap (λ o. o >>= λ v. ended_session config loads e v (run_loop config loads ss v)) streamed
      ∙ >>=-cong (At (last_of n news)) (read_all config loads news w) _ _
          (read_all-At news n w (at, going))
          (λ v (there, goes_on).
            if-false v.stopped (ok v) _ goes_on
            ∙ if-false (not (is_retryable e)) _ _ (ground (arith, retried))
            ∙ run_loop-Delivers (last_of n news) ss log v rest above_rest (there, goes_on))
      ∙ sym (read_all-append news log w)

  -- However the server breaks off its subscriptions, when each starts with messages that the worker has
  -- seen, goes on in order, and ends with an error that is retried: a worker that is not stopped reads
  -- each message of the channel once and in its order, and fails as it does on these.
  pub run_loop-once :
      (sessions : List (Outcome Exception Session)) (log : List RawMessage) (w : Worker)
      → Delivers w.last_seen_seq sessions log
      → Above w.last_seen_seq log
      → w.stopped ≡ false
      → run_loop config loads sessions w ≡ read_all config loads log w
  run_loop-once sessions log w delivered h going =
      run_loop-Delivers w.last_seen_seq sessions log w delivered h (refl, going)
