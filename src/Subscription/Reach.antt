-- ===== src/Subscription/Reach.antt =====
-- The subscription under every interleaving of the reader and the client's threads: each step is
-- one section under the lock. A message may be parsed while others run, so the second part of
-- `_accept` is a step for any message and any result of its parse.
use openevent_modules_model.Base.{
  ℕ, leb, ◌==◌, ◌≡◌, refl, String, Bool, true, false, Option, none, some, [], Outcome, ok, err,
  subst, sym, if-both, is_some, arith,
}
use openevent_modules_model.Base.Dict.{get, get-empty}
use openevent_modules_model.Models.Validate.{PayloadError}
use openevent_modules_model.Models.Payload.{RawMessage, ParsedMessage}
use openevent_modules_model.Publishing.Frozen.{FrozenPublication}
use openevent_modules_model.Subscription.State.{
  Call, Subscription, SubscriptionError, Item, rpc, set_call,
}
use openevent_modules_model.Subscription.Locked.{stop_call_locked, fail_locked}
use openevent_modules_model.Subscription.Accept.{accept_parsed, accept_check}
use openevent_modules_model.Subscription.Client.{
  Entry, starting, enter_checked, prepare_enter, prepare_finish, begin, register, published,
  publication_failed, item, next_message, read_failed,
}
use openevent_modules_model.Subscription.Invariant.{IsValid, fail_locked-IsValid, set_call-IsValid}
use openevent_modules_model.Subscription.Preserve.{
  begin-IsValid, register-IsValid, published-IsValid, publication_failed-IsValid,
  stop_call_locked-IsValid,
}
use openevent_modules_model.Subscription.AcceptValid.{advance-IsValid, accept_parsed-IsValid}

abbrev ValidCheck : Option (Subscription × Bool) → Type 0
ValidCheck none = Unit
ValidCheck (some (t, b)) = IsValid t

accept_check-ValidCheck :
    (raw : RawMessage) (s : Subscription) → IsValid s → ValidCheck (accept_check raw s)
unfolding accept_check
accept_check-ValidCheck raw s v =
    if-both ValidCheck s.failed (λ _. v)
      (λ _.
        if-both ValidCheck (leb raw.seq s.last_seen_seq) (λ _. v)
          (λ _.
            if-both ValidCheck (raw.principal == 0) (λ _. advance-IsValid raw.seq s v) (λ _. tt)))

read_failed-IsValid :
    (connected retryable : Bool) (status : Option String) (s : Subscription)
    → IsValid s
    → IsValid (read_failed connected retryable status s)
unfolding read_failed
read_failed-IsValid connected retryable status s v =
    if-both IsValid s.failed (λ _. v)
      (λ _.
        if-both IsValid connected
          (λ _. if-both IsValid retryable (λ _. v) (λ _. fail_locked-IsValid _ s v))
          (λ _. fail_locked-IsValid _ s v))

with_preparing-IsValid :
    (b : Bool) (s : Subscription) → IsValid s → IsValid (record s { preparing = b })
with_preparing-IsValid b s v = record {
  failure = v.failure;
  uuids = v.uuids;
  seqs = v.seqs;
  fresh = v.fresh;
  no_uuids = v.no_uuids;
  no_seqs = v.no_seqs;
  settled = v.settled;
}

prepare_finish-IsValid :
    (r : Outcome (Option String) ℕ) (s : Subscription) → IsValid s → IsValid (prepare_finish r s)
unfolding prepare_finish
prepare_finish-IsValid (ok n) s v = record {
  failure = v.failure;
  uuids = v.uuids;
  seqs = v.seqs;
  fresh = v.fresh;
  no_uuids = v.no_uuids;
  no_seqs = v.no_seqs;
  settled = v.settled;
}
prepare_finish-IsValid (err e) s v =
    with_preparing-IsValid false (fail_locked (rpc e) s) (fail_locked-IsValid (rpc e) s v)

abbrev ValidEntry : Entry → Type 0
ValidEntry (starting t) = IsValid t
ValidEntry _ = Unit

enter_checked-ValidEntry :
    (s : Subscription) (o : Option SubscriptionError) → IsValid s → ValidEntry (enter_checked o s)
unfolding enter_checked
enter_checked-ValidEntry s (some e) v = tt
enter_checked-ValidEntry s none v =
    if-both ValidEntry (is_some s.initial_from_seq) (λ _. tt)
      (λ _. if-both ValidEntry s.preparing (λ _. tt) (λ _. with_preparing-IsValid true s v))

-- One section under the lock.
pub data Step (s t : Subscription) : Type 0 where
  prepare : prepare_enter s ≡ starting t → Step s t
  prepared : (r : Outcome (Option String) ℕ) → t ≡ prepare_finish r s → Step s t
  begins : (id : String) (b : Bool) (i : ℕ) → begin id b s ≡ ok (i, t) → Step s t
  registers :
      (i : ℕ) (c : Call) (f : FrozenPublication)
      → get i s.calls ≡ some c
      → c.receive ≡ none
      → c.frozen ≡ none
      → register i c f s ≡ ok t
      → Step s t
  publishes :
      (i : ℕ) (c : Call) (seq : ℕ) → get i s.calls ≡ some c → t ≡ published i c seq s → Step s t
  drops : (i : ℕ) (c : Call) → get i s.calls ≡ some c → t ≡ publication_failed i c s → Step s t
  closes : (i : ℕ) (c : Call) → get i s.calls ≡ some c → t ≡ stop_call_locked i c s → Step s t
  takes :
      (i : ℕ) (c c' : Call) (m : Item)
      → get i s.calls ≡ some c
      → next_message c ≡ item m c'
      → t ≡ set_call i c' s
      → Step s t
  checks : (raw : RawMessage) (b : Bool) → accept_check raw s ≡ some (t, b) → Step s t
  accepts :
      (raw : RawMessage) (r : Outcome PayloadError ParsedMessage)
      → t ≡ (accept_parsed raw r s).0
      → Step s t
  breaks :
      (connected retryable : Bool) (status : Option String)
      → t ≡ read_failed connected retryable status s
      → Step s t

-- The steps from a new subscription.
abbrev pub init : ℕ → Subscription
init channel_id = record {
  channel_id = channel_id;
  initial_from_seq = none;
  last_seen_seq = 0;
  preparing = false;
  failed = false;
  error = none;
  calls_by_uuid = [];
  receives_by_seq = [];
  calls = [];
  next_id = 0;
}

pub data Reach (channel_id : ℕ) : Subscription → Type 0 where
  here : Reach channel_id (init channel_id)
  next : {s t : Subscription} → Reach channel_id s → Step s t → Reach channel_id t

init-IsValid : (n : ℕ) → IsValid (init n)
init-IsValid n = record {
  failure = refl;
  uuids = λ u i h. cc (get-empty {V = ℕ} u);
  seqs = λ u i h. cc (get-empty {V = ℕ} u);
  fresh = λ i h. get-empty i;
  no_uuids = λ u h. cc;
  no_seqs = λ u h. cc;
  settled = λ i h. cc;
}

takes-IsValid :
    (s : Subscription) (i : ℕ) (c c' : Call) (m : Item)
    → IsValid s
    → get i s.calls ≡ some c
    → next_message c ≡ item m c'
    → IsValid (set_call i c' s)
unfolding next_message
takes-IsValid s i c c' m v found h =
    set_call-IsValid i c s v found c' (ground arith) (ground arith) (ground arith)
      (λ e. ground (arith, v.settled i e))

Step-IsValid : {s t : Subscription} → Step s t → IsValid s → IsValid t
Step-IsValid (prepare h) v =
    subst ValidEntry h (unfold prepare_enter in enter_checked-ValidEntry _ _ v)
Step-IsValid (prepared r h) v = subst IsValid (sym h) (prepare_finish-IsValid r _ v)
Step-IsValid (begins id b i h) v = begin-IsValid id b _ v h
Step-IsValid (registers i c f found unbound new h) v =
    register-IsValid i c _ v found f unbound new h
Step-IsValid (publishes i c seq found h) v =
    subst IsValid (sym h) (published-IsValid i c _ seq v found)
Step-IsValid (drops i c found h) v =
    subst IsValid (sym h) (publication_failed-IsValid i c _ v found)
Step-IsValid (closes i c found h) v = subst IsValid (sym h) (stop_call_locked-IsValid i c _ v found)
Step-IsValid (takes i c c' m found h e) v =
    subst IsValid (sym e) (takes-IsValid _ i c c' m v found h)
Step-IsValid (checks raw b h) v = subst ValidCheck h (accept_check-ValidCheck raw _ v)
Step-IsValid (accepts raw r h) v = subst IsValid (sym h) (accept_parsed-IsValid raw r _ v)
Step-IsValid (breaks a b st h) v = subst IsValid (sym h) (read_failed-IsValid a b st _ v)

-- However the sections of the reader and of the client's threads interleave, the subscription stays
-- valid: each index leads to the calls that wait for its key, a failed subscription indexes nothing,
-- and then every call is closed, ended or has an error.
pub Reach-IsValid : {n : ℕ} {s : Subscription} → Reach n s → IsValid s
Reach-IsValid {n} here = init-IsValid n
Reach-IsValid (next r st) = Step-IsValid st (Reach-IsValid r)
