-- ===== src/Subscription/Invariant.antt =====
-- The invariant of a subscription: what the two indexes, the calls and the failure have to do with
-- one another.
use openevent_modules_model.Base.{
  ℕ, ◌≤◌, ◌≡◌, ◌≢◌, refl, Bool, true, false, ◌||◌, Option, none, some, [], ◌∷◌, is_some, arith,
}
use openevent_modules_model.Base.Dict.{Dict, get, get-put, get-remove, get-empty}
use openevent_modules_model.Publishing.Frozen.{FrozenPublication}
use openevent_modules_model.Subscription.State.{
  Call, ReceiveState, Subscription, SubscriptionError, set_call,
}
use openevent_modules_model.Subscription.Locked.{
  is_terminal, forget_frozen, forget_receive, detach_locked, fail_call, fail_calls, fail_locked,
}

abbrev pub frozen_uuid : Option FrozenPublication → Option ℕ
frozen_uuid none = none
frozen_uuid (some f) = some f.uuid

abbrev pub bound_seq : Option ReceiveState → Option ℕ
bound_seq none = none
bound_seq (some r) = some r.request_seq

-- The uuid that a call waits for, and the request that it is bound to.
abbrev pub uuid_at : Option Call → Option ℕ
uuid_at none = none
uuid_at (some c) = frozen_uuid c.frozen

abbrev pub seq_at : Option Call → Option ℕ
seq_at none = none
seq_at (some c) = bound_seq c.receive

abbrev pub terminal_at : Option Call → Bool
terminal_at none = false
terminal_at (some c) = is_terminal c.receive

-- A call on which no reader of its queue waits for ever once the subscription has failed.
abbrev pub is_settled : Call → Bool
is_settled c = c.local_closed || is_terminal c.receive || is_some c.error

abbrev pub settled_at : Option Call → Bool
settled_at none = true
settled_at (some c) = is_settled c

pub record IsValid (s : Subscription) : Type 0 where
  -- the event is set exactly when an error is recorded
  pub failure : s.failed ≡ is_some s.error
  -- a call under a uuid has frozen that uuid and is not bound to a request
  pub uuids :
      (u i : ℕ)
      → get u s.calls_by_uuid ≡ some i
      → (uuid_at (get i s.calls) ≡ some u) × (seq_at (get i s.calls) ≡ none)
  -- a call under a request is bound to that request, has not ended, and has nothing frozen
  pub seqs :
      (n i : ℕ)
      → get n s.receives_by_seq ≡ some i
      → (seq_at (get i s.calls) ≡ some n)
        × (terminal_at (get i s.calls) ≡ false)
        × (uuid_at (get i s.calls) ≡ none)
  -- identities from `next_id` on are new
  pub fresh : (i : ℕ) → s.next_id ≤ i → get i s.calls ≡ none
  -- a failed subscription indexes no call, and every call is settled
  pub no_uuids : (u : ℕ) → s.failed ≡ true → get u s.calls_by_uuid ≡ none
  pub no_seqs : (n : ℕ) → s.failed ≡ true → get n s.receives_by_seq ≡ none
  pub settled : (i : ℕ) → s.failed ≡ true → settled_at (get i s.calls) ≡ true

pub get-forget_frozen :
    (f : Option FrozenPublication) (d : Dict ℕ) (u i : ℕ)
    → get u (forget_frozen f d) ≡ some i
    → (get u d ≡ some i) × (frozen_uuid f ≢ some u)
unfolding forget_frozen
get-forget_frozen none d u i h = (h, λ e. cc)
get-forget_frozen (some f) d u i h = ground (arith, get-remove f.uuid u d)

pub get-forget_receive :
    (r : Option ReceiveState) (d : Dict ℕ) (n i : ℕ)
    → get n (forget_receive r d) ≡ some i
    → (get n d ≡ some i) × (bound_seq r ≢ some n)
unfolding forget_receive
get-forget_receive none d n i h = (h, λ e. cc)
get-forget_receive (some r) d n i h = ground (arith, get-remove r.request_seq n d)

pub get-fail_calls :
    (e : SubscriptionError) (d : Dict Call) (i : ℕ)
    → get i (fail_calls e d) ≡ elim (get i d) [ none ↦ none | some c ↦ some (fail_call e c) ]
unfolding get fail_calls
get-fail_calls e [] i = refl
get-fail_calls e ((j, c) ∷ d) i = ground (arith, get-fail_calls e d i)

fail_call-settled : (e : SubscriptionError) (c : Call) → is_settled (fail_call e c) ≡ true
unfolding fail_call
fail_call-settled e c = ground arith

settled-fail_calls :
    (e : SubscriptionError) (d : Dict Call) (i : ℕ) → settled_at (get i (fail_calls e d)) ≡ true
unfolding get fail_calls
settled-fail_calls e [] i = refl
settled-fail_calls e ((j, c) ∷ d) i =
    ground (arith, fail_call-settled e c, settled-fail_calls e d i)

none-forget_frozen :
    (f : Option FrozenPublication) (d : Dict ℕ) (u : ℕ)
    → get u d ≡ none
    → get u (forget_frozen f d) ≡ none
unfolding forget_frozen
none-forget_frozen none d u h = h
none-forget_frozen (some f) d u h = ground (arith, get-remove f.uuid u d)

none-forget_receive :
    (r : Option ReceiveState) (d : Dict ℕ) (n : ℕ)
    → get n d ≡ none
    → get n (forget_receive r d) ≡ none
unfolding forget_receive
none-forget_receive none d n h = h
none-forget_receive (some r) d n h = ground (arith, get-remove r.request_seq n d)

-- The final failure keeps the invariant.
pub fail_locked-IsValid :
    (e : SubscriptionError) (s : Subscription) → IsValid s → IsValid (fail_locked e s)
unfolding fail_locked
fail_locked-IsValid e s v = record {
  failure = ground (arith, v.failure);
  uuids = λ u i h. ground (arith, v.uuids u i, get-empty {V = ℕ} u);
  seqs = λ n i h. ground (arith, v.seqs n i, get-empty {V = ℕ} n);
  fresh = λ i h. ground (arith, v.fresh i, get-fail_calls e s.calls i);
  no_uuids = λ u h. ground (arith, v.no_uuids u, get-empty {V = ℕ} u);
  no_seqs = λ n h. ground (arith, v.no_seqs n, get-empty {V = ℕ} n);
  settled = λ i h. ground (arith, v.settled i, v.failure, settled-fail_calls e s.calls i);
}

module _ (i : ℕ) (s : Subscription) (v : IsValid s) where
  -- Detaching a call, with any change of it that leaves it settled in a failed subscription. The
  -- indexes may know it by the uuid and the request seq that are forgotten.
  pub detach_locked-IsValid :
      (c : Call) (f : Call → Call)
      → get i s.calls ≢ none
      → uuid_at (some c) ≡ uuid_at (get i s.calls)
      → seq_at (some c) ≡ seq_at (get i s.calls)
      → (s.failed ≡ true → is_settled (f (record c { frozen = none })) ≡ true)
      → IsValid (detach_locked i c f s)
  unfolding detach_locked set_call
  detach_locked-IsValid c f known same_uuid same_seq keeps =
      let moved = λ (j : ℕ). get-put i j (f (record c { frozen = none })) s.calls in
      record {
        failure = v.failure;
        uuids = λ u j h. ground (
          arith,
          get-forget_frozen c.frozen s.calls_by_uuid u j h,
          v.uuids u j,
          moved j,
          same_uuid,
        );
        seqs = λ n j h. ground (
          arith,
          get-forget_receive c.receive s.receives_by_seq n j h,
          v.seqs n j,
          moved j,
          same_seq,
        );
        fresh = λ j h. ground (arith, v.fresh j, known, moved j);
        no_uuids = λ u h. none-forget_frozen c.frozen s.calls_by_uuid u (v.no_uuids u h);
        no_seqs = λ n h. none-forget_receive c.receive s.receives_by_seq n (v.no_seqs n h);
        settled = λ j h. ground (arith, v.settled j, keeps, moved j);
      }

module _ (i : ℕ) (c : Call) (s : Subscription) (v : IsValid s) (here : get i s.calls ≡ some c) where
  -- A change of the call in place that keeps what the indexes rely on.
  pub set_call-IsValid :
      (c' : Call)
      → uuid_at (some c') ≡ uuid_at (some c)
      → seq_at (some c') ≡ seq_at (some c)
      → is_terminal c'.receive ≡ is_terminal c.receive
      → (s.failed ≡ true → is_settled c' ≡ true)
      → IsValid (set_call i c' s)
  unfolding set_call
  set_call-IsValid c' same_uuid same_seq same_end keeps = record {
    failure = v.failure;
    uuids = λ u j h. ground (arith, v.uuids u j, here, get-put i j c' s.calls);
    seqs = λ n j h. ground (arith, v.seqs n j, here, get-put i j c' s.calls);
    fresh = λ j h. ground (arith, v.fresh j, here, get-put i j c' s.calls);
    no_uuids = v.no_uuids;
    no_seqs = v.no_seqs;
    settled = λ j h. ground (arith, v.settled j, keeps, get-put i j c' s.calls);
  }
