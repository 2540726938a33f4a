-- ===== src/Subscription/AcceptValid.antt =====
-- `_accept` keeps the invariant of the subscription.
use openevent_modules_model.Base.{
  ℕ, ◌≡◌, refl, Bool, false, Option, none, some, Outcome, ok, err, if-both, arith, Bool-cases, inl,
  inr, str_eq,
}
use openevent_modules_model.Base.Dict.{Dict, get}
use openevent_modules_model.Models.Validate.{PayloadError}
use openevent_modules_model.Models.Payload.{RawMessage, ParsedMessage, stream_id}
use openevent_modules_model.Publishing.Frozen.{FrozenPublication}
use openevent_modules_model.Subscription.State.{
  Call, ReceiveState, Subscription, protocol, invalid_message, request_differs,
}
use openevent_modules_model.Subscription.Locked.{request_failure}
use openevent_modules_model.Subscription.Accept.{
  same_request, match_request, deliver, find_call, bind_request, advance, accept_request,
  accept_output, answered_seq, is_request, accept_message, accept_parsed,
}
use openevent_modules_model.Subscription.Invariant.{IsValid, fail_locked-IsValid}
use openevent_modules_model.Subscription.Preserve.{
  invalidate_locked-IsValid, bind_request-IsValid, accept_output_locked-IsValid,
}

pub advance-IsValid : (seq : ℕ) (s : Subscription) → IsValid s → IsValid (advance seq s)
advance-IsValid seq s v = record {
  failure = v.failure;
  uuids = v.uuids;
  seqs = v.seqs;
  fresh = v.fresh;
  no_uuids = v.no_uuids;
  no_seqs = v.no_seqs;
  settled = v.settled;
}

pub find_call-some :
    (o : Option ℕ) (d : Dict Call) {i : ℕ} {c : Call}
    → find_call o d ≡ some (i, c)
    → (o ≡ some i) × (get i d ≡ some c)
unfolding find_call
find_call-some none d h = cc
find_call-some (some j) d h = ground arith

module _ (raw : RawMessage) (m : ParsedMessage) (s : Subscription) (v : IsValid s) where
  match_request-IsValid :
      (i : ℕ) (c : Call) (f : Option FrozenPublication)
      → s.failed ≡ false
      → c.frozen ≡ f
      → get m.uuid s.calls_by_uuid ≡ some i
      → get i s.calls ≡ some c
      → IsValid (match_request raw m i c f s).0
  unfolding match_request
  match_request-IsValid i c none alive frozen mine here = v
  match_request-IsValid i c (some f) alive frozen mine here =
      let e = request_failure c request_differs in
      elim (Bool-cases (same_request f c.request_seq raw m)) [
        | inl same ↦ rw same (
            advance-IsValid m.seq (bind_request i c f m.seq s) (
              bind_request-IsValid i c s v here f m.seq alive frozen
                (unfold same_request in ground arith)))
        | inr differs ↦
            rw differs (fail_locked-IsValid e _ (invalidate_locked-IsValid i c s v here e))
      ]

  accept_request-IsValid :
      (o : Option (ℕ × Call))
      → s.failed ≡ false
      → find_call (get m.uuid s.calls_by_uuid) s.calls ≡ o
      → IsValid (accept_request raw m o s).0
  unfolding accept_request
  accept_request-IsValid none alive found = advance-IsValid m.seq s v
  accept_request-IsValid (some (i, c)) alive found =
      let (mine, here) = find_call-some _ s.calls found in
      match_request-IsValid i c c.frozen alive refl mine here

  deliver-IsValid :
      (i : ℕ) (c : Call) (r : Option ReceiveState)
      → c.receive ≡ r
      → get i s.calls ≡ some c
      → IsValid (deliver m i c r s)
  unfolding deliver
  deliver-IsValid i c none bound here = v
  deliver-IsValid i c (some r) bound here =
      elim (Bool-cases (str_eq (stream_id m.payload) c.stream_id)) [
        | inl same ↦ rw same (accept_output_locked-IsValid i c s v here r m bound)
        | inr differs ↦ rw differs v
      ]

  accept_output-IsValid :
      (o : Option (ℕ × Call)) (n : ℕ)
      → find_call (get n s.receives_by_seq) s.calls ≡ o
      → IsValid (accept_output m o s).0
  unfolding accept_output
  accept_output-IsValid none n found = advance-IsValid m.seq s v
  accept_output-IsValid (some (i, c)) n found =
      let (mine, here) = find_call-some _ s.calls found in
      advance-IsValid m.seq (deliver m i c c.receive s) (deliver-IsValid i c c.receive refl here)

  accept_message-IsValid : s.failed ≡ false → IsValid (accept_message raw m s).0
  unfolding accept_message
  accept_message-IsValid alive = elim (Bool-cases (is_request m.payload)) [
    | inl request ↦ rw request (accept_request-IsValid _ alive refl)
    | inr other ↦ rw other (accept_output-IsValid _ (answered_seq m.payload) refl)
  ]

-- Any message, however its parse ended, and whatever happened meanwhile.
pub accept_parsed-IsValid :
    (raw : RawMessage) (r : Outcome PayloadError ParsedMessage) (s : Subscription)
    → IsValid s
    → IsValid (accept_parsed raw r s).0
unfolding accept_parsed
accept_parsed-IsValid raw (err e) s v =
    if-both (λ (r : Subscription × Bool). IsValid r.0) s.failed (λ _. v)
      (λ _. fail_locked-IsValid (protocol (invalid_message e)) s v)
accept_parsed-IsValid raw (ok m) s v =
    if-both (λ (r : Subscription × Bool). IsValid r.0) s.failed (λ _. v)
      (accept_message-IsValid raw m s v)
