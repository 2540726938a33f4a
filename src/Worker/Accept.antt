-- ===== src/Worker/Accept.antt =====
-- `_accept` of the worker: what a parsed message does to the requests, under the lock.
use openevent_modules_model.Base.{
  ℕ, ltb, ◌==◌, String, Bool, true, false, not, ◌&&◌, ◌||◌, Option, none, some, List, [], ◌∷◌, ◌++◌,
  any, Outcome, ok, err, is_some, str_eq, if◌then◌else◌,
}
use openevent_modules_model.Base.Dict.{get, contains}
use openevent_modules_model.Models.Value.{Value}
use openevent_modules_model.Models.Payload.{
  InferRequest, ParsedMessage, Payload, infer_request, infer_result, infer_append, infer_end,
  infer_cancel, stream_id,
}
use openevent_modules_model.Worker.State.{
  RequestState, pending, Settings, Key, Worker, set_request, retire_locked,
}

-- The messages of `ProtocolError`.
pub data ProtocolError : Type 0 where
  bodyless_result invalid_append_chain : ProtocolError

abbrev pub key_eq : Key → Key → Bool
key_eq (c, s) (d, t) = (c == d) && str_eq s t

-- `key in self.originals`
abbrev pub is_original : Key → List Key → Bool
is_original k = any (key_eq k)

abbrev pub or_default : Option String → String → String
or_default none d = d
or_default (some p) _ = p

-- The code of a request that is refused at once.
unfoldable pub rejection : Settings → Bool → ℕ → String → Option ℕ
rejection config duplicate payload_bytes provider =
    if duplicate
    then some 60005
    else if ltb config.max_payload_bytes payload_bytes
    then some 60008
    else if not (any (str_eq provider) config.providers)
    then some 60009
    else none

abbrev pub new_request : Settings → Bool → ParsedMessage → InferRequest → Bool → RequestState
new_request config historical m p duplicate = record {
  channel_id = m.channel_id;
  request_seq = m.seq;
  request_principal = m.principal;
  stream_id = p.stream_id;
  streaming = p.stream;
  path = p.path;
  body = none;
  duplicate = duplicate;
  provider = if historical then none else some (or_default p.provider config.default_provider);
  phase = pending;
  chain_seq = none;
  terminal_seq = none;
  operation = false;
}

-- A live request joins one of the two queues.
unfoldable pub enqueue : Option ℕ → Value → RequestState → Worker → Worker
enqueue none body r w = record (set_request (record r { body = some body }) w) {
  pending = w.pending ++ (r.request_seq ∷ []);
}
enqueue (some code) body r w = record (set_request r w) {
  controls = w.controls ++ ((r.request_seq, code) ∷ []);
}

unfoldable pub add_request : Settings → Bool → ℕ → ParsedMessage → InferRequest → Worker → Worker
add_request config historical payload_bytes m p w =
    let key : Key = (m.channel_id, p.stream_id) in
    let duplicate = is_original key w.originals in
    let r = new_request config historical m p duplicate in
    let w' = record w { originals = if duplicate then w.originals else key ∷ w.originals } in
    if historical
    then set_request r w'
    else enqueue
        (rejection config duplicate payload_bytes (or_default p.provider config.default_provider))
        p.body r w'

unfoldable pub accept_request : Settings → Bool → ℕ → ParsedMessage → InferRequest → Worker → Worker
accept_request config historical payload_bytes m p w =
    if contains m.seq w.requests then w else add_request config historical payload_bytes m p w

-- What an output does to the request that it answers: nothing, an error, another chain element, or
-- its end; with the method's `abort`.
pub data Effect : Type 0 where
  ignored : Effect
  faulty : ProtocolError → Effect
  chained : Effect
  ended : (is_result : Bool) → (abort : Bool) → Effect

unfoldable pub effect : RequestState → Payload → Effect
effect r (infer_request p) = ignored
effect r (infer_result p) =
    if is_some r.chain_seq
    then ignored
    else if not r.streaming && not (is_some p.body)
    then faulty bodyless_result
    else if is_some p.body
    then ended true false
    else chained
effect r (infer_append p) = elim r.chain_seq [
  | none ↦ faulty invalid_append_chain
  | some n ↦
      if not r.streaming || not (p.prev_seq == n) then faulty invalid_append_chain else chained
]
effect r (infer_end p) = if r.streaming then ended false false else ignored
effect r (infer_cancel p) = if r.streaming then ended false r.operation else ignored

-- The result of `_accept`: the exception, or the new state and the request whose operation is to be
-- aborted behind the lock.
abbrev pub Accepted : Type 0
Accepted = Outcome ProtocolError (Worker × Option ℕ)

abbrev pub ended_state : Bool → ℕ → RequestState → RequestState
ended_state is_result seq r = record r {
  chain_seq = if is_result then some seq else r.chain_seq;
  terminal_seq = some seq;
  body = none;
}

unfoldable pub apply_effect : Effect → ℕ → RequestState → Worker → Accepted
apply_effect ignored seq r w = ok (w, none)
apply_effect (faulty e) seq r w = err e
apply_effect chained seq r w = ok (set_request (record r { chain_seq = some seq }) w, none)
apply_effect (ended is_result abort) seq r w =
    let r' = ended_state is_result seq r in
    ok (retire_locked r' (set_request r' w), if abort then some r.request_seq else none)

-- The guard in front of the kinds: the request is known, on this channel and stream, and open.
unfoldable pub answers : ParsedMessage → RequestState → Bool
answers m r =
    (r.channel_id == m.channel_id)
    && str_eq r.stream_id (stream_id m.payload)
    && not (is_some r.terminal_seq)

unfoldable pub accept_answer : ParsedMessage → Option RequestState → Worker → Accepted
accept_answer m none w = ok (w, none)
accept_answer m (some r) w =
    if answers m r then apply_effect (effect r m.payload) m.seq r w else ok (w, none)

unfoldable pub accept_open : Settings → Bool → ℕ → ParsedMessage → Payload → Worker → Accepted
accept_open config historical payload_bytes m (infer_request p) w =
    ok (accept_request config historical payload_bytes m p w, none)
accept_open config historical payload_bytes m (infer_result p) w =
    accept_answer m (get p.prev_seq w.requests) w
accept_open config historical payload_bytes m (infer_append p) w =
    accept_answer m (get p.request_seq w.requests) w
accept_open config historical payload_bytes m (infer_end p) w =
    accept_answer m (get p.request_seq w.requests) w
accept_open config historical payload_bytes m (infer_cancel p) w =
    accept_answer m (get p.request_seq w.requests) w

unfoldable pub accept : Settings → Bool → ℕ → ParsedMessage → Worker → Accepted
accept config historical payload_bytes m w =
    if w.stopped then ok (w, none) else accept_open config historical payload_bytes m m.payload w
