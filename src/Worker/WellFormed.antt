-- ===== src/Worker/WellFormed.antt =====
-- Every event that a provider task publishes passes the validation of models.py.
use openevent_modules_model.Base.{
  ℕ, suc, ◌<◌, ◌≡◌, refl, String, true, false, Option, none, some, List, [], ◌∷◌, All, All-append,
  Outcome, ok, err, ◌>>◌, arith,
}
use openevent_modules_model.Models.Value.{Value, Items, nil, cons}
use openevent_modules_model.Models.Validate.{
  stream_id_matches, elem, interrupted_codes, allowed_status, known_end_status, all_headers,
}
use openevent_modules_model.Models.Header.{IsHeaderList, all_headers-AreHeaders}
use openevent_modules_model.Models.Payload.{Payload}
use openevent_modules_model.Models.WellFormed.{IsWellFormed}
use openevent_modules_model.Worker.State.{RequestState}
use openevent_modules_model.Worker.Events.{
  ProviderKind, ProviderEvent, headers, result, append, completed, failed, unknown, headers_or_none,
  output_event,
}
use openevent_modules_model.Worker.ErrorEvent.{error_event-IsWellFormed}
use openevent_modules_model.Worker.Task.{
  TaskError, raised, stopped, publish_failed, fatal, Loop, emitted, task_loop, failure_code,
  handled_code, handled, task_published, provider_events,
}
use openevent_modules_model.Provider.Events.{
  Raised, provider_error, cancelled, incomplete_read, http_exception, os_error, other, Text,
  Yielded,
}
use openevent_modules_model.Provider.Call.{Response}
use openevent_modules_model.Provider.Connect.{Attempt, Handshake, connect, opened}
use openevent_modules_model.Provider.Headers.{Lowers}
use openevent_modules_model.Provider.Codes.{Known, Known?, Raises, connect-Raises}
use openevent_modules_model.Provider.Reportable.{
  is_reportable, Reportable, IsExchange, call_events-Reportable,
}

-- A task can report this exception.
abbrev pub KnownError : TaskError → Type 0
KnownError (raised r) = Known r
KnownError _ = Unit

abbrev KnownError? : Option TaskError → Type 0
KnownError? none = Unit
KnownError? (some x) = KnownError x

-- A publication that returns a positive seq, as `_publish` does, or raises such an exception.
abbrev pub IsEmit : Outcome TaskError ℕ → Type 0
IsEmit (ok seq) = 0 < seq
IsEmit (err x) = KnownError x

abbrev Positive? : Option ℕ → Type 0
Positive? none = Unit
Positive? (some n) = 0 < n

abbrev AreWellFormed : List (ℕ × Payload) → Type 0
AreWellFormed = All (λ x. IsWellFormed x.1)

abbrev IsReported : Loop → Type 0
IsReported l = AreWellFormed l.published × KnownError? l.failure

headers_or_none-IsHeaderList :
    (hs : Items) → all_headers hs ≡ true → IsHeaderList (headers_or_none hs)
headers_or_none-IsHeaderList nil h = tt
headers_or_none-IsHeaderList (cons v hs) h = all_headers-AreHeaders (cons v hs) h

connect-IsExchange :
    (m : Outcome Raised (Unit {0})) (exchange : Outcome Raised Response)
    → Raises m
    → IsExchange exchange
    → IsExchange (m >> exchange)
connect-IsExchange (ok _) exchange known h = h
connect-IsExchange (err r) exchange known h = known

module _ (r : RequestState) (emit : ℕ → Outcome TaskError ℕ)
    (valid : stream_id_matches r.stream_id ≡ true) (positive : 0 < r.request_seq)
    (emits : (i : ℕ) → IsEmit (emit i)) where
  abbrev IsOutput : Option Payload → Type 0
  IsOutput none = Unit
  IsOutput (some p) = IsWellFormed p

  output_event-IsOutput :
      (w : Option ℕ) (e : ProviderEvent)
      → Positive? w
      → is_reportable e ≡ true
      → (k : ProviderKind) → e.kind ≡ k
      → IsOutput (output_event r w k e)
  unfolding output_event allowed_status known_end_status
  output_event-IsOutput w e at good headers k =
      (valid, positive, ground (arith, good), headers_or_none-IsHeaderList _ (ground (arith, good)))
  output_event-IsOutput w e at good result k =
      (valid, positive, ground (arith, good), headers_or_none-IsHeaderList _ (ground (arith, good)))
  output_event-IsOutput none e at good append k = tt
  output_event-IsOutput (some n) e at good append k = (valid, positive, at)
  output_event-IsOutput w e at good completed k =
      (valid, positive, refl, refl, ground (arith, good))
  output_event-IsOutput w e at good failed k =
      (valid, positive, refl, ground (arith, good, k), ground (arith, good))
  output_event-IsOutput w e at good unknown k = tt

  emitted-IsReported :
      (p : Option Payload) (o : Outcome TaskError ℕ) (i : ℕ) (again : ℕ → Loop)
      → IsOutput p
      → IsEmit o
      → ((seq : ℕ) → 0 < seq → IsReported (again seq))
      → IsReported (emitted p o i again)
  unfolding emitted
  emitted-IsReported none o i again h g rest = (tt, tt)
  emitted-IsReported (some p) (err x) i again h g rest = (tt, g)
  emitted-IsReported (some p) (ok seq) i again h g rest =
      let (all, known) = rest seq g in ((h, all), known)

  task_loop-IsReported :
      (i : ℕ) (w : Option ℕ) (es : List ProviderEvent) (last : Option Raised)
      → Positive? w
      → Reportable (es, last)
      → IsReported (task_loop r emit i w es last)
  unfolding task_loop
  task_loop-IsReported i w [] none at h = (tt, tt)
  task_loop-IsReported i w [] (some x) at (all, known) = (tt, known)
  task_loop-IsReported i w (e ∷ es) last at ((good, all), known) =
      emitted-IsReported (output_event r w e.kind e) (emit i) i _
        (output_event-IsOutput w e at good e.kind refl) (emits i)
        (λ seq h. task_loop-IsReported (suc i) (some seq) es last h (all, known))

  abbrev KnownCode : Option ℕ → Type 0
  KnownCode none = Unit
  KnownCode (some code) = elem code interrupted_codes ≡ true

  failure_code-KnownCode : (x : TaskError) → KnownError x → KnownCode (failure_code x)
  unfolding failure_code
  failure_code-KnownCode (raised (provider_error code)) h = h
  failure_code-KnownCode (raised cancelled) h = tt
  failure_code-KnownCode (raised incomplete_read) h = refl
  failure_code-KnownCode (raised http_exception) h = refl
  failure_code-KnownCode (raised os_error) h = refl
  failure_code-KnownCode (raised other) h = refl
  failure_code-KnownCode stopped h = tt
  failure_code-KnownCode publish_failed h = tt
  failure_code-KnownCode fatal h = refl

  handled_code-AreWellFormed :
      (c : Option ℕ) (o : Outcome TaskError ℕ) → KnownCode c → AreWellFormed (handled_code r c o)
  handled_code-AreWellFormed none o h = tt
  handled_code-AreWellFormed (some code) (err x) h = tt
  handled_code-AreWellFormed (some code) (ok seq) h =
      (error_event-IsWellFormed r code false false valid positive h, tt)

  handled-AreWellFormed :
      (i : ℕ) (x : Option TaskError) → KnownError? x → AreWellFormed (handled r emit i x)
  unfolding handled
  handled-AreWellFormed i none h = tt
  handled-AreWellFormed i (some x) h =
      handled_code-AreWellFormed (failure_code x) (emit i) (failure_code-KnownCode x h)

  task_published-AreWellFormed :
      (y : Yielded) → Reportable y → AreWellFormed (task_published r emit y)
  unfolding task_published
  task_published-AreWellFormed (es, last) h =
      let l = task_loop r emit 0 none es last in
      let (all, known) = task_loop-IsReported 0 none es last tt h in
      All-append (λ x. IsWellFormed x.1) l.published (handled r emit l.attempts l.failure) all
        (handled-AreWellFormed l.attempts l.failure known)

  -- A task that publishes by an `_emit` with `IsEmit`, on the events of a provider call.
  pub provider_task-AreWellFormed :
      (decode : List ℕ → Option Text) (loads : Text → Option Value) (lower : String → String)
      (limit : ℕ) (check : ℕ → Option Raised) (last_check : Option Raised)
      (addresses : Option (List Attempt)) (tls : Option Handshake)
      (exchange : Outcome Raised Response)
      → Lowers lower
      → ((n : ℕ) → Known? (check n))
      → Known? last_check
      → IsExchange exchange
      → let o = opened check addresses tls exchange in
        All
          (λ x. IsWellFormed x.1)
          (task_published r emit (provider_events decode loads lower limit last_check o r))
  provider_task-AreWellFormed decode loads lower limit check last_check addresses tls exchange
        lowers checks last h =
      let shape =
        connect-IsExchange (connect check addresses tls) exchange
          (connect-Raises check checks addresses tls) h in
      task_published-AreWellFormed _ (
        call_events-Reportable decode loads lower limit r.path lowers r.streaming last_check
          (opened check addresses tls exchange) last (unfold opened in shape))
