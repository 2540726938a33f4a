-- ===== src/Worker/WellFormedTests.antt =====
-- A call whose connection succeeds at the second address and whose second publication fails.
use Prim.Native.Char.{Char, char, code}
use openevent_modules_model.Base.{
  ℕ, zero, suc, ◌≡◌, ◌-◌, ltb, leb, ◌&&◌, all, if-both, if◌then◌else◌, refl, String, true, false,
  Option, none, some, List, [], ◌∷◌, All, Outcome, ok, err, arith,
}
use openevent_modules_model.Models.Value.{Value, null, nil, cons}
use openevent_modules_model.Models.Validate.{codes, lower_ascii, stream_id_matches}
use openevent_modules_model.Models.WellFormed.{IsWellFormed}
use openevent_modules_model.Provider.Events.{Raised, provider_error, Text}
use openevent_modules_model.Provider.Call.{Response, kept_header, header_value, header_items}
use openevent_modules_model.Provider.Connect.{Attempt, opened, connect, try_addresses}
use openevent_modules_model.Provider.Headers.{Lowers}
use openevent_modules_model.Provider.Reportable.{IsExchange}
use openevent_modules_model.Models.Kind.{append}
use openevent_modules_model.Models.Payload.{Bytes}
use openevent_modules_model.Worker.Emit.{emit}
use openevent_modules_model.Worker.EmitTests.{request, emission, payload}
use openevent_modules_model.Worker.Emitted.{task_published-emit-AreWellFormed}
use openevent_modules_model.Worker.Task.{TaskError, provider_events, task_published}

abbrev decode : List ℕ → Option Text
decode bytes = some bytes

abbrev loads : Text → Option Value
loads t = some null

abbrev letter : ℕ → String → Char
letter n String.[] = char 97 tt
letter zero (String.◌∷◌ c s) = c
letter (suc n) (String.◌∷◌ c s) = letter n s

abbrev lower_char : Char → Char
lower_char c =
    if leb 65 (code c) && leb (code c) 90
    then letter (code c - 65) "abcdefghijklmnopqrstuvwxyz"
    else c

-- `str.lower` on ASCII.
abbrev lower : String → String
lower String.[] = String.[]
lower (String.◌∷◌ c s) = String.◌∷◌ (lower_char c) (lower s)

letter-lower :
    (n : ℕ) (s : String) → all lower_ascii (codes s) ≡ true → lower_ascii (code (letter n s)) ≡ true
letter-lower n String.[] h = refl
letter-lower zero (String.◌∷◌ c s) h = ground (arith, h)
letter-lower (suc n) (String.◌∷◌ c s) h = letter-lower n s (ground (arith, h))

lower_char-lower : (c : Char) → ltb (code c) 128 ≡ true → lower_ascii (code (lower_char c)) ≡ true
lower_char-lower c h =
    if-both (λ d. lower_ascii (code d) ≡ true) (leb 65 (code c) && leb (code c) 90)
      (λ capital. letter-lower (code c - 65) "abcdefghijklmnopqrstuvwxyz" refl)
      (λ other. ground (arith, h, other))

lower-Lowers : Lowers lower
lower-Lowers String.[] h = refl
lower-Lowers (String.◌∷◌ c s) h =
    let first = lower_char-lower c (ground (arith, h)) in
    ground (arith, first, lower-Lowers s (ground (arith, h)))

abbrev no_check : ℕ → Option Raised
no_check n = none

abbrev addresses : Option (List Attempt)
addresses = some (
    record { no_socket = false; install_refused = false; connects = false }
    ∷ record { no_socket = false; install_refused = false; connects = true }
    ∷ [])

abbrev exchange : Outcome Raised Response
exchange = ok (record {
  status = 200;
  header_pairs = ("X-Request-Id", "7") ∷ ("Server", "x") ∷ [];
  media_type = "application/json";
  chunks = (49 ∷ []) ∷ [];
  broken = none;
})

exchange-IsExchange : IsExchange exchange
exchange-IsExchange = record {
  status_http = refl;
  names_ascii = (refl, (refl, tt));
  broken_known = tt;
}

passed_on :
    header_items lower (("X-Request-Id", "7") ∷ ("Server", "x") ∷ [])
    ≡ cons (header_value "x-request-id" "7") nil
unfolding header_items kept_header
passed_on = refl

second_address : opened no_check addresses none exchange ≡ exchange
unfolding opened connect try_addresses
second_address = refl

no_address : opened no_check (some []) none exchange ≡ err (provider_error 60003)
unfolding opened connect try_addresses
no_address = refl

-- The last publication is too large.
abbrev payloads : ℕ → Bytes
payloads zero = payload
payloads (suc i) = 123 ∷ payload

abbrev emitted : ℕ → Outcome TaskError ℕ
emitted i = (emit 2 3 4 true emission append (payloads i)).1

stream_id-valid : stream_id_matches request.stream_id ≡ true
unfolding stream_id_matches
stream_id-valid = refl

task_published-emit-AreWellFormed_example :
    All
      (λ x. IsWellFormed x.1)
      (task_published request emitted (
        provider_events decode loads lower 100 none
          (opened no_check addresses none exchange)
          request))
task_published-emit-AreWellFormed_example =
    task_published-emit-AreWellFormed request stream_id-valid (omega arith) 2 3 4 true
      (λ i. emission) (λ i. append) payloads decode loads lower 100 no_check none addresses none
      exchange lower-Lowers (λ n. tt) tt exchange-IsExchange
