-- ===== src/Worker/Recover.antt =====
-- The scan of the history in `recover` of the worker.
use openevent_modules_model.Base.{
  ℕ, zero, suc, ltb, leb, ◌==◌, true, ◌||◌, Option, List, [], ◌∷◌, Outcome, ok, err, if◌then◌else◌,
}
use openevent_modules_model.Models.Value.{Value}
use openevent_modules_model.Models.Validate.{PayloadError}
use openevent_modules_model.Models.Payload.{Bytes, RawMessage, ParsedMessage, parse_message}
use openevent_modules_model.Rpc.Status.{Exception}
use openevent_modules_model.Worker.State.{Settings, Worker}
use openevent_modules_model.Worker.Accept.{ProtocolError, Accepted, accept}

-- What `recover` raises.
pub data RecoverError : Type 0 where
  rpc_failed : Exception → RecoverError
  not_advanced unordered out_of_fuel : RecoverError
  invalid_payload : PayloadError → RecoverError
  protocol_failed : ProtocolError → RecoverError

-- A reply of the Fetch RPC.
pub record Page : Type 0 where
  pub next_seq : ℕ
  pub messages : List RawMessage

abbrev pub accepted_worker : Accepted → Outcome RecoverError Worker
accepted_worker (err e) = err (protocol_failed e)
accepted_worker (ok (w, abort)) = ok w

abbrev pub accept_replayed :
    Settings → Outcome PayloadError ParsedMessage → Worker → Outcome RecoverError Worker
accept_replayed config (err e) w = err (invalid_payload e)
accept_replayed config (ok m) w = accepted_worker (accept config true 0 m w)

-- One message of the history: a system message is passed over.
unfoldable pub replay :
    Settings → (Bytes → Option Value) → RawMessage → Worker → Outcome RecoverError Worker
replay config loads m w =
    if m.principal == 0 then ok w else accept_replayed config (parse_message loads m) w

-- What follows an Outcome of the scan.
abbrev pub then_scan {ℓ κ} :
    {A : Type ℓ} {B : Type κ}
    → Outcome RecoverError A
    → (A → Outcome RecoverError B)
    → Outcome RecoverError B
then_scan (err e) k = err e
then_scan (ok a) k = k a

module _ (config : Settings) (loads : Bytes → Option Value) (target : ℕ) where
  -- The loop over a page: the new `previous`, and the worker.
  unfoldable pub scan_page : ℕ → ℕ → List RawMessage → Worker → Outcome RecoverError (ℕ × Worker)
  scan_page cursor previous [] w = ok (previous, w)
  scan_page cursor previous (m ∷ ms) w =
      if ltb target m.seq
      then ok (previous, w)
      else if ltb m.seq cursor || leb m.seq previous
      then err unordered
      else then_scan (replay config loads m w) (λ w'. scan_page cursor m.seq ms w')

  module _ (fetch : ℕ → Outcome Exception Page) where
    abbrev pub scan_reply :
        ℕ
        → ℕ
        → Outcome Exception Page
        → Worker
        → (ℕ → ℕ → Worker → Outcome RecoverError Worker)
        → Outcome RecoverError Worker
    scan_reply cursor previous (err e) w again = err (rpc_failed e)
    scan_reply cursor previous (ok page) w again =
        if leb page.next_seq cursor
        then err not_advanced
        else then_scan (scan_page cursor previous page.messages w)
            (λ r. again page.next_seq r.0 r.1)

    -- The loop over the pages, on fuel.
    unfoldable pub scan : ℕ → ℕ → ℕ → Worker → Outcome RecoverError Worker
    scan zero cursor previous w = if leb cursor target then err out_of_fuel else ok w
    scan (suc n) cursor previous w =
        if leb cursor target
        then scan_reply cursor previous (fetch cursor) w (λ c p v. scan n c p v)
        else ok w

    -- The whole scan: each page advances the cursor, so `target` pages are enough.
    unfoldable pub scan_history : Worker → Outcome RecoverError Worker
    scan_history w = scan target 1 0 w
