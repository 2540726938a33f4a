-- ===== src/Provider/Connect.antt =====
-- `ProviderCall._connect`: the resolution of the host, the loop over its addresses and the TLS
-- handshake, with the exceptions of each. `check` is what `_check` raises at its n-th call, which is a
-- cancellation or the deadline. The encoding of the host name is left out.
use openevent_modules_model.Base.{
  ℕ, suc, Bool, true, false, Option, none, some, List, [], ◌∷◌, Outcome, ok, err, ◌>>=◌, ◌>>◌,
}
use openevent_modules_model.Provider.Events.{Raised, provider_error, cancelled, os_error}

-- `_check` and `_install`, which raise or return.
abbrev pub passes : Option Raised → Outcome Raised (Unit {0})
passes none = ok tt
passes (some r) = err r

-- What happens with one address: whether `socket.socket` raises an `OSError`, which leaves the loop;
-- whether `_install` finds the call cancelled; and whether `connect` returns or raises an `OSError`.
pub record Attempt : Type 0 where
  pub no_socket : Bool
  pub install_refused : Bool
  pub connects : Bool

-- The TLS handshake: `wrap_socket` raises an `SSLError`, `OSError` or `ValueError`, or the wrapped
-- socket is installed, or refused, and the handshake itself raises or not.
pub data Handshake : Type 0 where
  wrap_raises : Handshake
  wraps : (install_refused raises : Bool) → Handshake

abbrev pub install_result : Bool → Outcome Raised (Unit {0})
install_result true = err cancelled
install_result false = ok tt

abbrev pub socket_result : Bool → Outcome Raised (Unit {0})
socket_result true = err os_error
socket_result false = ok tt

-- An address that connects ends the loop; the result is the number of the next check.
abbrev pub tried : Bool → ℕ → Outcome Raised ℕ → Outcome Raised ℕ
tried true n rest = ok n
tried false n rest = rest

-- The loop over the addresses from check `n` on.
unfoldable pub try_addresses : (ℕ → Option Raised) → ℕ → List Attempt → Outcome Raised ℕ
try_addresses check n [] = err (provider_error 60003)
try_addresses check n (a ∷ attempts) =
    let rest = try_addresses check (suc (suc n)) attempts in
    do
      socket_result a.no_socket
      install_result a.install_refused
      passes (check n)
      passes (check (suc n))
      tried a.connects (suc (suc n)) rest

-- An exception of the handshake, behind a check.
abbrev pub shaken : Bool → Outcome Raised (Unit {0})
shaken true = err (provider_error 60002)
shaken false = ok tt

unfoldable pub handshake : (ℕ → Option Raised) → ℕ → Handshake → Outcome Raised (Unit {0})
handshake check n wrap_raises = do passes (check n); shaken true
handshake check n (wraps install_refused raises) = do
  install_result install_refused
  passes (check n)
  passes (check (suc n))
  shaken raises

abbrev pub secured : (ℕ → Option Raised) → ℕ → Option Handshake → Outcome Raised (Unit {0})
secured check n none = ok tt
secured check n (some h) = handshake check n h

-- The addresses that `getaddrinfo` returns, `none` where it raises.
abbrev pub resolved : Option (List Attempt) → Outcome Raised (List Attempt)
resolved none = err (provider_error 60001)
resolved (some attempts) = ok attempts

-- `_connect`; the handshake is `none` without https.
unfoldable pub connect :
    (ℕ → Option Raised) → Option (List Attempt) → Option Handshake → Outcome Raised (Unit {0})
connect check addresses tls = do
  passes (check 0)
  passes (check 1)
  attempts ← resolved addresses
  n ← try_addresses check 2 attempts
  secured check n tls

-- The connection, and then the exchange of the request for the response headers.
unfoldable pub opened {ℓ} :
    {A : Type ℓ}
    → (ℕ → Option Raised)
    → Option (List Attempt)
    → Option Handshake
    → Outcome Raised A
    → Outcome Raised A
opened check addresses tls exchange = do connect check addresses tls; exchange
