-- ===== src/Provider/Codes.antt =====
-- The exceptions and the events of a provider call are ones that the protocol can report.
use openevent_modules_model.Base.{
  ℕ, suc, ◌≡◌, refl, Bool, true, false, Option, none, some, List, [], ◌∷◌, Outcome, ok, err, ◌>>=◌,
}
use openevent_modules_model.Models.Validate.{elem, interrupted_codes}
use openevent_modules_model.Provider.Events.{Raised, provider_error}
use openevent_modules_model.Provider.Connect.{
  passes, Attempt, Handshake, wrap_raises, wraps, install_result, socket_result, tried, shaken,
  resolved, secured, try_addresses, handshake, connect,
}

-- A code that an interrupted end may carry.
abbrev pub Known : Raised → Type 0
Known (provider_error code) = elem code interrupted_codes ≡ true
Known _ = Unit

abbrev pub Known? : Option Raised → Type 0
Known? none = Unit
Known? (some r) = Known r

abbrev pub Raises {ℓ} : {A : Type ℓ} → Outcome Raised A → Type 0
Raises (ok a) = Unit
Raises (err r) = Known r

>>=-Raises {ℓ κ} :
    {A : Type ℓ} {B : Type κ} (m : Outcome Raised A) (f : A → Outcome Raised B)
    → Raises m
    → ((a : A) → Raises (f a))
    → Raises (m >>= f)
>>=-Raises (ok a) f h rest = rest a
>>=-Raises (err r) f h rest = h

passes-Raises : (o : Option Raised) → Known? o → Raises (passes o)
passes-Raises none h = tt
passes-Raises (some r) h = h

install_result-Raises : (b : Bool) → Raises (install_result b)
install_result-Raises true = tt
install_result-Raises false = tt

socket_result-Raises : (b : Bool) → Raises (socket_result b)
socket_result-Raises true = tt
socket_result-Raises false = tt

tried-Raises : (b : Bool) (n : ℕ) (rest : Outcome Raised ℕ) → Raises rest → Raises (tried b n rest)
tried-Raises true n rest h = tt
tried-Raises false n rest h = h

shaken-Raises : (b : Bool) → Raises (shaken b)
shaken-Raises true = refl
shaken-Raises false = tt

resolved-Raises : (o : Option (List Attempt)) → Raises (resolved o)
resolved-Raises none = refl
resolved-Raises (some attempts) = tt

module _ (check : ℕ → Option Raised) (checks : (n : ℕ) → Known? (check n)) where
  try_addresses-Raises : (n : ℕ) (attempts : List Attempt) → Raises (try_addresses check n attempts)
  unfolding try_addresses
  try_addresses-Raises n [] = refl
  try_addresses-Raises n (a ∷ attempts) = >>=-Raises _ _ (socket_result-Raises a.no_socket) λ _.
      >>=-Raises _ _ (install_result-Raises a.install_refused) λ _.
        >>=-Raises _ _ (passes-Raises (check n) (checks n)) λ _.
          >>=-Raises _ _ (passes-Raises (check (suc n)) (checks (suc n))) λ _.
            tried-Raises a.connects (suc (suc n)) _ (try_addresses-Raises (suc (suc n)) attempts)

  handshake-Raises : (n : ℕ) (h : Handshake) → Raises (handshake check n h)
  unfolding handshake
  handshake-Raises n wrap_raises =
      >>=-Raises _ _ (passes-Raises (check n) (checks n)) λ _. shaken-Raises true
  handshake-Raises n (wraps refused raises) = >>=-Raises _ _ (install_result-Raises refused) λ _.
      >>=-Raises _ _ (passes-Raises (check n) (checks n)) λ _.
        >>=-Raises _ _ (passes-Raises (check (suc n)) (checks (suc n))) λ _. shaken-Raises raises

  secured-Raises : (n : ℕ) (tls : Option Handshake) → Raises (secured check n tls)
  secured-Raises n none = tt
  secured-Raises n (some h) = handshake-Raises n h

  pub connect-Raises :
      (addresses : Option (List Attempt)) (tls : Option Handshake)
      → Raises (connect check addresses tls)
  unfolding connect
  connect-Raises addresses tls = >>=-Raises _ _ (passes-Raises (check 0) (checks 0)) λ _.
      >>=-Raises _ _ (passes-Raises (check 1) (checks 1)) λ _.
        >>=-Raises _ _ (resolved-Raises addresses)
          λ attempts. >>=-Raises _ _ (try_addresses-Raises 2 attempts) λ n. secured-Raises n tls
