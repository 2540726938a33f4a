-- ===== src/Base/Errors.antt =====
-- What a call ends in: a value, or the exception that it raises.
use mathlib.Core.Path.{◌≡◌, refl}
use mathlib.Core.Bool.{Bool, true, false}

pub data Outcome {ℓ κ} (E : Type ℓ) (A : Type κ) : Type (ℓ ⊔ κ) where
  ok : A → Outcome E A
  err : E → Outcome E A

infixl 5 ◌>>=◌ ◌>>◌
abbrev pub ◌>>=◌ {ℓ κ λ₁} :
    {E : Type ℓ} {A : Type κ} {B : Type λ₁} → Outcome E A → (A → Outcome E B) → Outcome E B
ok a >>= f = f a
err e >>= f = err e

abbrev pub ◌>>◌ {ℓ κ} : {E : Type ℓ} {B : Type κ} → Outcome E (Unit {0}) → Outcome E B → Outcome E B
m >> k = m >>= λ _. k

-- `if not test: raise e`
abbrev pub require {ℓ} : {E : Type ℓ} → Bool → E → Outcome E (Unit {0})
require true e = ok tt
require false e = err e

abbrev pub map_err {ℓ κ λ₁} :
    {E : Type ℓ} {F : Type κ} {A : Type λ₁} → (E → F) → Outcome E A → Outcome F A
map_err f (ok a) = ok a
map_err f (err e) = err (f e)

-- Past a check that did not raise, its test holds.
pub require-ok {ℓ κ} :
    {E : Type ℓ} {A : Type κ} (b : Bool) (e : E) (k : Outcome E A) {a : A}
    → (require b e >> k) ≡ ok a
    → (b ≡ true) × (k ≡ ok a)
require-ok true e k h = (refl, h)
require-ok false e k h = cc

-- Inversion of a call that returned.
pub >>=-ok {ℓ κ λ₁} :
    {E : Type ℓ} {A : Type κ} {B : Type λ₁} (m : Outcome E A) (f : A → Outcome E B) {b : B}
    → (m >>= f) ≡ ok b
    → (a : A) × (m ≡ ok a) × (f a ≡ ok b)
>>=-ok (ok a) f h = (a, refl, h)
>>=-ok (err e) f h = cc

pub ok-injective {ℓ κ} :
    {E : Type ℓ} {A : Type κ} {a b : A} → ◌≡◌ {A = Outcome E A} (ok a) (ok b) → a ≡ b
ok-injective h = cc

-- What holds of the value, if the call returns one.
abbrev pub Returns {ℓ κ λ₁} : {E : Type ℓ} {A : Type κ} → (A → Type λ₁) → Outcome E A → Type λ₁
Returns P (ok a) = P a
Returns P (err e) = Unit

pub >>=-Returns {ℓ κ λ₁ μ ν} :
    {E : Type ℓ} {A : Type κ} {B : Type λ₁} (P : A → Type μ) (Q : B → Type ν) (m : Outcome E A)
    (f : A → Outcome E B)
    → Returns P m
    → ((a : A) → P a → Returns Q (f a))
    → Returns Q (m >>= f)
>>=-Returns P Q (ok a) f h rest = rest a h
>>=-Returns P Q (err e) f h rest = tt

pub require-Returns {ℓ κ λ₁} :
    {E : Type ℓ} {A : Type κ} (Q : A → Type λ₁) (b : Bool) (e : E) (k : Outcome E A)
    → (b ≡ true → Returns Q k)
    → Returns Q (require b e >> k)
require-Returns Q true e k rest = rest refl
require-Returns Q false e k rest = tt

-- A call of which nothing is known, and what the rest of it makes hold.
pub after {ℓ κ λ₁ μ} :
    {E : Type ℓ} {A : Type κ} {B : Type λ₁} (Q : B → Type μ) (m : Outcome E A) (f : A → Outcome E B)
    → ((a : A) → Returns Q (f a))
    → Returns Q (m >>= f)
after Q (ok a) f rest = rest a
after Q (err e) f rest = tt

pub Returns-ok {ℓ κ λ₁} :
    {E : Type ℓ} {A : Type κ} (P : A → Type λ₁) (m : Outcome E A) {a : A}
    → Returns P m
    → m ≡ ok a
    → P a
Returns-ok P m h e = rw e at h

-- Two continuations that agree on what the call may return.
pub >>=-cong {ℓ κ λ₁ μ} :
    {E : Type ℓ} {A : Type κ} {B : Type λ₁} (P : A → Type μ) (m : Outcome E A)
    (f g : A → Outcome E B)
    → Returns P m
    → ((a : A) → P a → f a ≡ g a)
    → (m >>= f) ≡ (m >>= g)
>>=-cong P (ok a) f g h same = same a h
>>=-cong P (err e) f g h same = refl

pub >>=-assoc {ℓ κ λ₁ μ} :
    {E : Type ℓ} {A : Type κ} {B : Type λ₁} {C : Type μ} (m : Outcome E A) (f : A → Outcome E B)
    (g : B → Outcome E C)
    → ((m >>= f) >>= g) ≡ (m >>= λ a. f a >>= g)
>>=-assoc (ok a) f g = refl
>>=-assoc (err e) f g = refl

pub >>=-ext {ℓ κ λ₁} :
    {E : Type ℓ} {A : Type κ} {B : Type λ₁} (m : Outcome E A) (f g : A → Outcome E B)
    → ((a : A) → f a ≡ g a)
    → (m >>= f) ≡ (m >>= g)
>>=-ext (ok a) f g same = same a
>>=-ext (err e) f g same = refl
