-- ===== src/Json/Digits.antt =====
-- Decimal texts as lists of digits, the first one the highest: `str` and `int` of Python on natural
-- numbers, without its limit on the number of digits.
use Prim.Native.Nat.{◌*◌, ◌/◌, ◌%◌, ◌^◌}
use native.Mathlib.Nat.{pow-suc, pow-zero, div-add-mod}
use openevent_modules_model.Base.{
  ℕ, zero, suc, ◌+◌, ◌≤◌, ◌<◌, ltb, ◌≡◌, refl, true, List, [], ◌∷◌, ◌++◌, length, length-append,
  arith, if◌then◌else◌, Bool-cases, inl, inr,
}

-- `int` of the digits, behind the number `acc`.
unfoldable pub int_from : ℕ → List ℕ → ℕ
int_from acc [] = acc
int_from acc (d ∷ ds) = int_from (acc * 10 + d) ds

-- `str`, on fuel: a number has fewer digits than it counts.
unfoldable pub str_fuel : ℕ → ℕ → List ℕ
str_fuel zero n = n ∷ []
str_fuel (suc k) n =
    let front = str_fuel k (n / 10) in if ltb n 10 then n ∷ [] else front ++ ((n % 10) ∷ [])

unfoldable pub str_nat : ℕ → List ℕ
str_nat n = str_fuel n n

pub int_from-append :
    (acc : ℕ) (xs ys : List ℕ) → int_from acc (xs ++ ys) ≡ int_from (int_from acc xs) ys
unfolding int_from
int_from-append acc [] ys = refl
int_from-append acc (x ∷ xs) ys = int_from-append (acc * 10 + x) xs ys

-- What stands before the digits counts as many tens.
pub int_from-pow : (acc : ℕ) (ds : List ℕ) → int_from acc ds ≡ acc * 10 ^ length ds + int_from 0 ds
unfolding int_from
int_from-pow acc [] = rw (pow-zero 10) (omega arith)
int_from-pow acc (d ∷ ds) =
    rw (pow-suc 10 (length ds), int_from-pow (acc * 10 + d) ds, int_from-pow (0 * 10 + d) ds)
      (omega arith)

int_from-str_fuel : (k n : ℕ) → n ≤ k → int_from 0 (str_fuel k n) ≡ n
unfolding int_from str_fuel
int_from-str_fuel zero n le = omega arith
int_from-str_fuel (suc k) n le = elim (Bool-cases (ltb n 10)) [
  | inl small ↦ rw small (omega arith)
  | inr large ↦
      let ten : 10 ≤ n = ground arith in
      rw
        (
          large,
          int_from-append 0 (str_fuel k (n / 10)) ((n % 10) ∷ []),
          int_from-str_fuel k (n / 10) (omega (arith, div-add-mod n 10)),
        )
        (omega (arith, div-add-mod n 10))
]

-- Reading back what `str` wrote.
pub int_from-str_nat : (n : ℕ) → int_from 0 (str_nat n) ≡ n
unfolding str_nat
int_from-str_nat n = int_from-str_fuel n n (omega arith)

str_fuel-length : (k n d : ℕ) → n < 10 ^ suc d → n ≤ k → length (str_fuel k n) ≤ suc d
unfolding str_fuel
str_fuel-length zero n d lt le = omega arith
str_fuel-length (suc k) n zero lt le =
    let below : 10 ^ 1 ≡ 10 = refl in
    let small : ltb n 10 ≡ true = ground (arith, below) in rw small (omega arith)
str_fuel-length (suc k) n (suc d) lt le =
    let power = pow-suc 10 (suc d) in
    elim (Bool-cases (ltb n 10)) [
      | inl small ↦ rw small (omega arith)
      | inr large ↦
          let ten : 10 ≤ n = ground arith in
          let rest =
            str_fuel-length k (n / 10) d (omega (arith, div-add-mod n 10, power))
              (omega (arith, div-add-mod n 10)) in
          rw large (omega (arith, length-append (str_fuel k (n / 10)) ((n % 10) ∷ []), rest))
    ]

-- A number below 10 ^ w has at most w digits.
pub length-str_nat : (n w : ℕ) → 0 < w → n < 10 ^ w → length (str_nat n) ≤ w
unfolding str_nat
length-str_nat n zero some_width lt = omega arith
length-str_nat n (suc d) some_width lt = str_fuel-length n n d lt (omega arith)
