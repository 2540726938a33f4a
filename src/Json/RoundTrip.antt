-- ===== src/Json/RoundTrip.antt =====
-- `_parse_int` reads back what `_integer_text` wrote.
use Prim.Native.Nat.{◌*◌, ◌/◌, ◌%◌, ◌^◌}
use native.Mathlib.Nat.{div-add-mod, mod-lt, one-le-pow, pow-suc}
use openevent_modules_model.Base.{
  ℕ, zero, suc, ◌+◌, ◌-◌, ◌≤◌, ◌<◌, ltb, ◌==◌, ◌≡◌, refl, sym, ap, subst, ◌∙◌, List, [], ◌∷◌, ◌++◌,
  length, length-append, ℤ, pos, negsuc, arith, Bool-cases, inl, inr, if-both,
}
use openevent_modules_model.Json.Digits.{
  int_from, str_nat, int_from-append, int_from-pow, int_from-str_nat, length-str_nat,
}
use openevent_modules_model.Json.Integer.{
  zeros, take, drop, magnitude, is_negative, signed, zfill, groups, join, join_groups, digits_text,
  integer_text, parse_groups, parse_digits, parse_int,
}

take-drop : (n : ℕ) (ds : List ℕ) → take n ds ++ drop n ds ≡ ds
take-drop zero ds = refl
take-drop (suc n) [] = refl
take-drop (suc n) (d ∷ ds) = ap (λ es. d ∷ es) (take-drop n ds)

drop-length : (n : ℕ) (ds : List ℕ) → length (drop n ds) ≤ length ds
drop-length zero ds = omega arith
drop-length (suc n) [] = omega arith
drop-length (suc n) (d ∷ ds) = omega (arith, drop-length n ds)

int_from-zeros : (n : ℕ) (ds : List ℕ) → int_from 0 (zeros n ++ ds) ≡ int_from 0 ds
unfolding int_from
int_from-zeros zero ds = refl
int_from-zeros (suc n) ds = int_from-zeros n ds

length-zeros : (n : ℕ) → length (zeros n) ≡ n
length-zeros zero = refl
length-zeros (suc n) = ap suc (length-zeros n)

-- The groups are read as the whole text is.
parse_groups-int_from :
    (w k value : ℕ) (ds : List ℕ)
    → length ds ≤ k
    → parse_groups (suc w) k value ds ≡ int_from value ds
unfolding parse_groups int_from
parse_groups-int_from w zero value [] le = refl
parse_groups-int_from w zero value (d ∷ ds) le = absurd (omega arith)
parse_groups-int_from w (suc k) value [] le = refl
parse_groups-int_from w (suc k) value (d ∷ ds) le =
    let group = d ∷ take w ds in
    let rest = drop w ds in
    ap (λ v. parse_groups (suc w) k v rest) (sym (int_from-pow value group))
    ∙ parse_groups-int_from w k (int_from value group) rest (omega (arith, drop-length w ds, le))
    ∙ sym (int_from-append value group rest)
    ∙ ap (λ es. int_from value (d ∷ es)) (take-drop w ds)

length-zfill : (w : ℕ) (g : List ℕ) → length g ≤ w → length (zfill w g) ≡ w
length-zfill w g le =
    omega (arith, length-append (zeros (w - length g)) g, length-zeros (w - length g))

tenth : (p q r n : ℕ) → p * 10 * q + r ≡ n → 1 ≤ p → 10 * q ≤ n
tenth zero q r n e le = absurd (omega arith)
tenth (suc p) q r n e le = omega arith

quotient-tenth : (n w : ℕ) → 10 * (n / (10 ^ suc w)) ≤ n
quotient-tenth n w =
    tenth (10 ^ w) (n / (10 ^ suc w)) (n % (10 ^ suc w)) n
      (subst (λ b. b * (n / (10 ^ suc w)) + n % (10 ^ suc w) ≡ n) (pow-suc 10 w)
        (div-add-mod n (10 ^ suc w)))
      (one-le-pow w 10 (omega arith))

-- The digits of the quotient, and those of the remainder filled with zeros, are those of the number.
groups-step :
    (w n : ℕ) (gs : List (List ℕ))
    → int_from 0 (join_groups (suc w) gs) ≡ n / (10 ^ suc w)
    → int_from 0 (join_groups (suc w) (str_nat (n % (10 ^ suc w)) ∷ gs)) ≡ n
unfolding join int_from
groups-step w n [] value =
    let r = n % (10 ^ suc w) in
    let whole = subst (λ q. 10 ^ suc w * q + r ≡ n) (sym value) (div-add-mod n (10 ^ suc w)) in
    omega (arith, int_from-str_nat r, whole)
groups-step w n (h ∷ gs) value =
    let r = n % (10 ^ suc w) in
    let q = n / (10 ^ suc w) in
    let front = join_groups (suc w) (h ∷ gs) in
    let filled = zfill (suc w) (str_nat r) in
    let digits =
      length-zfill (suc w) (str_nat r)
        (length-str_nat r (suc w) (omega arith) (mod-lt n (one-le-pow (suc w) 10 (omega arith)))) in
    int_from-append 0 front filled
    ∙ ap (λ v. int_from v filled) value
    ∙ int_from-pow q filled
    ∙ ap (λ l. q * 10 ^ l + int_from 0 filled) digits
    ∙ ap (λ v. q * 10 ^ suc w + v)
        (int_from-zeros (suc w - length (str_nat r)) (str_nat r) ∙ int_from-str_nat r)
    ∙ omega (arith, div-add-mod n (10 ^ suc w))

groups-int_from : (w k n : ℕ) → n ≤ k → int_from 0 (join_groups (suc w) (groups (suc w) k n)) ≡ n
unfolding groups int_from
groups-int_from w zero n le = omega arith
groups-int_from w (suc k) n le = elim (Bool-cases (n == 0)) [
  | inl none_left ↦ rw none_left (ground arith)
  | inr more ↦
      let some_left : 0 < n = ground arith in
      rw more (
        groups-step w n (groups (suc w) k (n / (10 ^ suc w))) (
          groups-int_from w k (n / (10 ^ suc w))
            (omega (arith, quotient-tenth n w, le, some_left))))
]

digits_text-int_from : (w limit n : ℕ) → int_from 0 (digits_text (suc w) limit n) ≡ n
unfolding digits_text
digits_text-int_from w limit n =
    if-both (λ ds. int_from 0 ds ≡ n) (ltb limit (length (str_nat n)))
      (λ _. groups-int_from w n n (omega arith)) (λ _. int_from-str_nat n)

parse_digits-int_from : (w limit : ℕ) (ds : List ℕ) → parse_digits (suc w) limit ds ≡ int_from 0 ds
unfolding parse_digits
parse_digits-int_from w limit ds =
    if-both (λ v. v ≡ int_from 0 ds) (ltb limit (length ds))
      (λ _. parse_groups-int_from w (length ds) 0 ds (omega arith)) (λ _. refl)

signed-magnitude : (z : ℤ) → signed (is_negative z) (magnitude z) ≡ z
signed-magnitude (pos n) = refl
signed-magnitude (negsuc n) = refl

-- Reading the text of an integer gives the integer back, for every positive group width and whatever the limits on
-- the number of digits are when it is written and when it is read.
pub parse_int-integer_text :
    (w limit limit' : ℕ) (z : ℤ) → parse_int (suc w) limit' (integer_text (suc w) limit z) ≡ z
unfolding parse_int integer_text
parse_int-integer_text w limit limit' z =
    ap (signed (is_negative z)) (
      parse_digits-int_from w limit' (digits_text (suc w) limit (magnitude z))
      ∙ digits_text-int_from w limit (magnitude z))
    ∙ signed-magnitude z
