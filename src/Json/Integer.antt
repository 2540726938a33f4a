-- ===== src/Json/Integer.antt =====
-- `_integer_text` and `_parse_int`. A text is its sign and its digits. `limit` is the number of digits
-- past which `str` and `int` raise ValueError; Python keeps it at 640 at least, so the groups of 500
-- digits are within. `width` is `_DIGITS`.
use Prim.Native.Nat.{◌*◌, ◌/◌, ◌%◌, ◌^◌}
use openevent_modules_model.Base.{
  ℕ, zero, suc, ◌+◌, ◌-◌, ltb, ◌==◌, Bool, true, false, List, [], ◌∷◌, ◌++◌, length, ℤ, pos, negsuc,
  if◌then◌else◌,
}
use openevent_modules_model.Json.Digits.{int_from, str_nat}

-- `_DIGITS`
abbrev pub digits_per_group : ℕ
digits_per_group = 500

pub record Text : Type 0 where
  pub negative : Bool
  pub digits : List ℕ

abbrev pub zeros : ℕ → List ℕ
zeros zero = []
zeros (suc n) = 0 ∷ zeros n

-- `text[:n]` and `text[n:]`
abbrev pub take : ℕ → List ℕ → List ℕ
take zero ds = []
take (suc n) [] = []
take (suc n) (d ∷ ds) = d ∷ take n ds

abbrev pub drop : ℕ → List ℕ → List ℕ
drop zero ds = ds
drop (suc n) [] = []
drop (suc n) (d ∷ ds) = drop n ds

abbrev pub magnitude : ℤ → ℕ
magnitude (pos n) = n
magnitude (negsuc n) = suc n

abbrev pub is_negative : ℤ → Bool
is_negative (pos n) = false
is_negative (negsuc n) = true

-- `-value if negative else value`
abbrev pub signed : Bool → ℕ → ℤ
signed false n = pos n
signed true zero = pos 0
signed true (suc n) = negsuc n

module _ (width : ℕ) where
  abbrev pub zfill : List ℕ → List ℕ
  zfill g = zeros (width - length g) ++ g

  -- The loop over the groups, the lowest one first, on fuel.
  unfoldable pub groups : ℕ → ℕ → List (List ℕ)
  groups zero n = []
  groups (suc k) n =
      let rest = groups k (n / (10 ^ width)) in
      if n == 0 then [] else str_nat (n % (10 ^ width)) ∷ rest

  -- The highest group as it is, the others filled with zeros. (`pop` finds a group, since the number
  -- is not 0.)
  unfoldable pub join : List ℕ → List (List ℕ) → List ℕ
  join g [] = g
  join g (h ∷ gs) = join h gs ++ zfill g

  abbrev pub join_groups : List (List ℕ) → List ℕ
  join_groups [] = []
  join_groups (g ∷ gs) = join g gs

  -- The digits of a natural number.
  unfoldable pub digits_text : ℕ → ℕ → List ℕ
  digits_text limit n =
      if ltb limit (length (str_nat n)) then join_groups (groups n n) else str_nat n

  unfoldable pub integer_text : ℕ → ℤ → Text
  integer_text limit z = record {
    negative = is_negative z;
    digits = digits_text limit (magnitude z);
  }

  -- The loop over the offsets, on fuel.
  unfoldable pub parse_groups : ℕ → ℕ → List ℕ → ℕ
  parse_groups zero value ds = value
  parse_groups (suc k) value [] = value
  parse_groups (suc k) value (d ∷ ds) =
      let group = take width (d ∷ ds) in
      parse_groups k (value * 10 ^ length group + int_from 0 group) (drop width (d ∷ ds))

  unfoldable pub parse_digits : ℕ → List ℕ → ℕ
  parse_digits limit ds =
      if ltb limit (length ds) then parse_groups (length ds) 0 ds else int_from 0 ds

  unfoldable pub parse_int : ℕ → Text → ℤ
  parse_int limit t = signed t.negative (parse_digits limit t.digits)
