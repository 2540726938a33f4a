-- ===== src/Config/Checks.antt =====
-- The checks of config.py on one value: `_fields`, `_integer` and `_string`. The texts of a
-- `ConfigurationError` are left out, its reason is kept.
use openevent_modules_model.Base.{
  ℕ, ltb, leb, ◌==◌, String, Bool, true, false, not, ◌&&◌, ◌||◌, List, [], ◌∷◌, any, str_eq,
  if◌then◌else◌, pos, Outcome, ok, err,
}
use openevent_modules_model.Models.Value.{Value, Fields, int, str, dict}
use openevent_modules_model.Models.Validate.{codes, no_unknown, no_missing}

-- Which check raised the `ConfigurationError`.
pub data Reason : Type 0 where
  unhashable_key duplicate_key not_a_mapping wrong_fields bad_integer bad_string unclean_string :
      Reason
  bad_protocol bad_channels duplicate_channels bad_providers bad_type bad_base_url : Reason
  unknown_default : Reason

abbrev pub Checked {ℓ} : Type ℓ → Type ℓ
Checked A = Outcome Reason A

-- `_fields`
unfoldable pub fields : Value → (allowed required : List String) → Checked Fields
fields (dict fs) allowed required =
    if no_unknown allowed fs && no_missing required fs then ok fs else err wrong_fields
fields _ allowed required = err not_a_mapping

-- `_integer`
unfoldable pub integer : ℕ → Value → Checked ℕ
integer minimum (int (pos n)) = if leb minimum n then ok n else err bad_integer
integer minimum _ = err bad_integer

-- The characters that `str.strip` removes.
abbrev spaces : List ℕ
spaces = 32 ∷ 133 ∷ 160 ∷ 5760 ∷ 8232 ∷ 8233 ∷ 8239 ∷ 8287 ∷ 12288 ∷ []

unfoldable pub is_space : ℕ → Bool
is_space c =
    (leb 9 c && leb c 13)
    || (leb 28 c && leb c 31)
    || (leb 8192 c && leb c 8202)
    || any (λ s. c == s) spaces

-- `unicodedata.category(c) == "Cc"`
unfoldable pub is_control : ℕ → Bool
is_control c = ltb c 32 || (leb 127 c && leb c 159)

abbrev pub lstrip : List ℕ → List ℕ
lstrip [] = []
lstrip (c ∷ cs) = let rest = lstrip cs in if is_space c then rest else c ∷ cs

-- The text up to its last character that is no space.
abbrev pub rstrip : List ℕ → List ℕ
rstrip [] = []
rstrip (c ∷ cs) = kept c (rstrip cs)
  where
    kept : ℕ → List ℕ → List ℕ
    kept c [] = if is_space c then [] else c ∷ []
    kept c (d ∷ ds) = c ∷ d ∷ ds

unfoldable pub strip : List ℕ → List ℕ
strip cs = rstrip (lstrip cs)

abbrev pub same_codes : List ℕ → List ℕ → Bool
same_codes [] [] = true
same_codes (c ∷ cs) (d ∷ ds) = (c == d) && same_codes cs ds
same_codes _ _ = false

-- No surrounding whitespace and no control characters.
unfoldable pub is_clean : List ℕ → Bool
is_clean cs = same_codes cs (strip cs) && not (any is_control cs)

-- `_string`
unfoldable pub string : (clean : Bool) → Value → Checked String
string clean (str s) =
    if str_eq s ""
    then err bad_string
    else if clean && not (is_clean (codes s))
    then err unclean_string
    else ok s
string clean _ = err bad_string
