-- ===== src/Json/Encode.antt =====
-- `dumps` of _json.py: the standard encoder, and the encoder behind its `ValueError`. Values are trees
-- here, so `active` never holds the value at hand.
use openevent_modules_model.Base.{
  ℕ, Bool, true, false, Option, none, some, List, [], ◌∷◌, ◌++◌, ◌+◌,
}
use openevent_modules_model.Models.Value.{
  Value, null, bool, int, float, str, list, dict, object, Items, nil, cons, Fields, done, field,
}
use openevent_modules_model.Json.Integer.{Text, integer_text}

abbrev sign : Bool → List ℕ
sign true = 45 ∷ []
sign false = []

-- The characters of an integer's text; the digits are values there.
abbrev pub chars : List ℕ → List ℕ
chars [] = []
chars (d ∷ ds) = (48 + d) ∷ chars ds

abbrev pub characters : Text → List ℕ
characters t = sign t.negative ++ chars t.digits

-- `separator.join`
unfoldable pub join : List ℕ → List (List ℕ) → List ℕ
join separator [] = []
join separator (x ∷ []) = x
join separator (x ∷ y ∷ ys) = x ++ separator ++ join separator (y ∷ ys)

abbrev pub prefixed : Option (List ℕ) → Option (List (List ℕ)) → Option (List (List ℕ))
prefixed (some x) (some xs) = some (x ∷ xs)
prefixed _ _ = none

abbrev pub member : List ℕ → Option (List ℕ) → Option (List ℕ) → Option (List ℕ)
member colon (some k) (some v) = some (k ++ colon ++ v)
member colon _ _ = none

abbrev pub enclosed : List ℕ → ℕ → ℕ → Option (List (List ℕ)) → Option (List ℕ)
enclosed comma left right none = none
enclosed comma left right (some xs) = some (left ∷ join comma xs ++ right ∷ [])

-- The standard `json.dumps` with its options is `standard`: `none` is its `ValueError`.
module _ (width limit : ℕ) (standard : Value → Option (List ℕ)) (comma colon : List ℕ) where
  unfoldable mutual
    pub encode : Value → Option (List ℕ)
    encode (int z) = some (characters (integer_text width limit z))
    encode (list xs) = enclosed comma 91 93 (encode_items xs)
    encode (dict fs) = enclosed comma 123 125 (encode_fields fs)
    encode null = standard null
    encode (bool b) = standard (bool b)
    encode (float f) = standard (float f)
    encode (str s) = standard (str s)
    encode object = standard object

    pub encode_items : Items → Option (List (List ℕ))
    encode_items nil = some []
    encode_items (cons x xs) = prefixed (encode x) (encode_items xs)

    pub encode_fields : Fields → Option (List (List ℕ))
    encode_fields done = some []
    encode_fields (field k v fs) =
        prefixed (member colon (standard k) (encode v)) (encode_fields fs)

  abbrev pub or_encode : Value → Option (List ℕ) → Option (List ℕ)
  or_encode v (some t) = some t
  or_encode v none = encode v

  unfoldable pub dumps : Value → Option (List ℕ)
  dumps v = or_encode v (standard v)
