-- ===== src/Models/Value.antt =====
-- The Python values that models.py validates. `type(x) is T` is the match on the constructor
-- (a `bool` is no `int` here). Values are trees: a value that contains itself is not modelled.
use openevent_modules_model.Base.{
  ℕ, ltb, String, Bool, true, false, ◌&&◌, Option, none, some, ℤ, pos, str_eq, if◌then◌else◌,
}

-- A float: `finite m e` is m * 2^e.
pub data Float : Type 0 where
  finite : ℤ → ℤ → Float
  inf : Bool → Float
  nan : Float

mutual
  pub data Value : Type 0 where
    null : Value
    bool : Bool → Value
    int : ℤ → Value
    float : Float → Value
    str : String → Value
    list : Items → Value
    dict : Fields → Value
    object : Value

  pub data Items : Type 0 where
    nil : Items
    cons : Value → Items → Items

  -- The members of a dict, a key and a value each.
  pub data Fields : Type 0 where
    done : Fields
    field : Value → Value → Fields → Fields

-- `math.isfinite`
abbrev pub isfinite : Float → Bool
isfinite (finite _ _) = true
isfinite _ = false

abbrev pub is_str : Value → Bool
is_str (str _) = true
is_str _ = false

unfoldable mutual
  pub valid_json : Value → Bool
  valid_json null = true
  valid_json (bool _) = true
  valid_json (int _) = true
  valid_json (float f) = isfinite f
  valid_json (str _) = true
  valid_json (list xs) = valid_items xs
  valid_json (dict fs) = valid_fields fs
  valid_json object = false

  pub valid_items : Items → Bool
  valid_items nil = true
  valid_items (cons x xs) = valid_json x && valid_items xs

  pub valid_fields : Fields → Bool
  valid_fields done = true
  valid_fields (field k v fs) = is_str k && valid_json v && valid_fields fs

-- `positive_int(value)`
abbrev pub positive_int : Value → Bool
positive_int (int (pos n)) = ltb 0 n
positive_int _ = false

-- `type(value) is int and value >= 0`
abbrev pub is_natural : Value → Bool
is_natural (int (pos n)) = true
is_natural _ = false

abbrev pub is_key : String → Value → Bool
is_key k (str j) = str_eq j k
is_key k _ = false

-- `data.get(k)`; `none` for a missing key
unfoldable pub get_field : String → Fields → Option Value
get_field k done = none
get_field k (field j v fs) = if is_key k j then some v else get_field k fs

-- A value that was found to be a text, or a natural number.
abbrev pub text_of : Option Value → String
text_of (some (str s)) = s
text_of _ = ""

abbrev pub natural_of : Option Value → ℕ
natural_of (some (int (pos n))) = n
natural_of _ = 0

abbrev pub seq_of : Option Value → Option ℕ
seq_of (some (int (pos n))) = some n
seq_of _ = none

-- `data[k] == s` for a text `s`
abbrev pub is_text : String → Option Value → Bool
is_text s (some (str t)) = str_eq t s
is_text s _ = false
