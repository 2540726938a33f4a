-- ===== src/Config/Mapping.antt =====
-- `_mapping` of config.py, the YAML loader's constructor of a mapping. The loader's construction of
-- one node is a parameter. A value that is no text, number, sequence or mapping is an `object`; no
-- other object equals it here (`_fields` and `_string` refuse such a key in every mapping).
use openevent_modules_model.Base.{
  ℕ, ◌*◌, ◌^◌, ◌==◌, suc, Bool, true, false, not, ◌&&◌, ◌||◌, Option, none, some, List, [], ◌∷◌,
  str_eq, ℤ, pos, negsuc, ok, require, ◌>>=◌, ◌>>◌,
}
use openevent_modules_model.Models.Value.{
  Value, Fields, finite, inf, null, bool, int, float, str, list, dict, done, field,
}
use openevent_modules_model.Config.Checks.{Checked, unhashable_key, duplicate_key}

-- A number as a sign and a fraction, for the comparison of keys of different types.
record Number : Type 0 where
  negative : Bool
  top : ℕ
  bottom : ℕ

abbrev scaled : ℤ → ℕ → ℕ → Number
scaled (pos n) up down = record { negative = false; top = n * up; bottom = down }
scaled (negsuc n) up down = record { negative = true; top = suc n * up; bottom = down }

abbrev number : Value → Option Number
number (bool true) = some (scaled (pos 1) 1 1)
number (bool false) = some (scaled (pos 0) 1 1)
number (int n) = some (scaled n 1 1)
number (float (finite m (pos e))) = some (scaled m (2 ^ e) 1)
number (float (finite m (negsuc e))) = some (scaled m 1 (2 ^ suc e))
number _ = none

abbrev same_bool : Bool → Bool → Bool
same_bool true b = b
same_bool false b = not b

abbrev same_number : Option Number → Option Number → Bool
same_number (some x) (some y) =
    same_bool x.negative y.negative && (x.top * y.bottom == y.top * x.bottom)
same_number _ _ = false

-- `key == other` for hashable keys
unfoldable pub same_key : Value → Value → Bool
same_key (str a) (str b) = str_eq a b
same_key null null = true
same_key (float (inf a)) (float (inf b)) = same_bool a b
same_key a b = same_number (number a) (number b)

abbrev pub hashable : Value → Bool
hashable (list _) = false
hashable (dict _) = false
hashable _ = true

-- `key in result`
unfoldable pub has_key : Value → Fields → Bool
has_key k done = false
has_key k (field j v fs) = same_key k j || has_key k fs

-- `result[key] = value` for a new key
abbrev pub add_last : Value → Value → Fields → Fields
add_last k v done = field k v done
add_last k v (field j w fs) = field j w (add_last k v fs)

-- The loop over the nodes of a mapping.
unfoldable pub mapping {ℓ} :
    {Node : Type ℓ} → (Node → Checked Value) → List (Node × Node) → Fields → Checked Fields
mapping construct [] result = ok result
mapping construct ((key_node, value_node) ∷ nodes) result = do
  key ← construct key_node
  require (hashable key) unhashable_key
  require (not (has_key key result)) duplicate_key
  value ← construct value_node
  mapping construct nodes (add_last key value result)
