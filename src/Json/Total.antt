-- ===== src/Json/Total.antt =====
-- `dumps` has a text for every JSON value.
use openevent_modules_model.Base.{
  ℕ, ◌≡◌, refl, String, Bool, true, Option, none, some, List, is_some, arith,
}
use openevent_modules_model.Models.Value.{
  Float, Value, null, bool, int, float, str, list, dict, object, Items, nil, cons, Fields, done,
  field, is_str, isfinite, valid_json, valid_items, valid_fields,
}
use openevent_modules_model.Json.Encode.{
  prefixed, member, enclosed, encode, encode_items, encode_fields, or_encode, dumps,
}

-- What the standard encoder does with a value that is no container and no integer.
pub record Scalars (standard : Value → Option (List ℕ)) : Type 0 where
  pub null_encoded : is_some (standard null) ≡ true
  pub bool_encoded : (b : Bool) → is_some (standard (bool b)) ≡ true
  pub float_encoded : (f : Float) → isfinite f ≡ true → is_some (standard (float f)) ≡ true
  pub str_encoded : (s : String) → is_some (standard (str s)) ≡ true

prefixed-some :
    (x : Option (List ℕ)) (xs : Option (List (List ℕ)))
    → is_some x ≡ true
    → is_some xs ≡ true
    → is_some (prefixed x xs) ≡ true
prefixed-some (some x) (some xs) h hs = refl
prefixed-some none xs h hs = absurd (ground (arith, h))
prefixed-some (some x) none h hs = absurd (ground (arith, hs))

member-some :
    (colon : List ℕ) (k v : Option (List ℕ))
    → is_some k ≡ true
    → is_some v ≡ true
    → is_some (member colon k v) ≡ true
member-some colon (some k) (some v) h hs = refl
member-some colon none v h hs = absurd (ground (arith, h))
member-some colon (some k) none h hs = absurd (ground (arith, hs))

enclosed-some :
    (comma : List ℕ) (left right : ℕ) (xs : Option (List (List ℕ)))
    → is_some xs ≡ true
    → is_some (enclosed comma left right xs) ≡ true
enclosed-some comma left right none h = h
enclosed-some comma left right (some xs) h = refl

module _ (width limit : ℕ) (standard : Value → Option (List ℕ)) (comma colon : List ℕ)
    (scalars : Scalars standard) where
  key-some : (k : Value) → is_str k ≡ true → is_some (standard k) ≡ true
  key-some (str s) h = scalars.str_encoded s
  key-some _ h = absurd (ground (arith, h))

  mutual
    unfolding encode encode_items encode_fields valid_json valid_items valid_fields

    encode-some :
        (v : Value)
        → valid_json v ≡ true
        → is_some (encode width limit standard comma colon v) ≡ true
    encode-some (int z) h = refl
    encode-some (list xs) h = enclosed-some comma 91 93 _ (items-some xs h)
    encode-some (dict fs) h = enclosed-some comma 123 125 _ (fields-some fs h)
    encode-some null h = scalars.null_encoded
    encode-some (bool b) h = scalars.bool_encoded b
    encode-some (float f) h = scalars.float_encoded f h
    encode-some (str s) h = scalars.str_encoded s
    encode-some object h = absurd (ground (arith, h))

    items-some :
        (xs : Items)
        → valid_items xs ≡ true
        → is_some (encode_items width limit standard comma colon xs) ≡ true
    items-some nil h = refl
    items-some (cons x xs) h =
        prefixed-some _ _ (encode-some x (ground (arith, h))) (items-some xs (ground (arith, h)))

    fields-some :
        (fs : Fields)
        → valid_fields fs ≡ true
        → is_some (encode_fields width limit standard comma colon fs) ≡ true
    fields-some done h = refl
    fields-some (field k v fs) h =
        prefixed-some _ _
          (member-some colon _ _ (key-some k (ground (arith, h)))
            (encode-some v (ground (arith, h))))
          (fields-some fs (ground (arith, h)))

  -- However long the integers of a JSON value are, `dumps` has a text for it.
  pub dumps-some :
      (v : Value) → valid_json v ≡ true → is_some (dumps width limit standard comma colon v) ≡ true
  unfolding dumps
  dumps-some v h = from (standard v)
    where
      from : (o : Option (List ℕ)) → is_some (or_encode width limit standard comma colon v o) ≡ true
      from (some t) = refl
      from none = encode-some v h
