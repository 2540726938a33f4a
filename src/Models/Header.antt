-- ===== src/Models/Header.antt =====
-- The headers of a result, as the protocol describes them.
use text.Mathlib.Text.{starts_with}
use openevent_modules_model.Base.{
  ℕ, leb, ◌<◌, ◌≡◌, refl, String, Bool, true, false, ◌&&◌, ◌||◌, Option, none, some, List, [], ◌∷◌,
  ◌⊎◌, inl, inr, All, all, any, str_eq, eq_iff, Bool-cases, arith,
}
use openevent_modules_model.Models.Value.{
  Value, Items, Fields, str, list, dict, nil, cons, done, field, get_field, is_key,
}
use openevent_modules_model.Models.Validate.{
  codes, lower_ascii, allowed_header_name, header_names, is_allowed_name, is_str?, no_unknown,
  valid_header, all_headers, valid_headers, if_present,
}

abbrev pub IsOneOf : Value → List String → Type 0
IsOneOf k [] = ⊥
IsOneOf k (n ∷ ns) = (k ≡ str n) ⊎ IsOneOf k ns

-- Every key of an object is one of the names.
abbrev pub HasOnly : List String → Fields → Type 0
HasOnly names done = Unit
HasOnly names (field k v fs) = IsOneOf k names × HasOnly names fs

-- ASCII, and no capital letter.
abbrev pub IsLower : ℕ → Type 0
IsLower c = (c < 128) × ((c < 65) ⊎ (90 < c))

abbrev pub IsHeaderName : String → Type 0
IsHeaderName s =
    All IsLower (codes s)
    × ((s ≡ "content-type")
        ⊎ (s ≡ "retry-after")
        ⊎ (s ≡ "x-request-id")
        ⊎ (starts_with s "x-ratelimit-" ≡ true))

-- An object of a name and a value, and nothing else.
abbrev pub IsHeader : Value → Type 0
IsHeader (dict fs) =
    (name : String) × (value : String) × (get_field "name" fs ≡ some (str name))
    × (get_field "value" fs ≡ some (str value))
    × IsHeaderName name
    × HasOnly ("name" ∷ "value" ∷ []) fs
IsHeader _ = ⊥

abbrev pub AreHeaders : Items → Type 0
AreHeaders nil = Unit
AreHeaders (cons h hs) = IsHeader h × AreHeaders hs

-- No headers, or a list of at least one.
abbrev pub IsHeaderList : Option Value → Type 0
IsHeaderList none = Unit
IsHeaderList (some (list (cons h hs))) = IsHeader h × AreHeaders hs
IsHeaderList (some _) = ⊥

any-IsOneOf : (k : Value) (ns : List String) → any (λ n. is_key n k) ns ≡ true → IsOneOf k ns
any-IsOneOf k [] h = ground (arith, h)
any-IsOneOf (str s) (n ∷ ns) h = elim (Bool-cases (str_eq s n)) [
  | inl same ↦ let text : s ≡ n = (eq_iff s n).0 (ground (arith, same)) in inl (λ i. str (text i))
  | inr other ↦ inr (any-IsOneOf (str s) ns (ground (arith, h, other)))
]
any-IsOneOf k (n ∷ ns) h = inr (any-IsOneOf k ns h)

pub no_unknown-HasOnly :
    (names : List String) (fs : Fields) → no_unknown names fs ≡ true → HasOnly names fs
unfolding no_unknown
no_unknown-HasOnly names done h = tt
no_unknown-HasOnly names (field k v fs) h =
    (any-IsOneOf k names (ground (arith, h)), no_unknown-HasOnly names fs (ground (arith, h)))

lower_ascii-IsLower : (c : ℕ) → lower_ascii c ≡ true → IsLower c
lower_ascii-IsLower c h = (
  ground (arith, h),
  elim (Bool-cases (leb 65 c)) [
    | inl up ↦ inr (ground (arith, h, up))
    | inr below ↦ inl (ground (arith, below))
  ],
)

all-IsLower : (cs : List ℕ) → all lower_ascii cs ≡ true → All IsLower cs
all-IsLower [] h = tt
all-IsLower (c ∷ cs) h =
    (lower_ascii-IsLower c (ground (arith, h)), all-IsLower cs (ground (arith, h)))

pub and-split : (a b : Bool) → (a && b) ≡ true → (a ≡ true) × (b ≡ true)
and-split true b h = (refl, h)
and-split false b h = absurd (ground (arith, h))

pub or-split : (a b : Bool) → (a || b) ≡ true → (a ≡ true) ⊎ (b ≡ true)
or-split true b h = inl refl
or-split false b h = inr h

pub str_eq-same : (s t : String) → str_eq s t ≡ true → s ≡ t
str_eq-same s t h = (eq_iff s t).0 (ground (arith, h))

-- The names that are passed on.
pub kept-IsOneOf :
    (s : String)
    → (str_eq s "content-type"
        || str_eq s "retry-after"
        || str_eq s "x-request-id"
        || starts_with s "x-ratelimit-")
      ≡ true
    → (s ≡ "content-type")
      ⊎ (s ≡ "retry-after")
      ⊎ (s ≡ "x-request-id")
      ⊎ (starts_with s "x-ratelimit-" ≡ true)
kept-IsOneOf s h = elim (or-split _ (starts_with s "x-ratelimit-") h) [
  | inr limit ↦ inr (inr (inr limit))
  | inl named ↦ elim (or-split _ (str_eq s "x-request-id") named) [
    | inr id ↦ inr (inr (inl (str_eq-same s "x-request-id" id)))
    | inl first ↦ elim (or-split (str_eq s "content-type") (str_eq s "retry-after") first) [
      | inl type ↦ inl (str_eq-same s "content-type" type)
      | inr retry ↦ inr (inl (str_eq-same s "retry-after" retry))
    ]
  ]
]

allowed_header_name-IsHeaderName : (s : String) → allowed_header_name s ≡ true → IsHeaderName s
unfolding allowed_header_name
allowed_header_name-IsHeaderName s h =
    (all-IsLower (codes s) (ground (arith, h)), kept-IsOneOf s (ground (arith, h)))

is_allowed_name-named :
    (o : Option Value)
    → is_allowed_name o ≡ true
    → (name : String) × (o ≡ some (str name)) × IsHeaderName name
is_allowed_name-named (some (str s)) h = (s, refl, allowed_header_name-IsHeaderName s h)
is_allowed_name-named _ h = absurd (ground (arith, h))

is_str?-text : (o : Option Value) → is_str? o ≡ true → (s : String) × (o ≡ some (str s))
is_str?-text (some (str s)) h = (s, refl)
is_str?-text _ h = absurd (ground (arith, h))

valid_header-IsHeader : (v : Value) → valid_header v ≡ true → IsHeader v
unfolding valid_header
valid_header-IsHeader (dict fs) h =
    let (rest, is_named) = and-split _ _ h in
    let (keys, is_text) = and-split _ _ rest in
    let (only, whole) = and-split _ _ keys in
    let (name, named, allowed) = is_allowed_name-named (get_field "name" fs) is_named in
    let (value, valued) = is_str?-text (get_field "value" fs) is_text in
    (name, value, named, valued, allowed, no_unknown-HasOnly header_names fs only)
valid_header-IsHeader _ h = absurd (ground (arith, h))

pub all_headers-AreHeaders : (hs : Items) → all_headers hs ≡ true → AreHeaders hs
all_headers-AreHeaders nil h = tt
all_headers-AreHeaders (cons v hs) h =
    (valid_header-IsHeader v (ground (arith, h)), all_headers-AreHeaders hs (ground (arith, h)))

pub valid_headers-IsHeaderList :
    (v : Option Value) → if_present valid_headers v ≡ true → IsHeaderList v
unfolding valid_headers
valid_headers-IsHeaderList none h = tt
valid_headers-IsHeaderList (some (list nil)) h = ground (arith, h)
valid_headers-IsHeaderList (some (list (cons v hs))) h =
    (valid_header-IsHeader v (ground (arith, h)), all_headers-AreHeaders hs (ground (arith, h)))
valid_headers-IsHeaderList (some _) h = ground (arith, h)
