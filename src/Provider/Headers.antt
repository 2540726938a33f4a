-- ===== src/Provider/Headers.antt =====
-- The response headers that a call passes on are ones that a result may carry.
use openevent_modules_model.Base.{
  ltb, ◌≡◌, refl, String, Bool, true, List, [], ◌∷◌, All, all, if-both, arith,
}
use openevent_modules_model.Models.Value.{get_field}
use openevent_modules_model.Models.Validate.{
  codes, lower_ascii, allowed_header_name, no_unknown, no_missing, valid_header, all_headers,
}
use openevent_modules_model.Provider.Call.{kept_header, header_value, header_items}

abbrev pub is_ascii : String → Bool
is_ascii s = all (λ c. ltb c 128) (codes s)

-- `str.lower` of an ASCII text is ASCII without capital letters.
abbrev pub Lowers : (String → String) → Type 0
Lowers lower = (s : String) → is_ascii s ≡ true → all lower_ascii (codes (lower s)) ≡ true

-- The names of the headers of a response: http.client takes no others.
abbrev pub AreAscii : List (String × String) → Type 0
AreAscii = All (λ h. is_ascii h.0 ≡ true)

header_value-valid :
    (name value : String)
    → kept_header name ≡ true
    → all lower_ascii (codes name) ≡ true
    → valid_header (header_value name value) ≡ true
unfolding kept_header valid_header no_unknown no_missing allowed_header_name get_field
header_value-valid name value kept low = ground (arith, kept, low)

pub header_items-valid :
    (lower : String → String) (hs : List (String × String))
    → Lowers lower
    → AreAscii hs
    → all_headers (header_items lower hs) ≡ true
unfolding header_items
header_items-valid lower [] lowers h = refl
header_items-valid lower ((k, v) ∷ hs) lowers (ascii, rest) =
    let others = header_items-valid lower hs lowers rest in
    if-both (λ items. all_headers items ≡ true) (kept_header (lower k))
      (λ kept. ground (arith, header_value-valid (lower k) v kept (lowers k ascii), others))
      (λ _. others)
