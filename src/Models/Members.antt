-- ===== src/Models/Members.antt =====
-- The values that the protocol allows for the members of a message.
use openevent_modules_model.Base.{
  ℕ, ◌≤◌, ◌≡◌, String, Bool, true, Option, none, some,
  List, [], ◌∷◌, ◌⊎◌, All, length, is_some, pos, 
}
use openevent_modules_model.Models.Value.{Value, Fields, bool, int, str, dict, get_field, is_text}
use openevent_modules_model.Models.Kind.{Kind, request, result, end}
use openevent_modules_model.Models.Validate.{
  codes, 
  
  
}

-- What holds of a member, if it is there.
abbrev pub IfThere : (Value → Type 0) → Option Value → Type 0
IfThere P none = Unit
IfThere P (some v) = P v

-- An ASCII letter or digit, or one of the four marks.
abbrev pub IsIdCharacter : ℕ → Type 0
IsIdCharacter c =
    ((65 ≤ c) × (c ≤ 90))
    ⊎ ((97 ≤ c) × (c ≤ 122))
    ⊎ ((48 ≤ c) × (c ≤ 57))
    ⊎ (c ≡ 46)
    ⊎ (c ≡ 95)
    ⊎ (c ≡ 58)
    ⊎ (c ≡ 45)

abbrev pub IsStreamId : Option Value → Type 0
IsStreamId o =
    (s : String) × (o ≡ some (str s))
    × (1 ≤ length (codes s))
    × (length (codes s) ≤ 128)
    × All IsIdCharacter (codes s)

abbrev pub IsPath : Value → Type 0
IsPath v = (v ≡ str "/v1/chat/completions") ⊎ (v ≡ str "/v1/responses")

abbrev pub IsBoolean : Value → Type 0
IsBoolean v = (b : Bool) × (v ≡ bool b)

-- An object whose `stream`, if it has one, is a Boolean.
abbrev pub IsRequestBody : Option Value → Type 0
IsRequestBody o = (fs : Fields) × (o ≡ some (dict fs)) × IfThere IsBoolean (get_field "stream" fs)

abbrev pub IsEndStatus : Option Value → Type 0
IsEndStatus o =
    (o ≡ some (str "completed")) ⊎ (o ≡ some (str "failed")) ⊎ (o ≡ some (str "interrupted"))

abbrev pub IsAmong : ℕ → List ℕ → Type 0
IsAmong n [] = ⊥
IsAmong n (c ∷ cs) = (n ≡ c) ⊎ IsAmong n cs

abbrev pub IsHttpStatus : ℕ → Type 0
IsHttpStatus n = (100 ≤ n) × (n ≤ 599)

-- By whether there is a body, and whether the end status is `interrupted`.
abbrev pub MayCarry : Kind → Bool → Bool → ℕ → Type 0
MayCarry result true interrupted n =
    IsHttpStatus n ⊎ IsAmong n (60000 ∷ 60001 ∷ 60002 ∷ 60003 ∷ 60005 ∷ 60007 ∷ 60008 ∷ 60009 ∷ [])
MayCarry end has_body true n = IsAmong n (60000 ∷ 60001 ∷ 60002 ∷ 60003 ∷ 60007 ∷ 60008 ∷ [])
MayCarry _ _ _ n = IsHttpStatus n

abbrev pub IsStatus : Kind → Bool → Bool → Value → Type 0
IsStatus k has_body interrupted v = (n : ℕ) × (v ≡ int (pos n)) × MayCarry k has_body interrupted n

-- A request has a body of its form; an end has an end status, and a body unless it is completed.
abbrev pub OfKind : Kind → (body end_status : Option Value) → Type 0
OfKind request body end_status = IsRequestBody body
OfKind end body end_status =
    IsEndStatus end_status × ((end_status ≡ some (str "completed")) ⊎ (is_some body ≡ true))
OfKind _ body end_status = Unit

-- What the protocol says of the values of some members, by the kind of the message.
abbrev pub HasValues : Kind → Fields → Type 0
HasValues k fs =
    IsStreamId (get_field "stream_id" fs)
    × IfThere IsPath (get_field "path" fs)
    × OfKind k (get_field "body" fs) (get_field "end_status" fs)
    × IfThere
        (IsStatus k (is_some (get_field "body" fs))
          (is_text "interrupted" (get_field "end_status" fs)))
        (get_field "status_code" fs)

