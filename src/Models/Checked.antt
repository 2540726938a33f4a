-- ===== src/Models/Checked.antt =====
-- The checks of a message make its members have the values that the protocol allows.
use openevent_modules_model.Base.{
  ℕ, leb, ◌==◌, ◌≤◌, ◌≡◌, refl, ap, String, Bool, true, false, not, ◌&&◌, ◌||◌, Option, none, some,
  List, [], ◌∷◌, inl, inr, All, all, length, is_some, str_eq, pos, arith,
}
use openevent_modules_model.Models.Value.{Value, Fields, bool, int, str, dict, get_field, is_text}
use openevent_modules_model.Models.Kind.{Kind, request, result, append, end, cancel}
use openevent_modules_model.Models.Validate.{
  codes, stream_id_char, stream_id_matches, valid_stream_id, known_path, is_bool,
  valid_request_body, elem, is_http, result_codes, interrupted_codes, allowed_status, valid_status,
  known_end_status, if_present, is_end, is_request, checks,
}
use openevent_modules_model.Models.Header.{and-split, or-split, str_eq-same}
use openevent_modules_model.Models.WellFormed.{Passed}
use openevent_modules_model.Models.Members.{
  IfThere, IsIdCharacter, IsStreamId, IsPath, IsBoolean, IsRequestBody, IsEndStatus, IsAmong, IsHttpStatus, MayCarry, IsStatus, OfKind, HasValues,
}

pub if_present-IfThere :
    (test : Value → Bool) (P : Value → Type 0) (o : Option Value)
    → ((v : Value) → test v ≡ true → P v)
    → if_present test o ≡ true
    → IfThere P o
if_present-IfThere test P none by h = tt
if_present-IfThere test P (some v) by h = by v h

between : (m n c : ℕ) → (leb m c && leb c n) ≡ true → (m ≤ c) × (c ≤ n)
between m n c h = (ground (arith, h), ground (arith, h))

alphanumeric :
    (c : ℕ)
    → ((leb 65 c && leb c 90) || (leb 97 c && leb c 122) || (leb 48 c && leb c 57)) ≡ true
    → IsIdCharacter c
alphanumeric c h = elim (or-split _ (leb 48 c && leb c 57) h) [
  | inr digit ↦ inr (inr (inl (between 48 57 c digit)))
  | inl letter ↦ elim (or-split (leb 65 c && leb c 90) (leb 97 c && leb c 122) letter) [
    | inl capital ↦ inl (between 65 90 c capital)
    | inr small ↦ inr (inl (between 97 122 c small))
  ]
]

stream_id_char-IsIdCharacter : (c : ℕ) → stream_id_char c ≡ true → IsIdCharacter c
stream_id_char-IsIdCharacter c h = elim (or-split _ (c == 45) h) [
  | inr dash ↦ inr (inr (inr (inr (inr (inr (ground (arith, dash)))))))
  | inl h ↦ elim (or-split _ (c == 58) h) [
    | inr colon ↦ inr (inr (inr (inr (inr (inl (ground (arith, colon)))))))
    | inl h ↦ elim (or-split _ (c == 95) h) [
      | inr line ↦ inr (inr (inr (inr (inl (ground (arith, line))))))
      | inl h ↦ elim (or-split _ (c == 46) h) [
        | inr dot ↦ inr (inr (inr (inl (ground (arith, dot)))))
        | inl h ↦ alphanumeric c h
      ]
    ]
  ]
]

all-IsIdCharacter : (cs : List ℕ) → all stream_id_char cs ≡ true → All IsIdCharacter cs
all-IsIdCharacter [] h = tt
all-IsIdCharacter (c ∷ cs) h =
    let (first, rest) = and-split (stream_id_char c) _ h in
    (stream_id_char-IsIdCharacter c first, all-IsIdCharacter cs rest)

matches-IsStreamId : (s : String) → stream_id_matches s ≡ true → IsStreamId (some (str s))
unfolding stream_id_matches
matches-IsStreamId s h =
    let n = length (codes s) in
    let (size, characters) = and-split (leb 1 n && leb n 128) _ h in
    let (low, high) = between 1 128 n size in
    (s, refl, low, high, all-IsIdCharacter (codes s) characters)

valid_stream_id-IsStreamId : (o : Option Value) → is_some (valid_stream_id o) ≡ true → IsStreamId o
unfolding valid_stream_id
valid_stream_id-IsStreamId (some (str s)) h = matches-IsStreamId s (ground (arith, h))
valid_stream_id-IsStreamId _ h = absurd (ground (arith, h))

known_path-IsPath : (v : Value) → known_path v ≡ true → IsPath v
known_path-IsPath (str s) h = elim (or-split (str_eq s "/v1/chat/completions") _ h) [
  | inl chat ↦ inl (ap str (str_eq-same s "/v1/chat/completions" chat))
  | inr other ↦ inr (ap str (str_eq-same s "/v1/responses" other))
]
known_path-IsPath _ h = absurd (ground (arith, h))

is_bool-IsBoolean : (v : Value) → is_bool v ≡ true → IsBoolean v
is_bool-IsBoolean (bool b) h = (b, refl)
is_bool-IsBoolean _ h = absurd (ground (arith, h))

valid_request_body-IsRequestBody :
    (o : Option Value) → valid_request_body o ≡ true → IsRequestBody o
unfolding valid_request_body
valid_request_body-IsRequestBody (some (dict fs)) h =
    (fs, refl, if_present-IfThere is_bool IsBoolean (get_field "stream" fs) is_bool-IsBoolean h)
valid_request_body-IsRequestBody _ h = absurd (ground (arith, h))

elem-IsAmong : (n : ℕ) (cs : List ℕ) → elem n cs ≡ true → IsAmong n cs
elem-IsAmong n [] h = absurd (ground (arith, h))
elem-IsAmong n (c ∷ cs) h = elim (or-split (c == n) _ h) [
  | inl same ↦ inl (ground (arith, same))
  | inr rest ↦ inr (elem-IsAmong n cs rest)
]

is_http-IsHttpStatus : (n : ℕ) → is_http n ≡ true → IsHttpStatus n
is_http-IsHttpStatus n h = (ground (arith, h), ground (arith, h))

allowed_status-MayCarry :
    (k : Kind) (b i : Bool) (n : ℕ) → allowed_status k b i n ≡ true → MayCarry k b i n
unfolding allowed_status
allowed_status-MayCarry result true i n h = elim (or-split (is_http n) _ h) [
  | inl http ↦ inl (is_http-IsHttpStatus n http)
  | inr known ↦ inr (elem-IsAmong n result_codes known)
]
allowed_status-MayCarry result false i n h = is_http-IsHttpStatus n h
allowed_status-MayCarry end b true n h = elem-IsAmong n interrupted_codes h
allowed_status-MayCarry end b false n h = is_http-IsHttpStatus n h
allowed_status-MayCarry request b i n h = is_http-IsHttpStatus n h
allowed_status-MayCarry append b i n h = is_http-IsHttpStatus n h
allowed_status-MayCarry cancel b i n h = is_http-IsHttpStatus n h

valid_status-IsStatus :
    (k : Kind) (b i : Bool) (v : Value) → valid_status k b i v ≡ true → IsStatus k b i v
valid_status-IsStatus k b i (int (pos n)) h = (n, refl, allowed_status-MayCarry k b i n h)
valid_status-IsStatus k b i _ h = absurd (ground (arith, h))

is_text-same : (t : String) (o : Option Value) → is_text t o ≡ true → o ≡ some (str t)
is_text-same t (some (str s)) h = ap (λ u. some (str u)) (str_eq-same s t h)
is_text-same t _ h = absurd (ground (arith, h))

known_end_status-IsEndStatus : (o : Option Value) → known_end_status o ≡ true → IsEndStatus o
unfolding known_end_status
known_end_status-IsEndStatus o h = elim (or-split _ (is_text "interrupted" o) h) [
  | inr interrupted ↦ inr (inr (is_text-same "interrupted" o interrupted))
  | inl first ↦ elim (or-split (is_text "completed" o) (is_text "failed" o) first) [
    | inl completed ↦ inl (is_text-same "completed" o completed)
    | inr failed ↦ inr (inl (is_text-same "failed" o failed))
  ]
]

of_kind :
    (k : Kind) (body end_status : Option Value)
    → (not (is_request k) || valid_request_body body) ≡ true
    → (not (is_end k) || known_end_status end_status) ≡ true
    → (not (is_end k) || is_text "completed" end_status || is_some body) ≡ true
    → OfKind k body end_status
of_kind request body end_status shape ended has_body = valid_request_body-IsRequestBody body shape
of_kind end body end_status shape ended has_body = (
  known_end_status-IsEndStatus end_status ended,
  elim (or-split (is_text "completed" end_status) (is_some body) has_body) [
    | inl completed ↦ inl (is_text-same "completed" end_status completed)
    | inr there ↦ inr there
  ],
)
of_kind result body end_status shape ended has_body = tt
of_kind append body end_status shape ended has_body = tt
of_kind cancel body end_status shape ended has_body = tt

pub checks-HasValues : (d : Bool) (k : Kind) (fs : Fields) → Passed (checks d k fs) → HasValues k fs
unfolding checks
checks-HasValues d k fs
      (
        _,
        (
          _,
          (
            stream,
            (_, (_, (_, (_, (_, (path, (_, (shape, (_, (ended, (has_body, (status, _)))))))))))),
          ),
        ),
      ) =
    (
      valid_stream_id-IsStreamId _ stream,
      if_present-IfThere known_path IsPath _ known_path-IsPath path,
      of_kind k _ _ shape ended has_body,
      if_present-IfThere _ _ _ (valid_status-IsStatus k _ _) status,
    )
