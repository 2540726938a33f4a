-- ===== src/Models/Message.antt =====
-- The members of a message, as the protocol describes them.
use openevent_modules_model.Base.{
  ℕ, ◌<◌, ◌≡◌, ◌≢◌, refl, ap, String, Bool, true, Option, none, some, List, [], ◌∷◌, ◌++◌, All, all,
  is_some, eq_iff, pos, ok, subst, sym, >>=-ok, ok-injective, arith,
}
use openevent_modules_model.Models.Value.{
  Value, Fields, int, str, dict, get_field, positive_int, is_natural,
}
use openevent_modules_model.Models.Kind.{
  Kind, request, result, append, end, cancel, kind_of, required, optional,
}
use openevent_modules_model.Models.Validate.{
  nonempty_str, is_post, no_missing, no_unknown, checks, validate, valid_kind,
}
use openevent_modules_model.Models.Payload.{
  Bytes, Payload, kind, read, fields_of, parse_decoded, parse_payload,
}
use openevent_modules_model.Models.Header.{
  HasOnly, str_eq-same, no_unknown-HasOnly, IsHeaderList, valid_headers-IsHeaderList,
}
use openevent_modules_model.Models.Members.{IfThere, HasValues}
use openevent_modules_model.Models.Checked.{if_present-IfThere, checks-HasValues}
use openevent_modules_model.Models.WellFormed.{
  Passed, run_checks-Passed, validate-ok, IsWellFormed, parse_payload-IsWellFormed,
}

-- The members that a message of a kind must have, and those that it may have.
abbrev pub needed : Kind → List String
needed request = "kind" ∷ "stream_id" ∷ "ts_ms" ∷ "method" ∷ "path" ∷ "body" ∷ []
needed result = "kind" ∷ "stream_id" ∷ "ts_ms" ∷ "prev_seq" ∷ "status_code" ∷ []
needed append = "kind" ∷ "stream_id" ∷ "ts_ms" ∷ "request_seq" ∷ "prev_seq" ∷ "body" ∷ []
needed end = "kind" ∷ "stream_id" ∷ "ts_ms" ∷ "request_seq" ∷ "status_code" ∷ "end_status" ∷ []
needed cancel = "kind" ∷ "stream_id" ∷ "ts_ms" ∷ "request_seq" ∷ []

abbrev pub possible : Kind → List String
possible request =
    "kind" ∷ "stream_id" ∷ "ts_ms" ∷ "method" ∷ "path" ∷ "body" ∷ "provider" ∷ "prev_seq" ∷ []
possible result =
    "kind" ∷ "stream_id" ∷ "ts_ms" ∷ "prev_seq" ∷ "status_code" ∷ "headers" ∷ "body" ∷ []
possible append = needed append
possible end =
    "kind" ∷ "stream_id" ∷ "ts_ms" ∷ "request_seq" ∷ "status_code" ∷ "end_status" ∷ "body" ∷ []
possible cancel = needed cancel

abbrev pub kind_name : Kind → String
kind_name request = "infer.request"
kind_name result = "infer.result"
kind_name append = "infer.append"
kind_name end = "infer.end"
kind_name cancel = "infer.cancel"

abbrev pub IsNatural : Value → Type 0
IsNatural v = (n : ℕ) × (v ≡ int (pos n))

abbrev pub IsPositive : Value → Type 0
IsPositive v = (n : ℕ) × (v ≡ int (pos n)) × (0 < n)

abbrev pub IsNonempty : Value → Type 0
IsNonempty v = (s : String) × (v ≡ str s) × (s ≢ "")

-- A message with exactly the members of its kind: its timestamp is a number, its seqs are positive, its
-- provider is not empty, its method is POST, and its headers are headers that may be passed on.
abbrev pub HasMembers : Kind → Fields → Type 0
HasMembers k fs =
    (get_field "kind" fs ≡ some (str (kind_name k)))
    × HasOnly (possible k) fs
    × All (λ n. is_some (get_field n fs) ≡ true) (needed k)
    × IfThere IsNatural (get_field "ts_ms" fs)
    × IfThere IsPositive (get_field "prev_seq" fs)
    × IfThere IsPositive (get_field "request_seq" fs)
    × IfThere IsNonempty (get_field "provider" fs)
    × IfThere (λ v. v ≡ str "POST") (get_field "method" fs)
    × IsHeaderList (get_field "headers" fs)

abbrev pub IsMessage : Kind → Fields → Type 0
IsMessage k fs = HasMembers k fs × HasValues k fs

is_natural-IsNatural : (v : Value) → is_natural v ≡ true → IsNatural v
is_natural-IsNatural (int (pos n)) h = (n, refl)
is_natural-IsNatural _ h = absurd (ground (arith, h))

positive_int-IsPositive : (v : Value) → positive_int v ≡ true → IsPositive v
positive_int-IsPositive (int (pos n)) h = (n, refl, ground (arith, h))
positive_int-IsPositive _ h = absurd (ground (arith, h))

nonempty_str-IsNonempty : (v : Value) → nonempty_str v ≡ true → IsNonempty v
nonempty_str-IsNonempty (str s) h = (s, refl, λ e. ground (arith, h, (eq_iff s "").1 e))
nonempty_str-IsNonempty _ h = absurd (ground (arith, h))

is_post-IsPost : (v : Value) → is_post v ≡ true → v ≡ str "POST"
is_post-IsPost (str s) h =
    let same : s ≡ "POST" = (eq_iff s "POST").0 (ground (arith, h)) in λ i. str (same i)
is_post-IsPost _ h = absurd (ground (arith, h))

all-All :
    (test : String → Bool) (ns : List String) → all test ns ≡ true → All (λ n. test n ≡ true) ns
all-All test [] h = tt
all-All test (n ∷ ns) h = (ground (arith, h), all-All test ns (ground (arith, h)))

kind_of-name : (s : String) (k : Kind) → kind_of s ≡ some k → s ≡ kind_name k
kind_of-name s request h = str_eq-same s "infer.request" (ground (arith, h))
kind_of-name s result h = str_eq-same s "infer.result" (ground (arith, h))
kind_of-name s append h = str_eq-same s "infer.append" (ground (arith, h))
kind_of-name s end h = str_eq-same s "infer.end" (ground (arith, h))
kind_of-name s cancel h = str_eq-same s "infer.cancel" (ground (arith, h))

valid_kind-name :
    (v : Option Value) (k : Kind) → valid_kind v ≡ some k → v ≡ some (str (kind_name k))
unfolding valid_kind
valid_kind-name (some (str s)) k h = ap (λ t. some (str t)) (kind_of-name s k h)
valid_kind-name _ k h = absurd (ground (arith, h))

needed-required :
    (k : Kind) (fs : Fields)
    → no_missing (required k) fs ≡ true
    → All (λ n. is_some (get_field n fs) ≡ true) (needed k)
unfolding no_missing required
needed-required request fs h = all-All (λ n. is_some (get_field n fs)) (needed request) h
needed-required result fs h = all-All (λ n. is_some (get_field n fs)) (needed result) h
needed-required append fs h = all-All (λ n. is_some (get_field n fs)) (needed append) h
needed-required end fs h = all-All (λ n. is_some (get_field n fs)) (needed end) h
needed-required cancel fs h = all-All (λ n. is_some (get_field n fs)) (needed cancel) h

possible-names :
    (k : Kind) (fs : Fields)
    → no_unknown (required k ++ optional k) fs ≡ true
    → HasOnly (possible k) fs
unfolding required optional
possible-names request fs h = no_unknown-HasOnly (possible request) fs h
possible-names result fs h = no_unknown-HasOnly (possible result) fs h
possible-names append fs h = no_unknown-HasOnly (possible append) fs h
possible-names end fs h = no_unknown-HasOnly (possible end) fs h
possible-names cancel fs h = no_unknown-HasOnly (possible cancel) fs h

checks-HasMembers :
    (d : Bool) (k : Kind) (fs : Fields)
    → get_field "kind" fs ≡ some (str (kind_name k))
    → Passed (checks d k fs)
    → HasMembers k fs
unfolding checks
checks-HasMembers d k fs named
      (
        unknown,
        (
          missing,
          (
            stream,
            (ts, (prev, (seq, (provider, (method, (path, (body, (shape, (headers, rest))))))))),
          ),
        ),
      ) =
    (
      named,
      possible-names k fs unknown,
      needed-required k fs missing,
      if_present-IfThere is_natural IsNatural _ is_natural-IsNatural ts,
      if_present-IfThere positive_int IsPositive _ positive_int-IsPositive prev,
      if_present-IfThere positive_int IsPositive _ positive_int-IsPositive seq,
      if_present-IfThere nonempty_str IsNonempty _ nonempty_str-IsNonempty provider,
      if_present-IfThere is_post (λ v. v ≡ str "POST") _ is_post-IsPost method,
      valid_headers-IsHeaderList _ headers,
    )

checks-IsMessage :
    (d : Bool) (k : Kind) (fs : Fields)
    → get_field "kind" fs ≡ some (str (kind_name k))
    → Passed (checks d k fs)
    → IsMessage k fs
checks-IsMessage d k fs named passed =
    (checks-HasMembers d k fs named passed, checks-HasValues d k fs passed)

kind-read : (k : Kind) (fs : Fields) → kind (read k fs) ≡ k
unfolding read
kind-read request fs = refl
kind-read result fs = refl
kind-read append fs = refl
kind-read end fs = refl
kind-read cancel fs = refl

valid_kind-ok :
    (d : Bool) (fs : Fields) (k : Kind)
    → validate d (dict fs) ≡ ok k
    → valid_kind (get_field "kind" fs) ≡ some k
unfolding validate
valid_kind-ok d fs k h = ground arith

validate-IsMessage :
    (d : Bool) (fs : Fields) (k : Kind) → validate d (dict fs) ≡ ok k → IsMessage k fs
validate-IsMessage d fs k h =
    checks-IsMessage d k fs (valid_kind-name (get_field "kind" fs) k (valid_kind-ok d fs k h))
      (run_checks-Passed (checks d k fs) (validate-ok d fs k h))

-- The decoded text of a payload is an object with the members of a message, and the payload has these.
abbrev pub Reads : Option Value → Payload → Type 0
Reads v p = (fs : Fields) × (v ≡ some (dict fs)) × IsMessage (kind p) fs × (p ≡ read (kind p) fs)

validate-Reads :
    (v : Value) (k : Kind) → validate true v ≡ ok k → Reads (some v) (read k (fields_of v))
unfolding validate
validate-Reads (dict fs) k h = (
  fs,
  refl,
  subst (λ j. IsMessage j fs) (sym (kind-read k fs)) (validate-IsMessage true fs k h),
  ap (λ j. read j fs) (sym (kind-read k fs)),
)
validate-Reads _ k h = cc

parse_decoded-Reads : (v : Option Value) (p : Payload) → parse_decoded v ≡ ok p → Reads v p
unfolding parse_decoded
parse_decoded-Reads none p h = cc
parse_decoded-Reads (some v) p h =
    let (k, valid, same) = >>=-ok (validate true v) (λ k. ok (read k (fields_of v))) h in
    subst (Reads (some v)) (ok-injective same) (validate-Reads v k valid)

-- Whatever the bytes and the decoder are, a payload that `parse_payload` returns is read from an object
-- that has all members that its kind needs and no others than those it may have: the name of its kind,
-- a stream id of 1 to 128 ASCII letters, digits or marks, a natural timestamp, positive seqs, a provider
-- that is not empty, the method POST, one of the two paths, a request body that is an object with a
-- Boolean `stream`, headers that are a list of at least one object of an allowed lower-case name and a
-- text, one of the three end statuses, a body unless the end is completed, and a status that the
-- message's shape may carry. The fields of the payload satisfy the constraints too.
pub parse_payload-IsMessage :
    (loads : Bytes → Option Value) (payload : Bytes) (p : Payload)
    → parse_payload loads payload ≡ ok p
    → IsWellFormed p × Reads (loads payload) p
parse_payload-IsMessage loads payload p h = (
  parse_payload-IsWellFormed loads payload p h,
  unfold parse_payload in parse_decoded-Reads (loads payload) p h,
)
