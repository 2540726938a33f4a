-- ===== src/Provider/Body.antt =====
-- The bodies that are read whole.
use openevent_modules_model.Base.{
  ℕ, ◌≤◌, ltb, leb, ◌≡◌, refl, ap, ◌∙◌, true, false, Option, none, some, List, [], ◌∷◌, ◌++◌,
  length, length-append, append_assoc, append-nil, if◌then◌else◌, Bool-cases, inl, inr, Outcome,
  err, arith,
}
use openevent_modules_model.Models.Value.{Value}
use openevent_modules_model.Provider.Chunks.{joined}
use openevent_modules_model.Provider.Events.{Raised, provider_error, Text, json, json_body}

module _ (decode : List ℕ → Option Text) (loads : Text → Option Value) (limit : ℕ) where
  -- What stands behind the parts: an exception of their source, or the value of all bytes.
  abbrev pub value_behind : Option Raised → List ℕ → Outcome Raised Value
  value_behind none bytes = json decode loads bytes
  value_behind (some r) bytes = err r

  abbrev pub limited : Option Raised → List ℕ → Outcome Raised Value
  limited broken bytes =
      if leb (length bytes) limit then value_behind broken bytes else err (provider_error 60008)

  json_body-behind :
      (body : List ℕ) (parts : List (List ℕ)) (broken : Option Raised)
      → length body ≤ limit
      → json_body decode loads limit body parts broken ≡ limited broken (body ++ joined parts)
  unfolding json_body joined
  json_body-behind body [] broken fits =
      let fit : leb (length body) limit ≡ true = ground (arith, fits) in
      rw (append-nil, fit) (by_source broken)
    where
      by_source :
          (broken : Option Raised)
          → json_body decode loads limit body [] broken ≡ value_behind broken body
      by_source none = refl
      by_source (some r) = refl
  json_body-behind body (part ∷ parts) broken fits =
      elim (Bool-cases (ltb limit (length (body ++ part)))) [
        | inl large ↦
            let all = body ++ (part ++ joined parts) in
            let long : leb (length all) limit ≡ false = ground (
              arith,
              length-append body (part ++ joined parts),
              length-append part (joined parts),
              length-append body part,
            ) in
            rw (large, long) refl
        | inr small ↦ rw small (
            json_body-behind (body ++ part) parts broken (ground arith)
            ∙ ap (limited broken) (append_assoc body part (joined parts)))
      ]

  -- However the body is cut into parts, it is read as the JSON of all its bytes when these are within
  -- the limit and their source raises nothing; past the limit the error is 60008, and within it an
  -- exception of the source goes on.
  pub json_body-joined :
      (parts : List (List ℕ)) (broken : Option Raised)
      → json_body decode loads limit [] parts broken ≡ limited broken (joined parts)
  json_body-joined parts broken = json_body-behind [] parts broken (omega arith)
