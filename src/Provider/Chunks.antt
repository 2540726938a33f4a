-- ===== src/Provider/Chunks.antt =====
-- The frames do not depend on how the network cuts the stream into chunks.
use openevent_modules_model.Base.{
  ℕ, zero, suc, ◌-◌, ◌≤◌, ◌<◌, ltb, ◌≡◌, refl, sym, ap, ◌∙◌, Bool, true, false, none, some, List,
  [], ◌∷◌, ◌++◌, length, length-append, append_assoc, append-nil, if◌then◌else◌, Bool-cases, inl,
  inr, arith,
}
use openevent_modules_model.Provider.Frames.{
  Reader, Framed, read_byte, with_frames, then_read, read_bytes, strip_prefix, is_mark, take, drop,
  read_rest, read_chunks,
}

-- All bytes of the stream.
unfoldable pub joined : List (List ℕ) → List ℕ
joined [] = []
joined (c ∷ cs) = c ++ joined cs

-- The stream without a byte order mark in front; fewer than three bytes are not looked at.
unfoldable pub unmarked : List ℕ → List ℕ
unmarked bs = if ltb (length bs) 3 then [] else strip_prefix (take 3 bs) (drop 3 bs)

then_read_assoc :
    (f : Framed) (g h : Reader → Framed)
    → then_read (then_read f g) h ≡ then_read f (λ r. then_read (g r) h)
then_read_assoc (fs, none) g h = refl
then_read_assoc (fs, some r) g h = from (g r)
  where
    from : (x : Framed) → then_read (with_frames fs x) h ≡ with_frames fs (then_read x h)
    from (gs, none) = refl
    from (gs, some s) = ap (λ l. (l, (h s).1)) (append_assoc fs gs (h s).0)

then_read-some : (f : Framed) → then_read f (λ r. ([], some r)) ≡ f
then_read-some (fs, none) = refl
then_read-some (fs, some r) = ap (λ l. (l, some r)) (append-nil fs)

then_read-cong :
    (f : Framed) (g h : Reader → Framed)
    → ((r : Reader) → g r ≡ h r)
    → then_read f g ≡ then_read f h
then_read-cong (fs, none) g h same = refl
then_read-cong (fs, some r) g h same = ap (with_frames fs) (same r)

pub read_bytes-append :
    (limit : ℕ) (xs ys : List ℕ) (r : Reader)
    → read_bytes limit (xs ++ ys) r ≡ then_read (read_bytes limit xs r) (λ s. read_bytes limit ys s)
unfolding read_bytes
read_bytes-append limit [] ys r = refl
read_bytes-append limit (b ∷ xs) ys r =
    then_read-cong (read_byte limit b r) _ _ (λ s. read_bytes-append limit xs ys s)
    ∙ sym (
        then_read_assoc (read_byte limit b r) (λ s. read_bytes limit xs s)
          (λ s. read_bytes limit ys s))

read_rest-joined :
    (limit : ℕ) (cs : List (List ℕ)) (r : Reader)
    → read_rest limit cs r ≡ read_bytes limit (joined cs) r
unfolding read_rest joined
read_rest-joined limit [] r = unfold read_bytes in refl
read_rest-joined limit (c ∷ cs) r =
    then_read-cong (read_bytes limit c r) _ _ (λ s. read_rest-joined limit cs s)
    ∙ sym (read_bytes-append limit c (joined cs) r)

take-append :
    (n : ℕ) (xs ys : List ℕ) → length xs ≤ n → take n (xs ++ ys) ≡ xs ++ take (n - length xs) ys
take-append n [] ys le = ap (λ k. take k ys) (omega arith)
take-append zero (x ∷ xs) ys le = absurd (omega arith)
take-append (suc n) (x ∷ xs) ys le =
    ap (λ l. x ∷ l) (take-append n xs ys (omega arith) ∙ ap (λ k. xs ++ take k ys) (omega arith))

drop-append : (n : ℕ) (xs ys : List ℕ) → length xs ≤ n → drop n (xs ++ ys) ≡ drop (n - length xs) ys
drop-append n [] ys le = ap (λ k. drop k ys) (omega arith)
drop-append zero (x ∷ xs) ys le = absurd (omega arith)
drop-append (suc n) (x ∷ xs) ys le =
    drop-append n xs ys (omega arith) ∙ ap (λ k. drop k ys) (omega arith)

take-within : (n : ℕ) (xs ys : List ℕ) → n ≤ length xs → take n (xs ++ ys) ≡ take n xs
take-within zero xs ys le = refl
take-within (suc n) [] ys le = absurd (omega arith)
take-within (suc n) (x ∷ xs) ys le = ap (λ l. x ∷ l) (take-within n xs ys (omega arith))

drop-within : (n : ℕ) (xs ys : List ℕ) → n ≤ length xs → drop n (xs ++ ys) ≡ drop n xs ++ ys
drop-within zero xs ys le = refl
drop-within (suc n) [] ys le = absurd (omega arith)
drop-within (suc n) (x ∷ xs) ys le = drop-within n xs ys (omega arith)

take-short : (n : ℕ) (xs : List ℕ) → length (take n xs) < n → take n xs ≡ xs
take-short zero xs lt = absurd (omega arith)
take-short (suc n) [] lt = refl
take-short (suc n) (x ∷ xs) lt = ap (λ l. x ∷ l) (take-short n xs (omega arith))

length-take : (n : ℕ) (xs : List ℕ) → length (take n xs) ≤ length xs
length-take zero xs = omega arith
length-take (suc n) [] = omega arith
length-take (suc n) (x ∷ xs) = omega (arith, length-take n xs)

strip_prefix-append :
    (prefix xs ys : List ℕ) → strip_prefix prefix (xs ++ ys) ≡ strip_prefix prefix xs ++ ys
unfolding strip_prefix
strip_prefix-append prefix xs ys = from (is_mark prefix)
  where
    from :
        (b : Bool)
        → (if b then xs ++ ys else prefix ++ (xs ++ ys)) ≡ (if b then xs else prefix ++ xs) ++ ys
    from true = refl
    from false = sym (append_assoc prefix xs ys)

read_chunks-prefix :
    (limit : ℕ) (prefix : List ℕ) (cs : List (List ℕ)) (r : Reader)
    → length prefix < 3
    → read_chunks limit prefix cs r ≡ read_bytes limit (unmarked (prefix ++ joined cs)) r
unfolding read_chunks joined unmarked
read_chunks-prefix limit prefix [] r lt =
    let short : ltb (length (prefix ++ [])) 3 ≡ true = ground (arith, length-append prefix []) in
    rw short (unfold read_bytes in refl)
read_chunks-prefix limit prefix (c ∷ cs) r lt =
    let needed = 3 - length prefix in
    let filled = prefix ++ take needed c in
    let all = prefix ++ (c ++ joined cs) in
    elim (Bool-cases (ltb (length filled) 3)) [
      | inl short ↦
          let whole : take needed c ≡ c =
            take-short needed c (ground (arith, length-append prefix (take needed c), lt)) in
          rw short (
            read_chunks-prefix limit filled cs r (ground arith)
            ∙ ap (λ bs. read_bytes limit (unmarked bs) r)
                (ap (λ l. (prefix ++ l) ++ joined cs) whole ∙ append_assoc prefix c (joined cs)))
      | inr full ↦
          let enough : needed ≤ length c =
            ground (arith, length-append prefix (take needed c), length-take needed c, lt) in
          let front =
            take-append 3 prefix (c ++ joined cs) (omega (arith, lt))
            ∙ ap (λ l. prefix ++ l) (take-within needed c (joined cs) enough) in
          let back =
            drop-append 3 prefix (c ++ joined cs) (omega (arith, lt))
            ∙ drop-within needed c (joined cs) enough in
          let long : ltb (length all) 3 ≡ false = ground (
            arith,
            length-append prefix (c ++ joined cs),
            length-append c (joined cs),
            enough,
            lt,
          ) in
          rw (full, long, front, back)
            (then_read-cong (read_bytes limit (strip_prefix filled (drop needed c)) r) _ _
                (λ s. read_rest-joined limit cs s)
              ∙ sym (read_bytes-append limit (strip_prefix filled (drop needed c)) (joined cs) r)
              ∙ ap (λ bs. read_bytes limit bs r)
                  (sym (strip_prefix-append filled (drop needed c) (joined cs))))
    ]

-- However the stream is cut into chunks, empty ones and a byte order mark that is cut up included, the
-- reader yields the frames, and ends in the state or the error, of its bytes read at once without
-- the mark.
pub read_chunks-joined :
    (limit : ℕ) (cs : List (List ℕ)) (r : Reader)
    → read_chunks limit [] cs r ≡ read_bytes limit (unmarked (joined cs)) r
read_chunks-joined limit cs r = read_chunks-prefix limit [] cs r (omega arith)
