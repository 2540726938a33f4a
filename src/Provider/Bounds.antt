-- ===== src/Provider/Bounds.antt =====
-- The size limit of the reader.
use openevent_modules_model.Base.{
  ℕ, ◌≤◌, ◌<◌, leb, ◌==◌, not, ◌&&◌, Option, none, some, List, [], ◌∷◌, length, length-append, All,
  All-append, if-both, arith,
}
use openevent_modules_model.Provider.Frames.{
  Reader, Framed, append_byte, limit_byte, read_byte, then_read, read_bytes, read_chunks,
  new_reader,
}
use openevent_modules_model.Provider.Chunks.{unmarked, joined, read_chunks-joined}

abbrev pub Fits : ℕ → Option Reader → Type 0
Fits limit none = Unit
Fits limit (some r) = length r.event ≤ limit

-- Every frame and the event that is being read are within the limit.
abbrev pub IsWithin : ℕ → Framed → Type 0
IsWithin limit (fs, r) = All (λ f. length f ≤ limit) fs × Fits limit r

append_byte-IsWithin :
    (limit byte : ℕ) (r : Reader) → length r.event < limit → IsWithin limit (append_byte byte r)
unfolding append_byte
append_byte-IsWithin limit byte r room =
    let longer = length-append r.event (byte ∷ []) in
    if-both (IsWithin limit) (not (byte == 10)) (λ _. (tt, omega (arith, longer)))
      (λ _.
        if-both (IsWithin limit) (length r.event == r.line_start)
          (λ _. ((omega (arith, longer), tt), omega arith)) (λ _. (tt, omega (arith, longer))))

limit_byte-IsWithin : (limit byte : ℕ) (r : Reader) → IsWithin limit (limit_byte limit byte r)
unfolding limit_byte
limit_byte-IsWithin limit byte r =
    if-both (IsWithin limit) (leb limit (length r.event)) (λ _. (tt, tt))
      (λ small. append_byte-IsWithin limit byte r (ground arith))

read_byte-IsWithin :
    (limit byte : ℕ) (r : Reader) → length r.event ≤ limit → IsWithin limit (read_byte limit byte r)
unfolding read_byte
read_byte-IsWithin limit byte r fits =
    if-both (IsWithin limit) (r.previous_cr && (byte == 10)) (λ _. (tt, fits))
      (λ _.
        if-both (IsWithin limit) (byte == 13) (λ _. limit_byte-IsWithin limit 10 _)
          (λ _. limit_byte-IsWithin limit byte _))

then_read-IsWithin :
    (limit : ℕ) (f : Framed) (k : Reader → Framed)
    → IsWithin limit f
    → ((r : Reader) → length r.event ≤ limit → IsWithin limit (k r))
    → IsWithin limit (then_read f k)
then_read-IsWithin limit (fs, none) k (h, fits) rest = (h, tt)
then_read-IsWithin limit (fs, some r) k (h, fits) rest =
    let (g, s) = rest r fits in (All-append (λ f. length f ≤ limit) fs (k r).0 h g, s)

read_bytes-IsWithin :
    (limit : ℕ) (bs : List ℕ) (r : Reader)
    → length r.event ≤ limit
    → IsWithin limit (read_bytes limit bs r)
unfolding read_bytes
read_bytes-IsWithin limit [] r fits = (tt, fits)
read_bytes-IsWithin limit (b ∷ bs) r fits =
    then_read-IsWithin limit (read_byte limit b r) (λ s. read_bytes limit bs s)
      (read_byte-IsWithin limit b r fits) (λ s h. read_bytes-IsWithin limit bs s h)

-- Whatever a provider sends, every frame that the reader yields and every event that it holds has at
-- most as many bytes as the limit.
pub read_chunks-IsWithin :
    (limit : ℕ) (cs : List (List ℕ)) → IsWithin limit (read_chunks limit [] cs new_reader)
unfolding new_reader
read_chunks-IsWithin limit cs =
    rw (read_chunks-joined limit cs new_reader)
      (read_bytes-IsWithin limit (unmarked (joined cs)) new_reader (omega arith))
