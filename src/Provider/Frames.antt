-- ===== src/Provider/Frames.antt =====
-- The byte loop of `_sse`: the byte order mark, the line ends and the size limit. A frame is the bytes
-- of one event, with its empty line. What the loop does with a frame stands behind the decoder.
use openevent_modules_model.Base.{
  ℕ, zero, suc, ◌-◌, ltb, leb, ◌==◌, ◌&&◌, Bool, true, false, not, Option, none, some, List, [],
  ◌∷◌, ◌++◌, length, if◌then◌else◌,
}

pub record Reader : Type 0 where
  pub event : List ℕ
  pub line_start : ℕ
  pub previous_cr : Bool

unfoldable pub new_reader : Reader
new_reader = record { event = []; line_start = 0; previous_cr = false }

-- The frames that were yielded, and the reader, or `none` behind the error of an oversized event.
abbrev pub Framed : Type 0
Framed = List (List ℕ) × Option Reader

-- `event.append(byte)` and what follows it; the byte is no carriage return.
unfoldable pub append_byte : ℕ → Reader → Framed
append_byte byte r =
    let event = r.event ++ (byte ∷ []) in
    if not (byte == 10)
    then ([], some (record r { event = event }))
    else if length r.event == r.line_start
    then (event ∷ [], some (record r { event = []; line_start = 0 }))
    else ([], some (record r { event = event; line_start = length event }))

unfoldable pub limit_byte : ℕ → ℕ → Reader → Framed
limit_byte limit byte r = if leb limit (length r.event) then ([], none) else append_byte byte r

-- One byte: a line feed behind a carriage return is passed over, a carriage return is a line feed.
unfoldable pub read_byte : ℕ → ℕ → Reader → Framed
read_byte limit byte r =
    if r.previous_cr && (byte == 10)
    then ([], some (record r { previous_cr = false }))
    else if byte == 13
    then limit_byte limit 10 (record r { previous_cr = true })
    else limit_byte limit byte (record r { previous_cr = false })

abbrev pub with_frames : List (List ℕ) → Framed → Framed
with_frames fs (gs, r) = (fs ++ gs, r)

-- What follows a part of the loop.
abbrev pub then_read : Framed → (Reader → Framed) → Framed
then_read (fs, none) k = (fs, none)
then_read (fs, some r) k = with_frames fs (k r)

-- `for byte in chunk`
unfoldable pub read_bytes : ℕ → List ℕ → Reader → Framed
read_bytes limit [] r = ([], some r)
read_bytes limit (b ∷ bs) r = then_read (read_byte limit b r) (λ s. read_bytes limit bs s)

abbrev pub byte_order_mark : List ℕ
byte_order_mark = 239 ∷ 187 ∷ 191 ∷ []

abbrev pub is_mark : List ℕ → Bool
is_mark (a ∷ b ∷ c ∷ []) = (a == 239) && (b == 187) && (c == 191)
is_mark _ = false

-- The three bytes in front, once they are there: the mark is dropped.
unfoldable pub strip_prefix : List ℕ → List ℕ → List ℕ
strip_prefix prefix chunk = if is_mark prefix then chunk else prefix ++ chunk

abbrev pub take : ℕ → List ℕ → List ℕ
take zero bs = []
take (suc n) [] = []
take (suc n) (b ∷ bs) = b ∷ take n bs

abbrev pub drop : ℕ → List ℕ → List ℕ
drop zero bs = bs
drop (suc n) [] = []
drop (suc n) (b ∷ bs) = drop n bs

-- The loop over the chunks, while `prefix` is being filled, and behind it.
unfoldable pub read_rest : ℕ → List (List ℕ) → Reader → Framed
read_rest limit [] r = ([], some r)
read_rest limit (c ∷ cs) r = then_read (read_bytes limit c r) (λ s. read_rest limit cs s)

unfoldable pub read_chunks : ℕ → List ℕ → List (List ℕ) → Reader → Framed
read_chunks limit prefix [] r = ([], some r)
read_chunks limit prefix (c ∷ cs) r =
    let needed = 3 - length prefix in
    let filled = prefix ++ take needed c in
    let more = read_chunks limit filled cs r in
    if ltb (length filled) 3
    then more
    else then_read (read_bytes limit (strip_prefix filled (drop needed c)) r)
        (λ s. read_rest limit cs s)
