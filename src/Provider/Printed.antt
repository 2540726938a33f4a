-- ===== src/Provider/Printed.antt =====
-- A stream that is written down as data lines is read back, however it is cut into chunks.
use openevent_modules_model.Base.{
  ℕ, ◌+◌, ◌≤◌, ◌<◌, ltb, leb, ◌==◌, ◌≡◌, refl, ap, ◌∙◌, true, false, some, List, [], ◌∷◌, ◌++◌,
  length, length-append, append_assoc, append-nil, All, arith, map,
}
use openevent_modules_model.Provider.Frames.{
  Reader, append_byte, limit_byte, read_byte, with_frames, then_read, read_bytes, new_reader,
  strip_prefix,
}
use openevent_modules_model.Provider.Chunks.{unmarked, read_bytes-append}
use openevent_modules_model.Provider.Events.{split_lines, data_lines, event}

-- No line end.
abbrev pub Plain : List ℕ → Type 0
Plain = All (λ c. ((c == 10) ≡ false) × ((c == 13) ≡ false))

abbrev data_prefix : List ℕ
data_prefix = b'd' ∷ b'a' ∷ b't' ∷ b'a' ∷ b':' ∷ b' ' ∷ []

-- `data: `, the text and an empty line
abbrev pub data_frame : List ℕ → List ℕ
data_frame t = (data_prefix ++ t) ++ (10 ∷ 10 ∷ [])

abbrev pub printed : List (List ℕ) → List ℕ
printed [] = []
printed (t ∷ ts) = data_frame t ++ printed ts

abbrev reader : List ℕ → ℕ → Reader
reader event line_start = record { event = event; line_start = line_start; previous_cr = false }

read_bytes-Plain :
    (limit line_start : ℕ) (xs ev : List ℕ)
    → Plain xs
    → length ev + length xs ≤ limit
    → read_bytes limit xs (reader ev line_start) ≡ ([], some (reader (ev ++ xs) line_start))
unfolding read_bytes read_byte limit_byte append_byte
read_bytes-Plain limit line_start [] ev plain fits = rw append-nil refl
read_bytes-Plain limit line_start (x ∷ xs) ev ((no_line, no_return), plain) fits =
    let room : leb limit (length ev) ≡ false = ground (arith, fits) in
    rw (no_line, no_return, room)
      (ap (with_frames []) (
          read_bytes-Plain limit line_start xs (ev ++ (x ∷ [])) plain
            (omega (arith, fits, length-append ev (x ∷ []))))
        ∙ ap (λ l. ([], some (reader l line_start))) (append_assoc ev (x ∷ []) xs))

-- The two line feeds behind a line.
read_bytes-end :
    (limit : ℕ) (ev rest : List ℕ)
    → 0 < length ev
    → length ev + 2 ≤ limit
    → read_bytes limit (10 ∷ 10 ∷ rest) (reader ev 0)
      ≡ with_frames ((ev ++ (10 ∷ 10 ∷ [])) ∷ []) (read_bytes limit rest new_reader)
unfolding read_bytes read_byte limit_byte append_byte new_reader
read_bytes-end limit ev rest some_byte fits =
    let one = length-append ev (10 ∷ []) in
    let room : leb limit (length ev) ≡ false = ground (arith, fits) in
    let more_room : leb limit (length (ev ++ (10 ∷ []))) ≡ false = ground (arith, fits, one) in
    let not_empty : (length ev == 0) ≡ false = ground (arith, some_byte) in
    let empty_line : (length (ev ++ (10 ∷ [])) == length (ev ++ (10 ∷ []))) ≡ true = ground arith in
    rw (room, not_empty, more_room, empty_line)
      (ap (λ l. with_frames (l ∷ []) (read_bytes limit rest new_reader))
        (append_assoc ev (10 ∷ []) (10 ∷ [])))

data_line-Plain : (t : List ℕ) → Plain t → Plain (data_prefix ++ t)
data_line-Plain t plain = (
  (refl, refl),
  ((refl, refl), ((refl, refl), ((refl, refl), ((refl, refl), ((refl, refl), plain))))),
)

read_bytes-data_frame :
    (limit : ℕ) (t rest : List ℕ)
    → Plain t
    → length t + 8 ≤ limit
    → read_bytes limit (data_frame t ++ rest) new_reader
      ≡ with_frames (data_frame t ∷ []) (read_bytes limit rest new_reader)
unfolding new_reader
read_bytes-data_frame limit t rest plain fits =
    let line = data_prefix ++ t in
    let ends : List ℕ = 10 ∷ 10 ∷ [] in
    let read = read_bytes-Plain limit 0 line [] (data_line-Plain t plain) (omega (arith, fits)) in
    ap (λ bs. read_bytes limit bs (reader [] 0)) (append_assoc line ends rest)
    ∙ read_bytes-append limit line (ends ++ rest) (reader [] 0)
    ∙ ap (λ f. then_read f (λ s. read_bytes limit (ends ++ rest) s)) read
    ∙ ap (with_frames []) (read_bytes-end limit line rest (omega arith) (omega (arith, fits)))

-- Every text is plain, and its frame is within the limit.
abbrev pub IsPrintable : ℕ → List (List ℕ) → Type 0
IsPrintable limit = All (λ t. Plain t × (length t + 8 ≤ limit))

pub read_bytes-printed :
    (limit : ℕ) (ts : List (List ℕ))
    → IsPrintable limit ts
    → read_bytes limit (printed ts) new_reader ≡ (map data_frame ts, some new_reader)
read_bytes-printed limit [] h = unfold read_bytes in refl
read_bytes-printed limit (t ∷ ts) ((plain, fits), rest) =
    read_bytes-data_frame limit t (printed ts) plain fits
    ∙ ap (with_frames (data_frame t ∷ [])) (read_bytes-printed limit ts rest)

split_lines-Plain :
    (line xs rest : List ℕ)
    → Plain xs
    → split_lines line (xs ++ (10 ∷ rest)) ≡ (line ++ xs) ∷ split_lines [] rest
split_lines-Plain line [] rest h = rw append-nil refl
split_lines-Plain line (x ∷ xs) rest ((no_line, no_return), h) = rw no_line (
    split_lines-Plain (line ++ (x ∷ [])) xs rest h
    ∙ ap (λ l. l ∷ split_lines [] rest) (append_assoc line (x ∷ []) xs))

-- The data of a frame is the text.
pub data_lines-data_frame :
    (t : List ℕ) → Plain t → data_lines (split_lines [] (data_frame t)) ≡ t ∷ []
unfolding data_lines
data_lines-data_frame t plain =
    rw (split_lines-Plain [] (data_prefix ++ t) (10 ∷ []) (data_line-Plain t plain)) refl

pub unmarked-printed :
    (t : List ℕ) (ts : List (List ℕ)) → unmarked (printed (t ∷ ts)) ≡ printed (t ∷ ts)
unfolding unmarked strip_prefix
unmarked-printed t ts =
    let long : ltb (length (printed (t ∷ ts))) 3 ≡ false = ground arith in rw long refl
