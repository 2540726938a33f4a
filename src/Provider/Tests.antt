-- ===== src/Provider/Tests.antt =====
-- A mark that is cut up, a carriage return with its line feed, and an empty line.
use openevent_modules_model.Base.{◌≡◌, refl, List, ℕ, [], ◌∷◌, some}
use openevent_modules_model.Provider.Frames.{
  append_byte, limit_byte, read_byte, read_bytes, strip_prefix, read_rest, read_chunks, new_reader,
}
use openevent_modules_model.Provider.Chunks.{joined, unmarked, read_chunks-joined}
use openevent_modules_model.Provider.Bounds.{IsWithin, read_chunks-IsWithin}

abbrev chunks : List (List ℕ)
chunks = (239 ∷ []) ∷ (187 ∷ 191 ∷ 100 ∷ 13 ∷ []) ∷ (10 ∷ 10 ∷ []) ∷ []

chunks-frames : read_chunks 100 [] chunks new_reader ≡ ((100 ∷ 10 ∷ 10 ∷ []) ∷ [], some new_reader)
unfolding read_chunks read_rest read_bytes read_byte limit_byte append_byte strip_prefix new_reader
chunks-frames = refl

read_chunks-joined_example :
    read_chunks 100 [] chunks new_reader ≡ read_bytes 100 (unmarked (joined chunks)) new_reader
read_chunks-joined_example = read_chunks-joined 100 chunks new_reader

read_chunks-IsWithin_example : IsWithin 100 (read_chunks 100 [] chunks new_reader)
read_chunks-IsWithin_example = read_chunks-IsWithin 100 chunks
