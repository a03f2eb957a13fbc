-- ===== src/Internal/NonRandomReader/Tests.antt =====
-- Reads of a reader that starts at 250.
use hotload.Prelude.{◌+◌, ◌≡◌, refl, [], ◌∷◌, some, get_elem?, arith}
use hotload.Internal.NonRandomReader.{new_non_random_reader, read, advance}
use hotload.Internal.NonRandomReader.Sequence.{byte_at, read_all, total, read-sequence}

read-sequence_example :
    get_elem? (read (read_all (new_non_random_reader 250) (200 ∷ 60 ∷ [])) 3).1 2
    ≡ some (byte_at 250 (total (200 ∷ 60 ∷ []) + 2))
read-sequence_example = read-sequence 250 3 2 (200 ∷ 60 ∷ []) (omega arith)

-- The reader goes on to byte 0 after byte 255.
first_bytes : (read (new_non_random_reader 254) 4).1 ≡ 254 ∷ 255 ∷ 0 ∷ 1 ∷ []
unfolding read advance new_non_random_reader
first_bytes = refl
