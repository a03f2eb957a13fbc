-- ===== src/Internal/NonRandomReader.antt =====
-- internal/nonrandom_reader.go: a reader of a fixed sequence of bytes.
pub mod Sequence
mod Tests
use hotload.Prelude.{ℕ, zero, suc, ◌+◌, ◌%◌, List, [], ◌∷◌, ◌==◌, if◌then◌else◌}

-- Both fields are bytes. The mutex is held for the whole of Read.
pub record NonRandomReader : Type 0 where
  pub next_val : ℕ
  pub counter : ℕ

unfoldable pub new_non_random_reader : ℕ → NonRandomReader
new_non_random_reader start_val = record { next_val = start_val % 256; counter = 0 }

-- The body of the loop, after the byte is stored.
unfoldable pub advance : NonRandomReader → NonRandomReader
advance r =
    let next = (r.next_val + 1) % 256 in
    let count = (r.counter + 1) % 256 in
    if count == 0
    then record { next_val = (next + 1) % 256; counter = count }
    else record { next_val = next; counter = count }

-- `Read` of a buffer of the given length: the bytes that fill it. It never reports an error.
unfoldable pub read : NonRandomReader → ℕ → NonRandomReader × List ℕ
unfolding advance
read r zero = (r, [])
read r (suc n) = let (r', bytes) = read (advance r) n in (r', r.next_val ∷ bytes)
