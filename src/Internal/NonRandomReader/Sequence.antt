-- ===== src/Internal/NonRandomReader/Sequence.antt =====
-- The sequence that the comment of Read promises.
use hotload.Prelude.{
  ℕ, zero, suc, ◌+◌, ◌*◌, ◌%◌, ◌/◌, ◌<◌, ◌≡◌, ◌≢◌, subst, List, [], ◌∷◌, some, get_elem?, arith,
}
use hotload.Internal.NonRandomReader.{NonRandomReader, new_non_random_reader, advance, read}

-- The byte at place `i` of the sequence: set `i / 256` starts at `start + i / 256`.
abbrev pub byte_at : ℕ → ℕ → ℕ
byte_at start i = (start + i / 256 + i % 256) % 256

-- The reader stands at place `i`.
pub record At (start i : ℕ) (r : NonRandomReader) : Type 0 where
  pub next_eq : r.next_val ≡ byte_at start i
  pub counter_eq : r.counter ≡ i % 256

advance-At : (start i : ℕ) (r : NonRandomReader) → At start i r → At start (suc i) (advance r)
unfolding advance
advance-At start i r a = ground arith

new-At : (start : ℕ) → At start 0 (new_non_random_reader start)
unfolding new_non_random_reader
new-At start = ground arith

moved : (start i j : ℕ) (r : NonRandomReader) → i ≡ j → At start i r → At start j r
moved start i j r e a = subst (λ k. At start k r) e a

read-At : (start i n : ℕ) (r : NonRandomReader) → At start i r → At start (i + n) (read r n).0
unfolding read
read-At start i zero r a = moved start i (i + 0) r (omega arith) a
read-At start i (suc n) r a =
    moved start (suc i + n) (i + suc n) (read r (suc n)).0 (omega arith)
      (read-At start (suc i) n (advance r) (advance-At start i r a))

read-get_elem? :
    (start i n k : ℕ) (r : NonRandomReader)
    → At start i r
    → k < n
    → get_elem? (read r n).1 k ≡ some (byte_at start (i + k))
unfolding read
read-get_elem? start i zero k r a l = ground arith
read-get_elem? start i (suc n) zero r a l = ground arith
read-get_elem? start i (suc n) (suc k) r a l =
    ground
      (arith, read-get_elem? start (suc i) n k (advance r) (advance-At start i r a) (omega arith))

-- The reader after reads of buffers of these lengths.
abbrev pub read_all : NonRandomReader → List ℕ → NonRandomReader
read_all r [] = r
read_all r (n ∷ ns) = read_all (read r n).0 ns

abbrev pub total : List ℕ → ℕ
total [] = 0
total (n ∷ ns) = n + total ns

read_all-At :
    (start i : ℕ) (ns : List ℕ) (r : NonRandomReader)
    → At start i r
    → At start (i + total ns) (read_all r ns)
read_all-At start i [] r a = moved start i (i + 0) r (omega arith) a
read_all-At start i (n ∷ ns) r a =
    moved start (i + n + total ns) (i + (n + total ns)) (read_all r (n ∷ ns)) (omega arith)
      (read_all-At start (i + n) ns (read r n).0 (read-At start i n r a))

fresh-At :
    (start : ℕ) (ns : List ℕ) → At start (total ns) (read_all (new_non_random_reader start) ns)
fresh-At start ns =
    moved start (0 + total ns) (total ns) (read_all (new_non_random_reader start) ns) (omega arith)
      (read_all-At start 0 ns _ (new-At start))

-- However the bytes before were split into reads, byte `k` of the next buffer is the byte of the
-- sequence at the number of bytes read before plus `k`.
pub read-sequence :
    (start n k : ℕ) (ns : List ℕ)
    → k < n
    → get_elem? (read (read_all (new_non_random_reader start) ns) n).1 k
      ≡ some (byte_at start (total ns + k))
read-sequence start n k ns l = read-get_elem? start (total ns) n k _ (fresh-At start ns) l

-- After any multiple of 65,536 bytes, in any reads, the reader is as new.
pub read_all-period :
    (start m : ℕ) (ns : List ℕ)
    → total ns ≡ m * 65536
    → read_all (new_non_random_reader start) ns ≡ new_non_random_reader start
unfolding new_non_random_reader
read_all-period start m ns e =
    let a = fresh-At start ns in ground (arith, a.next_eq, a.counter_eq, e)

byte_at-distinct :
    (start u v : ℕ) → u < v → v < 256 → byte_at start (16 * u) ≢ byte_at start (16 * v)
byte_at-distinct start u v l b e = omega arith

-- The first 256 blocks of 16 bytes, each enough for a uuid, start with different bytes.
pub read-distinct :
    (start u v : ℕ)
    → u < v
    → v < 256
    → let bytes = (read (new_non_random_reader start) 4096).1 in
      get_elem? bytes (16 * u) ≢ get_elem? bytes (16 * v)
read-distinct start u v l b e =
    let first = read-get_elem? start 0 4096 (16 * u) _ (new-At start) (omega arith) in
    let second = read-get_elem? start 0 4096 (16 * v) _ (new-At start) (omega arith) in
    byte_at-distinct start u v l b (ground (arith, first, second, e))
