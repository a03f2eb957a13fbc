-- ===== src/PathChksum/Scraping.antt =====
-- When the gauge of a path moves.
use hotload.Prelude.{ℕ, ◌≡◌, refl, true, List, [], ◌∷◌, ◌==◌, arith, if◌then◌else◌, ◌++◌}
use hotload.State.{Error, Result, ok, err}
use hotload.PathChksum.{ChksumRecord, scrape}

-- Scrapes one after another: what the hasher answered, and when.
unfoldable pub scrapes : ChksumRecord → List (Result ℕ × ℕ) → ChksumRecord
unfolding scrape
scrapes r [] = r
scrapes r ((hash, now) ∷ rest) = scrapes (scrape true r hash now).0 rest

-- Scrapes that fail.
abbrev pub failures : List (Error × ℕ) → List (Result ℕ × ℕ)
failures [] = []
failures ((e, now) ∷ rest) = (err e, now) ∷ failures rest

scrapes-failures : (r : ChksumRecord) (fs : List (Error × ℕ)) → scrapes r (failures fs) ≡ r
unfolding scrapes
scrapes-failures r [] = refl
scrapes-failures r (f ∷ fs) = scrapes-failures r fs

scrapes-append :
    (r : ChksumRecord) (xs ys : List (Result ℕ × ℕ))
    → scrapes r (xs ++ ys) ≡ scrapes (scrapes r xs) ys
unfolding scrapes
scrapes-append r [] ys = refl
scrapes-append r (x ∷ xs) ys = scrapes-append (scrape true r x.0 x.1).0 xs ys

scrape-crc64 : (r : ChksumRecord) (sum now : ℕ) → (scrape true r (ok sum) now).0.crc64 ≡ sum
unfolding scrape
scrape-crc64 r sum now = ground arith

-- After any scrapes, a checksum that is read, failing scrapes, and a checksum that is read once more,
-- the gauge reports the time of the last one if the two differ, and what it reported after the first
-- if they are the same.
pub scrape-moves :
    (r : ChksumRecord) (before : List (Result ℕ × ℕ)) (sum earlier : ℕ) (fs : List (Error × ℕ))
    (sum' now : ℕ)
    → let first = scrape true (scrapes r before) (ok sum) earlier in
      let last =
        scrape true (scrapes r (before ++ ((ok sum, earlier) ∷ failures fs))) (ok sum') now in
      (last.1 ≡ (if sum == sum' then first.1 else now)) × (last.0.crc64 ≡ sum')
unfolding scrapes scrape
scrape-moves r before sum earlier fs sum' now =
    let first = (scrape true (scrapes r before) (ok sum) earlier).0 in
    ground
      (arith, scrapes-append r before ((ok sum, earlier) ∷ failures fs), scrapes-failures first fs)
