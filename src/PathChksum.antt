-- ===== src/PathChksum.antt =====
-- metrics/pathchksum_metrics.go: checksums of watched files and when they last changed. The lock is
-- held for the whole of addPath.
pub mod Scraping
pub mod Adding
mod Tests
use Prim.Native.Char.{code}
use hotload.Prelude.{
  ℕ, ◌+◌, String, Bool, true, false, ◌&&◌, ◌||◌, Option, none, some, List, [], ◌∷◌, map, leb, ◌==◌,
  lookup, insert, if◌then◌else◌,
}
use hotload.State.{Result, ok, err}
use hotload.Text.{clean, trim_space}

pub record ChksumRecord : Type 0 where
  pub path : String
  pub crc64 : ℕ
  pub last_changed : ℕ

-- `registered` lists the labels given to HotloadPathChksumTimestampSecondsGaugeFuncVec, newest
-- first. Its MustRegister panics for a label that it has.
pub record PathChksum : Type 0 where
  pub enabled : Bool
  pub paths : List (String × ChksumRecord)
  pub registered : List String

-- `strings.ToLower` on the letters of ASCII. No other code point has one of the letters of "true"
-- and "yes" as its lower case.
abbrev lower : ℕ → ℕ
lower c = if leb b'A' c && leb c b'Z' then c + 32 else c

abbrev pub codes : String → List ℕ
codes String.[] = []
codes (String.◌∷◌ c s) = code c ∷ codes s

unfoldable pub codes_eq : List ℕ → List ℕ → Bool
codes_eq [] [] = true
codes_eq [] (d ∷ t) = false
codes_eq (c ∷ s) [] = false
codes_eq (c ∷ s) (d ∷ t) = c == d && codes_eq s t

unfoldable pub is_enabled : String → Bool
unfolding codes_eq trim_space
is_enabled env =
    let enabled_str = map lower (codes (trim_space env)) in
    codes_eq enabled_str (codes "1")
    || codes_eq enabled_str (codes "true")
    || codes_eq enabled_str (codes "yes")

-- `newPathChksum`, with the value of HOTLOAD_PATH_CHKSUM_METRICS_ENABLE. Its hasher is not nil.
unfoldable pub new_path_chksum : String → PathChksum
unfolding is_enabled
new_path_chksum env = record { enabled = is_enabled env; paths = []; registered = [] }

-- `DefaultFileHasher`, over what reading the file answers and the checksum of Go's crc64.
unfoldable pub default_file_hasher : (String → ℕ) → Result String → Result ℕ
default_file_hasher checksum (ok bytes) = ok (checksum bytes)
default_file_hasher checksum (err e) = err e

-- `CleanPath`
abbrev pub clean_path : String → String
clean_path path_str = clean (trim_space path_str)

-- `addPath`; the flag is whether it answers ErrDuplicatePath.
unfoldable pub add_path : PathChksum → String → PathChksum × Bool
unfolding lookup insert
add_path s path_str =
    if s.enabled
    then elim (lookup (clean_path path_str) s.paths) [
      | some r ↦ (s, true)
      | none ↦
          let r : ChksumRecord = record {
            path = clean_path path_str;
            crc64 = 0;
            last_changed = 0;
          } in
          (
            record s {
              paths = insert (clean_path path_str) r s.paths;
              registered = clean_path path_str ∷ s.registered;
            },
            false,
          )
    ]
    else (s, false)

-- The gauge's function, scraperFn, on its record: what the hasher answers, and the time. The value
-- that it reports is `last_changed` of the record that it leaves, or 0 if checksums are disabled.
unfoldable pub scrape : Bool → ChksumRecord → Result ℕ → ℕ → ChksumRecord × ℕ
scrape false r hash now = (r, 0)
scrape true r (err e) now = (r, r.last_changed)
scrape true r (ok new_crc64) now =
    if r.crc64 == new_crc64
    then (r, r.last_changed)
    else (record r { crc64 = new_crc64; last_changed = now }, now)
