-- ===== src/Internal/SafeMapFs.antt =====
-- internal/safe_mapfs.go: a map of files behind a lock, over a heap of files. The lock is held for
-- the whole of each operation.
pub mod Client
pub mod View
mod Tests
use hotload.Prelude.{
  ℕ, suc, String, Option, none, some, List, [], lookup, insert, erase, update, if◌then◌else◌,
}
use mathlib.Core.Option
use hotload.State.{Result, ok, err}
use hotload.Text.{clean, trim_space}
use hotload.ModTime.{unrooted}

-- fstest.MapFile: `contents` is the array that the slice points to, and `info` all else.
pub record MapFile : Type 0 where
  pub contents : ℕ
  pub info : ℕ

-- ErrDuplicatePath and ErrPathNotFound
pub data FsError : Type 0 where
  duplicate_path path_not_found : FsError

-- `map_fs` holds pointers to files of the heap.
pub record SafeMapFs : Type 0 where
  pub map_fs : List (String × ℕ)
  pub heap : ℕ → MapFile
  pub next : ℕ

unfoldable pub new_safe_map_fs : (ℕ → MapFile) → ℕ → SafeMapFs
new_safe_map_fs heap next = record { map_fs = []; heap = heap; next = next }

-- `&file`
unfoldable pub allocate : SafeMapFs → MapFile → SafeMapFs × ℕ
allocate s file = (record s { heap = update s.heap s.next file; next = suc s.next }, s.next)

-- `UnrootedPath`
unfoldable pub unrooted_path : String → String
unrooted_path path_str = unrooted (clean (trim_space path_str))

unfoldable pub add_map_file : SafeMapFs → String → ℕ → SafeMapFs × Option FsError
unfolding lookup insert
add_map_file s path_str mapf = elim (lookup (unrooted_path path_str) s.map_fs) [
  | some p ↦ (s, some duplicate_path)
  | none ↦ (record s { map_fs = insert (unrooted_path path_str) mapf s.map_fs }, none)
]

-- It never reports an error.
unfoldable pub upsert_map_file : SafeMapFs → String → ℕ → SafeMapFs
unfolding insert
upsert_map_file s path_str mapf = record s {
  map_fs = insert (unrooted_path path_str) mapf s.map_fs;
}

-- The pointer to a fresh copy, or `none` with ErrPathNotFound.
unfoldable pub get_map_file : SafeMapFs → String → SafeMapFs × Option ℕ
unfolding lookup allocate
get_map_file s path_str = elim (lookup (unrooted_path path_str) s.map_fs) [
  | none ↦ (s, none)
  | some p ↦ let (t, copy) = allocate s (s.heap p) in (t, some copy)
]

-- The pointer that was stored, or `none` with ErrPathNotFound.
unfoldable pub remove_map_file : SafeMapFs → String → SafeMapFs × Option ℕ
unfolding lookup erase
remove_map_file s path_str = elim (lookup (unrooted_path path_str) s.map_fs) [
  | none ↦ (s, none)
  | some p ↦ (record s { map_fs = erase (unrooted_path path_str) s.map_fs }, some p)
]

-- What fstest.MapFS sees of the map: the file under each path.
abbrev pub Files : Type 0
Files = String → Option MapFile

abbrev pub view : SafeMapFs → Files
view s k = Option.map s.heap (lookup k s.map_fs)

-- `Glob`, `Open`, `ReadDir`, `ReadFile`, `Stat` and `Sub` each call the method of fstest.MapFS of
-- their name, which is the argument, with the string as it is. What Sub answers goes on to read the
-- map later, without the lock.
unfoldable pub forward : {A : Type 0} → (Files → String → A) → SafeMapFs → String → A
forward method s name = method (view s) name
