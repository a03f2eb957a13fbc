-- ===== src/Internal/SafeMapFs/Client.antt =====
-- internal/safe_mapfs.go: a client's calls in sequence, and what a map from paths to files answers.
use hotload.Prelude.{ℕ, String, Option, none, some, List, [], ◌∷◌, str_eq, if◌then◌else◌}
use hotload.Internal.SafeMapFs.{
  SafeMapFs, MapFile, Files, FsError, duplicate_path, path_not_found, allocate, unrooted_path,
  add_map_file, upsert_map_file, get_map_file, remove_map_file,
}

-- A client's call. Files are given as fresh values.
pub data Op : Type 0 where
  adds upserts : String → MapFile → Op
  gets removes : String → Op

-- What a call answers: an error or nothing, or a file.
pub data Answer : Type 0 where
  failed : FsError → Answer
  done : Answer
  file : MapFile → Answer

answer_file : SafeMapFs → Option ℕ → Answer
answer_file s none = failed path_not_found
answer_file s (some p) = file (s.heap p)

answer_error : Option FsError → Answer
answer_error none = done
answer_error (some e) = failed e

unfoldable pub perform : SafeMapFs → Op → SafeMapFs × Answer
unfolding allocate add_map_file upsert_map_file get_map_file remove_map_file answer_file
    answer_error
perform s (adds p f) =
    let (s', ptr) = allocate s f in let (t, e) = add_map_file s' p ptr in (t, answer_error e)
perform s (upserts p f) = let (s', ptr) = allocate s f in (upsert_map_file s' p ptr, done)
perform s (gets p) = let (t, r) = get_map_file s p in (t, answer_file t r)
perform s (removes p) = let (t, r) = remove_map_file s p in (t, answer_file t r)

unfoldable pub perform_all : SafeMapFs → List Op → List Answer
perform_all s [] = []
perform_all s (o ∷ os) = (perform s o).1 ∷ perform_all (perform s o).0 os

-- The specification: a function from unrooted paths to files.
abbrev pub put : Files → String → Option MapFile → Files
put m k v j = if str_eq k j then v else m j

unfoldable pub spec : Files → Op → Files × Answer
spec m (adds p f) = elim (m (unrooted_path p)) [
  | some g ↦ (m, failed duplicate_path)
  | none ↦ (put m (unrooted_path p) (some f), done)
]
spec m (upserts p f) = (put m (unrooted_path p) (some f), done)
spec m (gets p) = elim (m (unrooted_path p)) [
  | none ↦ (m, failed path_not_found)
  | some f ↦ (m, file f)
]
spec m (removes p) = elim (m (unrooted_path p)) [
  | none ↦ (m, failed path_not_found)
  | some f ↦ (put m (unrooted_path p) none, file f)
]

unfoldable pub perform_last : SafeMapFs → List Op → SafeMapFs
unfolding perform
perform_last s [] = s
perform_last s (o ∷ os) = perform_last (perform s o).0 os

unfoldable pub spec_last : Files → List Op → Files
unfolding spec
spec_last m [] = m
spec_last m (o ∷ os) = spec_last (spec m o).0 os

unfoldable pub spec_all : Files → List Op → List Answer
spec_all m [] = []
spec_all m (o ∷ os) = (spec m o).1 ∷ spec_all (spec m o).0 os
