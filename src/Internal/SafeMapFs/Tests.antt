-- ===== src/Internal/SafeMapFs/Tests.antt =====
-- A file that is added, read, replaced and removed.
use hotload.Prelude.{ℕ, ◌≡◌, refl, String, Option, none, List, [], ◌∷◌}
use hotload.Text.{clean, trim_space}
use hotload.ModTime.{unrooted}
use hotload.Internal.SafeMapFs.{
  MapFile, Files, forward, duplicate_path, path_not_found, new_safe_map_fs, unrooted_path,
}
use hotload.Internal.SafeMapFs.View.{perform_all-refines}
use hotload.Internal.SafeMapFs.Client.{
  Op, perform_last, spec_last, adds, upserts, gets, removes, failed, done, file, perform_all, spec,
  spec_all,
}

abbrev first_file : MapFile
first_file = record { contents = 1; info = 0 }

abbrev second_file : MapFile
second_file = record { contents = 2; info = 0 }

abbrev calls : List Op
calls =
    adds "/a" first_file
    ∷ adds "a/" second_file
    ∷ gets "/a"
    ∷ upserts "/a" second_file
    ∷ gets " /a"
    ∷ removes "/a"
    ∷ gets "/a"
    ∷ []

abbrev empty_heap : ℕ → MapFile
empty_heap p = first_file

-- fstest.MapFS's Stat, say, which answers with the file itself.
abbrev stat_method : Files → String → Option MapFile
stat_method m name = m name

perform_all-refines_example :
    (perform_all (new_safe_map_fs empty_heap 0) calls ≡ spec_all (λ k. none) calls)
    × (forward stat_method (perform_last (new_safe_map_fs empty_heap 0) calls) "a"
        ≡ stat_method (spec_last (λ k. none) calls) "a")
perform_all-refines_example = perform_all-refines empty_heap 0 calls stat_method "a"

answers :
    spec_all (λ k. none) calls
    ≡ done
      ∷ failed duplicate_path
      ∷ file first_file
      ∷ done
      ∷ file second_file
      ∷ file second_file
      ∷ failed path_not_found
      ∷ []
unfolding spec_all spec unrooted_path unrooted clean trim_space
answers = refl
