-- ===== src/PathChksum/Tests.antt =====
-- A set of paths with checksums enabled, and scrapes of one of them.
use hotload.Prelude.{
  ◌≡◌, refl, ◌↔◌, String, true, List, [], ◌∷◌, ◌==◌, In, IsDistinct, if◌then◌else◌,
}
use hotload.State.{ok, bad_conn}
use hotload.Text.{clean}
use hotload.PathChksum.{ChksumRecord, new_path_chksum, is_enabled, clean_path, scrape}
use hotload.PathChksum.Scraping.{scrapes, failures, scrape-moves}
use hotload.PathChksum.Adding.{add_paths, add_paths-labels}

enabled_by_yes : is_enabled " Yes " ≡ true
unfolding is_enabled
enabled_by_yes = refl

abbrev some_paths : List String
some_paths = "/a/" ∷ "/b" ∷ " /a" ∷ []

add_paths-labels_example :
    let s = add_paths (new_path_chksum "true") some_paths in
    IsDistinct s.registered
    × (In "/a" s.registered
        ↔ ((is_enabled "true" ≡ true) × ((p : String) × In p some_paths × ("/a" ≡ clean_path p))))
add_paths-labels_example = add_paths-labels "true" some_paths "/a"

two_labels : (add_paths (new_path_chksum "true") some_paths).registered ≡ "/b" ∷ "/a" ∷ []
unfolding add_paths new_path_chksum is_enabled clean
two_labels = refl

abbrev one_record : ChksumRecord
one_record = record { path = "/a"; crc64 = 0; last_changed = 0 }

scrape-moves_example :
    let first = scrape true (scrapes one_record []) (ok 5) 10 in
    let last =
      scrape true (scrapes one_record ((ok 5, 10) ∷ failures ((bad_conn, 11) ∷ []))) (ok 6) 12 in
    (last.1 ≡ (if 5 == 6 then first.1 else 12)) × (last.0.crc64 ≡ 6)
scrape-moves_example = scrape-moves one_record [] 5 10 ((bad_conn, 11) ∷ []) 6 12
