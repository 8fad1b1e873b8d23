-- ===== src/Profile/Manifest/Examples.antt =====
-- Concrete manifests, with the theorem at one.
use browserserve.Common.{true, none, some, List, [], ◌∷◌, length, ◌≡◌, refl, ◌⊎◌}
use browserserve.Common.Result.{ok, err}
use browserserve.Common.Text.{Bytes, codes, equal}
use browserserve.Profile.Manifest.{
  split_slashes, later_components, components, FilePath, push_all, safe_join, ManifestEntry,
  ExtractError, io_failed, FileAnswer, stores, breaks_off, extract_from, extract_into,
}
use browserserve.Profile.Manifest.Beneath.{AllBeneath, extract_into-AllBeneath}

abbrev root : FilePath
root = codes "p" ∷ []

-- A dot in the middle is left out, and two dots are refused wherever they stand.
safe_join_dot :
    safe_join root (codes "a/./b//c") ≡ some (codes "p" ∷ codes "a" ∷ codes "b" ∷ codes "c" ∷ [])
unfolding safe_join components split_slashes later_components push_all equal
safe_join_dot = refl

safe_join_up : safe_join root (codes "a/../../b") ≡ none
unfolding safe_join components split_slashes later_components push_all equal
safe_join_up = refl

safe_join_absolute : safe_join root (codes "/etc") ≡ none
unfolding safe_join
safe_join_absolute = refl

abbrev entries : List ManifestEntry
entries =
    record { path = codes "a/b"; bytes = 1 ∷ [] } ∷ record { path = codes ".."; bytes = [] } ∷ []

-- The second file is cut off.
abbrev files : List (FilePath × Bytes) → FilePath → FileAnswer
files [] path = stores
files (w ∷ written) path = breaks_off 1

cut_off :
    extract_into files root true (
      record { path = codes "a"; bytes = 1 ∷ [] }
      ∷ record { path = codes "b"; bytes = 2 ∷ 3 ∷ [] }
      ∷ [])
    ≡ (
      err io_failed,
      (codes "p" ∷ codes "a" ∷ [], 1 ∷ []) ∷ (codes "p" ∷ codes "b" ∷ [], 2 ∷ []) ∷ [],
    )
unfolding extract_into extract_from safe_join components split_slashes later_components push_all
    equal
cut_off = refl

extract_into-AllBeneath_example :
    AllBeneath root (extract_into files root true entries).1
    × (((extract_into files root true entries).0 ≡ ok (length entries))
          × (length (extract_into files root true entries).1 ≡ length entries)
        ⊎ ((e : ExtractError) × ((extract_into files root true entries).0 ≡ err e)))
extract_into-AllBeneath_example = extract_into-AllBeneath files root true entries
