-- ===== src/Examples/Reads.antt =====
-- Paths, listings, walks and the cache, run on a small repository.
use remotish.Shared.{
  text, text_eq, any_of, lookup, insert, ok, and_then, none, some, List, [], ◌∷◌, ◌++◌, true, ◌≡◌,
  refl, contains, arith, drop, ℕ, add, ◌≤◌, inl, ◌↔◌, delete,
}
use remotish.Sdk.{DirectoryEntry, file, directory}
use remotish.Paths.{normalize_repo_path}
use remotish.Paths.Segments.{IsNormalOf, normalize_repo_path_iff}
use remotish.RevisionCache
use remotish.RevisionCache.{
  RevisionCache, CacheEntry, Cached, new_cache, set_entry, drop_previous, is_zero_limit, key,
  evict_to_budget, evict_oldest, over_budget, estimate_key_weight,
}
use remotish.RevisionCache.Bounds.{IsBounded}
use remotish.RevisionCache.Retention.{set_entry-newest, get_file-set_file, Used, Used-IsBounded}
use remotish.Repository.{
  read_file, read_directory, stat, stat_of, validate_directory_entries, validate_entries,
  validate_entry, read_name, read_type, read_size, is_not_segment, is_not_canonical, child_path,
  walk_from, walk, walk_entries, enter_entry, note_entry, visit, takes_files, array,
}
use remotish.Repository.Entries.{IsListing, validate-IsListing, stat-Listed}
use remotish.Repository.Walk.{Reaches, walk_from-Reaches}
use remotish.Repository.Reader.{cached_read_file, cached_read_directory}
use remotish.Repository.Transparency.{Agrees, cached_read_file_lem, cached_read_directory_lem}
use remotish.Examples.{sample_adapter, raw_file}

normalize_path : normalize_repo_path (text "/d\\b/") ≡ ok (text "d/b")
unfolding normalize_repo_path
normalize_path = refl

normalize_repo_path_iff_example :
    (normalize_repo_path (text "/d\\b/") ≡ ok (text "d/b"))
    ↔ IsNormalOf (text "/d\\b/") (text "d/b")
normalize_repo_path_iff_example = normalize_repo_path_iff (text "/d\\b/") (text "d/b")

abbrev listed_b : DirectoryEntry
listed_b = record { name = text "b"; path = text "d/b"; type = file; size = none }

abbrev listed_root : List DirectoryEntry
listed_root =
    record { name = text "a"; path = text "a"; type = file; size = none }
    ∷ record { name = text "d"; path = text "d"; type = directory; size = none }
    ∷ []

validate_d :
    validate_directory_entries (text "d") (array (raw_file (text "b") ∷ [])) ≡ ok (listed_b ∷ [])
unfolding validate_directory_entries validate_entries validate_entry read_name read_type read_size
    is_not_segment is_not_canonical child_path any_of text_eq normalize_repo_path contains add
validate_d = refl

validate-IsListing_example : IsListing (text "d") [] (listed_b ∷ []) × (1 ≤ 50000)
validate-IsListing_example =
    validate-IsListing (text "d") (array (raw_file (text "b") ∷ [])) (listed_b ∷ []) validate_d

read_d : read_directory sample_adapter (text "r") (text "d") ≡ ok (listed_b ∷ [])
unfolding read_directory text_eq
read_d = validate_d

stat-Listed_example : stat sample_adapter (text "r") (text "d/b") ≡ ok (stat_of listed_b)
stat-Listed_example =
    stat-Listed sample_adapter (text "r") (text "d") (listed_b ∷ []) listed_b read_d (inl refl)

read_root : read_directory sample_adapter (text "r") [] ≡ ok listed_root
unfolding read_directory text_eq validate_directory_entries validate_entries validate_entry
    read_name read_type read_size is_not_segment is_not_canonical child_path any_of
    normalize_repo_path contains add
read_root = refl

walk_root :
    walk_from takes_files (read_directory sample_adapter (text "r")) []
    ≡ ok (text "a" ∷ text "d/b" ∷ [])
unfolding walk_from walk walk_entries enter_entry note_entry visit read_directory text_eq
    validate_directory_entries validate_entries validate_entry read_name read_type read_size
    is_not_segment is_not_canonical child_path any_of normalize_repo_path contains add
walk_root = refl

walk_from-Reaches_example :
    (contains (text "d/b") (text "a" ∷ text "d/b" ∷ []) ≡ true)
    ↔ Reaches takes_files (read_directory sample_adapter (text "r")) [] (text "d/b")
walk_from-Reaches_example =
    walk_from-Reaches takes_files (read_directory sample_adapter (text "r")) [] (text "d/b")
      (text "a" ∷ text "d/b" ∷ []) walk_root

abbrev new : RevisionCache
new = new_cache 1000 (some 1)

abbrev read_through : RevisionCache
read_through = (cached_read_file sample_adapter (text "r") (text "a") new).1

new-Used : Used 1000 (some 1) new
new-Used = Used.fresh

new-Agrees : Agrees sample_adapter new
unfolding lookup
new-Agrees = record { bounded = Used-IsBounded new-Used; true_values = λ r p e n h. absurd cc }

cached_read_file_example :
    ((cached_read_file sample_adapter (text "r") (text "/a") new).0
      ≡ and_then (normalize_repo_path (text "/a")) (read_file sample_adapter (text "r")))
    × Agrees sample_adapter (cached_read_file sample_adapter (text "r") (text "/a") new).1
unfolding any_of
cached_read_file_example =
    cached_read_file_lem sample_adapter (text "r") refl (text "/a") new new-Agrees

cached_read_directory_example :
    ((cached_read_directory sample_adapter (text "r") (text "d") read_through).0
      ≡ and_then (normalize_repo_path (text "d")) (read_directory sample_adapter (text "r")))
    × Agrees sample_adapter
        (cached_read_directory sample_adapter (text "r") (text "d") read_through).1
unfolding any_of
cached_read_directory_example =
    cached_read_directory_lem sample_adapter (text "r") refl (text "d") read_through
      (cached_read_file_lem sample_adapter (text "r") refl (text "a") new new-Agrees).1

abbrev one_file : RevisionCache
one_file = RevisionCache.set_file (text "r") (text "a") (1 ∷ []) new

abbrev new_entry : CacheEntry
new_entry = record { value = Cached.file (2 ∷ []); weight = 75 }

one_file-Used : Used 1000 (some 1) one_file
one_file-Used = Used.set_file (text "r") (text "a") (1 ∷ []) Used.fresh

Used-IsBounded_example : IsBounded one_file
Used-IsBounded_example = Used-IsBounded one_file-Used

set_entry-newest_example :
    (n : ℕ) × ((set_entry (key (text "r") (text "d/b")) new_entry one_file).entries
      ≡ drop n (delete (key (text "r") (text "d/b")) one_file.entries)
        ++ (key (text "r") (text "d/b"), new_entry) ∷ [])
unfolding RevisionCache.set_file set_entry drop_previous is_zero_limit evict_to_budget evict_oldest
    over_budget key lookup insert text_eq
set_entry-newest_example =
    set_entry-newest (key (text "r") (text "d/b")) new_entry one_file (Used-IsBounded one_file-Used)
      refl

get_file-set_file_example :
    (RevisionCache.get_file
      (text "r")
      (text "d/b")
      (RevisionCache.set_file (text "r") (text "d/b") (2 ∷ []) one_file)).0
    ≡ some (2 ∷ [])
unfolding RevisionCache.set_file set_entry drop_previous is_zero_limit evict_to_budget evict_oldest
    over_budget key lookup insert text_eq estimate_key_weight
get_file-set_file_example =
    get_file-set_file (text "r") (text "d/b") one_file (2 ∷ []) (Used-IsBounded one_file-Used)
      (omega arith) (λ e. omega (arith, e)) (λ e. cc)
