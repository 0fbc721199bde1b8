-- ===== src/RevisionCache.antt =====
-- packages/core/src/repository/revision-cache.ts: the class `RevisionCache`. Entries stand in the
-- order of use, the oldest first. Paths are canonical (see Paths); byte counts are integers.
pub mod Bounds
pub mod Retention
pub mod Contents
use remotish.Shared.{
  Text, Bytes, Dict, lookup, insert, delete, Option, none, some, List, [], ◌∷◌, ◌++◌, Bool, ◌||◌,
  false, ltb, ◌==◌, if◌then◌else◌, length, ℕ, zero, ◌+◌, ◌-◌, ◌*◌,
}
use remotish.Sdk.{DirectoryEntry}

pub data Cached : Type 0 where
  file : Bytes → Cached
  directory : List DirectoryEntry → Cached

pub record CacheEntry : Type 0 where
  pub value : Cached
  pub weight : ℕ

pub record RevisionCache : Type 0 where
  pub entries : Dict CacheEntry
  pub max_bytes : ℕ
  pub max_entries : Option ℕ
  pub retained_bytes : ℕ

abbrev pub new_cache : ℕ → Option ℕ → RevisionCache
new_cache max_bytes max_entries = record {
  entries = [];
  max_bytes = max_bytes;
  max_entries = max_entries;
  retained_bytes = 0;
}

-- `${revision}\u0000${path}`
unfoldable pub key : Text → Text → Text
key revision path = revision ++ 0 ∷ path

unfoldable pub estimate_key_weight : Text → ℕ
estimate_key_weight value = 64 + length value * 2

unfoldable pub estimate_directory_weight : List DirectoryEntry → ℕ
estimate_directory_weight [] = 64
estimate_directory_weight (e ∷ es) =
    96 + length e.name * 2 + length e.path * 2 + estimate_directory_weight es

unfoldable pub over_budget : RevisionCache → ℕ → ℕ → Bool
over_budget c retained size =
    ltb c.max_bytes retained || (elim c.max_entries [ none ↦ false | some n ↦ ltb n size ])

-- The loop of `evictToBudget`: the oldest entry goes while the rest is over the budget.
unfoldable pub evict_oldest : RevisionCache → Dict CacheEntry → ℕ → Dict CacheEntry × ℕ
evict_oldest c [] retained = ([], retained)
evict_oldest c ((k, e) ∷ m) retained =
    let rest = evict_oldest c m (retained - e.weight) in
    if over_budget c retained (length ((k, e) ∷ m)) then rest else ((k, e) ∷ m, retained)

unfoldable pub evict_to_budget : RevisionCache → RevisionCache
evict_to_budget c =
    let (entries, retained) = evict_oldest c c.entries c.retained_bytes in
    record c { entries = entries; retained_bytes = retained }

-- A hit becomes the newest entry.
unfoldable pub get_entry : Text → RevisionCache → Option CacheEntry × RevisionCache
get_entry k c = elim (lookup k c.entries) [
  | none ↦ (none, c)
  | some e ↦ (some e, record c { entries = insert k e (delete k c.entries) })
]

unfoldable pub drop_previous : Text → RevisionCache → RevisionCache
drop_previous k c = elim (lookup k c.entries) [
  | none ↦ c
  | some e ↦ record c { entries = delete k c.entries; retained_bytes = c.retained_bytes - e.weight }
]

unfoldable pub is_zero_limit : Option ℕ → Bool
is_zero_limit none = false
is_zero_limit (some n) = n == 0

unfoldable pub set_entry : Text → CacheEntry → RevisionCache → RevisionCache
set_entry k e c =
    let c' = drop_previous k c in
    if c'.max_bytes == 0 || ltb c'.max_bytes e.weight || is_zero_limit c'.max_entries
    then c'
    else evict_to_budget (record c' {
      entries = insert k e c'.entries;
      retained_bytes = c'.retained_bytes + e.weight;
    })

abbrev pub file_value : Option CacheEntry → Option Bytes
file_value none = none
file_value (some e) = elim e.value [ file bytes ↦ some bytes | directory entries ↦ none ]

abbrev pub directory_value : Option CacheEntry → Option (List DirectoryEntry)
directory_value none = none
directory_value (some e) = elim e.value [ file bytes ↦ none | directory entries ↦ some entries ]

unfoldable pub get_file : Text → Text → RevisionCache → Option Bytes × RevisionCache
get_file revision path c =
    let (entry, c') = get_entry (key revision path) c in (file_value entry, c')

unfoldable pub set_file : Text → Text → Bytes → RevisionCache → RevisionCache
unfolding estimate_key_weight
set_file revision path content =
    let k = key revision path in
    set_entry k (record { value = file content; weight = estimate_key_weight k + length content })

unfoldable pub get_directory :
    Text → Text → RevisionCache → Option (List DirectoryEntry) × RevisionCache
get_directory revision path c =
    let (entry, c') = get_entry (key revision path) c in (directory_value entry, c')

unfoldable pub set_directory : Text → Text → List DirectoryEntry → RevisionCache → RevisionCache
unfolding estimate_key_weight estimate_directory_weight
set_directory revision path entries =
    let k = key revision path in
    set_entry k (record {
      value = directory entries;
      weight = estimate_key_weight k + estimate_directory_weight entries;
    })

unfoldable pub clear : RevisionCache → RevisionCache
clear c = record c { entries = []; retained_bytes = 0 }
