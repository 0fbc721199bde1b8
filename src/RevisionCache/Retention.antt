-- ===== src/RevisionCache/Retention.antt =====
-- packages/core/src/repository/revision-cache.ts: what a `RevisionCache` keeps.
use remotish.Shared.{
  Text, Bytes, text_eq_refl, Dict, lookup, Option, none, some, List, [], ◌∷◌, ◌++◌, false, ltb,
  length, drop, ℕ, zero, suc, ◌+◌, ◌-◌, ◌≤◌, ◌≡◌, ◌≢◌, refl, arith, Bool-cases, inl, inr, delete,
}
use remotish.Sdk.{DirectoryEntry}
use remotish.RevisionCache
use remotish.RevisionCache.{
  CacheEntry, RevisionCache, Cached, new_cache, over_budget, evict_oldest, get_entry, set_entry,
  is_zero_limit, key, estimate_key_weight, evict_to_budget,
}
use remotish.RevisionCache.Bounds.{
  IsBounded, total, evict_over, evict_within, get_entry_hit, is_refused, set_entry-eq,
  lookup-delete_self, set_entry-IsBounded, get_entry-IsBounded, with_new,
}

fits_alone :
    (c : RevisionCache) (e : CacheEntry)
    → ltb c.max_bytes e.weight ≡ false
    → is_zero_limit c.max_entries ≡ false
    → over_budget c e.weight 1 ≡ false
unfolding over_budget is_zero_limit
fits_alone c e h z = ground arith

-- The eviction keeps a newest part of the entries, with the last one in it.
evict_oldest_last :
    (c : RevisionCache) (m : Dict CacheEntry) (k : Text) (e : CacheEntry) (retained : ℕ)
    → over_budget c e.weight 1 ≡ false
    → retained ≡ total m + e.weight
    → (n : ℕ) × ((evict_oldest c (m ++ (k, e) ∷ []) retained).0 ≡ drop n m ++ (k, e) ∷ [])
evict_oldest_last c [] k e retained fits h =
    let same : retained ≡ e.weight = omega arith in
    (0, rw (evict_within c k e [] retained (rw same fits)))
evict_oldest_last c ((j, f) ∷ m) k e retained fits h =
    elim (Bool-cases (over_budget c retained (length ((j, f) ∷ (m ++ (k, e) ∷ []))))) [
      | inl over ↦
          let (n, r) = evict_oldest_last c m k e (retained - f.weight) fits (omega arith) in
          (suc n, rw (evict_over c j f (m ++ (k, e) ∷ []) retained over, r))
      | inr fine ↦ (0, rw (evict_within c j f (m ++ (k, e) ∷ []) retained fine))
    ]

-- In a cache within its limits, an entry that is not refused is written last, and what the eviction drops is the oldest: the
-- other entries that stay are a newest part of the old ones, in their order.
pub set_entry-newest :
    (k : Text) (e : CacheEntry) (c : RevisionCache)
    → IsBounded c
    → is_refused k c e ≡ false
    → (n : ℕ) × ((set_entry k e c).entries ≡ drop n (delete k c.entries) ++ (k, e) ∷ [])
set_entry-newest k e c b r =
    let fits : over_budget (with_new k c e) e.weight 1 ≡ false =
      fits_alone (with_new k c e) e (ground arith) (ground arith) in
    let (n, kept) =
      evict_oldest_last (with_new k c e) (delete k c.entries) k e
        (total (delete k c.entries) + e.weight) fits refl in
    (n, rw (set_entry-eq k c e b, r) (unfold evict_to_budget in kept))

lookup-drop-none :
    (k : Text) (n : ℕ) (m : Dict CacheEntry) → lookup k m ≡ none → lookup k (drop n m) ≡ none
unfolding lookup
lookup-drop-none k zero m h = h
lookup-drop-none k (suc n) [] h = refl
lookup-drop-none k (suc n) ((j, f) ∷ m) h = lookup-drop-none k n m (ground arith)

pub lookup_last :
    (k : Text) (e : CacheEntry) (m : Dict CacheEntry)
    → lookup k m ≡ none
    → lookup k (m ++ (k, e) ∷ []) ≡ some e
unfolding lookup
lookup_last k e [] h = ground (arith, text_eq_refl k)
lookup_last k e ((j, f) ∷ m) h = ground (arith, lookup_last k e m)

-- An entry that is not refused is found again, with its value.
pub get_entry-set_entry :
    (k : Text) (e : CacheEntry) (c : RevisionCache)
    → IsBounded c
    → is_refused k c e ≡ false
    → (get_entry k (set_entry k e c)).0 ≡ some e
get_entry-set_entry k e c b r =
    let (n, kept) = set_entry-newest k e c b r in
    let found : lookup k (set_entry k e c).entries ≡ some e = rw kept (
      lookup_last k e (drop n (delete k c.entries))
        (lookup-drop-none k n (delete k c.entries) (lookup-delete_self k c.entries))) in
    rw (get_entry_hit k (set_entry k e c) e found)

module _ (revision path : Text) (c : RevisionCache) where
  abbrev pub file_weight : Bytes → ℕ
  file_weight content = estimate_key_weight (key revision path) + length content

  -- The file that was just written to the cache is read from it, if the cache is within
  -- its limits and they have room for it.
  pub get_file-set_file :
      (content : Bytes)
      → IsBounded c
      → file_weight content ≤ c.max_bytes
      → c.max_bytes ≢ 0
      → c.max_entries ≢ some 0
      → (RevisionCache.get_file revision path (RevisionCache.set_file revision path content c)).0
        ≡ some content
  unfolding RevisionCache.get_file RevisionCache.set_file
  get_file-set_file content b w p q =
      let e : CacheEntry = record { value = Cached.file content; weight = file_weight content } in
      let r : is_refused (key revision path) c e ≡ false = unfold is_zero_limit in ground arith in
      rw (get_entry-set_entry (key revision path) e c b r)

-- The caches that calls make from a new one, in any order.
pub data Used (max_bytes : ℕ) (max_entries : Option ℕ) : RevisionCache → Type 0 where
  fresh : Used max_bytes max_entries (new_cache max_bytes max_entries)
  get_file :
      {c : RevisionCache} (revision path : Text)
      → Used max_bytes max_entries c
      → Used max_bytes max_entries (RevisionCache.get_file revision path c).1
  set_file :
      {c : RevisionCache} (revision path : Text) (content : Bytes)
      → Used max_bytes max_entries c
      → Used max_bytes max_entries (RevisionCache.set_file revision path content c)
  get_directory :
      {c : RevisionCache} (revision path : Text)
      → Used max_bytes max_entries c
      → Used max_bytes max_entries (RevisionCache.get_directory revision path c).1
  set_directory :
      {c : RevisionCache} (revision path : Text) (entries : List DirectoryEntry)
      → Used max_bytes max_entries c
      → Used max_bytes max_entries (RevisionCache.set_directory revision path entries c)
  clear :
      {c : RevisionCache}
      → Used max_bytes max_entries c
      → Used max_bytes max_entries (RevisionCache.clear c)

-- Whatever the calls, the byte count of the cache is the sum of its entries' weights, within
-- `maxBytes`, no key stands twice, and there are no more entries than `maxEntries`.
pub Used-IsBounded :
    {max_bytes : ℕ} {max_entries : Option ℕ} {c : RevisionCache}
    → Used max_bytes max_entries c
    → IsBounded c
unfolding RevisionCache.get_file RevisionCache.set_file RevisionCache.get_directory
    RevisionCache.set_directory RevisionCache.clear
Used-IsBounded fresh = record {
  distinct = tt;
  counted = refl;
  bytes = omega arith;
  size = λ n e. omega arith;
}
Used-IsBounded (get_file {c} r p u) = get_entry-IsBounded (key r p) c (Used-IsBounded u)
Used-IsBounded (set_file {c} r p content u) = set_entry-IsBounded (key r p) _ c (Used-IsBounded u)
Used-IsBounded (get_directory {c} r p u) = get_entry-IsBounded (key r p) c (Used-IsBounded u)
Used-IsBounded (set_directory {c} r p es u) = set_entry-IsBounded (key r p) _ c (Used-IsBounded u)
Used-IsBounded (clear u) = record {
  distinct = tt;
  counted = refl;
  bytes = omega arith;
  size = λ n e. omega arith;
}
