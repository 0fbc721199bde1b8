-- ===== src/Repository/Transparency.antt =====
-- packages/core/src/repository/repository-reader.ts: reads through the cache against reads of the
-- adapter.
use remotish.Shared.{
  Text, Bytes, lookup, ok, and_then, Result-cases, Option-cases, none, some, List, [], ◌∷◌, ◌≡◌,
  refl, sym, arith, inl, inr, ℕ, false, any_of, ◌==◌,
}
use remotish.Sdk.{DirectoryEntry}
use remotish.Paths.{normalize_repo_path}
use remotish.RevisionCache
use remotish.RevisionCache.{Cached, RevisionCache, key}
use remotish.RevisionCache.Bounds.{IsBounded, set_entry-IsBounded, get_entry-IsBounded}
use remotish.RevisionCache.Contents.{lookup-set_entry, lookup-get_entry}
use remotish.Repository.{Adapter, read_file, read_directory}
use remotish.Repository.Reader.{
  fetch_file, cached_read_file, fetch_directory, cached_read_directory,
}

-- The key of a cache joins a revision and a path by a NUL, so it tells them apart if no revision
-- has one.
abbrev pub HasNoNul : Text → Type 0
HasNoNul revision = any_of (λ c. c == 0) revision ≡ false

key-injective : (r s p q : Text) → HasNoNul r → HasNoNul s → key r p ≡ key s q → (r ≡ s) × (p ≡ q)
unfolding key any_of
key-injective [] [] p q h k e = (refl, ground arith)
key-injective [] (b ∷ s) p q h k e = absurd (ground arith)
key-injective (a ∷ r) [] p q h k e = absurd (ground arith)
key-injective (a ∷ r) (b ∷ s) p q h k e =
    let (x, y) = key-injective r s p q (ground arith) (ground arith) (ground arith) in
    (ground arith, y)

module _ (adapter : Adapter) where
  -- A cached value is what the adapter answers.
  abbrev Truth : Text → Text → Cached → Type 0
  Truth revision path (Cached.file content) = read_file adapter revision path ≡ ok content
  Truth revision path (Cached.directory entries) = read_directory adapter revision path ≡ ok entries

  -- A cache within its limits that holds nothing but answers of the adapter.
  pub record Agrees (c : RevisionCache) : Type 0 where
    pub bounded : IsBounded c
    pub true_values :
        (revision path : Text) (e : RevisionCache.CacheEntry)
        → HasNoNul revision
        → lookup (key revision path) c.entries ≡ some e
        → Truth revision path e.value

  module _ (revision : Text) (no_nul : HasNoNul revision) where
    set_entry-Agrees :
        (path : Text) (e : RevisionCache.CacheEntry) (c : RevisionCache)
        → Agrees c
        → Truth revision path e.value
        → Agrees (RevisionCache.set_entry (key revision path) e c)
    set_entry-Agrees path e c a t = record {
      bounded = set_entry-IsBounded (key revision path) e c a.bounded;
      true_values = λ r q f n h.
          elim (lookup-set_entry (key r q) (key revision path) e f c a.bounded h) [
            | inl (same, new) ↦
                let (rs, ps) = key-injective revision r path q no_nul n same in
                rw (new, ← rs, ← ps) t
            | inr old ↦ a.true_values r q f n old
          ];
    }

    get_entry-Agrees :
        (k : Text) (c : RevisionCache) → Agrees c → Agrees (RevisionCache.get_entry k c).1
    get_entry-Agrees k c a = record {
      bounded = get_entry-IsBounded k c a.bounded;
      true_values = λ r q f n h. a.true_values r q f n (lookup-get_entry (key r q) k f c h);
    }

    get_entry-true :
        (path : Text) (c : RevisionCache) (e : RevisionCache.CacheEntry)
        → Agrees c
        → (RevisionCache.get_entry (key revision path) c).0 ≡ some e
        → Truth revision path e.value
    unfolding RevisionCache.get_entry
    get_entry-true path c e a h = a.true_values revision path e no_nul (ground arith)

    file-true :
        (path : Text) (v : Cached) (weight : ℕ) (content : Bytes)
        → Truth revision path v
        → RevisionCache.file_value (some (record { value = v; weight = weight })) ≡ some content
        → read_file adapter revision path ≡ ok content
    file-true path (Cached.file b) weight content t h = ground (arith, t)
    file-true path (Cached.directory es) weight content t h = absurd (ground arith)

    directory-true :
        (path : Text) (v : Cached) (weight : ℕ) (entries : List DirectoryEntry)
        → Truth revision path v
        → RevisionCache.directory_value (some (record { value = v; weight = weight }))
          ≡ some entries
        → read_directory adapter revision path ≡ ok entries
    directory-true path (Cached.file b) weight entries t h = absurd (ground arith)
    directory-true path (Cached.directory es) weight entries t h = ground (arith, t)

    get_file-true :
        (path : Text) (c : RevisionCache) (content : Bytes)
        → Agrees c
        → (RevisionCache.get_file revision path c).0 ≡ some content
        → read_file adapter revision path ≡ ok content
    unfolding RevisionCache.get_file
    get_file-true path c content a h =
        elim (Option-cases (RevisionCache.get_entry (key revision path) c).0) [
          | inl miss ↦
              let h' : RevisionCache.file_value none ≡ some content = rw miss at h in
              absurd (ground arith)
          | inr (e, hit) ↦
              file-true path e.value e.weight content (get_entry-true path c e a hit) (rw hit at h)
        ]

    get_directory-true :
        (path : Text) (c : RevisionCache) (entries : List DirectoryEntry)
        → Agrees c
        → (RevisionCache.get_directory revision path c).0 ≡ some entries
        → read_directory adapter revision path ≡ ok entries
    unfolding RevisionCache.get_directory
    get_directory-true path c entries a h =
        elim (Option-cases (RevisionCache.get_entry (key revision path) c).0) [
          | inl miss ↦
              let h' : RevisionCache.directory_value none ≡ some entries = rw miss at h in
              absurd (ground arith)
          | inr (e, hit) ↦
              directory-true path e.value e.weight entries (get_entry-true path c e a hit)
                (rw hit at h)
        ]

    get_file-Agrees :
        (path : Text) (c : RevisionCache)
        → Agrees c
        → Agrees (RevisionCache.get_file revision path c).1
    unfolding RevisionCache.get_file
    get_file-Agrees path c a = get_entry-Agrees (key revision path) c a

    get_directory-Agrees :
        (path : Text) (c : RevisionCache)
        → Agrees c
        → Agrees (RevisionCache.get_directory revision path c).1
    unfolding RevisionCache.get_directory
    get_directory-Agrees path c a = get_entry-Agrees (key revision path) c a

    fetch_file-Agrees :
        (path : Text) (c : RevisionCache)
        → Agrees c
        → ((fetch_file adapter revision path c).0 ≡ read_file adapter revision path)
          × Agrees (fetch_file adapter revision path c).1
    fetch_file-Agrees path c a = elim (Result-cases (read_file adapter revision path)) [
      | inl (content, h) ↦
          unfold fetch_file RevisionCache.set_file in
          rw (h, fetch_file) (refl, set_entry-Agrees path _ c a h)
      | inr (e, h) ↦ unfold fetch_file in rw (h, fetch_file) (refl, a)
    ]

    fetch_directory-Agrees :
        (path : Text) (c : RevisionCache)
        → Agrees c
        → ((fetch_directory adapter revision path c).0 ≡ read_directory adapter revision path)
          × Agrees (fetch_directory adapter revision path c).1
    fetch_directory-Agrees path c a = elim (Result-cases (read_directory adapter revision path)) [
      | inl (entries, h) ↦
          unfold fetch_directory RevisionCache.set_directory in
          rw (h, fetch_directory) (refl, set_entry-Agrees path _ c a h)
      | inr (e, h) ↦ unfold fetch_directory in rw (h, fetch_directory) (refl, a)
    ]

    -- Through any cache that agrees with the adapter, `readFile` answers as the adapter does on the
    -- normalized path, with its errors, and leaves a cache that agrees; the revision holds no NUL.
    pub cached_read_file_lem :
        (path : Text) (c : RevisionCache)
        → Agrees c
        → ((cached_read_file adapter revision path c).0
            ≡ and_then (normalize_repo_path path) (read_file adapter revision))
          × Agrees (cached_read_file adapter revision path c).1
    cached_read_file_lem path c a = elim (Result-cases (normalize_repo_path path)) [
      | inr (e, h) ↦ unfold cached_read_file in rw (h, cached_read_file) (refl, a)
      | inl (p, h) ↦ elim (Option-cases (RevisionCache.get_file revision p c).0) [
        | inl miss ↦
            unfold cached_read_file in
            rw (h, cached_read_file, miss) (fetch_file-Agrees p _ (get_file-Agrees p c a))
        | inr (content, hit) ↦
            unfold cached_read_file in
            rw (h, cached_read_file, hit)
              (sym (get_file-true p c content a hit), get_file-Agrees p c a)
      ]
    ]

    -- Through any cache that agrees with the adapter, `readDirectory` answers with the validated
    -- listing of the normalized path, or with the error, and leaves a cache that agrees; the revision
    -- holds no NUL.
    pub cached_read_directory_lem :
        (path : Text) (c : RevisionCache)
        → Agrees c
        → ((cached_read_directory adapter revision path c).0
            ≡ and_then (normalize_repo_path path) (read_directory adapter revision))
          × Agrees (cached_read_directory adapter revision path c).1
    cached_read_directory_lem path c a = elim (Result-cases (normalize_repo_path path)) [
      | inr (e, h) ↦ unfold cached_read_directory in rw (h, cached_read_directory) (refl, a)
      | inl (p, h) ↦ elim (Option-cases (RevisionCache.get_directory revision p c).0) [
        | inl miss ↦
            unfold cached_read_directory in
            rw (h, cached_read_directory, miss)
              (fetch_directory-Agrees p _ (get_directory-Agrees p c a))
        | inr (entries, hit) ↦
            unfold cached_read_directory in
            rw (h, cached_read_directory, hit)
              (sym (get_directory-true p c entries a hit), get_directory-Agrees p c a)
      ]
    ]
