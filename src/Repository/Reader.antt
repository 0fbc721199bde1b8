-- ===== src/Repository/Reader.antt =====
-- packages/core/src/repository/repository-reader.ts: `readFile` and `readDirectory` with the cache in
-- front of the adapter. Reads of one path that overlap share one request there, which this order of
-- whole reads does not show.
use remotish.Shared.{Text, Bytes, ok, err, none, some, List, Method}
use remotish.Sdk.{DirectoryEntry}
use remotish.Paths.{normalize_repo_path}
use remotish.RevisionCache
use remotish.RevisionCache.{Cached, RevisionCache, key}
use remotish.Repository.{Adapter, read_file, read_directory}

module _ (adapter : Adapter) (revision : Text) where
  -- The adapter's answer to a miss, which the cache takes if it is no error.
  unfoldable pub fetch_file : Text → Method RevisionCache Bytes
  fetch_file path c = elim (read_file adapter revision path) [
    | ok content ↦ (ok content, RevisionCache.set_file revision path content c)
    | err e ↦ (err e, c)
  ]

  unfoldable pub cached_read_file : Text → Method RevisionCache Bytes
  cached_read_file path c = elim (normalize_repo_path path) [
    | err e ↦ (err e, c)
    | ok normalized ↦
        let (cached, c') = RevisionCache.get_file revision normalized c in
        elim cached [ some content ↦ (ok content, c') | none ↦ fetch_file normalized c' ]
  ]

  unfoldable pub fetch_directory : Text → Method RevisionCache (List DirectoryEntry)
  fetch_directory path c = elim (read_directory adapter revision path) [
    | ok entries ↦ (ok entries, RevisionCache.set_directory revision path entries c)
    | err e ↦ (err e, c)
  ]

  unfoldable pub cached_read_directory : Text → Method RevisionCache (List DirectoryEntry)
  cached_read_directory path c = elim (normalize_repo_path path) [
    | err e ↦ (err e, c)
    | ok normalized ↦
        let (cached, c') = RevisionCache.get_directory revision normalized c in
        elim cached [ some entries ↦ (ok entries, c') | none ↦ fetch_directory normalized c' ]
  ]
