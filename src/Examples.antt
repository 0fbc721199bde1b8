-- ===== src/Examples.antt =====
-- A small repository, and runs of the program on it: the tests of the development.
pub mod Reads
pub mod Trees
pub mod Sessions
pub mod Publications
pub mod Rpc
pub mod Fixtures
pub mod Stored
pub mod Bridges
use remotish.Shared.{
  Text, Bytes, text, text_eq, Result, ok, throw_code, not_found, Option, none, some, List, [], ◌∷◌,
  Bool, true, if◌then◌else◌,
}
use remotish.Repository.{Adapter, RawEntry, object, string, undefined, array, RawDirectory}

abbrev pub raw_file : Text → RawEntry
raw_file name = object (string name) (string (text "file")) undefined

abbrev pub raw_directory : Text → RawEntry
raw_directory name = object (string name) (string (text "directory")) undefined

-- One revision for all: a file `a` and a directory `d` with a file `b`.
abbrev pub sample_adapter : Adapter
sample_adapter = record {
  read_file = λ revision path.
      if text_eq path (text "a")
      then ok (1 ∷ [])
      else if text_eq path (text "d/b")
      then ok (2 ∷ [])
      else throw_code not_found;
  read_directory = λ revision path.
      if text_eq path []
      then ok (array (raw_file (text "a") ∷ raw_directory (text "d") ∷ []))
      else if text_eq path (text "d")
      then ok (array (raw_file (text "b") ∷ []))
      else throw_code not_found;
}
