-- ===== src/Fixture/Seed.antt =====
-- packages/adapter-fixture/src/seed.ts: the repository that the adapter starts with.
use remotish.Shared.{Text, Bytes, text, Dict, insert, some, List, [], ◌∷◌, ◌++◌, length, ◌+◌}
use remotish.Fixture.{StoredCommit, Fixture}
use remotish.Fixture.Commits.{decimal}

-- `String(day).padStart(2, '0')`, for a day of one digit.
abbrev seed_day : Text → List Text → Text
seed_day revision parents = text "0" ++ decimal (length revision + length parents + 1)

unfoldable pub seed_commit : Text → List Text → Text → Dict Bytes → StoredCommit
seed_commit revision parents message files = record {
  info = record {
    revision = revision;
    parents = parents;
    message = message;
    author =
        some (record { name = text "Fixture User"; email = some (text "fixture@example.invalid") });
    authored_at = some (text "2026-01-" ++ seed_day revision parents ++ text "T00:00:00.000Z");
  };
  files = files;
}

abbrev pub c1_files : Dict Bytes
c1_files =
    (text "README.md", text "# Fixture repository" ++ 10 ∷ [])
    ∷ (text "src/index.ts", text "export const greeting = 'hello';" ++ 10 ∷ [])
    ∷ (text "assets/sample.bin", 0 ∷ 1 ∷ 2 ∷ 127 ∷ 128 ∷ 255 ∷ [])
    ∷ []

abbrev pub c2_files : Dict Bytes
c2_files = insert (text "package.json") (text "{\"name\":\"fixture\"}" ++ 10 ∷ []) c1_files

abbrev pub c3_files : Dict Bytes
c3_files =
    insert (text "src/util.ts")
      (text "export const twice = (value: number) => value * 2;" ++ 10 ∷ [])
      (insert (text "README.md")
        (text "# Fixture repository" ++ 10 ∷ 10 ∷ [] ++ text "Main branch." ++ 10 ∷ []) c2_files)

abbrev pub f1_files : Dict Bytes
f1_files =
    insert (text "src/index.ts") (text "export const greeting = 'feature';" ++ 10 ∷ []) c2_files

abbrev pub f2_files : Dict Bytes
f2_files = insert (text "src/feature.ts") (text "export const enabled = true;" ++ 10 ∷ []) f1_files

unfoldable pub seed_commits : Dict StoredCommit
seed_commits =
    (text "C1", seed_commit (text "C1") [] (text "Initial commit") c1_files)
    ∷ (text "C2", seed_commit (text "C2") (text "C1" ∷ []) (text "Add package metadata") c2_files)
    ∷ (
      text "C3",
      seed_commit (text "C3") (text "C2" ∷ []) (text "Update README and add utility") c3_files,
    )
    ∷ (text "F1", seed_commit (text "F1") (text "C2" ∷ []) (text "Start feature") f1_files)
    ∷ (text "F2", seed_commit (text "F2") (text "F1" ∷ []) (text "Finish feature") f2_files)
    ∷ []

unfoldable pub create_fixture_repository : Fixture
create_fixture_repository = record {
  info = record {
    id = text "fixture/demo";
    name = text "Fixture Demo";
    default_branch = text "main";
    description = some (text "Deterministic repository used by Remotish tests.");
  };
  commits = seed_commits;
  branches = (text "main", text "C3") ∷ (text "feature/test", text "F2") ∷ [];
  sequence = 100;
}
