-- ===== src/Examples/Fixtures.antt =====
-- Runs of the repository in memory.
use remotish.Shared.{
  Text, Bytes, text, text_eq, contains, starts_with, add, any_of, Dict, lookup, insert, ok, some,
  List, [], ◌∷◌, ◌≡◌, refl, length, ◌>>=◌, ℕ, suc, none, arith,
}
use remotish.Sdk.{
  Change, add_file, modify_file, delete_file, CommitRequest, CommitRequestType, normal,
}
use remotish.Sdk.History.{CommitInfo, CommitQuery, CommitPage}
use remotish.Workspace.Commits.{trim, trim_left, trim_right}
use remotish.Paths.{normalize_repo_path, parent_path}
use remotish.Fixture.{
  Fixture, apply_change, apply_each, is_below_file, apply_changes, diff_files, require_commit,
}
use remotish.Fixture.Commits.{execute, head_of}
use remotish.Fixture.View.{first_parent_history, get_commits, parse_cursor, resolve_query_revision}
use remotish.Fixture.Branches.{
  create_branch, add_branch, validate_branch_name, ends_with_slash, has_two_dots,
}
use remotish.Fixture.Pages.{Continues, get_commits-Continues}
use remotish.Fixture.Seed.{
  c1_files, c2_files, c3_files, create_fixture_repository, seed_commits, seed_commit,
}
use remotish.Fixture.Engine.{Outcome, execute-Outcome}
use remotish.Fixture.Files.{
  find_change, IsChange, find_change-diff_files, after_changes, lookup-apply_changes,
}
use remotish.Fixture.History.{Follows}
use remotish.Fixture.Sessions.{Operation, Made, run_operation, history-Follows}

abbrev no_date : ℕ → Text
no_date day = []

abbrev two_changes : List Change
two_changes = modify_file (text "README.md") (7 ∷ []) ∷ delete_file (text "package.json") ∷ []

abbrev request : CommitRequest
request = record {
  type = CommitRequestType.commit;
  branch = text "main";
  base_revision = text "C3";
  message = text "seven";
  changes = two_changes;
  push = normal;
}

execute-Outcome_example :
    Outcome no_date request create_fixture_repository
      (execute no_date request create_fixture_repository)
execute-Outcome_example = execute-Outcome no_date request create_fixture_repository

find_change-diff_files_example :
    IsChange
      (find_change (text "README.md") (diff_files c2_files c3_files))
      (lookup (text "README.md") c2_files)
      (lookup (text "README.md") c3_files)
find_change-diff_files_example = find_change-diff_files (text "README.md") c2_files c3_files

abbrev one_file : Dict Bytes
one_file = (text "a", 1 ∷ []) ∷ []

abbrev a_and_b : List Change
a_and_b = modify_file (text "a") (2 ∷ []) ∷ add_file (text "b") (3 ∷ []) ∷ []

abbrev two_files : Dict Bytes
two_files = (text "a", 2 ∷ []) ∷ (text "b", 3 ∷ []) ∷ []

apply_a_and_b : apply_changes one_file a_and_b ≡ ok two_files
unfolding apply_changes apply_each apply_change is_below_file normalize_repo_path parent_path lookup
    insert contains add text_eq any_of
apply_a_and_b = refl

lookup-apply_changes_example :
    lookup (text "b") two_files ≡ after_changes (text "b") a_and_b (lookup (text "b") one_file)
lookup-apply_changes_example =
    lookup-apply_changes (text "b") a_and_b one_file two_files apply_a_and_b

abbrev branched : Fixture
branched =
    run_operation no_date (Operation.new_branch (text "fix") (text "C2")) create_fixture_repository

head_fix : lookup (text "fix") branched.branches ≡ some (text "C2")
unfolding run_operation create_branch add_branch validate_branch_name ends_with_slash has_two_dots
    ◌>>=◌ require_commit create_fixture_repository seed_commits lookup insert text_eq any_of trim
    trim_left trim_right starts_with
head_fix = refl

history-Follows_example :
    (h : List CommitInfo) × (first_parent_history
        (suc (length branched.commits))
        (text "C2")
        branched
      ≡ ok h)
    × Follows branched (text "C2") h
history-Follows_example =
    history-Follows no_date branched (text "fix") (text "C2")
      (Made.ran (Operation.new_branch (text "fix") (text "C2")) create_fixture_repository
        Made.seeded)
      head_fix

abbrev below_a : List Change
below_a = add_file (text "a/b/c") (2 ∷ []) ∷ []

-- A file stays above another one: only the parent `a/b` is looked up.
a_above : apply_changes one_file below_a ≡ ok ((text "a", 1 ∷ []) ∷ (text "a/b/c", 2 ∷ []) ∷ [])
unfolding apply_changes apply_each apply_change is_below_file normalize_repo_path parent_path lookup
    insert contains add text_eq any_of
a_above = refl

abbrev two_commits : CommitQuery
two_commits = record { branch = some (text "main"); revision = none; cursor = none; limit = some 2 }

abbrev info_in_seed : Text → List Text → Text → Dict Bytes → CommitInfo
info_in_seed revision parents message files = (seed_commit revision parents message files).info

abbrev main_history : List CommitInfo
main_history =
    info_in_seed (text "C3") (text "C2" ∷ []) (text "Update README and add utility") c3_files
    ∷ info_in_seed (text "C2") (text "C1" ∷ []) (text "Add package metadata") c2_files
    ∷ info_in_seed (text "C1") [] (text "Initial commit") c1_files
    ∷ []

start_of_main : resolve_query_revision two_commits create_fixture_repository ≡ ok (text "C3")
unfolding resolve_query_revision head_of create_fixture_repository lookup text_eq
start_of_main = refl

walk_of_main :
    first_parent_history
      (suc (length create_fixture_repository.commits))
      (text "C3")
      create_fixture_repository
    ≡ ok main_history
unfolding first_parent_history require_commit create_fixture_repository seed_commits seed_commit
    lookup text_eq
walk_of_main = refl

first_page : parse_cursor two_commits.cursor ≡ ok 0
unfolding parse_cursor
first_page = refl

get_commits-Continues_example :
    (page : CommitPage) × (get_commits two_commits create_fixture_repository ≡ ok page)
    × Continues 0 main_history page
get_commits-Continues_example =
    get_commits-Continues two_commits create_fixture_repository (text "C3") 0 main_history
      start_of_main first_page walk_of_main (omega arith)
