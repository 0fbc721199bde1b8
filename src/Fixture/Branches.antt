-- ===== src/Fixture/Branches.antt =====
-- packages/adapter-fixture/src/branch-service.ts.
use remotish.Shared.{
  Text, text_eq, starts_with, lookup, insert, delete, Result, ok, Method, attempt, ◌>>=◌, ◌>>◌,
  throw_code, invalid_request, not_found, is_some, [], ◌∷◌, Bool, false, not, ◌&&◌, ◌||◌, ◌==◌,
  if◌then◌else◌, is_nil, any_of, ℕ,
}
use remotish.Sdk.{Branch}
use remotish.Paths.{slash}
use remotish.Workspace.Commits.{trim, is_white_space}
use remotish.Fixture.{Fixture, require_commit}

abbrev pub is_bad_branch_character : ℕ → Bool
is_bad_branch_character c =
    c == b'~'
    || c == b'^'
    || c == b':'
    || c == b'?'
    || c == b'*'
    || c == b'['
    || c == 92
    || is_white_space c

unfoldable pub has_two_dots : Text → Bool
has_two_dots [] = false
has_two_dots (c ∷ []) = false
has_two_dots (c ∷ d ∷ s) = (c == b'.' && d == b'.') || has_two_dots (d ∷ s)

unfoldable pub ends_with_slash : Text → Bool
ends_with_slash [] = false
ends_with_slash (c ∷ []) = c == slash
ends_with_slash (c ∷ d ∷ s) = ends_with_slash (d ∷ s)

unfoldable pub validate_branch_name : Text → Result Text
validate_branch_name name =
    let value = trim name in
    if is_nil value
      || starts_with value (slash ∷ [])
      || ends_with_slash value
      || has_two_dots value
      || any_of is_bad_branch_character value
    then throw_code invalid_request
    else ok value

unfoldable pub add_branch : Text → Text → Method Fixture Branch
add_branch name revision f =
    if is_some (lookup name f.branches) then (throw_code invalid_request, f) else (
      ok (record { name = name; revision = revision }),
      record f { branches = insert name revision f.branches },
    )

unfoldable pub create_branch : Text → Text → Method Fixture Branch
create_branch name revision = do
  normalized ← attempt (λ f. validate_branch_name name)
  commit ← attempt (require_commit revision)
  add_branch normalized revision

unfoldable pub delete_branch : Text → Method Fixture (Unit {0})
delete_branch name f =
    if text_eq name f.info.default_branch
    then (throw_code invalid_request, f)
    else if not (is_some (lookup name f.branches))
    then (throw_code not_found, f)
    else (ok tt, record f { branches = delete name f.branches })

unfoldable pub require_branch : Text → Method Fixture (Unit {0})
require_branch branch f =
    if not (is_some (lookup branch f.branches)) then (throw_code not_found, f) else (ok tt, f)

unfoldable pub set_head : Text → Text → Method Fixture (Unit {0})
set_head branch revision f = (ok tt, record f { branches = insert branch revision f.branches })

unfoldable pub move_head : Text → Text → Method Fixture (Unit {0})
move_head branch revision = do
  require_branch branch
  commit ← attempt (require_commit revision)
  set_head branch revision
