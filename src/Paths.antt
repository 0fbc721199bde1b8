-- ===== src/Paths.antt =====
-- Repository paths: packages/adapter-sdk/src/path.ts and packages/core/src/util/path.ts.
--
-- Only `normalize_repo_path` meets paths from outside. The other functions are called on canonical
-- paths, those that `normalize_repo_path` returns, on which their own calls of it are the identity
-- (Paths/Canonical), so those calls are not written again.
pub mod Canonical
pub mod Parts
pub mod Segments
pub mod Tree
use remotish.Shared.{
  Text, text, text_eq, starts_with, Result, ok, throw_code, invalid_request, Option, none, some,
  List, [], ◌∷◌, ◌++◌, Bool, true, false, ◌&&◌, ◌||◌, ◌==◌, if◌then◌else◌, is_nil, any_of, ℕ,
}

abbrev pub slash : ℕ
slash = b'/'

-- `path.replaceAll('\\', '/')`
unfoldable pub replace_backslashes : Text → Text
replace_backslashes [] = []
replace_backslashes (c ∷ s) = (if c == 92 then slash else c) ∷ replace_backslashes s

-- `.replace(/^\/+|\/+$/g, '')`
unfoldable pub trim_start : Text → Text
trim_start [] = []
trim_start (c ∷ s) = if c == slash then trim_start s else c ∷ s

unfoldable pub trim_end : Text → Text
trim_end [] = []
trim_end (c ∷ s) = let rest = trim_end s in if c == slash && is_nil rest then [] else c ∷ rest

-- `text.split('/')`
abbrev pub on_first_part : ℕ → List Text → List Text
on_first_part c [] = (c ∷ []) ∷ []
on_first_part c (part ∷ parts) = (c ∷ part) ∷ parts

unfoldable pub split_path : Text → List Text
split_path [] = [] ∷ []
split_path (c ∷ s) =
    let rest = split_path s in if c == slash then [] ∷ rest else on_first_part c rest

-- `parts.join('/')`
unfoldable pub join_path : List Text → Text
join_path [] = []
join_path (part ∷ []) = part
join_path (part ∷ next ∷ parts) = part ++ slash ∷ join_path (next ∷ parts)

-- `!part || part === '.' || part === '..'`
unfoldable pub is_bad_part : Text → Bool
unfolding text_eq
is_bad_part part = is_nil part || text_eq part (text ".") || text_eq part (text "..")

unfoldable pub normalize_repo_path : Text → Result Text
unfolding replace_backslashes trim_start trim_end split_path join_path is_bad_part any_of
normalize_repo_path path =
    let normalized = trim_end (trim_start (replace_backslashes path)) in
    let parts = if is_nil normalized then [] else split_path normalized in
    if any_of is_bad_part parts then throw_code invalid_request else ok (join_path parts)

-- `lastIndexOf('/')`, with the two slices that its callers take: before it, and after it
unfoldable pub split_last : Text → Option (Text × Text)
split_last [] = none
split_last (c ∷ s) = elim (split_last s) [
  | some (before, after) ↦ some (c ∷ before, after)
  | none ↦ if c == slash then some ([], s) else none
]

unfoldable pub parent_path : Text → Option Text
unfolding split_last
parent_path [] = none
parent_path (c ∷ s) = elim (split_last (c ∷ s)) [ none ↦ some [] | some (before, _) ↦ some before ]

unfoldable pub base_name : Text → Text
unfolding split_last
base_name path = elim (split_last path) [ none ↦ path | some (_, after) ↦ after ]

unfoldable pub is_same_or_child : Text → Text → Bool
is_same_or_child path parent = text_eq path parent || starts_with path (parent ++ slash ∷ [])

unfoldable pub is_direct_child : Text → Text → Bool
unfolding parent_path
is_direct_child path parent = elim (parent_path path) [ none ↦ false | some p ↦ text_eq p parent ]
