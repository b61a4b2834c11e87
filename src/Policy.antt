-- ===== src/Policy.antt =====
-- toolhub/internal/core/policy.go and policy_violation.go. A `map[string]bool` that is only
-- asked for membership is the list of its keys.
pub mod Allowlist
pub mod Prefixes
pub mod Canonical
pub mod Paths
pub mod Tests
use ai_team_toolhub.Base.{
  Bool, true, false, ◌&&◌, ◌||◌, List, [], ◌∷◌, ◌++◌, any, length, ◌==◌, Result, ok, err, ◌>>=◌,
  ◌>>◌, fail_if, if◌then◌else◌,
}
use ai_team_toolhub.Text.{
  Text, codes, is_empty, text_eq, trim_space, has_prefix, has_suffix, trim_prefix, split,
}
use ai_team_toolhub.FilePath.{dot, dotdot, clean}

pub record Policy : Type 0 where
  pub allowed_repos : List Text
  pub allowed_tools : List Text
  pub forbidden_path_prefixes : List Text
  pub approval_path_prefixes : List Text

abbrev pub builtin_forbidden_prefixes : List Text
builtin_forbidden_prefixes = codes ".github/" ∷ codes ".git/" ∷ codes "secrets/" ∷ codes ".env" ∷ []

-- What `canonicalizePath` rejects.
pub data PathError : Type 0 where
  empty_path path_traversal resolves_to_root : PathError

pub data PolicyViolationCode : Type 0 where
  path_forbidden path_approval_required violation_traversal path_empty : PolicyViolationCode

-- The text of `Reason`, as what it is printed from.
pub data Reason : Type 0 where
  path_is_empty : Reason
  not_canonical : PathError → Reason
  matched_prefix : Text → Reason

pub record PolicyViolation : Type 0 where
  pub code : PolicyViolationCode
  pub path : Text
  pub reason : Reason

-- The errors of the allowlists, with the name that was refused.
pub data AllowError : Type 0 where
  no_repos_allowed no_tools_allowed : AllowError
  repo_not_listed tool_not_listed : Text → AllowError

-- m[key]
unfoldable pub has_key : Text → List Text → Bool
has_key key m = any (text_eq key) m

abbrev pub add_key : Text → List Text → List Text
add_key key m = if has_key key m then m else m ++ key ∷ []

parse_items : List Text → List Text → List Text
parse_items m [] = m
parse_items m (raw ∷ items) =
    let item = trim_space raw in parse_items (if is_empty item then m else add_key item m) items

pub parse_csv : Text → List Text
unfolding parse_items
parse_csv s = parse_items [] (split s b',')

-- normalizePath
pub normalize_path : Text → Text
normalize_path s = trim_prefix (trim_prefix (trim_space s) (codes "./")) (codes "/")

prefix_items : List Text → List Text → List Text
prefix_items out [] = out
prefix_items out (raw ∷ items) =
    let item = normalize_path raw in
    prefix_items (if is_empty item then out else out ++ item ∷ []) items

pub parse_prefixes_csv : Text → List Text
unfolding prefix_items
parse_prefixes_csv s = prefix_items [] (split s b',')

-- The loop over `seen` and `out`.
merge_loop : List Text → List Text → List Text → List Text
merge_loop seen out [] = out
merge_loop seen out (prefix ∷ rest) =
    let skip = merge_loop seen out rest in
    let keep = merge_loop (add_key prefix seen) (out ++ prefix ∷ []) rest in
    if has_key prefix seen then skip else keep

pub merge_unique_prefixes : List Text → List Text → List Text
unfolding merge_loop
merge_unique_prefixes base extra = merge_loop [] [] (base ++ extra)

pub new_policy : Text → Text → Policy
new_policy repo_csv tool_csv = record {
  allowed_repos = parse_csv repo_csv;
  allowed_tools = parse_csv tool_csv;
  forbidden_path_prefixes = builtin_forbidden_prefixes;
  approval_path_prefixes = [];
}

pub set_path_policy : Policy → Text → Text → Policy
set_path_policy p forbidden_csv approval_csv = record p {
  forbidden_path_prefixes =
      merge_unique_prefixes builtin_forbidden_prefixes (parse_prefixes_csv forbidden_csv);
  approval_path_prefixes = parse_prefixes_csv approval_csv;
}

pub check_repo : Policy → Text → Result AllowError (Unit {0})
check_repo p repo =
    if length p.allowed_repos == 0
    then err no_repos_allowed
    else if has_key repo p.allowed_repos
    then ok tt
    else err (repo_not_listed repo)

unfoldable pub check_tool : Policy → Text → Result AllowError (Unit {0})
check_tool p tool_name =
    if length p.allowed_tools == 0
    then err no_tools_allowed
    else if has_key tool_name p.allowed_tools
    then ok tt
    else err (tool_not_listed tool_name)

unfoldable pub matches_forbidden_prefix : Text → Text → Bool
matches_forbidden_prefix path prefix =
    if has_suffix prefix (codes "/")
    then has_prefix path prefix
    else if has_prefix prefix (codes ".")
    then text_eq path prefix || has_prefix path (prefix ++ codes ".")
    else has_prefix path prefix

-- The tests of `canonicalizePath` on the cleaned path, and what it strips.
admit_cleaned : Text → Result PathError Text
admit_cleaned cleaned =
    let stripped = trim_prefix (trim_prefix cleaned (codes "/")) (codes "./") in
    if text_eq cleaned dotdot
      || has_prefix cleaned (codes "../")
      || has_prefix cleaned (codes "..\\")
    then err path_traversal
    else if text_eq stripped dot
    then err resolves_to_root
    else ok stripped

-- canonicalizePath
unfoldable pub canonicalize_path : Text → Result PathError Text
unfolding admit_cleaned
canonicalize_path raw =
    let s = trim_space raw in if is_empty s then err empty_path else admit_cleaned (clean s)

-- The inner loop of `CheckPaths`: the first prefix that matches.
check_prefixes : Text → Text → List Text → Result PolicyViolation (Unit {0})
check_prefixes raw path [] = ok tt
check_prefixes raw path (prefix ∷ rest) =
    let next = check_prefixes raw path rest in
    if matches_forbidden_prefix path prefix
    then err (record { code = path_forbidden; path = raw; reason = matched_prefix prefix })
    else next

-- One round of the outer loop.
check_canonical : Policy → Text → Result PathError Text → Result PolicyViolation (Unit {0})
unfolding check_prefixes
check_canonical p raw (err e) =
    err (record { code = violation_traversal; path = raw; reason = not_canonical e })
check_canonical p raw (ok path) = check_prefixes raw path p.forbidden_path_prefixes

check_path : Policy → Text → Result PolicyViolation (Unit {0})
unfolding check_canonical
check_path p raw =
    let trimmed = trim_space raw in
    if is_empty trimmed
    then err (record { code = path_empty; path = raw; reason = path_is_empty })
    else check_canonical p raw (canonicalize_path trimmed)

unfoldable pub check_paths : Policy → List Text → Result PolicyViolation (Unit {0})
unfolding check_path
check_paths p [] = ok tt
check_paths p (raw ∷ paths) = let rest = check_paths p paths in (check_path p raw >> rest)

unfoldable pub needs_approval : List Text → Result PathError Text → Bool
needs_approval prefixes (err e) = true
needs_approval prefixes (ok path) = any (has_prefix path) prefixes

unfoldable pub requires_approval : Policy → List Text → Bool
unfolding needs_approval
requires_approval p [] = false
requires_approval p (raw ∷ paths) =
    needs_approval p.approval_path_prefixes (canonicalize_path raw) || requires_approval p paths
