-- ===== src/CodeOps/Tests.antt =====
-- The code runner at concrete requests.
use ai_team_toolhub.FilePath.{clean, render, is_rooted, resolve_all, resolve}
use ai_team_toolhub.Base.{◌≡◌, ◌≢◌, refl, true, false, List, [], ◌∷◌, ◌++◌, ok, All}
use ai_team_toolhub.Text.{
  codes, trim_space, has_prefix, contains, trim_prefix, text_eq, split, join, has_suffix,
}
use ai_team_toolhub.Policy.{
  Policy, check_paths, canonicalize_path, builtin_forbidden_prefixes, matches_forbidden_prefix,
}
use ai_team_toolhub.Policy.Canonical.{IsCanonical}
use ai_team_toolhub.Policy.Paths.{Clear}
use ai_team_toolhub.CodeOps.{
  Config, Request, CodeResult, Action, git, mkdir_for, write_file, Outside, is_branch_char,
  validate_branch, safe_relative_path, join_path,
}
use ai_team_toolhub.CodeOps.Exec.{execute}
use ai_team_toolhub.CodeOps.Paths.{safe_relative_path-canonicalize_path}
use ai_team_toolhub.CodeOps.Branches.{validate_branch_sound, safe_relative_path_sound}
use ai_team_toolhub.CodeOps.Plan.{IsDone, execute-IsDone, Foretold, dry_run_previews}
use ai_team_toolhub.CodeOps.Effects.{Performs, WritesOnly, execute_respects_policy}

-- Every action succeeds and prints "abc".
abbrev pub willing : Outside
willing = record {
  outcome = λ log action. ok (codes "abc\n");
  abs = λ dir. ok (codes "/work");
  quote = λ t. codes "\"" ++ t ++ codes "\"";
}

abbrev pub config : Config
config = record { work_dir = codes "."; remote = codes "origin" }

abbrev pub one_file : Request
one_file = record {
  base_branch = codes "main";
  head_branch = codes "fix/a";
  commit_message = codes "fix";
  files =
      record { path = codes "./docs//a.md"; original_content = []; modified_content = codes "hi" }
      ∷ [];
  dry_run = false;
}

abbrev pub plain_policy : Policy
plain_policy = record {
  allowed_repos = [];
  allowed_tools = [];
  forbidden_path_prefixes = builtin_forbidden_prefixes;
  approval_path_prefixes = [];
}

abbrev result : CodeResult
result = record {
  planned_commands =
      codes "git -C \"/work\" checkout \"main\""
      ∷ codes "git -C \"/work\" checkout -b \"fix/a\""
      ∷ codes "write \"docs/a.md\""
      ∷ codes "git -C \"/work\" add -- \"docs/a.md\""
      ∷ codes "git -C \"/work\" commit -m \"fix\""
      ∷ codes "git -C \"/work\" push -u \"origin\" \"fix/a\""
      ∷ [];
  commit_hash = codes "abc";
}

abbrev performed : List Action
performed =
    git (codes "/work") (codes "checkout" ∷ codes "main" ∷ [])
    ∷ git (codes "/work") (codes "checkout" ∷ codes "-b" ∷ codes "fix/a" ∷ [])
    ∷ mkdir_for (codes "/work/docs/a.md")
    ∷ write_file (codes "/work/docs/a.md") (codes "hi")
    ∷ git (codes "/work") (codes "add" ∷ codes "--" ∷ codes "docs/a.md" ∷ [])
    ∷ git (codes "/work") (codes "commit" ∷ codes "-m" ∷ codes "fix" ∷ [])
    ∷ git (codes "/work") (codes "push" ∷ codes "-u" ∷ codes "origin" ∷ codes "fix/a" ∷ [])
    ∷ git (codes "/work") (codes "rev-parse" ∷ codes "HEAD" ∷ [])
    ∷ []

one_file_done : execute willing config one_file [] ≡ (ok result, performed)
unfolding execute validate_branch safe_relative_path trim_space has_prefix contains is_branch_char
    trim_prefix text_eq clean render is_rooted resolve_all split resolve join join_path
one_file_done = refl

execute-IsDone_example : IsDone willing config one_file result [] performed
execute-IsDone_example =
    execute-IsDone willing config one_file [] performed result refl one_file_done

dry_run_previews_example :
    ((execute willing config (record one_file { dry_run = true }) []).1 ≡ [])
    × Foretold
        (execute willing config (record one_file { dry_run = true }) []).0
        (execute willing config (record one_file { dry_run = false }) []).0
dry_run_previews_example = dry_run_previews willing config one_file []

docs_permitted : check_paths plain_policy (codes "./docs//a.md" ∷ []) ≡ ok tt
unfolding check_paths trim_space canonicalize_path text_eq clean render is_rooted resolve_all split
    resolve join trim_prefix matches_forbidden_prefix has_suffix
docs_permitted = refl

pub work_rooted : is_rooted (codes "/work") ≡ true
unfolding is_rooted has_prefix
work_rooted = refl

execute_respects_policy_example :
    Performs
      (WritesOnly (codes "/work") (Clear builtin_forbidden_prefixes))
      (execute willing config one_file)
execute_respects_policy_example =
    execute_respects_policy willing config one_file plain_policy (codes "/work") refl work_rooted
      docs_permitted

docs_safe : safe_relative_path (codes "./docs//a.md") ≡ ok (codes "docs/a.md")
unfolding safe_relative_path trim_prefix trim_space text_eq clean render is_rooted resolve_all split
    resolve join
docs_safe = refl

safe_relative_path-canonicalize_path_example :
    canonicalize_path (codes "./docs//a.md") ≡ ok (codes "docs/a.md")
safe_relative_path-canonicalize_path_example =
    safe_relative_path-canonicalize_path (codes "./docs//a.md") docs_safe

safe_relative_path_sound_example :
    IsCanonical (codes "docs/a.md")
    × (has_prefix (codes "docs/a.md") (codes "-") ≡ false)
    × (codes "docs/a.md" ≢ [])
safe_relative_path_sound_example = safe_relative_path_sound (codes "./docs//a.md") docs_safe

branch_accepted : validate_branch (codes " fix/a") ≡ ok tt
unfolding validate_branch trim_space has_prefix contains is_branch_char
branch_accepted = refl

validate_branch_sound_example :
    (has_prefix (codes " fix/a") (codes "-") ≡ false)
    × (trim_space (codes " fix/a") ≢ [])
    × (contains (trim_space (codes " fix/a")) (codes "..") ≡ false)
    × All (λ c. is_branch_char c ≡ true) (trim_space (codes " fix/a"))
validate_branch_sound_example = validate_branch_sound (codes " fix/a") branch_accepted
