-- ===== src/CodeOps.antt =====
-- toolhub/internal/codeops/runner.go. What git and the file system answer is a parameter: an
-- outcome for each action, after the actions that were performed before it.
pub mod Exec
pub mod Paths
pub mod Branches
pub mod Inside
pub mod Files
pub mod Plan
pub mod Effects
pub mod Tests
use ai_team_toolhub.Base.{
  ℕ, Bool, true, false, not, ◌&&◌, ◌||◌, List, [], ◌∷◌, ◌++◌, Option, none, some, any, length, leb,
  ◌==◌, Result, ok, err, ◌>>=◌, ◌>>◌, fail_if, if◌then◌else◌,
}
use ai_team_toolhub.Text.{
  Text, codes, is_empty, text_eq, trim_space, has_prefix, contains, trim_prefix,
}
use ai_team_toolhub.FilePath.{slash, dot, dotdot, clean}

-- The errors of this package; a branch or a path is kept as it was given, and what git or the file
-- system said as its message.
pub data CodeError : Type 0 where
  branch_required commit_message_required files_required path_required : CodeError
  invalid_branch absolute_path dash_path unsafe_path : Text → CodeError
  workdir_unresolved external : Text → CodeError

pub record FileChange : Type 0 where
  pub path : Text
  pub original_content : Text
  pub modified_content : Text

pub record Config : Type 0 where
  pub work_dir : Text
  pub remote : Text

pub record Request : Type 0 where
  pub base_branch : Text
  pub head_branch : Text
  pub commit_message : Text
  pub files : List FileChange
  pub dry_run : Bool

pub record CodeResult : Type 0 where
  pub planned_commands : List Text
  pub commit_hash : Text

-- What the package does to the outside: `git -C workdir args`, `os.MkdirAll` of a file's folder, and
-- `os.WriteFile`.
pub data Action : Type 0 where
  git : Text → List Text → Action
  mkdir_for : Text → Action
  write_file : Text → Text → Action

-- The outside: how an action ends after the actions before it (a message, or its output), how
-- `filepath.Abs` reads a folder, and how `%q` quotes.
pub record Outside : Type 0 where
  pub outcome : List Action → Action → Result Text Text
  pub abs : Text → Result Text Text
  pub quote : Text → Text

-- NewRunner
pub new_runner : Config → Config
new_runner cfg = record {
  work_dir = if is_empty (trim_space cfg.work_dir) then dot else cfg.work_dir;
  remote = if is_empty (trim_space cfg.remote) then codes "origin" else cfg.remote;
}

-- branchNameRe
pub is_branch_char : ℕ → Bool
is_branch_char c =
    (leb b'A' c && leb c b'Z')
    || (leb b'a' c && leb c b'z')
    || (leb b'0' c && leb c b'9')
    || c == b'.'
    || c == b'_'
    || c == b'/'
    || c == b'-'

pub validate_branch : Text → Result CodeError (Unit {0})
validate_branch name =
    let trimmed = trim_space name in
    if is_empty trimmed
    then err branch_required
    else if has_prefix trimmed (codes "-")
        || contains trimmed (codes "..")
        || contains trimmed (codes " ")
        || any (λ c. not (is_branch_char c)) trimmed
    then err (invalid_branch name)
    else ok tt

-- safeRelativePath
pub safe_relative_path : Text → Result CodeError Text
safe_relative_path path =
    let trimmed = trim_prefix (trim_space path) (codes "./") in
    let cleaned = clean trimmed in
    if is_empty trimmed
    then err path_required
    else if has_prefix trimmed (codes "/")
    then err (absolute_path path)
    else if has_prefix trimmed (codes "-")
    then err (dash_path path)
    else if text_eq cleaned dot || has_prefix cleaned (codes "..")
    then err (unsafe_path path)
    else if has_prefix cleaned (codes "-")
    then err (dash_path path)
    else ok cleaned

-- filepath.Join of two texts that are not empty
pub join_path : Text → Text → Text
join_path dir path = clean (dir ++ slash ∷ path)

-- fmt.Sprintf("git -C %q ", wd)
abbrev pub git_in : Outside → Text → Text
git_in o wd = codes "git -C " ++ o.quote wd ++ codes " "

-- The first loop over the files: the commands that are planned.
pub plan_files : Outside → Text → List Text → List FileChange → Result CodeError (List Text)
plan_files o wd commands [] = ok commands
plan_files o wd commands (f ∷ files) = elim (safe_relative_path f.path) [
  | err e ↦ err e
  | ok path ↦
      plan_files o wd
        (commands
          ++ (codes "write " ++ o.quote path)
            ∷ (git_in o wd ++ codes "add -- " ++ o.quote path)
            ∷ [])
        files
]

resolve_workdir : Outside → Config → Result CodeError Text
resolve_workdir o cfg = elim (o.abs cfg.work_dir) [
  | ok wd ↦ ok wd
  | err msg ↦ err (workdir_unresolved msg)
]

-- The checks of `Execute`, up to the planned commands.
pub plan : Outside → Config → Request → Result CodeError (Text × List Text)
unfolding plan_files resolve_workdir
plan o cfg req = do
  validate_branch req.base_branch
  validate_branch req.head_branch
  fail_if (is_empty (trim_space req.commit_message)) commit_message_required
  fail_if (length req.files == 0) files_required
  wd ← resolve_workdir o cfg
  commands ←
      plan_files o wd
        ((git_in o wd ++ codes "checkout " ++ o.quote req.base_branch)
          ∷ (git_in o wd ++ codes "checkout -b " ++ o.quote req.head_branch)
          ∷ [])
        req.files
  ok (
    wd,
    commands
        ++ (git_in o wd ++ codes "commit -m " ++ o.quote req.commit_message)
          ∷ (git_in o wd
              ++ codes "push -u "
              ++ o.quote cfg.remote
              ++ codes " "
              ++ o.quote req.head_branch)
          ∷ [],
  )

-- The checks of `RollbackBranch`, up to the planned commands.
pub rollback_plan : Outside → Config → Text → Text → Result CodeError (Text × List Text)
unfolding resolve_workdir
rollback_plan o cfg base_branch head_branch = do
  validate_branch base_branch
  validate_branch head_branch
  wd ← resolve_workdir o cfg
  ok (
    wd,
    (git_in o wd ++ codes "checkout " ++ o.quote base_branch)
        ∷ (git_in o wd ++ codes "branch -D " ++ o.quote head_branch)
        ∷ (git_in o wd
            ++ codes "push "
            ++ o.quote cfg.remote
            ++ codes " --delete "
            ++ o.quote head_branch)
        ∷ [],
  )
