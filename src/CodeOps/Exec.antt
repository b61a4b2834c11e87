-- ===== src/CodeOps/Exec.antt =====
-- `Execute` and `RollbackBranch` of toolhub/internal/codeops/runner.go, as actions.
use ai_team_toolhub.Base.{
  Bool, List, [], ◌∷◌, ◌++◌, Option, none, some, Result, ok, err, if◌then◌else◌,
}
use ai_team_toolhub.Text.{Text, codes, trim_space}
use ai_team_toolhub.CodeOps.{
  CodeError, external, FileChange, Config, Request, CodeResult, Action, git, mkdir_for, write_file,
  Outside, safe_relative_path, join_path, plan, rollback_plan,
}

-- A computation that performs actions; the log has the first action first.
abbrev pub Exec : Type 0 → Type 0
Exec A = List Action → Result CodeError A × List Action

-- The rest of a computation, after one that ended so.
abbrev pub next :
    {A B : Type 0}
    → Result CodeError A × List Action
    → (A → Exec B)
    → Result CodeError B × List Action
next (ok a, log) f = f a log
next (err e, log) f = (err e, log)

infixl 5 ◌>>=◌ ◌>>◌
abbrev pub ◌>>=◌ : {A B : Type 0} → Exec A → (A → Exec B) → Exec B
◌>>=◌ m f log = next (m log) f

abbrev pub ◌>>◌ : {B : Type 0} → Exec (Unit {0}) → Exec B → Exec B
m >> k = m >>= λ _. k

abbrev pub pure : {A : Type 0} → A → Exec A
pure a log = (ok a, log)

abbrev pub lift : {A : Type 0} → Result CodeError A → Exec A
lift r log = (r, log)

-- One action, which is performed also where it fails.
unfoldable pub perform : Outside → Action → Exec Text
perform o action log = (
  elim (o.outcome log action) [ ok out ↦ ok out | err msg ↦ err (external msg) ],
  log ++ action ∷ [],
)

-- An action whose output is not read.
unfoldable pub attempt : Outside → Action → Exec (Unit {0})
unfolding perform
attempt o action = perform o action >>= λ _. pure tt

-- runGit
abbrev pub run_git : Outside → Text → List Text → Exec (Unit {0})
run_git o wd args = attempt o (git wd args)

-- The second loop over the files.
unfoldable pub write_files : Outside → Text → List FileChange → Exec (Unit {0})
unfolding attempt
write_files o wd [] = pure tt
write_files o wd (f ∷ files) = do
  path ← lift (safe_relative_path f.path)
  attempt o (mkdir_for (join_path wd path))
  attempt o (write_file (join_path wd path) f.modified_content)
  run_git o wd (codes "add" ∷ codes "--" ∷ path ∷ [])
  write_files o wd files

-- The part of `Execute` after the dry run has returned.
unfoldable pub apply_changes : Outside → Config → Request → Text → List Text → Exec CodeResult
unfolding write_files perform
apply_changes o cfg req wd commands = do
  run_git o wd (codes "checkout" ∷ req.base_branch ∷ [])
  run_git o wd (codes "checkout" ∷ codes "-b" ∷ req.head_branch ∷ [])
  write_files o wd req.files
  run_git o wd (codes "commit" ∷ codes "-m" ∷ req.commit_message ∷ [])
  run_git o wd (codes "push" ∷ codes "-u" ∷ cfg.remote ∷ req.head_branch ∷ [])
  out ← perform o (git wd (codes "rev-parse" ∷ codes "HEAD" ∷ []))
  pure (record { planned_commands = commands; commit_hash = trim_space out })

-- Execute
unfoldable pub execute : Outside → Config → Request → Exec CodeResult
unfolding apply_changes plan
execute o cfg req = do
  (wd, commands) ← lift (plan o cfg req)
  (if req.dry_run
      then pure (record { planned_commands = commands; commit_hash = [] })
      else apply_changes o cfg req wd commands)

-- What `RollbackBranch` returns: the planned commands and the error, each where there is one. The
-- messages of the two clean-up commands are kept apart.
pub record Rollback : Type 0 where
  pub planned_commands : Option (List Text)
  pub error : List CodeError

messages : Result CodeError (Unit {0}) → List CodeError
messages (ok _) = []
messages (err e) = e ∷ []

-- The part of `RollbackBranch` after the dry run has returned. The branch is deleted at the remote
-- also where its local deletion failed.
clean_up : Outside → Config → Text → Text → Text → List Text → List Action → Rollback × List Action
unfolding messages
clean_up o cfg base_branch head_branch wd commands log =
    let (r, log1) = run_git o wd (codes "checkout" ∷ base_branch ∷ []) log in
    let (r1, log2) = run_git o wd (codes "branch" ∷ codes "-D" ∷ head_branch ∷ []) log1 in
    let (r2, log3) =
      run_git o wd (codes "push" ∷ cfg.remote ∷ codes "--delete" ∷ head_branch ∷ []) log2 in
    elim r [
      | err e ↦ (record { planned_commands = none; error = e ∷ [] }, log1)
      | ok _ ↦
          (record { planned_commands = some commands; error = messages r1 ++ messages r2 }, log3)
    ]

-- RollbackBranch
unfoldable pub rollback_branch :
    Outside → Config → Text → Text → Bool → List Action → Rollback × List Action
unfolding clean_up
rollback_branch o cfg base_branch head_branch dry_run log =
    elim (rollback_plan o cfg base_branch head_branch) [
      | err e ↦ (record { planned_commands = none; error = e ∷ [] }, log)
      | ok (wd, commands) ↦
          if dry_run
          then (record { planned_commands = some commands; error = [] }, log)
          else clean_up o cfg base_branch head_branch wd commands log
    ]
