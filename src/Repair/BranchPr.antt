-- ===== src/Repair/BranchPr.antt =====
-- `handleCodeBranchPR` of toolhub/internal/http/server.go. It shares the checks, the parameters and
-- the pull request of the repair loop.
use ai_team_toolhub.Base.{
  ℕ, ◌≡◌, Bool, true, false, List, [], map, Option, none, some, Result, ok, err, ◌>>=◌, ◌>>◌,
  if◌then◌else◌,
}
use ai_team_toolhub.Text.{Text, codes, join}
use ai_team_toolhub.Patches.{generate_unified_diff}
use ai_team_toolhub.Policy.{check_tool, check_paths}
use ai_team_toolhub.CodeOps as Code
use ai_team_toolhub.CodeOps.{FileChange, Request, CodeResult, CodeError, Action}
use ai_team_toolhub.CodeOps.Exec.{execute}
use ai_team_toolhub.Repair.{
  Outside, Server, Run, PullRequest, Refusal, found, configured, decode, allow_tool, check_approval,
  permit_paths,
}
use ai_team_toolhub.Repair.Handler.Gate.{Usable}
use ai_team_toolhub.Repair.Handler.{RunErr, code_failed, pull_request_failed, split_repo}

-- codeBranchPRBody
pub record BranchBody : Type 0 where
  pub approval_id : Text
  pub base_branch : Text
  pub head_branch : Text
  pub commit_message : Text
  pub pr_title : Text
  pub pr_body : Text
  pub files : List FileChange
  pub dry_run : Bool

pub record BranchJob : Type 0 where
  pub run : Run
  pub code : Code.Config
  pub body : BranchBody

-- The part of the handler before `Execute`.
unfoldable pub check_branch_request :
    Outside → Server → Text → Result Text BranchBody → Result Refusal BranchJob
unfolding found allow_tool configured decode check_approval permit_paths
check_branch_request o s run_id decoded = do
  run ← found (o.get_run run_id) (codes "run not found")
  allow_tool s.policy (codes "code.branch_pr.create")
  code ← configured s.code (codes "code runner is not configured")
  body ← decode decoded
  check_approval o run_id body.approval_id
  permit_paths s.policy body.files
  ok (record { run = run; code = code; body = body })

-- `combinedPatch`
unfoldable pub combined_patch : (ℕ → Text) → List FileChange → Text
combined_patch decimal files =
    join
      (map (λ f. generate_unified_diff decimal f.path f.original_content f.modified_content) files)
      10

unfoldable pub branch_request : BranchBody → Request
branch_request body = record {
  base_branch = body.base_branch;
  head_branch = body.head_branch;
  commit_message = body.commit_message;
  files = body.files;
  dry_run = body.dry_run;
}

unfoldable pub branch_pull_request : Run → BranchBody → PullRequest
branch_pull_request run body = record {
  owner = (split_repo run.repo).0;
  repo = (split_repo run.repo).1;
  title = body.pr_title;
  head = body.head_branch;
  base = body.base_branch;
  body = body.pr_body;
}

-- `runErr`, the result of `Execute` and the pull request, before the call is recorded.
pub record BranchResult : Type 0 where
  pub run_err : Option RunErr
  pub code_result : CodeResult
  pub pull_request : Option Text
  pub code_errors_counted : ℕ

abbrev no_result : CodeResult
no_result = record { planned_commands = []; commit_hash = [] }

-- A failed `Execute` is counted twice. A pull request is asked for where it succeeded and wrote.
unfoldable pub submit_branch : Outside → BranchJob → Result CodeError CodeResult → BranchResult
unfolding branch_pull_request
submit_branch o job (err e) = record {
  run_err = some (code_failed e);
  code_result = no_result;
  pull_request = none;
  code_errors_counted = 2;
}
submit_branch o job (ok r) =
    let pr = o.create_pull_request (branch_pull_request job.run job.body) in
    if job.body.dry_run
    then record { run_err = none; code_result = r; pull_request = none; code_errors_counted = 0 }
    else elim pr [
      | err msg ↦ record {
        run_err = some (pull_request_failed msg);
        code_result = r;
        pull_request = none;
        code_errors_counted = 0;
      }
      | ok opened ↦ record {
        run_err = none;
        code_result = r;
        pull_request = some opened;
        code_errors_counted = 0;
      }
    ]

pub data BranchReply : Type 0 where
  refused : Refusal → BranchReply
  audit_failed : Text → BranchReply
  failed : RunErr → BranchReply
  done : Text → Text → BranchResult → BranchReply

pub record BranchAnswer : Type 0 where
  pub reply : BranchReply
  pub actions : List Action
  pub pull_request : Option Text

unfoldable pub is_success : Option RunErr → Bool
is_success none = true
is_success (some e) = false

-- From `audit.Record` on; the patch is stored with the record.
unfoldable pub finish_branch : Outside → Text → BranchResult → BranchReply
unfolding is_success
finish_branch o patch r = elim (o.record_call (is_success r.run_err)) [
  | err msg ↦ audit_failed msg
  | ok id ↦ elim r.run_err [ some e ↦ failed e | none ↦ done id patch r ]
]

unfoldable pub work_branch : Outside → (ℕ → Text) → BranchJob → BranchAnswer
unfolding branch_request submit_branch finish_branch combined_patch
work_branch o decimal job =
    let (r, log) = execute o.code job.code (branch_request job.body) [] in
    let b = submit_branch o job r in
    record {
      reply = finish_branch o (combined_patch decimal job.body.files) b;
      actions = log;
      pull_request = b.pull_request;
    }

-- handleCodeBranchPR
unfoldable pub handle_code_branch_pr :
    Outside → (ℕ → Text) → Server → Text → Result Text BranchBody → BranchAnswer
unfolding check_branch_request work_branch
handle_code_branch_pr o decimal s run_id decoded = elim (check_branch_request o s run_id decoded) [
  | err x ↦ record { reply = refused x; actions = []; pull_request = none }
  | ok job ↦ work_branch o decimal job
]

-- What has been checked: the tool and every path are allowed, and the approval named by the request is
-- of this run, is approved and is for writing code.
pub record BranchGated (o : Outside) (s : Server) (run_id : Text) (decoded : Result Text BranchBody)
    (job : BranchJob) : Type 0 where
  pub run_found : o.get_run run_id ≡ ok (some job.run)
  pub tool_allowed : check_tool s.policy (codes "code.branch_pr.create") ≡ ok tt
  pub code_configured : s.code ≡ some job.code
  pub decoded_body : decoded ≡ ok job.body
  pub approval : Usable o run_id job.body.approval_id
  pub paths_allowed : check_paths s.policy (map (λ f. f.path) job.body.files) ≡ ok tt
