-- ===== src/Repair/Rpc.antt =====
-- The tools code_repair_loop and code_branch_pr_create of toolhub/internal/mcp/server.go: their checks,
-- and the rest of the latter; the variables of the former are in Rpc/Work.
pub mod Checks
pub mod Agrees
pub mod Branch
pub mod Work
pub mod Loops
use ai_team_toolhub.Base.{
  ℕ, Bool, true, false, not, ◌||◌, ◌&&◌, List, [], ◌∷◌, ◌++◌, map, Option, none, some, Result, ok,
  err, ◌>>=◌, ◌>>◌, fail_if, if◌then◌else◌,
}
use ai_team_toolhub.Base.Int.{ℤ, negsuc, int_le}
use ai_team_toolhub.Text.{Text, codes, is_empty, text_eq, trim_space}
use ai_team_toolhub.Policy.{Policy, PolicyViolation, check_tool, check_paths}
use ai_team_toolhub.CodeOps as Code
use ai_team_toolhub.CodeOps.{FileChange, Action}
use ai_team_toolhub.Qa.Runner.{Runner}
use ai_team_toolhub.Repair.{
  Outside, Server, Run, Approval, Body, Reason, said, invalid_json, tool_refused, iterations_exceed,
  Job, iterations,
}
use ai_team_toolhub.CodeOps.{CodeError, CodeResult, Request}
use ai_team_toolhub.CodeOps.Exec.{execute}
use ai_team_toolhub.Text.{join}
use ai_team_toolhub.Patches.{generate_unified_diff}
use ai_team_toolhub.Repair.{PullRequest}
use ai_team_toolhub.Repair.Attempts.{is_nil}
use ai_team_toolhub.Repair.Handler.{
  Event, recorded, RunErr, code_failed, pull_request_failed, Progress, split_repo,
}
use ai_team_toolhub.Repair.Rpc.Work.{Vars, status_of, closing, progress_of, work}
use ai_team_toolhub.Repair.BranchPr.{BranchBody, BranchJob, BranchResult}

-- The codes of JSON-RPC: -32602 and -32603.
abbrev pub invalid_params : ℤ
invalid_params = negsuc 32601

abbrev pub internal_error : ℤ
internal_error = negsuc 32602

-- What the checks refuse with: an error with its code, or the envelope of a violation, with the run and
-- whether it is a dry run.
pub data RpcRefusal : Type 0 where
  error_reply : ℤ → Reason → RpcRefusal
  violation : Text → Bool → PolicyViolation → RpcRefusal

-- A reply: a refusal; `runErr`, as it is mapped, or an error of the audit service, with the code -32603;
-- or the envelope of the tool call.
pub data RpcReply (R : Type 0) : Type 0 where
  refused : RpcRefusal → RpcReply R
  run_failed : RunErr → RpcReply R
  audit_error : Text → RpcReply R
  completed : Text → R → RpcReply R

abbrev pub Checked : Type 0 → Type 0
Checked A = Result RpcRefusal A

-- json.Unmarshal
pub decode_args : {A : Type 0} → Result Text A → Checked A
decode_args (err msg) = err (error_reply invalid_params (invalid_json msg))
decode_args (ok args) = ok args

-- `err != nil || run == nil`
pub run_of : Result Text (Option Run) → Checked Run
run_of (err msg) = err (error_reply invalid_params (said (codes "run not found")))
run_of (ok none) = err (error_reply invalid_params (said (codes "run not found")))
run_of (ok (some run)) = ok run

pub allow_call : Policy → Text → Checked (Unit {0})
allow_call p tool = elim (check_tool p tool) [
  | ok u ↦ ok u
  | err e ↦ err (error_reply invalid_params (tool_refused e))
]

pub runner_of : {A : Type 0} → Option A → Text → Checked A
runner_of none missing = err (error_reply internal_error (said missing))
runner_of (some a) missing = ok a

-- The approval of the run.
pub approval_of : Text → Result Text (Option Approval) → Checked Approval
approval_of run_id (err msg) = err (error_reply internal_error (said msg))
approval_of run_id (ok none) = err (error_reply invalid_params (said (codes "approval not found")))
approval_of run_id (ok (some a)) =
    if text_eq a.run_id run_id
    then ok a
    else err (error_reply invalid_params (said (codes "approval not found")))

pub check_call_approval : Outside → Text → Text → Checked (Unit {0})
unfolding approval_of
check_call_approval o run_id approval_id = do
  approval ← approval_of run_id (o.get_approval approval_id)
  fail_if (not (text_eq approval.status (codes "approved")))
      (error_reply invalid_params (said (codes "approval is not approved")))
  fail_if (not (text_eq approval.scope (codes "code_write")))
      (error_reply invalid_params (said (codes "approval scope must be code_write")))

-- An error of CheckPaths is a violation, which setPathPolicyViolationResult puts into the result.
pub permit_call : Policy → Text → Bool → List FileChange → Checked (Unit {0})
permit_call p run_id dry_run files = elim (check_paths p (map (λ f. f.path) files)) [
  | ok u ↦ ok u
  | err v ↦ err (violation run_id dry_run v)
]

-- Both identifiers are there.
pub named : Text → Text → Checked (Unit {0})
named run_id approval_id =
    fail_if (is_empty (trim_space run_id) || is_empty (trim_space approval_id))
      (error_reply invalid_params (said (codes "run_id and approval_id are required")))

-- codeRepairLoopArgs: the run, and what is the body of the HTTP request.
pub record CallArgs (B : Type 0) : Type 0 where
  pub run_id : Text
  pub body : B

abbrev pub job_of : Server → Run → Code.Config → Runner → Body → Job
job_of s run code qa body = record {
  run = run;
  code = code;
  qa = qa;
  body = body;
  max_iterations = iterations s body;
}

-- toolCodeRepairLoop up to `StartStep`.
pub check_call : Outside → Server → Result Text (CallArgs Body) → Checked Job
unfolding decode_args named run_of allow_call runner_of check_call_approval permit_call
check_call o s decoded = do
  args ← decode_args decoded
  named args.run_id args.body.approval_id
  fail_if (not (int_le (iterations s args.body) s.repair_max_iterations))
      (error_reply invalid_params (iterations_exceed s.repair_max_iterations))
  run ← run_of (o.get_run args.run_id)
  allow_call s.policy (codes "code.repair_loop")
  code ← runner_of s.code (codes "code runner is not configured")
  qa ← runner_of s.qa (codes "qa runner is not configured")
  check_call_approval o args.run_id args.body.approval_id
  permit_call s.policy args.run_id args.body.dry_run args.body.files
  ok (job_of s run code qa args.body)

pub record RpcAnswer : Type 0 where
  pub reply : RpcReply Progress
  pub events : List Event
  pub actions : List Action

-- From `audit.Record` on. What is recorded of the request, the arguments with the run's identifier, is
-- not modelled.
unfoldable pub finish_work : Outside → Bool → Vars → RpcAnswer
unfolding is_nil status_of closing
finish_work o dry_run v = elim (o.record_call (is_nil v.run_err)) [
  | err msg ↦ record {
    reply = audit_error (codes "audit record failed: " ++ msg);
    events = v.events;
    actions = v.actions;
  }
  | ok id ↦ record {
    reply = elim v.run_err [ some e ↦ run_failed e | none ↦ completed id (progress_of v) ];
    events =
        v.events ++ recorded (is_nil v.run_err) (status_of dry_run v) ∷ closing (is_nil v.run_err);
    actions = v.actions;
  }
]

-- From `StartStep` on.
unfoldable pub start_work : Outside → Job → RpcAnswer
unfolding finish_work work
start_work o job = elim o.start_step [
  | err msg ↦ record { reply = audit_error msg; events = []; actions = [] }
  | ok step ↦ finish_work o job.body.dry_run (work o job)
]

-- toolCodeRepairLoop
unfoldable pub tool_code_repair_loop : Outside → Server → Result Text (CallArgs Body) → RpcAnswer
unfolding check_call start_work
tool_code_repair_loop o s decoded = elim (check_call o s decoded) [
  | err x ↦ record { reply = refused x; events = []; actions = [] }
  | ok job ↦ start_work o job
]

-- toolCodeBranchPRCreate up to `Execute`; codeBranchPRArgs is the run with the body.
pub check_branch_call : Outside → Server → Result Text (CallArgs BranchBody) → Checked BranchJob
unfolding decode_args named run_of allow_call runner_of check_call_approval permit_call
check_branch_call o s decoded = do
  args ← decode_args decoded
  named args.run_id args.body.approval_id
  run ← run_of (o.get_run args.run_id)
  allow_call s.policy (codes "code.branch_pr.create")
  code ← runner_of s.code (codes "code runner is not configured")
  check_call_approval o args.run_id args.body.approval_id
  permit_call s.policy args.run_id args.body.dry_run args.body.files
  ok (record { run = run; code = code; body = args.body })

pub record BranchRpcAnswer : Type 0 where
  pub reply : RpcReply (Text × BranchResult)
  pub actions : List Action
  pub pull_request : Option Text

-- The arguments of `Execute`.
abbrev pub execute_request : BranchBody → Request
execute_request body = record {
  base_branch = body.base_branch;
  head_branch = body.head_branch;
  commit_message = body.commit_message;
  files = body.files;
  dry_run = body.dry_run;
}

-- `combinedPatch`
unfoldable pub patch_of : (ℕ → Text) → List FileChange → Text
patch_of decimal files =
    join
      (map (λ f. generate_unified_diff decimal f.path f.original_content f.modified_content) files)
      10

-- After `Execute`, whose failure is counted twice; without a result it is the empty one.
unfoldable pub branch_executed : Result CodeError CodeResult → BranchResult
branch_executed (ok r) = record {
  run_err = none;
  code_result = r;
  pull_request = none;
  code_errors_counted = 0;
}
branch_executed (err e) = record {
  run_err = some (code_failed e);
  code_result = record { planned_commands = []; commit_hash = [] };
  pull_request = none;
  code_errors_counted = 2;
}

abbrev pub branch_pull : BranchJob → PullRequest
branch_pull job = record {
  owner = (split_repo job.run.repo).0;
  repo = (split_repo job.run.repo).1;
  title = job.body.pr_title;
  head = job.body.head_branch;
  base = job.body.base_branch;
  body = job.body.pr_body;
}

unfoldable pub ask_branch_pull : Outside → BranchJob → BranchResult → BranchResult
ask_branch_pull o job b = elim (o.create_pull_request (branch_pull job)) [
  | err msg ↦ record b { run_err = some (pull_request_failed msg) }
  | ok opened ↦ record b { pull_request = some opened }
]

-- `if runErr == nil && !args.DryRun`
unfoldable pub open_branch : Outside → BranchJob → BranchResult → BranchResult
unfolding is_nil ask_branch_pull
open_branch o job b =
    if is_nil b.run_err && not job.body.dry_run then ask_branch_pull o job b else b

-- From `audit.Record` on; the patch is stored with the call.
unfoldable pub finish_branch_work : Outside → Text → BranchResult → RpcReply (Text × BranchResult)
unfolding is_nil
finish_branch_work o patch b = elim (o.record_call (is_nil b.run_err)) [
  | err msg ↦ audit_error (codes "audit record failed: " ++ msg)
  | ok id ↦ elim b.run_err [ some e ↦ run_failed e | none ↦ completed id (patch, b) ]
]

-- From `combinedPatch` on.
unfoldable pub branch_work : Outside → (ℕ → Text) → BranchJob → BranchRpcAnswer
unfolding branch_executed open_branch finish_branch_work patch_of
branch_work o decimal job =
    let x = execute o.code job.code (execute_request job.body) [] in
    let b = open_branch o job (branch_executed x.0) in
    record {
      reply = finish_branch_work o (patch_of decimal job.body.files) b;
      actions = x.1;
      pull_request = b.pull_request;
    }

-- toolCodeBranchPRCreate
unfoldable pub tool_code_branch_pr_create :
    Outside → (ℕ → Text) → Server → Result Text (CallArgs BranchBody) → BranchRpcAnswer
unfolding check_branch_call branch_work
tool_code_branch_pr_create o decimal s decoded = elim (check_branch_call o s decoded) [
  | err x ↦ record { reply = refused x; actions = []; pull_request = none }
  | ok job ↦ branch_work o decimal job
]
