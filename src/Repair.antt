-- ===== src/Repair.antt =====
-- `handleCodeRepairLoop` of toolhub/internal/http/server.go, with core/repair_loop.go. This file has
-- what the handler reads, and its checks up to the first change of state. The database, the JSON
-- decoder and GitHub are parameters: an `Outside` says what each call answers.
pub mod Attempts
pub mod Handler
pub mod BranchPr
pub mod Rpc
pub mod Tests
use ai_team_toolhub.Base.{
  ℕ, Bool, true, false, not, List, [], ◌∷◌, map, Option, none, some, Result, ok, err, ◌>>=◌, ◌>>◌,
  fail_if, if◌then◌else◌,
}
use ai_team_toolhub.Base.Int.{ℤ, int_le, not_positive}
use ai_team_toolhub.Text.{Text, codes, is_empty, text_eq, trim_space}
use ai_team_toolhub.Policy.{Policy, AllowError, PolicyViolation, check_tool, check_paths}
use ai_team_toolhub.CodeOps as Code
use ai_team_toolhub.CodeOps.{FileChange, Request}
use ai_team_toolhub.Qa.{Kind, RunError}
use ai_team_toolhub.Qa.Runner.{Runner}
use ai_team_toolhub.Qa.Runner as Qa

-- db.Run and db.Approval, less their times.
pub record Run : Type 0 where
  pub run_id : Text
  pub repo : Text
  pub purpose : Text

pub record Approval : Type 0 where
  pub approval_id : Text
  pub run_id : Text
  pub scope : Text
  pub status : Text
  pub approver : Option Text

-- codeRepairLoopBody
pub record Body : Type 0 where
  pub approval_id : Text
  pub base_branch : Text
  pub head_branch : Text
  pub commit_message : Text
  pub pr_title : Text
  pub pr_body : Text
  pub files : List FileChange
  pub max_iterations : ℤ
  pub dry_run : Bool

-- The fields of `Server` that the handler reads; a runner that is not configured is nil.
pub record Server : Type 0 where
  pub policy : Policy
  pub code : Option Code.Config
  pub qa : Option Runner
  pub repair_max_iterations : ℤ

-- gh.CreatePullRequestInput with the owner and the name of the repository.
pub record PullRequest : Type 0 where
  pub owner : Text
  pub repo : Text
  pub title : Text
  pub head : Text
  pub base : Text
  pub body : Text

-- What the calls answer: an error's message, or a value. `qa` and `slot` are asked with the number of
-- the iteration; `error_text` is the text of an error of the package qa.
-- A decision that is not recorded and a step that is not finished are only logged, so that these
-- calls have no answer here.
pub record Outside : Type 0 where
  pub get_run : Text → Result Text (Option Run)
  pub get_approval : Text → Result Text (Option Approval)
  pub start_step : Result Text Text
  pub code : Code.Outside
  pub qa : ℕ → Kind → Qa.Outside
  pub slot : ℕ → Kind → Option Text
  pub create_pull_request : PullRequest → Result Text Text
  pub record_call : Bool → Result Text Text
  pub error_text : RunError → Text
  pub unicode_lower : ℕ → ℕ

-- Why a request is refused; the text of an error stands as what it is printed from.
pub data Reason : Type 0 where
  said : Text → Reason
  invalid_json : Text → Reason
  tool_refused : AllowError → Reason
  path_refused : PolicyViolation → Reason
  iterations_exceed : ℤ → Reason

pub record Refusal : Type 0 where
  pub status : ℕ
  pub reason : Reason

abbrev pub refuse : {A : Type 0} → ℕ → Reason → Result Refusal A
refuse status reason = err (record { status = status; reason = reason })

-- A look-up that may fail, and may find nothing.
pub found : {A : Type 0} → Result Text (Option A) → Text → Result Refusal A
found (err msg) missing = refuse 500 (said msg)
found (ok none) missing = refuse 404 (said missing)
found (ok (some a)) missing = ok a

pub configured : {A : Type 0} → Option A → Text → Result Refusal A
configured none missing = refuse 500 (said missing)
configured (some a) missing = ok a

pub decode : {A : Type 0} → Result Text A → Result Refusal A
decode (err msg) = refuse 400 (invalid_json msg)
decode (ok body) = ok body

pub allow_tool : Policy → Text → Result Refusal (Unit {0})
allow_tool p tool = elim (check_tool p tool) [ ok u ↦ ok u | err e ↦ refuse 403 (tool_refused e) ]

pub permit_paths : Policy → List FileChange → Result Refusal (Unit {0})
permit_paths p files = elim (check_paths p (map (λ f. f.path) files)) [
  | ok u ↦ ok u
  | err e ↦ refuse 403 (path_refused e)
]

abbrev refusal : ℕ → Text → Refusal
refusal status msg = record { status = status; reason = said msg }

-- The tests on the approval, in the handler's order.
pub check_approval : Outside → Text → Text → Result Refusal (Unit {0})
unfolding found
check_approval o run_id approval_id = do
  fail_if (is_empty (trim_space approval_id)) (refusal 400 (codes "approval_id is required"))
  approval ← found (o.get_approval approval_id) (codes "approval not found")
  fail_if (not (text_eq approval.run_id run_id)) (refusal 404 (codes "approval not found"))
  fail_if (not (text_eq approval.status (codes "approved")))
      (refusal 403 (codes "approval is not approved"))
  fail_if (not (text_eq approval.scope (codes "code_write")))
      (refusal 403 (codes "approval scope must be code_write"))

-- `body.MaxIterations`, after its default is filled in.
pub iterations : Server → Body → ℤ
iterations s body =
    if not_positive body.max_iterations then s.repair_max_iterations else body.max_iterations

-- What the handler goes on with.
pub record Job : Type 0 where
  pub run : Run
  pub code : Code.Config
  pub qa : Runner
  pub body : Body
  pub max_iterations : ℤ

-- The part of the handler before `StartStep`.
pub check_request : Outside → Server → Text → Result Text Body → Result Refusal Job
unfolding found allow_tool configured decode iterations check_approval permit_paths
check_request o s run_id decoded = do
  run ← found (o.get_run run_id) (codes "run not found")
  allow_tool s.policy (codes "code.repair_loop")
  code ← configured s.code (codes "code runner is not configured")
  qa ← configured s.qa (codes "qa runner is not configured")
  body ← decode decoded
  fail_if (not (int_le (iterations s body) s.repair_max_iterations))
      (record { status = 400; reason = iterations_exceed s.repair_max_iterations })
  check_approval o run_id body.approval_id
  permit_paths s.policy body.files
  ok (record { run = run; code = code; qa = qa; body = body; max_iterations = iterations s body })
