-- ===== src/Repair/Handler.antt =====
-- `handleCodeRepairLoop` of toolhub/internal/http/server.go, from `StartStep` on.
pub mod Gate
pub mod Events
pub mod Order
pub mod Writes
use ai_team_toolhub.Base.{
  ℕ, zero, suc, Bool, true, false, not, ◌&&◌, List, [], ◌∷◌, ◌++◌, Option, none, some, Result, ok,
  err, if◌then◌else◌, ◌==◌,
}
use ai_team_toolhub.Base.Int.{ℤ, pos, negsuc}
use ai_team_toolhub.Text.{Text, codes}
use ai_team_toolhub.FilePath.{slash}
use ai_team_toolhub.CodeOps.{CodeError, CodeResult, Request, Action}
use ai_team_toolhub.CodeOps as Code
use ai_team_toolhub.CodeOps.Exec.{execute, rollback_branch, Rollback}
use ai_team_toolhub.Qa.{RunError, derive_status}
use ai_team_toolhub.Qa.Runner.{Runner, Ran}
use ai_team_toolhub.Repair.{
  Outside, Server, Run, Body, PullRequest, Refusal, Reason, said, Job, check_request,
}
use ai_team_toolhub.Repair.Attempts.{
  Attempt, passed, map_qa_status_to_metric, derive_qa_failure_category, Loop, loop_start,
  repair_loop,
}

-- The calls of the audit service, of the runners and of GitHub that the handler makes, and the
-- counters it increments, in its order.
pub data Event : Type 0 where
  started_step executed rolled_back : Event
  decided : Text → Event
  attempted_qa : Attempt → Event
  opened_pull_request : PullRequest → Event
  recorded : Bool → Text → Event
  finished_step : Text → Event
  counted : Text → Text → Event

-- `runErr`
pub data RunErr : Type 0 where
  code_failed : CodeError → RunErr
  qa_failed : RunErr
  pull_request_failed : Text → RunErr

-- The variables of the handler: the events and the actions of codeops so far, `runErr`, and what goes
-- into the map `result`.
pub record Progress : Type 0 where
  pub events : List Event
  pub actions : List Action
  pub run_err : Option RunErr
  pub planned_commands : List Text
  pub commit_hash : Text
  pub qa : Loop
  pub qa_failure_category : Option Text
  pub rollback : Option Rollback
  pub pull_request : Option Text

-- The answer: refused by the checks, an error of the audit service (500), `runErr` (502, as it is
-- mapped), or the tool call with the result.
pub data Reply : Type 0 where
  refused : Refusal → Reply
  audit_failed : Text → Reply
  failed : RunErr → Reply
  done : Text → Progress → Reply

pub record Answer : Type 0 where
  pub reply : Reply
  pub events : List Event
  pub actions : List Action

-- splitRepo
pub split_repo : Text → Text × Text
split_repo [] = ([], [])
split_repo (c ∷ repo) =
    let (owner, name) = split_repo repo in if c == slash then ([], repo) else (c ∷ owner, name)

unfoldable pub request_of : Body → Request
request_of body = record {
  base_branch = body.base_branch;
  head_branch = body.head_branch;
  commit_message = body.commit_message;
  files = body.files;
  dry_run = body.dry_run;
}

unfoldable pub pull_request_of : Run → Body → PullRequest
unfolding split_repo
pull_request_of run body = record {
  owner = (split_repo run.repo).0;
  repo = (split_repo run.repo).1;
  title = body.pr_title;
  head = body.head_branch;
  base = body.base_branch;
  body = body.pr_body;
}

-- After the call of `Execute`. Where it fails, `codeResult` is the empty result.
abbrev executed_at : List Action → Progress
executed_at log = record {
  events = started_step ∷ decided (codes "repair_loop_started") ∷ executed ∷ [];
  actions = log;
  run_err = none;
  planned_commands = [];
  commit_hash = [];
  qa = loop_start;
  qa_failure_category = none;
  rollback = none;
  pull_request = none;
}

unfoldable pub executed_with : Result CodeError CodeResult × List Action → Progress
executed_with (ok result, log) = record (executed_at log) {
  planned_commands = result.planned_commands;
  commit_hash = result.commit_hash;
}
executed_with (err e, log) = record (executed_at log) { run_err = some (code_failed e) }

unfoldable pub write_code : Outside → Job → Progress
unfolding request_of executed_with
write_code o job = executed_with (execute o.code job.code (request_of job.body) [])

-- The events of an iteration.
unfoldable pub attempt_events : Attempt → List Event
attempt_events a =
    attempted_qa a
    ∷ counted (codes "repair_qa_test")
        (map_qa_status_to_metric (derive_status a.test.report a.test.err false))
    ∷ counted (codes "repair_qa_lint")
        (map_qa_status_to_metric (derive_status a.lint.report a.lint.err false))
    ∷ decided (codes "repair_loop_iteration")
    ∷ counted (codes "repair_iteration") (if passed a then codes "pass" else codes "fail")
    ∷ []

unfoldable pub loop_events : List Attempt → List Event
unfolding attempt_events
loop_events [] = []
loop_events (a ∷ attempts) = attempt_events a ++ loop_events attempts

-- `lastTestErr` and `lastLintErr`
unfoldable pub last_errors : List Attempt → Option RunError × Option RunError
last_errors [] = (none, none)
last_errors (a ∷ []) = (a.test.err, a.lint.err)
last_errors (a ∷ b ∷ attempts) = last_errors (b ∷ attempts)

unfoldable pub rollback_events : List CodeError → List Event
rollback_events [] =
    counted (codes "repair_rollback") (codes "success")
    ∷ counted (codes "repair_completed") (codes "qa_failed")
    ∷ []
rollback_events (e ∷ es) =
    counted (codes "repair_rollback") (codes "failure")
    ∷ counted (codes "repair_completed") (codes "rollback_error")
    ∷ []

-- Where no iteration passed: the branch is rolled back, and `runErr` is set.
unfoldable pub roll_back : Outside → Job → Progress → Progress
unfolding last_errors rollback_events
roll_back o job p =
    let (back, log) =
      rollback_branch o.code job.code job.body.base_branch job.body.head_branch false p.actions in
    let (test_err, lint_err) = last_errors p.qa.qa_attempts in
    record p {
      events = p.events ++ rolled_back ∷ rollback_events back.error;
      actions = log;
      run_err = some qa_failed;
      qa_failure_category =
          some (derive_qa_failure_category o.unicode_lower o.error_text test_err lint_err);
      rollback = some back;
    }

-- The number of rounds of `for i := 1; i <= max; i++`.
pub rounds : ℤ → ℕ
rounds (pos n) = n
rounds (negsuc n) = 0

-- The iterations, and what follows if none passed.
unfoldable pub check_code : Outside → Job → Progress → Progress
unfolding rounds loop_events roll_back
check_code o job p =
    let st = repair_loop o job.qa 1 (rounds job.max_iterations) loop_start in
    let p' = record p { events = p.events ++ loop_events st.qa_attempts; qa = st } in
    if st.qa_passed then p' else roll_back o job p'

unfoldable pub verify : Outside → Job → Progress → Progress
unfolding check_code
verify o job p = elim p.run_err [
  | some e ↦ p
  | none ↦ if job.body.dry_run then p else check_code o job p
]

unfoldable pub submit : Outside → Job → Progress → Progress
unfolding pull_request_of
submit o job p =
    let pr = pull_request_of job.run job.body in
    elim (o.create_pull_request pr) [
      | err msg ↦ record p { run_err = some (pull_request_failed msg) }
      | ok opened ↦ record p {
        events =
            p.events
            ++ opened_pull_request pr ∷ counted (codes "repair_completed") (codes "success") ∷ [];
        pull_request = some opened;
      }
    ]

unfoldable pub open_pull_request : Outside → Job → Progress → Progress
unfolding submit
open_pull_request o job p = elim p.run_err [
  | some e ↦ p
  | none ↦ if not job.body.dry_run && p.qa.qa_passed then submit o job p else p
]

-- result["status"]
unfoldable pub result_status : Bool → Option RunErr → Text
result_status dry_run (some e) = codes "failed"
result_status true none = codes "dry_run"
result_status false none = codes "completed"

-- From `audit.Record` on. The record of the call has the request, the result and `runErr`.
unfoldable pub closing_events : Bool → Option RunErr → List Event
unfolding result_status
closing_events dry_run none =
    recorded true (result_status dry_run none)
    ∷ decided (codes "repair_loop_completed")
    ∷ finished_step (codes "completed")
    ∷ []
closing_events dry_run (some e) =
    recorded false (result_status dry_run (some e))
    ∷ decided (codes "repair_loop_failed")
    ∷ finished_step (codes "failed")
    ∷ []

unfoldable pub reply_with : Option RunErr → Text → Progress → Reply
reply_with none id p = done id p
reply_with (some e) id p = failed e

unfoldable pub is_success : Option RunErr → Bool
is_success none = true
is_success (some e) = false

unfoldable pub finish : Outside → Bool → Progress → Answer
unfolding closing_events reply_with is_success
finish o dry_run p = elim (o.record_call (is_success p.run_err)) [
  | err msg ↦ record { reply = audit_failed msg; events = p.events; actions = p.actions }
  | ok id ↦ record {
    reply = reply_with p.run_err id p;
    events = p.events ++ closing_events dry_run p.run_err;
    actions = p.actions;
  }
]

-- From `StartStep` on.
abbrev pub perform : Outside → Job → Answer
perform o job = elim o.start_step [
  | err msg ↦ record { reply = audit_failed msg; events = []; actions = [] }
  | ok step ↦ finish o job.body.dry_run (open_pull_request o job (verify o job (write_code o job)))
]

-- handleCodeRepairLoop
unfoldable pub handle_code_repair_loop : Outside → Server → Text → Result Text Body → Answer
unfolding finish open_pull_request verify write_code
handle_code_repair_loop o s run_id decoded = elim (check_request o s run_id decoded) [
  | err x ↦ record { reply = refused x; events = []; actions = [] }
  | ok job ↦ perform o job
]
