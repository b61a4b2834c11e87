-- ===== src/Repair/Rpc/Work.antt =====
-- toolCodeRepairLoop of toolhub/internal/mcp/server.go from `StartStep` on, with its variables.
use ai_team_toolhub.Base.{
  ℕ, zero, suc, Bool, true, false, not, ◌&&◌, List, [], ◌∷◌, ◌++◌, Option, none, some, Result, ok,
  err, if◌then◌else◌,
}
use ai_team_toolhub.Text.{Text, codes}
use ai_team_toolhub.CodeOps.{CodeError, CodeResult, Request, Action}
use ai_team_toolhub.CodeOps.Exec.{execute, rollback_branch, Rollback}
use ai_team_toolhub.Qa.{RunError, kind_test, kind_lint, derive_status}
use ai_team_toolhub.Qa.Runner.{Runner}
use ai_team_toolhub.Qa.Run.{run}
use ai_team_toolhub.Repair.{Outside, Body, PullRequest, Job}
use ai_team_toolhub.Repair.Attempts.{
  is_nil, Attempt, map_qa_status_to_metric, derive_qa_failure_category,
}
use ai_team_toolhub.Repair.Handler.{
  Event, started_step, decided, executed, attempted_qa, counted, rolled_back, opened_pull_request,
  finished_step, RunErr, code_failed, qa_failed, pull_request_failed, Progress, split_repo, rounds,
}

-- The variables of the tool, the events and the actions so far, and `result`, whose entries
-- `iterations_run`, `qa_passed` and `qa_attempts` are those variables.
pub record Vars : Type 0 where
  pub events : List Event
  pub actions : List Action
  pub run_err : Option RunErr
  pub planned_commands : List Text
  pub commit_hash : Text
  pub iterations_run : ℕ
  pub qa_passed : Bool
  pub qa_attempts : List Attempt
  pub last_test_err : Option RunError
  pub last_lint_err : Option RunError
  pub status : Text
  pub qa_failure_category : Option Text
  pub rollback : Option Rollback
  pub pull_request : Option Text

abbrev pub executed_vars : List Action → Option RunErr → List Text → Text → Vars
executed_vars log run_err planned_commands commit_hash = record {
  events = started_step ∷ decided (codes "repair_loop_started") ∷ executed ∷ [];
  actions = log;
  run_err = run_err;
  planned_commands = planned_commands;
  commit_hash = commit_hash;
  iterations_run = 0;
  qa_passed = false;
  qa_attempts = [];
  last_test_err = none;
  last_lint_err = none;
  status = codes "completed";
  qa_failure_category = none;
  rollback = none;
  pull_request = none;
}

-- After `Execute`; without a result it is the empty one.
unfoldable pub after_execute : Result CodeError CodeResult × List Action → Vars
after_execute (ok r, log) = executed_vars log none r.planned_commands r.commit_hash
after_execute (err e, log) = executed_vars log (some (code_failed e)) [] []

-- One iteration.
unfoldable pub iterate_once : Outside → Runner → ℕ → Vars → Vars
iterate_once o r i v =
    let test = run (o.qa i kind_test) r (o.slot i kind_test) kind_test false in
    let lint = run (o.qa i kind_lint) r (o.slot i kind_lint) kind_lint false in
    let tried : Attempt = record { iteration = i; test = test; lint = lint } in
    let good = is_nil test.err && is_nil lint.err in
    record v {
      iterations_run = i;
      last_test_err = test.err;
      last_lint_err = lint.err;
      qa_attempts = v.qa_attempts ++ tried ∷ [];
      qa_passed = good;
      events =
          v.events
          ++ attempted_qa tried
            ∷ counted (codes "repair_qa_test")
                (map_qa_status_to_metric (derive_status test.report test.err false))
            ∷ counted (codes "repair_qa_lint")
                (map_qa_status_to_metric (derive_status lint.report lint.err false))
            ∷ decided (codes "repair_loop_iteration")
            ∷ counted (codes "repair_iteration") (if good then codes "pass" else codes "fail")
            ∷ [];
    }

-- The loop, with how many iterations are left.
unfoldable pub iterate : Outside → Runner → ℕ → ℕ → Vars → Vars
iterate o r i zero v = v
iterate o r i (suc n) v =
    let w = iterate_once o r i v in
    let more = iterate o r (suc i) n w in if w.qa_passed then w else more

-- The counters after `RollbackBranch`, by its error.
abbrev pub rollback_counters : List CodeError → List Event
rollback_counters [] =
    counted (codes "repair_rollback") (codes "success")
    ∷ counted (codes "repair_completed") (codes "qa_failed")
    ∷ []
rollback_counters (e ∷ es) =
    counted (codes "repair_rollback") (codes "failure")
    ∷ counted (codes "repair_completed") (codes "rollback_error")
    ∷ []

-- `if !qaPassed`
unfoldable pub take_back : Outside → Job → Vars → Vars
take_back o job v =
    let back =
      rollback_branch o.code job.code job.body.base_branch job.body.head_branch false v.actions in
    record v {
      status = codes "failed";
      qa_failure_category =
          some (
            derive_qa_failure_category o.unicode_lower o.error_text v.last_test_err
              v.last_lint_err);
      actions = back.1;
      rollback = some back.0;
      events = v.events ++ rolled_back ∷ rollback_counters back.0.error;
      run_err = some qa_failed;
    }

-- `if runErr == nil && !args.DryRun`
unfoldable pub check_work : Outside → Job → Vars → Vars
check_work o job v =
    let w = iterate o job.qa 1 (rounds job.max_iterations) v in
    if is_nil v.run_err && not job.body.dry_run
    then if w.qa_passed then w else take_back o job w
    else v

abbrev pub tool_pull_request : Job → PullRequest
tool_pull_request job = record {
  owner = (split_repo job.run.repo).0;
  repo = (split_repo job.run.repo).1;
  title = job.body.pr_title;
  head = job.body.head_branch;
  base = job.body.base_branch;
  body = job.body.pr_body;
}

unfoldable pub ask_pull_request : Outside → Job → Vars → Vars
ask_pull_request o job v = elim (o.create_pull_request (tool_pull_request job)) [
  | err msg ↦ record v { run_err = some (pull_request_failed msg) }
  | ok opened ↦ record v {
    pull_request = some opened;
    events =
        v.events
        ++ opened_pull_request (tool_pull_request job)
          ∷ counted (codes "repair_completed") (codes "success")
          ∷ [];
  }
]

-- `if runErr == nil && !args.DryRun && qaPassed`
unfoldable pub open_work : Outside → Job → Vars → Vars
open_work o job v =
    if is_nil v.run_err && (not job.body.dry_run && v.qa_passed)
    then ask_pull_request o job v
    else v

-- result["status"], before the call is recorded.
unfoldable pub status_of : Bool → Vars → Text
status_of dry_run v =
    if not (is_nil v.run_err) then codes "failed" else if dry_run then codes "dry_run" else v.status

-- The closing decision and the end of the step.
unfoldable pub closing : Bool → List Event
closing true = decided (codes "repair_loop_completed") ∷ finished_step (codes "completed") ∷ []
closing false = decided (codes "repair_loop_failed") ∷ finished_step (codes "failed") ∷ []

-- What the result of the tool call has.
abbrev pub progress_of : Vars → Progress
progress_of v = record {
  events = v.events;
  actions = v.actions;
  run_err = v.run_err;
  planned_commands = v.planned_commands;
  commit_hash = v.commit_hash;
  qa = record {
    iterations_run = v.iterations_run;
    qa_passed = v.qa_passed;
    qa_attempts = v.qa_attempts;
  };
  qa_failure_category = v.qa_failure_category;
  rollback = v.rollback;
  pull_request = v.pull_request;
}

abbrev pub request_to : Body → Request
request_to body = record {
  base_branch = body.base_branch;
  head_branch = body.head_branch;
  commit_message = body.commit_message;
  files = body.files;
  dry_run = body.dry_run;
}

-- Up to `audit.Record`.
unfoldable pub work : Outside → Job → Vars
work o job =
    open_work o job
      (check_work o job (after_execute (execute o.code job.code (request_to job.body) [])))
