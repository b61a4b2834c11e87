-- ===== src/Issues/Batch.antt =====
-- `handleBatchCreateIssues` of toolhub/internal/http/server.go. What the audit service and GitHub
-- answer is a parameter, which is asked with the index of the issue.
pub mod Counts
pub mod Response
use ai_team_toolhub.Base.{
  ℕ, suc, ◌-◌, Bool, true, false, List, [], ◌∷◌, ◌++◌, Option, none, some, length, ltb, ◌==◌,
  Result, ok, err, ◌>>=◌, ◌>>◌, fail_if, if◌then◌else◌,
}
use ai_team_toolhub.Text.{Text, codes}
use ai_team_toolhub.Policy.{Policy, AllowError, check_tool}
use ai_team_toolhub.Repair.{Run}
use ai_team_toolhub.Issues.{
  BatchMode, partial_mode, strict_mode, BatchStatus, derive_batch_status, IssueError, Issue,
  Payload, validate_issue_input, make_issue_idempotency_key, max_batch_size,
}

-- `replay` is `ReplayResponse` for a key: nothing, or the text of an issue. `create_issue` is GitHub,
-- `record_call` the answer of `audit.Record`, which gets the error of GitHub.
pub record Outside : Type 0 where
  pub get_run : Text → Result Text (Option Run)
  pub digest : Payload → Result Text Text
  pub replay : ℕ → Text → Result Text (Option Text)
  pub create_issue : ℕ → Run → Issue → Result Text Text
  pub record_call : ℕ → Text → Option Text → Result Text Text

pub record BatchBody : Type 0 where
  pub issues : List Issue
  pub dry_run : Bool

-- batchResultJSON, less its index, which is its place in the list.
pub record BatchResult : Type 0 where
  pub issue : Option Text
  pub replayed : Bool
  pub error : Option Text

-- batchResponseJSON, less its mode and its total.
pub record BatchResponse : Type 0 where
  pub status : BatchStatus
  pub processed : ℕ
  pub errors : ℕ
  pub replayed : ℕ
  pub created_fresh : ℕ
  pub stopped_at : Option ℕ
  pub failed_reason : Option Text
  pub results : List BatchResult

pub data Refusal : Type 0 where
  run_lookup_failed : Text → Refusal
  run_not_found : Refusal
  tool_refused : AllowError → Refusal
  invalid_json : Text → Refusal
  issues_empty issues_exceed : Refusal
  issue_invalid : ℕ → IssueError → Refusal
  key_failed replay_failed : Text → Refusal
  audit_failed : ℕ → Text → Refusal

-- The variables of the loop, and the issues that GitHub was asked to create.
pub record Progress : Type 0 where
  pub results : List BatchResult
  pub replayed_count : ℕ
  pub err_count : ℕ
  pub sent : List Issue

-- How the loop ends: at an error of its own, at the first error of GitHub in the strict mode, or after
-- the last issue.
pub data End : Type 0 where
  aborted : Refusal → End
  stopped : ℕ → Text → End
  completed : End

abbrev tool : Text
tool = codes "github.issues.batch_create"

-- What the issue of a result is.
issue_of : Option (Result Text Text) → Option Text
issue_of none = none
issue_of (some (ok issue)) = some issue
issue_of (some (err msg)) = none

-- `ghErr`
error_of : Option (Result Text Text) → Option Text
error_of none = none
error_of (some (ok issue)) = none
error_of (some (err msg)) = some msg

pub replayed_one : Text → Progress → Progress
replayed_one issue p = record p {
  results = p.results ++ record { issue = some issue; replayed = true; error = none } ∷ [];
  replayed_count = suc p.replayed_count;
}

counted_errors : Option Text → ℕ → ℕ
counted_errors none n = n
counted_errors (some msg) n = suc n

pub created_one : Option (Result Text Text) → Progress → Progress
unfolding issue_of error_of counted_errors
created_one r p = record p {
  results = p.results ++ record { issue = issue_of r; replayed = false; error = error_of r } ∷ [];
  err_count = counted_errors (error_of r) p.err_count;
}

-- What GitHub answers, or nothing in a dry run.
ask : Outside → Run → Bool → ℕ → Issue → Option (Result Text Text)
ask o run true i issue = none
ask o run false i issue = some (o.create_issue i run issue)

sent_one : Bool → Issue → Progress → Progress
sent_one true issue p = p
sent_one false issue p = record p { sent = p.sent ++ issue ∷ [] }

-- Whether the strict mode ends the loop.
stops : BatchMode → Option Text → Option Text
stops partial_mode e = none
stops strict_mode e = e

-- An issue: it is replayed, or asked for and recorded. The second component says how the loop ends,
-- where it does.
process : Outside → Text → Run → BatchMode → Bool → ℕ → Issue → Progress → Option End × Progress
unfolding ask sent_one created_one replayed_one stops error_of
process o run_id run mode dry_run i issue p =
    elim (make_issue_idempotency_key o.digest run_id tool issue (some i)) [
      | err msg ↦ (some (aborted (key_failed msg)), p)
      | ok key ↦ elim (o.replay i key) [
        | err msg ↦ (some (aborted (replay_failed msg)), p)
        | ok (some old) ↦ (none, replayed_one old p)
        | ok none ↦
            let r = ask o run dry_run i issue in
            let p' = sent_one dry_run issue p in
            elim (o.record_call i key (error_of r)) [
              | err msg ↦ (some (aborted (audit_failed i msg)), p')
              | ok id ↦ elim (stops mode (error_of r)) [
                | some reason ↦ (some (stopped i reason), created_one r p')
                | none ↦ (none, created_one r p')
              ]
            ]
      ]
    ]

-- The loop from the index `i` on.
process_all : Outside → Text → Run → BatchMode → Bool → ℕ → List Issue → Progress → End × Progress
unfolding process
process_all o run_id run mode dry_run i [] p = (completed, p)
process_all o run_id run mode dry_run i (issue ∷ issues) p =
    let (ended, p') = process o run_id run mode dry_run i issue p in
    let rest = process_all o run_id run mode dry_run (suc i) issues p' in
    elim ended [ some e ↦ (e, p') | none ↦ rest ]

validate_all : ℕ → List Issue → Result Refusal (Unit {0})
validate_all i [] = ok tt
validate_all i (issue ∷ issues) =
    let rest = validate_all (suc i) issues in
    elim (validate_issue_input issue) [ err e ↦ err (issue_invalid i e) | ok u ↦ rest ]

found : Result Text (Option Run) → Result Refusal Run
found (err msg) = err (run_lookup_failed msg)
found (ok none) = err run_not_found
found (ok (some run)) = ok run

decode : Result Text BatchBody → Result Refusal BatchBody
decode (err msg) = err (invalid_json msg)
decode (ok body) = ok body

allow_tool : Policy → Result Refusal (Unit {0})
allow_tool p = elim (check_tool p tool) [ ok u ↦ ok u | err e ↦ err (tool_refused e) ]

check_batch : Outside → Policy → Text → Result Text BatchBody → Result Refusal (Run × BatchBody)
unfolding found allow_tool decode validate_all
check_batch o policy run_id decoded = do
  run ← found (o.get_run run_id)
  allow_tool policy
  body ← decode decoded
  fail_if (length body.issues == 0) issues_empty
  fail_if (ltb max_batch_size (length body.issues)) issues_exceed
  validate_all 0 body.issues
  ok (run, body)

-- The answer to the end of the loop.
respond : ℕ → End × Progress → Result Refusal BatchResponse
respond total (aborted r, p) = err r
respond total (stopped i reason, p) = ok (record {
  status = derive_batch_status (suc i) p.replayed_count p.err_count;
  processed = suc i;
  errors = p.err_count;
  replayed = p.replayed_count;
  created_fresh = suc i - p.replayed_count;
  stopped_at = some i;
  failed_reason = some reason;
  results = p.results;
})
respond total (completed, p) = ok (record {
  status = derive_batch_status total p.replayed_count p.err_count;
  processed = total;
  errors = p.err_count;
  replayed = p.replayed_count;
  created_fresh = total - p.replayed_count;
  stopped_at = none;
  failed_reason = none;
  results = p.results;
})

abbrev pub start : Progress
start = record { results = []; replayed_count = 0; err_count = 0; sent = [] }

-- handleBatchCreateIssues
unfoldable pub handle_batch_create_issues :
    Outside → Policy → BatchMode → Text → Result Text BatchBody → Result Refusal BatchResponse
unfolding check_batch process_all respond
handle_batch_create_issues o policy mode run_id decoded = do
  (run, body) ← check_batch o policy run_id decoded
  respond (length body.issues) (process_all o run_id run mode body.dry_run 0 body.issues start)
