-- ===== src/Github/Retry.antt =====
-- CreateIssue of toolhub/internal/github/client.go with its retries: `retryAfterDuration`,
-- `sleepWithBackoff` and the loop; BatchCreateIssues.
pub mod Waits
pub mod Answers
use ai_team_toolhub.Base.{
  followed, ℕ, zero, suc, Bool, true, false, ◌&&◌, List, [], ◌∷◌, Option, none, some, Result, ok,
  err, ◌==◌, ltb, leb, if◌then◌else◌, ◌+◌, ◌-◌, ◌*◌, min, ◌%◌, ◌^◌,
}
use ai_team_toolhub.Base.Int.{ℤ, pos, negsuc}
use ai_team_toolhub.Text.{Text, codes, is_empty}
use ai_team_toolhub.Github.{
  Cause, ClientError, Response, Issue, IssueInput, Remote, decode, wrap, context_ended,
  create_issue_failed, post_issue, waited, counted, is_retryable_status, is_retryable_error,
}
use ai_team_toolhub.Github.Session.{Session, Action, noted, do_api}
use ai_team_toolhub.Github.Calls.{bad_status}

abbrev pub second : ℕ
second = 1000000000

abbrev pub millisecond : ℕ
millisecond = 1000000

-- What an int64 holds after an operation whose exact result is `n`.
unfoldable pub int64 : ℕ → ℤ
int64 n = let low = n % 2 ^ 64 in if ltb low (2 ^ 63) then pos low else negsuc (2 ^ 64 - 1 - low)

-- The header's value as a date: the time until then, if it is later, up to the largest duration.
unfoldable pub until : ℕ → Option ℕ → ℤ
until now none = pos 0
until now (some t) = pos (min (t - now) (2 ^ 63 - 1))

-- Its value as a number of seconds; the product is one of int64.
unfoldable pub of_seconds : ℤ → ℤ
of_seconds (negsuc n) = pos 0
of_seconds (pos secs) = int64 (secs * second)

-- retryAfterDuration
unfoldable pub retry_after_duration : Remote → Session → Response → ℤ
retry_after_duration r s resp =
    if is_empty resp.retry_after then pos 0 else elim (r.atoi resp.retry_after) [
      | some secs ↦ of_seconds secs
      | none ↦ until (r.now s.log) (r.parse_time resp.retry_after)
    ]

-- `250ms * (1 << (attempt - 1))`, at most 5 s.
unfoldable pub backoff_of : ℕ → ℕ
backoff_of attempt = min (250 * millisecond * 2 ^ (attempt - 1)) (5 * second)

-- `if retryAfter > wait { wait = retryAfter }`
unfoldable pub longer : ℤ → ℕ → ℕ
longer (negsuc n) wait = wait
longer (pos retry_after) wait = if ltb wait retry_after then retry_after else wait

-- How long `sleepWithBackoff` waits.
unfoldable pub wait_of : Remote → ℕ → ℤ → Session → ℕ
wait_of r attempt retry_after s =
    longer retry_after (backoff_of attempt + r.rand_intn s.log 200 * millisecond)

-- sleepWithBackoff, and what the loop does after it: `ctx.Err()` where the context ended.
unfoldable pub sleep_with_backoff : Remote → ℕ → ℤ → Action (Unit {0})
sleep_with_backoff r attempt retry_after s =
    let wait = wait_of r attempt retry_after s in
    let fired = r.timer_fires s.log wait in
    let t = noted (waited wait fired) s in
    (if fired then ok tt else err (wrap context_ended (r.ctx_err t.log)), t)

abbrev pub max_attempts : ℕ
max_attempts = 4

abbrev pub operation : Text
operation = codes "create issue"

-- What is done after a failed attempt: a wait, where there is another attempt and the failure may
-- pass.
pub data Verdict : Type 0 where
  give_up : ClientError → Verdict
  try_again : ℤ → ClientError → Verdict
  created : Issue → Verdict

-- `lastErr` is given back, or kept for after the wait.
unfoldable pub verdict_of : ℕ → Bool → ℤ → ClientError → Verdict
verdict_of attempt retryable retry_after last_err =
    if ltb attempt max_attempts && retryable
    then try_again retry_after last_err
    else give_up last_err

-- A status that is not 201: whether it may pass, and the wait that the response asks for.
unfoldable pub refused : Remote → ℕ → Response → ClientError × Session → Verdict × Session
refused r attempt resp (e, s) =
    (verdict_of attempt (is_retryable_status resp.status) (retry_after_duration r s resp) e, s)

unfoldable pub decoded : Result Cause Issue → Verdict
decoded (ok issue) = created issue
decoded (err c) = give_up (wrap (decode (codes "issue")) c)

unfoldable pub judge_response : Remote → ℕ → Response → Session → Verdict × Session
judge_response r attempt resp s =
    if resp.status == 201
    then (decoded (r.decode_issue resp), s)
    else refused r attempt resp (bad_status operation resp s)

unfoldable pub judge : Remote → ℕ → Result ClientError Response × Session → Verdict × Session
judge r attempt (err e, s) = (verdict_of attempt (is_retryable_error e) (pos 0) e, s)
judge r attempt (ok resp, s) = judge_response r attempt resp s

-- One round of the loop, up to the wait.
unfoldable pub attempt_issue : Remote → Text → Text → IssueInput → ℕ → Session → Verdict × Session
attempt_issue r owner repo input attempt s =
    judge r attempt (do_api r (post_issue owner repo input) s)

abbrev pub concluded :
    (ℤ → ClientError → Action Issue) → Verdict × Session → Result ClientError Issue × Session
concluded again (created issue, s) = (ok issue, s)
concluded again (give_up e, s) = (err e, s)
concluded again (try_again retry_after e, s) = again retry_after e s

-- `if lastErr == nil`
unfoldable pub last_error : Option ClientError → ClientError
last_error none = create_issue_failed
last_error (some e) = e

-- The loop, with how many rounds are left after `attempt - 1` of them.
unfoldable pub create_issue_from :
    Remote → Text → Text → IssueInput → ℕ → ℕ → Option ClientError → Action Issue
create_issue_from r owner repo input zero attempt last s = (err (last_error last), s)
create_issue_from r owner repo input (suc left) attempt last s =
    concluded
      (λ retry_after e t.
        followed (λ done. create_issue_from r owner repo input left (attempt + 1) (some e))
          (sleep_with_backoff r attempt retry_after t))
      (attempt_issue r owner repo input attempt s)

-- CreateIssue
unfoldable pub create_issue : Remote → Text → Text → IssueInput → Action Issue
create_issue r owner repo input = create_issue_from r owner repo input max_attempts 1 none

-- One element of the results of BatchCreateIssues; the issue stands beside the error.
pub record BatchResult : Type 0 where
  pub index : ℕ
  pub result : Result ClientError Issue

abbrev pub add_result :
    ℕ → Result ClientError Issue → List BatchResult × Session → List BatchResult × Session
add_result i result (results, s) = (record { index = i; result = result } ∷ results, s)

unfoldable pub batch_from :
    Remote → Text → Text → ℕ → List IssueInput → Session → List BatchResult × Session
batch_from r owner repo i [] s = ([], s)
batch_from r owner repo i (input ∷ inputs) s =
    let (result, t) = create_issue r owner repo input s in
    add_result i result (batch_from r owner repo (i + 1) inputs t)

-- BatchCreateIssues; it returns no error of its own.
unfoldable pub batch_create_issues :
    Remote → Text → Text → List IssueInput → Session → List BatchResult × Session
batch_create_issues r owner repo inputs s = batch_from r owner repo 0 inputs s
