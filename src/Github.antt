-- ===== src/Github.antt =====
-- The types of toolhub/internal/github/client.go: what the client asks, what it gets, how it fails.
pub mod Session
pub mod Calls
pub mod Retry
pub mod Tokens
pub mod Pages
mod Tests
use ai_team_toolhub.Base.{
  ℕ, Bool, true, false, not, ◌&&◌, ◌||◌, List, [], ◌∷◌, Option, none, some, Result, ok, err, ◌==◌,
  leb, length, ◌+◌,
}
use ai_team_toolhub.Base.Int.{ℤ, pos, negsuc}
use ai_team_toolhub.Text.{Text}

-- An error of a library: the context's own, which `errors.Is` finds, or another, by its text.
pub data Cause : Type 0 where
  canceled deadline_exceeded : Cause
  other : Text → Cause

-- What the client was doing; the first argument is the operation.
pub data Stage : Type 0 where
  sign_jwt discover_installation decode_installations request_token decode_token : Stage
  marshal_body new_request send context_ended : Stage
  decode : Text → Stage
  read_body : Text → ℕ → Stage

-- The errors of the client: one that wraps a cause, or one that `fmt.Errorf` or `APIError` makes.
pub data ClientError : Type 0 where
  wrap : Stage → Cause → ClientError
  discover_status token_status : ℕ → Text → ClientError
  no_installation : ClientError
  multiple_installations : ℕ → ClientError
  api_error : Text → ℕ → Text → ClientError
  create_issue_failed : ClientError

-- What is read of a response: the body as far as it could be read, and the error of reading it.
pub record Response : Type 0 where
  pub status : ℕ
  pub body : Text
  pub body_err : Option Cause
  pub retry_after : Text

abbrev pub Answer : Type 0
Answer = Result Cause Response

pub record IssueInput : Type 0 where
  pub title : Text
  pub body : Text
  pub labels : List Text

pub record Issue : Type 0 where
  pub number : ℤ
  pub title : Text
  pub html_url : Text

pub record Comment : Type 0 where
  pub id : ℤ
  pub body : Text
  pub html_url : Text

pub record PullRequest : Type 0 where
  pub number : ℤ
  pub title : Text
  pub state : Text
  pub draft : Bool
  pub html_url : Text
  pub merged : Bool
  pub mergeable : Option Bool
  pub base_ref : Text
  pub head_ref : Text

pub record PullRequestInput : Type 0 where
  pub title : Text
  pub head : Text
  pub base : Text
  pub body : Text

-- The counts are GitHub's, 0 or more.
pub record PullRequestFile : Type 0 where
  pub filename : Text
  pub status : Text
  pub additions : ℕ
  pub deletions : ℕ
  pub changes : ℕ
  pub blob_url : Text
  pub raw_url : Text
  pub patch : Text
  pub previous_filename : Text

-- A method with its URL and its body, by what these are printed from.
pub data Call : Type 0 where
  post_issue : Text → Text → IssueInput → Call
  post_comment : Text → Text → ℤ → Text → Call
  get_pull : Text → Text → ℤ → Call
  get_files : Text → Text → ℤ → ℕ → Call
  post_pull : Text → Text → PullRequestInput → Call

unfoldable pub has_body : Call → Bool
has_body (post_issue o n i) = true
has_body (post_comment o n k b) = true
has_body (get_pull o n k) = false
has_body (get_files o n k p) = false
has_body (post_pull o n i) = true

-- What the client does to the outside, with the answers: requests, waits in `sleepWithBackoff` (how
-- long in nanoseconds, and whether the timer fired before the context ended), and the counter of
-- errors.
pub data Event : Type 0 where
  listed_installations : Answer → Event
  asked_token : ℤ → Answer → Event
  sent : Text → Call → Answer → Event
  waited : ℕ → Bool → Event
  counted : Text → ℕ → Event

-- The outside: the clock, the signature, GitHub, JSON, the random numbers, the timer and the context.
-- What it does may depend on all that went before, newest first. Times are nanoseconds.
pub record Remote : Type 0 where
  pub now : List Event → ℕ
  pub sign : List Event → ℤ → Result Cause Text
  pub installations : List Event → Text → Answer
  pub access_token : List Event → ℤ → Text → Answer
  pub marshal : Call → Option Cause
  pub new_request : Call → Option Cause
  pub send : List Event → Text → Call → Answer
  pub decode_installations : Response → Result Cause (List ℤ)
  pub decode_token : Response → Result Cause (Text × ℕ)
  pub decode_issue : Response → Result Cause Issue
  pub decode_comment : Response → Result Cause Comment
  pub decode_pull : Response → Result Cause PullRequest
  pub decode_files : Response → Result Cause (List PullRequestFile)
  pub rand_intn : List Event → ℕ → ℕ
  pub timer_fires : List Event → ℕ → Bool
  pub ctx_err : List Event → Cause
  pub atoi : Text → Option ℤ
  pub parse_time : Text → Option ℕ

-- isRetryableStatus
unfoldable pub is_retryable_status : ℕ → Bool
is_retryable_status code = (code == 429) || (leb 500 code && leb code 599)

unfoldable pub is_context_error : Cause → Bool
is_context_error canceled = true
is_context_error deadline_exceeded = true
is_context_error (other text) = false

-- isRetryableError: `errors.Is` looks through what `%w` wraps.
unfoldable pub is_retryable_error : ClientError → Bool
is_retryable_error (wrap stage cause) = not (is_context_error cause)
is_retryable_error (discover_status code body) = true
is_retryable_error (token_status code body) = true
is_retryable_error no_installation = true
is_retryable_error (multiple_installations n) = true
is_retryable_error (api_error op code body) = true
is_retryable_error create_issue_failed = true

pub record Summary : Type 0 where
  pub total_files : ℕ
  pub total_additions : ℕ
  pub total_deletions : ℕ
  pub total_changes : ℕ

-- SummarizePRFiles; the sums start at 0 and grow in the order of the files.
unfoldable pub summarize_pr_files : List PullRequestFile → Summary
summarize_pr_files [] = record {
  total_files = 0;
  total_additions = 0;
  total_deletions = 0;
  total_changes = 0;
}
summarize_pr_files (f ∷ files) =
    let rest = summarize_pr_files files in
    record {
      total_files = 1 + rest.total_files;
      total_additions = f.additions + rest.total_additions;
      total_deletions = f.deletions + rest.total_deletions;
      total_changes = f.changes + rest.total_changes;
    }
