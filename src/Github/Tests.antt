-- ===== src/Github/Tests.antt =====
-- The GitHub client on concrete answers.
use ai_team_toolhub.Base.{
  followed, ℕ, ◌-◌, ◌*◌, ◌≡◌, refl, true, List, [], ◌∷◌, none, some, ok, err, arith, take, drop,
  replicate,
}
use ai_team_toolhub.Base.Int.{pos}
use ai_team_toolhub.Text.{Text, codes}
use ai_team_toolhub.Github.{
  Response, Answer, Issue, IssueInput, Call, Event, Remote, PullRequestFile, post_issue, get_files,
  other, has_body, is_retryable_status, is_context_error, is_retryable_error, listed_installations,
  asked_token, sent, waited, counted,
}
use ai_team_toolhub.Github.Session.{
  Session, do_api, is_zero, choose_installation, discovered, ensure_installation_id, keep_token,
  token_received, renew_token, is_current, current_token, installation_token, built, send_with,
}
use ai_team_toolhub.Github.Tokens.{Asked, do_api-Asked}
use ai_team_toolhub.Github.Calls.{bad_status, list_pull_request_files}
use ai_team_toolhub.Github.Pages.{Serves, list_pull_request_files-take}
use ai_team_toolhub.Github.Retry.{
  int64, until, of_seconds, longer, wait_of, verdict_of, refused, decoded, judge_response, judge,
  attempt_issue, last_error, create_issue_from, create_issue, second, backoff_of,
  sleep_with_backoff, retry_after_duration, operation,
}
use ai_team_toolhub.Github.Retry.Waits.{WaitsFor, waits_then, retry_after_honoured}
use ai_team_toolhub.Github.Retry.Answers.{Ends, create_issue-Ends}

abbrev file : PullRequestFile
file = record {
  filename = codes "a.go";
  status = codes "added";
  additions = 1;
  deletions = 0;
  changes = 1;
  blob_url = [];
  raw_url = [];
  patch = [];
  previous_filename = [];
}

abbrev reply_with : ℕ → Text → Response
reply_with status retry_after = record {
  status = status;
  body = codes "{}";
  body_err = none;
  retry_after = retry_after;
}

abbrev issue : Issue
issue = record { number = pos 7; title = codes "t"; html_url = [] }

abbrev input : IssueInput
input = record { title = codes "t"; body = []; labels = [] }

-- The first request for an issue is answered 503 with `Retry-After: 2`, the next 201.
abbrev post_reply : List Event → Answer
post_reply (asked_token i a ∷ log) = ok (reply_with 503 (codes "2"))
post_reply log = ok (reply_with 201 [])

-- The answer to a page carries its number.
abbrev send_reply : List Event → Text → Call → Answer
send_reply log token (post_issue o n inp) = post_reply log
send_reply log token (get_files o n k page) =
    ok (record { status = 200; body = page ∷ []; body_err = none; retry_after = [] })
send_reply log token call = ok (reply_with 201 [])

-- One file more than the pages hold.
abbrev files : List PullRequestFile
files = replicate 1001 file

abbrev page_of : Text → List PullRequestFile
page_of [] = []
page_of (page ∷ rest) = take 100 (drop (100 * (page - 1)) files)

abbrev remote : Remote
remote = record {
  now = λ log. 0;
  sign = λ log id. ok (codes "jwt");
  installations = λ log jwt. ok (reply_with 200 []);
  access_token = λ log id jwt. ok (reply_with 201 []);
  marshal = λ call. none;
  new_request = λ call. none;
  send = send_reply;
  decode_installations = λ resp. ok (pos 5 ∷ []);
  decode_token = λ resp. ok (codes "tok", 3600000000000);
  decode_issue = λ resp. ok issue;
  decode_comment = λ resp. err (other []);
  decode_pull = λ resp. err (other []);
  decode_files = λ resp. ok (page_of resp.body);
  rand_intn = λ log n. n - 1;
  timer_fires = λ log d. true;
  ctx_err = λ log. other [];
  atoi = λ v. some (pos 2);
  parse_time = λ v. none;
}

abbrev start : Session
start = record { app_id = pos 1; installation_id = pos 0; token = []; exp_at = 0; log = [] }

-- What a run does, newest first.
retried :
    (create_issue remote (codes "o") (codes "r") input start).1.log
    ≡ sent (codes "tok") (post_issue (codes "o") (codes "r") input) (ok (reply_with 201 []))
      ∷ waited (2 * second) true
      ∷ counted (codes "create issue") 503
      ∷ sent
          (codes "tok")
          (post_issue (codes "o") (codes "r") input)
          (ok (reply_with 503 (codes "2")))
      ∷ asked_token (pos 5) (ok (reply_with 201 []))
      ∷ listed_installations (ok (reply_with 200 []))
      ∷ []
unfolding create_issue create_issue_from attempt_issue judge do_api installation_token
    ensure_installation_id is_zero discovered choose_installation current_token is_current
    renew_token token_received keep_token send_with built bad_status backoff_of decoded int64
    judge_response last_error longer of_seconds refused retry_after_duration sleep_with_backoff
    until verdict_of wait_of has_body is_context_error is_retryable_error is_retryable_status
    followed
retried = refl

create_issue-Ends_example :
    Ends remote 4 start (create_issue remote (codes "o") (codes "r") input start)
create_issue-Ends_example = create_issue-Ends remote (codes "o") (codes "r") input start

do_api-Asked_example :
    Asked remote
      (post_issue (codes "o") (codes "r") input)
      start
      (do_api remote (post_issue (codes "o") (codes "r") input) start)
do_api-Asked_example = do_api-Asked remote (post_issue (codes "o") (codes "r") input) start

-- The client after the first request.
abbrev asking : Session
asking = (do_api remote (post_issue (codes "o") (codes "r") input) start).1

retries : is_retryable_status 503 ≡ true
unfolding is_retryable_status
retries = refl

refused_once :
    do_api remote (post_issue (codes "o") (codes "r") input) start
    ≡ (ok (reply_with 503 (codes "2")), asking)
unfolding do_api installation_token ensure_installation_id is_zero discovered choose_installation
    current_token is_current renew_token token_received keep_token send_with built has_body followed
refused_once = refl

retry_after_honoured_example :
    let failed = bad_status operation (reply_with 503 (codes "2")) asking in
    (d : ℕ) × WaitsFor 1 2 d
    × (create_issue_from remote (codes "o") (codes "r") input 4 1 none start
        ≡ waits_then remote d
            (create_issue_from remote (codes "o") (codes "r") input 3 2 (some failed.0))
            failed.1)
retry_after_honoured_example =
    retry_after_honoured remote (codes "o") (codes "r") input 3 1 none start asking
      (reply_with 503 (codes "2")) 2 (omega arith) refused_once retries (λ log. omega arith) refl
      refl (omega arith)

-- A client whose token is good for an hour.
abbrev kept : Session
kept = record {
  app_id = pos 1;
  installation_id = pos 5;
  token = codes "tok";
  exp_at = 3600000000000;
  log = [];
}

served : Serves remote (codes "o") (codes "r") (pos 3) files kept
unfolding is_zero
served = record {
  known = refl;
  present = refl;
  good = λ log. omega arith;
  request = λ page. refl;
  response =
      λ log page. record { status = 200; body = page ∷ []; body_err = none; retry_after = [] };
  answer = λ log page. refl;
  status = λ log page. refl;
  files = λ log page. refl;
}

list_pull_request_files-take_example :
    (list_pull_request_files remote (codes "o") (codes "r") (pos 3) kept).0 ≡ ok (take 1000 files)
list_pull_request_files-take_example =
    list_pull_request_files-take remote (codes "o") (codes "r") (pos 3) files kept served
