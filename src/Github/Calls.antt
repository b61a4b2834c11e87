-- ===== src/Github/Calls.antt =====
-- The methods of toolhub/internal/github/client.go that ask once: CreatePRComment, GetPullRequest,
-- CreatePullRequest, and ListPullRequestFiles, page by page.
use ai_team_toolhub.Base.{
  followed, ℕ, zero, suc, true, false, List, [], ◌++◌, none, some, Result, ok, err, ◌==◌, ltb,
  if◌then◌else◌, length, ◌+◌,
}
use ai_team_toolhub.Base.Int.{ℤ}
use ai_team_toolhub.Text.{Text, codes}
use ai_team_toolhub.Github.{
  Cause, ClientError, Response, Comment, PullRequest, PullRequestInput, PullRequestFile, Call,
  Remote, decode, read_body, wrap, api_error, post_comment, get_pull, get_files, post_pull, counted,
}
use ai_team_toolhub.Github.Session.{Session, Action, ◌>>=◌, at, noted, do_api}

-- A status that is not the wanted one: the error of reading the body, or an `APIError`, counted.
unfoldable pub bad_status : Text → Response → Session → ClientError × Session
bad_status operation resp s = elim resp.body_err [
  | some c ↦ (wrap (read_body operation resp.status) c, s)
  | none ↦ (api_error operation resp.status resp.body, noted (counted operation resp.status) s)
]

abbrev pub failed : {A : Type 0} → ClientError × Session → Result ClientError A × Session
failed (e, s) = (err e, s)

-- What these methods share: the wanted status, and the decoding of its body.
unfoldable pub ask_once :
    {A : Type 0} → Remote → Text → ℕ → Text → (Response → Result Cause A) → Call → Action A
ask_once r operation wanted what decoder call = do_api r call >>= λ resp s.
    if resp.status == wanted
    then (at (decode what) (decoder resp), s)
    else failed (bad_status operation resp s)

unfoldable pub create_pr_comment : Remote → Text → Text → ℤ → Text → Action Comment
create_pr_comment r owner repo pr_number body_text =
    ask_once r (codes "create pr comment") 201 (codes "pr comment") r.decode_comment
      (post_comment owner repo pr_number body_text)

unfoldable pub get_pull_request : Remote → Text → Text → ℤ → Action PullRequest
get_pull_request r owner repo pr_number =
    ask_once r (codes "get pull request") 200 (codes "pull request") r.decode_pull
      (get_pull owner repo pr_number)

unfoldable pub create_pull_request : Remote → Text → Text → PullRequestInput → Action PullRequest
create_pull_request r owner repo input =
    ask_once r (codes "create pull request") 201 (codes "pull request") r.decode_pull
      (post_pull owner repo input)

-- One page, decoded.
unfoldable pub list_page : Remote → Text → Text → ℤ → ℕ → Action (List PullRequestFile)
list_page r owner repo pr_number page =
    ask_once r (codes "list pull request files") 200 (codes "pull request files") r.decode_files
      (get_files owner repo pr_number page)

-- The loop over the pages, with how many are left; a page of less than 100 files is the last.
unfoldable pub list_pages :
    Remote → Text → Text → ℤ → ℕ → ℕ → List PullRequestFile → Action (List PullRequestFile)
list_pages r owner repo pr_number zero page files s = (ok files, s)
list_pages r owner repo pr_number (suc left) page files s =
    followed
      (λ page_files t. elim (ltb (length page_files) 100) [
        | true ↦ (ok (files ++ page_files), t)
        | false ↦ list_pages r owner repo pr_number left (page + 1) (files ++ page_files) t
      ])
      (list_page r owner repo pr_number page s)

-- ListPullRequestFiles
unfoldable pub list_pull_request_files : Remote → Text → Text → ℤ → Action (List PullRequestFile)
list_pull_request_files r owner repo pr_number = list_pages r owner repo pr_number 10 1 []
