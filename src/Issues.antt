-- ===== src/Issues.antt =====
-- toolhub/internal/core: issue.go, batch_mode.go and batch_status.go. `len` of a string counts bytes.
pub mod Batch
pub mod Tests
use ai_team_toolhub.Base.{
  ℕ, ◌-◌, Bool, true, false, ◌||◌, ◌&&◌, List, [], ◌∷◌, ◌++◌, map, Option, none, some, length, leb,
  ltb, ◌==◌, Result, ok, err, ◌>>=◌, ◌>>◌, fail_if, if◌then◌else◌,
}
use ai_team_toolhub.Text.{Text, codes, is_empty, text_eq, trim_space, to_lower, byte_len}

pub data BatchMode : Type 0 where
  partial_mode strict_mode : BatchMode

-- ParseBatchMode; the error has the text that was given.
pub parse_batch_mode : (ℕ → ℕ) → Text → Result Text BatchMode
parse_batch_mode unicode_lower v =
    let mode = to_lower unicode_lower (trim_space v) in
    if is_empty mode
    then ok partial_mode
    else if text_eq mode (codes "partial")
    then ok partial_mode
    else if text_eq mode (codes "strict")
    then ok strict_mode
    else err v

pub data BatchStatus : Type 0 where
  all_ok all_failed some_failed : BatchStatus

-- DeriveBatchStatus, for counts: where `total-replayed` is negative, no count of errors is equal to it.
pub derive_batch_status : ℕ → ℕ → ℕ → BatchStatus
derive_batch_status total replayed err_count =
    if leb err_count 0
    then all_ok
    else if leb replayed total && err_count == total - replayed
    then all_failed
    else some_failed

abbrev pub max_issue_title_len : ℕ
max_issue_title_len = 256

abbrev pub max_issue_body_len : ℕ
max_issue_body_len = 65536

abbrev pub max_issue_labels : ℕ
max_issue_labels = 20

abbrev pub max_label_len : ℕ
max_label_len = 50

abbrev pub max_batch_size : ℕ
max_batch_size = 50

pub data IssueError : Type 0 where
  title_required title_exceeds body_exceeds labels_exceed label_empty label_exceeds : IssueError

-- The loop over the labels.
validate_labels : List Text → Result IssueError (Unit {0})
validate_labels [] = ok tt
validate_labels (label ∷ labels) = do
  fail_if (is_empty (trim_space label)) label_empty
  fail_if (ltb max_label_len (byte_len label)) label_exceeds
  validate_labels labels

-- createIssueBody, less its `dry_run`, which a batch does not read.
pub record Issue : Type 0 where
  pub title : Text
  pub body : Text
  pub labels : List Text

-- ValidateIssueInput
unfoldable pub validate_issue_input : Issue → Result IssueError (Unit {0})
unfolding validate_labels
validate_issue_input issue = do
  fail_if (is_empty (trim_space issue.title)) title_required
  fail_if (ltb max_issue_title_len (byte_len (trim_space issue.title))) title_exceeds
  fail_if (ltb max_issue_body_len (byte_len issue.body)) body_exceeds
  fail_if (ltb max_issue_labels (length issue.labels)) labels_exceed
  validate_labels issue.labels

-- `<=` of strings. The order of code points is the order of their bytes.
text_le : Text → Text → Bool
text_le [] t = true
text_le (c ∷ s) [] = false
text_le (c ∷ s) (d ∷ t) = let rest = text_le s t in ltb c d || (c == d && rest)

insert : Text → List Text → List Text
unfolding text_le
insert x [] = x ∷ []
insert x (y ∷ ys) = let rest = insert x ys in if text_le x y then x ∷ y ∷ ys else y ∷ rest

-- sort.Strings
sort_strings : List Text → List Text
unfolding insert
sort_strings [] = []
sort_strings (x ∷ xs) = insert x (sort_strings xs)

-- idempotencyPayload
pub record Payload : Type 0 where
  pub run_id : Text
  pub tool_name : Text
  pub title : Text
  pub body : Text
  pub labels : List Text
  pub index : Option ℕ

-- What `MakeIssueIdempotencyKey` makes the digest of.
pub idempotency_payload : Text → Text → Issue → Option ℕ → Payload
unfolding sort_strings
idempotency_payload run_id tool_name issue index = record {
  run_id = run_id;
  tool_name = tool_name;
  title = trim_space issue.title;
  body = issue.body;
  labels = sort_strings (map trim_space issue.labels);
  index = index;
}

-- MakeIssueIdempotencyKey. The first argument is `json.Marshal` with `sha256.Sum256` and the encoding
-- in hexadecimal digits.
pub make_issue_idempotency_key :
    (Payload → Result Text Text) → Text → Text → Issue → Option ℕ → Result Text Text
unfolding idempotency_payload
make_issue_idempotency_key digest run_id tool_name issue index =
    digest (idempotency_payload run_id tool_name issue index)
