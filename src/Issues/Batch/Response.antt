-- ===== src/Issues/Batch/Response.antt =====
-- What a batch response says of its results.
use ai_team_toolhub.Base.{
  ℕ, suc, ◌+◌, ◌≤◌, ◌≡◌, ◌⊎◌, ◌↔◌, Bool, Option, none, some, length, ◌<◌, count, Result, ok,
}
use ai_team_toolhub.Text.{Text}
use ai_team_toolhub.Policy.{Policy}
use ai_team_toolhub.Repair.{Run}
use ai_team_toolhub.Issues.{BatchMode, strict_mode, all_ok, all_failed}
use ai_team_toolhub.Issues.Batch.{
  Outside, BatchBody, BatchResponse, Progress, End, aborted, stopped, completed,
}
use ai_team_toolhub.Issues.Batch.Counts.{has_error, Counts, Running}

-- What `process` leaves behind.
abbrev pub Post : BatchMode → ℕ → Option End × Progress → Type 0
Post mode i (none, p) = Running mode (suc i) p
Post mode i (some (aborted r), p) = Unit {0}
Post mode i (some (stopped j reason), p) =
    (j ≡ i) × (mode ≡ strict_mode) × Counts (suc i) p × (p.err_count ≡ 1)
Post mode i (some completed, p) = ⊥

module _ (o : Outside) (run_id : Text) (run : Run) (mode : BatchMode) (dry_run : Bool) where
  -- How the loop over `issues` from the index `i` on leaves the counts.
  abbrev Left : ℕ → ℕ → End × Progress → Type 0
  Left i n (aborted r, p) = Unit {0}
  Left i n (stopped j reason, p) =
      (i ≤ j) × (j < i + n) × (mode ≡ strict_mode) × Counts (suc j) p × (p.err_count ≡ 1)
  Left i n (completed, p) = Running mode (i + n) p

-- A response agrees with its results and with itself.
pub record Sound (mode : BatchMode) (total : ℕ) (r : BatchResponse) : Type 0 where
  pub listed : length r.results ≡ r.processed
  pub replays : r.replayed ≡ count (λ x. x.replayed) r.results
  pub errors : r.errors ≡ count has_error r.results
  pub fresh : r.created_fresh + r.replayed ≡ r.processed
  pub failed_fresh : r.errors ≤ r.created_fresh
  pub ok_iff : (r.status ≡ all_ok) ↔ (r.errors ≡ 0)
  pub failed_iff : (r.status ≡ all_failed) ↔ (0 < r.errors) × (r.errors ≡ r.created_fresh)
  pub end :
      (r.stopped_at ≡ none) × (r.processed ≡ total) × (mode ≡ strict_mode → r.errors ≡ 0)
      ⊎ ((i : ℕ) × (r.stopped_at ≡ some i)
          × (mode ≡ strict_mode)
          × (i < total)
          × (r.processed ≡ suc i)
          × (r.errors ≡ 1))

-- What has been checked: the body was decoded, and it has between one issue and fifty.
abbrev pub Accepted : Result Text BatchBody → BatchBody → Type 0
Accepted decoded body = (decoded ≡ ok body) × (0 < length body.issues) × (length body.issues ≤ 50)
