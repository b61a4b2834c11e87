-- ===== src/Issues/Tests.antt =====
-- The batch handler on concrete batches.
use ai_team_toolhub.Base.{zero, suc, true, false, [], ◌∷◌, none, some, ok, err}
use ai_team_toolhub.Text.{codes}
use ai_team_toolhub.Policy.{Policy}
use ai_team_toolhub.Issues.{all_failed, Issue}
use ai_team_toolhub.Issues.Batch.{Outside, BatchBody, BatchResponse}

-- The first issue was created before, and GitHub refuses the second.
abbrev outside : Outside
outside = record {
  get_run = λ id. ok (some (record { run_id = id; repo = codes "org/app"; purpose = [] }));
  digest = λ p. ok (p.title);
  replay = λ i key. ok (elim i [ zero ↦ some (codes "#1") | suc j ↦ none ]);
  create_issue = λ i run issue. err (codes "http 422");
  record_call = λ i key e. ok (codes "t");
}

abbrev issue : Issue
issue = record { title = codes "t"; body = []; labels = [] }

abbrev batch : BatchBody
batch = record { issues = issue ∷ issue ∷ issue ∷ []; dry_run = false }

abbrev policy : Policy
policy = record {
  allowed_repos = [];
  allowed_tools = codes "github.issues.batch_create" ∷ [];
  forbidden_path_prefixes = [];
  approval_path_prefixes = [];
}

abbrev response : BatchResponse
response = record {
  status = all_failed;
  processed = 2;
  errors = 1;
  replayed = 1;
  created_fresh = 1;
  stopped_at = some 1;
  failed_reason = some (codes "http 422");
  results =
      record { issue = some (codes "#1"); replayed = true; error = none }
      ∷ record { issue = none; replayed = false; error = some (codes "http 422") }
      ∷ [];
}
