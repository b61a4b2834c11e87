-- ===== src/Repair/Attempts.antt =====
-- The loop of `handleCodeRepairLoop` over the iterations, and toolhub/internal/core/repair_loop.go.
pub mod Ends
use ai_team_toolhub.Base.{
  ℕ, zero, suc, ◌+◌, ◌≤◌, ◌<◌, ◌≡◌, refl, ◌⊎◌, inl, inr, Bool, true, false, ◌&&◌, ◌||◌, List, [],
  ◌∷◌, ◌++◌, Option, none, some, arith, Bool-cases, if◌then◌else◌,
}
use ai_team_toolhub.Text.{Text, codes, contains, to_lower}
use ai_team_toolhub.Qa.{
  Kind, kind_test, kind_lint, Report, Status, pass, fail, timeout, error, dry_run, QaError,
  RunError, qa, system, ErrCode, qa_timeout, derive_status,
}
use ai_team_toolhub.Qa.Runner.{Runner, Ran}
use ai_team_toolhub.Qa.Run.{run}
use ai_team_toolhub.Repair.{Outside}

-- MapQAStatusToMetric
pub map_qa_status_to_metric : Status → Text
map_qa_status_to_metric pass = codes "pass"
map_qa_status_to_metric fail = codes "fail"
map_qa_status_to_metric timeout = codes "timeout"
map_qa_status_to_metric _ = codes "error"

-- What one iteration did, and whether it passed.
pub record Attempt : Type 0 where
  pub iteration : ℕ
  pub test : Ran
  pub lint : Ran

unfoldable pub is_nil : {A : Type 0} → Option A → Bool
is_nil none = true
is_nil (some e) = false

unfoldable pub passed : Attempt → Bool
unfolding is_nil
passed a = is_nil a.test.err && is_nil a.lint.err

is_timeout : ErrCode → Bool
is_timeout qa_timeout = true
is_timeout _ = false

coded_timeout : RunError → Bool
unfolding is_timeout
coded_timeout (qa e) = is_timeout e.err_code
coded_timeout (system msg) = false

has_timed_out : (ℕ → ℕ) → (RunError → Text) → RunError → Bool
unfolding coded_timeout
has_timed_out lower error_text e =
    coded_timeout e || contains (to_lower lower (error_text e)) (codes "timeout")

-- DeriveQAFailureCategory. The reports do not matter: what is asked of them ends in the same text.
pub derive_qa_failure_category :
    (ℕ → ℕ) → (RunError → Text) → Option RunError → Option RunError → Text
unfolding has_timed_out
derive_qa_failure_category lower error_text (some e) (some e') = codes "both_failure"
derive_qa_failure_category lower error_text (some e) none =
    if has_timed_out lower error_text e then codes "qa_timeout" else codes "test_failure"
derive_qa_failure_category lower error_text none (some e) = codes "lint_failure"
derive_qa_failure_category lower error_text none none = codes "qa_error"

-- The two runs of an iteration.
unfoldable pub attempt : Outside → Runner → ℕ → Attempt
attempt o r i = record {
  iteration = i;
  test = run (o.qa i kind_test) r (o.slot i kind_test) kind_test false;
  lint = run (o.qa i kind_lint) r (o.slot i kind_lint) kind_lint false;
}

-- The variables of the loop: `iterationsRun`, `qaPassed` and `qaAttempts`, whose last entry has the
-- `last` errors and reports.
pub record Loop : Type 0 where
  pub iterations_run : ℕ
  pub qa_passed : Bool
  pub qa_attempts : List Attempt

abbrev pub loop_start : Loop
loop_start = record { iterations_run = 0; qa_passed = false; qa_attempts = [] }

-- One round.
unfoldable pub attempted : Outside → Runner → ℕ → Loop → Loop
unfolding attempt passed
attempted o r i st = record {
  iterations_run = i;
  qa_passed = passed (attempt o r i);
  qa_attempts = st.qa_attempts ++ attempt o r i ∷ [];
}

-- The rounds from `i` on, of which `n` are left. `qaPassed` is still false where a round begins.
unfoldable pub repair_loop : Outside → Runner → ℕ → ℕ → Loop → Loop
unfolding attempted
repair_loop o r i zero st = st
repair_loop o r i (suc n) st =
    let st' = attempted o r i st in
    let more = repair_loop o r (suc i) n st' in if st'.qa_passed then st' else more
