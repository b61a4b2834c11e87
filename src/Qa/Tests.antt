-- ===== src/Qa/Tests.antt =====
-- The runner at concrete commands.
use ai_team_toolhub.Base.{
  ◌≡◌, refl, ◌⊎◌, true, false, List, [], ◌∷◌, map, none, some, ok, length, All, ◌≤◌, ◌<◌, arith,
}
use ai_team_toolhub.Base.Int.{pos}
use ai_team_toolhub.Text.{Text, codes, join, text_eq, trim_space, contains}
use ai_team_toolhub.Qa.{kind_test}
use ai_team_toolhub.Qa.CommandLine.{validate_command_line, split_command_line}
use ai_team_toolhub.Qa.Output.{truncate_output, truncate_output_lem}
use ai_team_toolhub.Qa.Quoting.{single_quote, IsQuotable, split_command_line-join}
use ai_team_toolhub.Qa.Runner.{
  Config, Runner, Outside, is_allowed, new_runner, command_for, check_command, abs_work_dir,
}
use ai_team_toolhub.Qa.Run.{run}
use ai_team_toolhub.Qa.Run.Safety.{Authorised, run-Authorised}

abbrev pub local_config : Config
local_config = record {
  work_dir = codes "/repo";
  test_cmd = codes "go test './my dir'";
  lint_cmd = codes "make lint";
  timeout = pos 1000;
  max_output_bytes = pos 25;
  max_concurrency = pos 1;
  backend = codes "local";
  sandbox_image = [];
  sandbox_docker_bin = [];
  sandbox_container_wd = [];
  allowed_executables = codes "go" ∷ codes "make" ∷ [];
}

abbrev pub local_runner : Runner
local_runner = record {
  cfg = local_config;
  allowed = codes "go" ∷ codes "make" ∷ [];
  sandbox = none;
}

configured_as_given : new_runner local_config ≡ ok local_runner
unfolding new_runner validate_command_line split_command_line is_allowed text_eq trim_space contains
configured_as_given = refl

-- Every process writes "ok" and succeeds.
abbrev pub quiet : Outside
quiet = record {
  getwd = ok (codes "/srv");
  process = λ l. record { stdout = codes "ok"; stderr = []; duration_ms = 3; failure = none };
}

test_is_started :
    (run quiet local_runner none kind_test false).launched
    ≡ record {
      argv = codes "go" ∷ codes "test" ∷ codes "./my dir" ∷ [];
      dir = some (codes "/repo");
      limit = pos 1000;
    }
      ∷ []
unfolding run command_for check_command validate_command_line trim_space contains split_command_line
    text_eq abs_work_dir
test_is_started = refl

run-Authorised_example :
    Authorised local_runner kind_test false (run quiet local_runner none kind_test false)
run-Authorised_example = run-Authorised quiet local_runner kind_test false none

abbrev long_output : Text
long_output = codes "0123456789012345678901234567890123456789"

truncate_output_lem_example :
    (length (truncate_output long_output (pos 25)).0 ≤ 25)
    × ((length long_output ≤ 25) × (truncate_output long_output (pos 25) ≡ (long_output, false))
        ⊎ (25 < length long_output)
          × ((truncate_output long_output (pos 25)).1 ≡ true)
          × (length (truncate_output long_output (pos 25)).0 ≡ 25))
truncate_output_lem_example = truncate_output_lem long_output 25 (omega arith)

abbrev words : List Text
words = codes "go" ∷ codes "a \"b\" c" ∷ []

words-IsQuotable : All IsQuotable words
words-IsQuotable = (
  (λ e. cc, (λ e. cc, (λ e. cc, tt))),
  ((λ e. cc, (λ e. cc, (λ e. cc, (λ e. cc, (λ e. cc, (λ e. cc, (λ e. cc, (λ e. cc, tt)))))))), tt),
)

split_command_line-join_example : split_command_line (join (map single_quote words) b' ') ≡ ok words
split_command_line-join_example = split_command_line-join words words-IsQuotable

-- A quoted empty argument is dropped.
empty_argument_dropped : split_command_line (codes "go ''") ≡ ok (codes "go" ∷ [])
unfolding split_command_line trim_space
empty_argument_dropped = refl
