-- ===== src/Qa.antt =====
-- toolhub/internal/qa: runner.go and sandbox_runner.go. This file has the reports, the errors and
-- what is derived from them.
pub mod CommandLine
pub mod Output
pub mod Runner
pub mod Run
pub mod Quoting
pub mod Tests
use ai_team_toolhub.Base.{Bool, true, false, ℕ, Option, none, some, [], if◌then◌else◌}
use ai_team_toolhub.Base.Int.{ℤ, pos, negsuc, int_le, not_positive}
use ai_team_toolhub.Text.{Text, codes}

pub data Kind : Type 0 where
  kind_test kind_lint : Kind
  other_kind : Text → Kind

pub record Report : Type 0 where
  pub command : Text
  pub work_dir : Text
  pub exit_code : ℤ
  pub duration_ms : ℕ
  pub stdout : Text
  pub stderr : Text
  pub stdout_truncated : Bool
  pub stderr_truncated : Bool
  pub output_limit_bytes : ℤ

-- Report{}
abbrev pub empty_report : Report
empty_report = record {
  command = [];
  work_dir = [];
  exit_code = pos 0;
  duration_ms = 0;
  stdout = [];
  stderr = [];
  stdout_truncated = false;
  stderr_truncated = false;
  output_limit_bytes = pos 0;
}

pub data Status : Type 0 where
  pass fail timeout error dry_run : Status

pub data ErrCode : Type 0 where
  command_empty command_not_allowed command_invalid workdir_invalid tool_unsupported : ErrCode
  qa_timeout exec_failed concurrency_exceeded backend_invalid : ErrCode

-- The text of `Detail`, as what it is printed from.
pub data Detail : Type 0 where
  command_is_empty workdir_is_empty unterminated_escape unterminated_quote : Detail
  not_in_allowlist forbidden_operator unsupported_tool unsupported_backend limit_exceeded :
      Text → Detail
  timed_out : Detail
  failed_with : ℤ → Detail

pub record QaError : Type 0 where
  pub err_code : ErrCode
  pub detail : Detail

-- An `error` of this package: a `QAError`, or one of the operating system with its message.
pub data RunError : Type 0 where
  qa : QaError → RunError
  system : Text → RunError

-- The `switch` on the code of a `QAError`.
status_of_code : ErrCode → Status
status_of_code qa_timeout = timeout
status_of_code exec_failed = fail
status_of_code _ = error

-- DeriveStatus
pub derive_status : Report → Option RunError → Bool → Status
unfolding status_of_code int_le
derive_status report err true = dry_run
derive_status report none false = pass
derive_status report (some (qa e)) false = status_of_code e.err_code
derive_status report (some (system msg)) false =
    if not_positive report.exit_code then error else fail
