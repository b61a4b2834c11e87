-- ===== src/Qa/Runner.antt =====
-- `Runner` of toolhub/internal/qa/runner.go and `SandboxRunner` of sandbox_runner.go. How a started
-- process ends is a parameter. Whether a slot of the semaphore was got before the context ended is
-- an argument of `run`.
use ai_team_toolhub.Base.{
  ℕ, Bool, not, ◌&&◌, List, [], ◌∷◌, ◌++◌, Option, none, some, any, ◌==◌, length, Result, ok, err,
  ◌>>=◌, ◌>>◌, fail_if, if◌then◌else◌,
}
use ai_team_toolhub.Base.Int.{ℤ, pos, not_positive}
use ai_team_toolhub.Text.{Text, codes, is_empty, text_eq, trim_space, has_prefix}
use ai_team_toolhub.FilePath.{slash, dot}
use ai_team_toolhub.Qa.{
  Kind, kind_test, kind_lint, other_kind, Report, QaError, RunError, qa, system, command_empty,
  command_not_allowed, workdir_invalid, tool_unsupported, backend_invalid, command_is_empty,
  workdir_is_empty, not_in_allowlist, unsupported_tool, unsupported_backend,
}
use ai_team_toolhub.Qa.CommandLine.{validate_command_line, split_command_line}

pub record Config : Type 0 where
  pub work_dir : Text
  pub test_cmd : Text
  pub lint_cmd : Text
  pub timeout : ℤ
  pub max_output_bytes : ℤ
  pub max_concurrency : ℤ
  pub backend : Text
  pub sandbox_image : Text
  pub sandbox_docker_bin : Text
  pub sandbox_container_wd : Text
  pub allowed_executables : List Text

pub record SandboxConfig : Type 0 where
  pub image : Text
  pub docker_binary : Text
  pub container_work_dir : Text
  pub timeout : ℤ
  pub max_output_bytes : ℤ

pub record Runner : Type 0 where
  pub cfg : Config
  pub allowed : List Text
  pub sandbox : Option SandboxConfig

-- A process that is started: its arguments, the executable first, its folder (none where it
-- is not set), and the time limit.
pub record Launch : Type 0 where
  pub argv : List Text
  pub dir : Option Text
  pub limit : ℤ

-- How it ends: what it wrote, how long it took, and, where `cmd.Run` returned an error, the message,
-- whether the time limit had passed, and the code where it was an `ExitError`.
pub record Failure : Type 0 where
  pub message : Text
  pub deadline_exceeded : Bool
  pub exit_code : Option ℤ

pub record Ended : Type 0 where
  pub stdout : Text
  pub stderr : Text
  pub duration_ms : ℕ
  pub failure : Option Failure

pub record Outside : Type 0 where
  pub getwd : Result Text Text
  pub process : Launch → Ended

-- What a run returns, the processes that it started, and its calls of `IncQATimeout`.
pub record Ran : Type 0 where
  pub report : Report
  pub err : Option RunError
  pub launched : List Launch
  pub counted_timeouts : ℕ

abbrev ten_minutes : ℤ
ten_minutes = pos 600000000000

abbrev quarter_mib : ℤ
quarter_mib = pos 262144

abbrev or_default : Text → Text → Text
or_default value fallback = if is_empty value then fallback else value

abbrev or_positive : ℤ → ℤ → ℤ
or_positive value fallback = if not_positive value then fallback else value

abbrev default_executables : List Text
default_executables =
    codes "go"
    ∷ codes "make"
    ∷ codes "pytest"
    ∷ codes "python"
    ∷ codes "python3"
    ∷ codes "npm"
    ∷ codes "npx"
    ∷ codes "yarn"
    ∷ codes "pnpm"
    ∷ codes "ruff"
    ∷ codes "eslint"
    ∷ codes "golangci-lint"
    ∷ []

-- allowed[exe]
unfoldable pub is_allowed : List Text → Text → Bool
is_allowed allowed exe = any (text_eq exe) allowed

-- The loop that fills `allowed`.
trim_executables : List Text → List Text
trim_executables [] = []
trim_executables (exe ∷ exes) =
    let rest = trim_executables exes in
    if is_empty (trim_space exe) then rest else trim_space exe ∷ rest

-- The tests on the arguments of a command line.
unfoldable pub check_listed : List Text → List Text → Result QaError (List Text)
unfolding is_allowed
check_listed allowed [] = err (record { err_code = command_empty; detail = command_is_empty })
check_listed allowed (exe ∷ rest) =
    if is_allowed allowed exe
    then ok (exe ∷ rest)
    else err (record { err_code = command_not_allowed; detail = not_in_allowlist exe })

-- The tests that `validateConfiguredCommand` and `Run` make on a command line.
unfoldable pub check_command : List Text → Text → Result QaError (List Text)
unfolding check_listed
check_command allowed cmdline = do
  validate_command_line cmdline
  args ← split_command_line cmdline
  check_listed allowed args

-- NewSandboxRunner
pub new_sandbox_runner : SandboxConfig → SandboxConfig
new_sandbox_runner cfg = record {
  image = if is_empty (trim_space cfg.image) then codes "golang:1.25" else cfg.image;
  docker_binary =
      if is_empty (trim_space cfg.docker_binary) then codes "docker" else cfg.docker_binary;
  container_work_dir =
      if is_empty (trim_space cfg.container_work_dir)
      then codes "/workspace"
      else cfg.container_work_dir;
  timeout = or_positive cfg.timeout ten_minutes;
  max_output_bytes = or_positive cfg.max_output_bytes quarter_mib;
}

-- The defaults that `NewRunner` fills in.
with_defaults : Config → Config
with_defaults cfg = record cfg {
  work_dir = or_default cfg.work_dir dot;
  test_cmd = or_default cfg.test_cmd (codes "go -C toolhub test ./...");
  lint_cmd = or_default cfg.lint_cmd (codes "go -C toolhub test ./...");
  timeout = or_positive cfg.timeout ten_minutes;
  max_output_bytes = or_positive cfg.max_output_bytes quarter_mib;
  max_concurrency = or_positive cfg.max_concurrency (pos 2);
  backend = if is_empty (trim_space cfg.backend) then codes "local" else cfg.backend;
  allowed_executables =
      if length cfg.allowed_executables == 0 then default_executables else cfg.allowed_executables;
}

sandbox_of : Config → Option SandboxConfig
unfolding new_sandbox_runner
sandbox_of cfg =
    if text_eq cfg.backend (codes "sandbox")
    then some (
        new_sandbox_runner (record {
          image = cfg.sandbox_image;
          docker_binary = cfg.sandbox_docker_bin;
          container_work_dir = cfg.sandbox_container_wd;
          timeout = cfg.timeout;
          max_output_bytes = cfg.max_output_bytes;
        }))
    else none

-- NewRunner
unfoldable pub new_runner : Config → Result QaError Runner
unfolding with_defaults sandbox_of check_command trim_executables
new_runner given = do
  let cfg = with_defaults given
  let allowed = trim_executables cfg.allowed_executables
  fail_if (not (text_eq cfg.backend (codes "local")) && not (text_eq cfg.backend (codes "sandbox")))
      (record { err_code = backend_invalid; detail = unsupported_backend cfg.backend })
  _ ← check_command allowed cfg.test_cmd
  _ ← check_command allowed cfg.lint_cmd
  ok (record { cfg = cfg; allowed = allowed; sandbox = sandbox_of cfg })

-- commandFor
unfoldable pub command_for : Runner → Kind → Result QaError Text
command_for r kind_test = ok r.cfg.test_cmd
command_for r kind_lint = ok r.cfg.lint_cmd
command_for r (other_kind k) =
    err (record { err_code = tool_unsupported; detail = unsupported_tool k })

-- absWorkDir
unfoldable pub abs_work_dir : Outside → Text → Result RunError Text
abs_work_dir o dir =
    if is_empty (trim_space dir)
    then err (qa (record { err_code = workdir_invalid; detail = workdir_is_empty }))
    else elim o.getwd [
      | err msg ↦ err (system msg)
      | ok wd ↦
          if text_eq dir dot
          then ok wd
          else if has_prefix dir (codes "/")
          then ok dir
          else ok (wd ++ slash ∷ dir)
    ]
