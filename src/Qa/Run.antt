-- ===== src/Qa/Run.antt =====
-- `Run` and `runLocal` of toolhub/internal/qa/runner.go, `RunCommand` of sandbox_runner.go.
pub mod Safety
use ai_team_toolhub.Base.{
  ℕ, Bool, true, false, List, [], ◌∷◌, ◌++◌, Option, none, some, Result, ok, err, if◌then◌else◌,
}
use ai_team_toolhub.Base.Int.{ℤ, pos, negsuc}
use ai_team_toolhub.Text.{Text, codes, text_eq, join}
use ai_team_toolhub.Qa.{
  Kind, Report, empty_report, QaError, RunError, qa, system, qa_timeout, exec_failed,
  concurrency_exceeded, command_empty, command_is_empty, limit_exceeded, timed_out, failed_with,
}
use ai_team_toolhub.Qa.CommandLine.{validate_command_line, split_command_line}
use ai_team_toolhub.Qa.Output.{truncate_output}
use ai_team_toolhub.Qa.Runner.{
  Runner, SandboxConfig, Launch, Ended, Failure, Outside, Ran, check_command, command_for,
  abs_work_dir,
}

-- return Report{}, err
abbrev refused : RunError → Ran
refused e = record { report = empty_report; err = some e; launched = []; counted_timeouts = 0 }

-- return report, nil
abbrev previewed : Report → Ran
previewed report = record { report = report; err = none; launched = []; counted_timeouts = 0 }

-- What both runners make of a process that has ended: the exit code of the report, and the error.
pub conclude : Report → Option Failure → Report × Option RunError
conclude report none = (report, none)
conclude report (some f) =
    if f.deadline_exceeded
    then (
      record report { exit_code = negsuc 0 },
      some (qa (record { err_code = qa_timeout; detail = timed_out })),
    )
    else elim f.exit_code [
      | some code ↦ (
        record report { exit_code = code },
        some (qa (record { err_code = exec_failed; detail = failed_with code })),
      )
      | none ↦ (record report { exit_code = negsuc 0 }, some (system f.message))
    ]

-- The report with the output of the process, cut to the limit.
pub with_output : Report → Ended → ℤ → Report
with_output report e limit = record report {
  duration_ms = e.duration_ms;
  stdout = (truncate_output e.stdout limit).0;
  stdout_truncated = (truncate_output e.stdout limit).1;
  stderr = (truncate_output e.stderr limit).0;
  stderr_truncated = (truncate_output e.stderr limit).1;
}

-- Whether the call of `IncQATimeout` is reached.
timeouts_of : Option Failure → ℕ
timeouts_of none = 0
timeouts_of (some f) = if f.deadline_exceeded then 1 else 0

-- A process is started, and its end becomes the result. Only the local runner counts timeouts.
launch : Outside → Launch → Report → ℤ → Bool → Ran
unfolding conclude with_output timeouts_of
launch o l report limit counts =
    let e = o.process l in
    let (report', error) = conclude (with_output report e limit) e.failure in
    record {
      report = report';
      err = error;
      launched = l ∷ [];
      counted_timeouts = if counts then timeouts_of e.failure else 0;
    }

abbrev report_for : Text → Text → ℤ → Report
report_for command wd limit = record empty_report {
  command = command;
  work_dir = wd;
  output_limit_bytes = limit;
}

-- runLocal
run_local : Outside → Runner → Text → Text → Ran
unfolding launch
run_local o r cmdline wd = elim (split_command_line cmdline) [
  | err e ↦ refused (qa e)
  | ok [] ↦ refused (qa (record { err_code = command_empty; detail = command_is_empty }))
  | ok (exe ∷ args) ↦
      launch o (record { argv = exe ∷ args; dir = some wd; limit = r.cfg.timeout })
        (report_for cmdline wd r.cfg.max_output_bytes) r.cfg.max_output_bytes true
]

-- The arguments of docker.
pub docker_args : SandboxConfig → Text → List Text → List Text
docker_args cfg wd args =
    codes "run"
    ∷ codes "--rm"
    ∷ codes "--network"
    ∷ codes "none"
    ∷ codes "--cpus"
    ∷ codes "1"
    ∷ codes "--memory"
    ∷ codes "512m"
    ∷ codes "-w"
    ∷ cfg.container_work_dir
    ∷ codes "-v"
    ∷ (wd ++ codes ":" ++ cfg.container_work_dir ++ codes ":rw")
    ∷ cfg.image
    ∷ args

-- The end of `RunCommand`, for a command line that has been split.
sandboxed : Outside → SandboxConfig → List Text → Text → Bool → Ran
unfolding docker_args launch
sandboxed o cfg args host_work_dir dry_run = elim (abs_work_dir o host_work_dir) [
  | err e ↦ refused e
  | ok wd ↦
      let argv = cfg.docker_binary ∷ docker_args cfg wd args in
      let report =
        report_for (cfg.docker_binary ++ codes " " ++ join (docker_args cfg wd args) b' ') wd
          cfg.max_output_bytes in
      if dry_run
      then previewed report
      else launch o (record { argv = argv; dir = none; limit = cfg.timeout }) report
          cfg.max_output_bytes false
]

-- RunCommand
pub run_command : Outside → SandboxConfig → Text → Text → Bool → Ran
unfolding sandboxed
run_command o cfg cmdline host_work_dir dry_run = elim (validate_command_line cmdline) [
  | err e ↦ refused (qa e)
  | ok _ ↦ elim (split_command_line cmdline) [
    | err e ↦ refused (qa e)
    | ok [] ↦ refused (qa (record { err_code = command_empty; detail = command_is_empty }))
    | ok (exe ∷ args) ↦ sandboxed o cfg (exe ∷ args) host_work_dir dry_run
  ]
]

-- The branch on the backend; `r.sandbox` is set where the backend is "sandbox".
run_backend : Outside → Runner → Text → Text → Ran
unfolding run_command run_local
run_backend o r cmdline wd = elim r.sandbox [
  | some cfg ↦ run_command o cfg cmdline wd false
  | none ↦ run_local o r cmdline wd
]

-- `Run` with a slot of the semaphore.
run_slot : Outside → Runner → Text → Bool → Ran
unfolding run_backend
run_slot o r cmdline dry_run = elim (check_command r.allowed cmdline) [
  | err e ↦ refused (qa e)
  | ok _ ↦ elim (abs_work_dir o r.cfg.work_dir) [
    | err e ↦ refused e
    | ok wd ↦
        if dry_run
        then previewed (report_for cmdline wd r.cfg.max_output_bytes)
        else run_backend o r cmdline wd
  ]
]

-- Run. The third argument is the context's error where that ended before a slot was free.
unfoldable pub run : Outside → Runner → Option Text → Kind → Bool → Ran
unfolding run_slot
run o r (some reason) kind dry_run =
    refused (qa (record { err_code = concurrency_exceeded; detail = limit_exceeded reason }))
run o r none kind dry_run = elim (command_for r kind) [
  | err e ↦ refused (qa e)
  | ok cmdline ↦ run_slot o r cmdline dry_run
]
