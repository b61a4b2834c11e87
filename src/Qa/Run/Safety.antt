-- ===== src/Qa/Run/Safety.antt =====
-- What `Run` may start.
use ai_team_toolhub.Base.{
  ◌≡◌, refl, ◌⊎◌, inl, inr, Bool, true, false, List, [], ◌∷◌, Option, none, some, Result, ok, err,
  arith, Bool-cases, Result-cases, Option-cases, All, if◌then◌else◌, >>=-eq-ok,
}
use ai_team_toolhub.Text.{Text, trim_space, contains, is_empty}
use ai_team_toolhub.Qa.{Kind, QaError, qa}
use ai_team_toolhub.Qa.CommandLine.{
  dangerous, find_operator, validate_command_line, split_command_line,
}
use ai_team_toolhub.Qa.Runner.{
  Runner, SandboxConfig, Launch, Outside, Ran, is_allowed, check_command, check_listed, command_for,
  abs_work_dir,
}
use ai_team_toolhub.Qa.Run.{
  docker_args, launch, run_local, sandboxed, run_command, run_backend, run_slot, run, previewed,
  report_for, refused,
}

-- The command line passes every test, and its executable is listed.
pub record Checked (allowed : List Text) (cmdline exe : Text) (args : List Text) : Type 0 where
  pub no_operator : All (λ token. contains (trim_space cmdline) token ≡ false) dangerous
  pub split : split_command_line cmdline ≡ ok (exe ∷ args)
  pub listed : is_allowed allowed exe ≡ true

-- The arguments are those of the command line: as they are, where there is no sandbox, and inside the
-- docker command of the sandbox, where there is one; and the time limit is that of the configuration.
abbrev pub Runs : Runner → Text → List Text → Launch → Type 0
Runs r exe args l =
    (r.sandbox ≡ none) × (l.argv ≡ exe ∷ args) × (l.limit ≡ r.cfg.timeout)
    ⊎ ((cfg : SandboxConfig) × (wd : Text) × (r.sandbox ≡ some cfg)
        × (l.argv ≡ cfg.docker_binary ∷ docker_args cfg wd (exe ∷ args))
        × (l.limit ≡ cfg.timeout))

-- Nothing was started, or the one process that was runs the arguments given.
abbrev pub StartsOnly : Runner → Text → List Text → Ran → Type 0
StartsOnly r exe args ran =
    (ran.launched ≡ []) ⊎ ((l : Launch) × (ran.launched ≡ l ∷ []) × Runs r exe args l)

module _ (o : Outside) (r : Runner) (cmdline exe : Text) (args : List Text)
    (e : split_command_line cmdline ≡ ok (exe ∷ args)) where
  run_local-StartsOnly :
      (wd : Text) → r.sandbox ≡ none → StartsOnly r exe args (run_local o r cmdline wd)
  unfolding run_local launch
  run_local-StartsOnly wd s = rw (e, run_local) (inr (_, refl, inl (s, refl, refl)))

  sandboxed-StartsOnly :
      (cfg : SandboxConfig) (wd : Text) (dry : Bool)
      → r.sandbox ≡ some cfg
      → StartsOnly r exe args (sandboxed o cfg (exe ∷ args) wd dry)
  unfolding sandboxed launch
  sandboxed-StartsOnly cfg wd dry s = elim (Result-cases (abs_work_dir o wd)) [
    | inr (x, q) ↦ rw (q, sandboxed) (inl refl)
    | inl (wd', q) ↦ elim (Bool-cases dry) [
      | inl d ↦ rw (q, d, sandboxed) (inl refl)
      | inr d ↦ rw (q, d, sandboxed) (inr (_, refl, inr (cfg, wd', s, refl, refl)))
    ]
  ]

  run_backend-StartsOnly : (wd : Text) → StartsOnly r exe args (run_backend o r cmdline wd)
  unfolding run_backend run_command
  run_backend-StartsOnly wd = by_backend r.sandbox refl
    where
      by_backend :
          (s : Option SandboxConfig)
          → r.sandbox ≡ s
          → StartsOnly r exe args (elim s [
            | some cfg ↦ run_command o cfg cmdline wd false
            | none ↦ run_local o r cmdline wd
          ])
      by_backend none q = run_local-StartsOnly wd q
      by_backend (some cfg) q = elim (Result-cases (validate_command_line cmdline)) [
        | inr (x, v) ↦ rw (v, run_command) (inl refl)
        | inl (u, v) ↦ rw (v, run_command, e) (sandboxed-StartsOnly cfg wd false q)
      ]

find_operator-none :
    (trimmed : Text) (tokens : List Text)
    → find_operator trimmed tokens ≡ none
    → All (λ token. contains trimmed token ≡ false) tokens
unfolding find_operator
find_operator-none trimmed [] h = tt
find_operator-none trimmed (token ∷ tokens) h = elim (Bool-cases (contains trimmed token)) [
  | inl e ↦ cc (rw (e, if◌then◌else◌) at h)
  | inr e ↦ (e, find_operator-none trimmed tokens (rw (e, if◌then◌else◌) at h))
]

-- What validateCommandLine accepts has no shell operator.
validate_command_line-clear :
    (cmdline : Text)
    → validate_command_line cmdline ≡ ok tt
    → All (λ token. contains (trim_space cmdline) token ≡ false) dangerous
unfolding validate_command_line
validate_command_line-clear cmdline h =
    elim (Option-cases (find_operator (trim_space cmdline) dangerous)) [
      | inl e ↦ find_operator-none (trim_space cmdline) dangerous e
      | inr (token, e) ↦ absurd (refuses token e)
    ]
  where
    refuses : (token : Text) → find_operator (trim_space cmdline) dangerous ≡ some token → ⊥
    refuses token e = elim (Bool-cases (is_empty (trim_space cmdline))) [
      | inl d ↦ cc (rw (d, validate_command_line) at h)
      | inr d ↦ cc (rw (d, e, validate_command_line) at h)
    ]

check_listed-Checked :
    (allowed : List Text) (cmdline : Text) (found a : List Text)
    → split_command_line cmdline ≡ ok found
    → validate_command_line cmdline ≡ ok tt
    → check_listed allowed found ≡ ok a
    → (exe : Text) × (args : List Text) × Checked allowed cmdline exe args
unfolding check_listed
check_listed-Checked allowed cmdline [] a s v h = cc
check_listed-Checked allowed cmdline (exe ∷ args) a s v h = (
  exe,
  args,
  record { no_operator = validate_command_line-clear cmdline v; split = s; listed = ground arith },
)

check_command-Checked :
    (allowed : List Text) (cmdline : Text) (a : List Text)
    → check_command allowed cmdline ≡ ok a
    → (exe : Text) × (args : List Text) × Checked allowed cmdline exe args
unfolding check_command
check_command-Checked allowed cmdline a h =
    let (u, v, h1) = >>=-eq-ok (validate_command_line cmdline) _ h in
    let (found, s, h2) = >>=-eq-ok (split_command_line cmdline) _ h1 in
    check_listed-Checked allowed cmdline found a s v h2

-- What `Run` has started: nothing, or, where it is no dry run, one process, with the arguments of
-- the command configured for the kind, which has passed the tests and names a listed executable.
abbrev pub Authorised : Runner → Kind → Bool → Ran → Type 0
Authorised r kind dry_run ran =
    (ran.launched ≡ [])
    ⊎ ((l : Launch) × (cmdline exe : Text) × (args : List Text) × (dry_run ≡ false)
        × (ran.launched ≡ l ∷ [])
        × (command_for r kind ≡ ok cmdline)
        × Checked r.allowed cmdline exe args
        × Runs r exe args l)

module _ (o : Outside) (r : Runner) (kind : Kind) (dry_run : Bool) where
  run_slot-Authorised :
      (cmdline : Text)
      → command_for r kind ≡ ok cmdline
      → Authorised r kind dry_run (run_slot o r cmdline dry_run)
  unfolding run_slot
  run_slot-Authorised cmdline q = elim (Result-cases (check_command r.allowed cmdline)) [
    | inr (x, e) ↦ rw (e, run_slot) (inl refl)
    | inl (a, e) ↦ elim (Result-cases (abs_work_dir o r.cfg.work_dir)) [
      | inr (x, w) ↦ rw (e, w, run_slot) (inl refl)
      | inl (wd, w) ↦
          rw (e, w, run_slot)
            (by_mode dry_run refl wd (check_command-Checked r.allowed cmdline a e))
    ]
  ]
    where
      started :
          (wd exe : Text) (args : List Text)
          → dry_run ≡ false
          → Checked r.allowed cmdline exe args
          → StartsOnly r exe args (run_backend o r cmdline wd)
          → Authorised r kind dry_run (run_backend o r cmdline wd)
      started wd exe args d c (inl none_started) = inl none_started
      started wd exe args d c (inr (l, e, runs)) = inr (l, cmdline, exe, args, d, e, q, c, runs)

      by_mode :
          (b : Bool)
          → dry_run ≡ b
          → (wd : Text) → (exe : Text) × (args : List Text) × Checked r.allowed cmdline exe args
          → Authorised r kind dry_run (
              if b
              then previewed (report_for cmdline wd r.cfg.max_output_bytes)
              else run_backend o r cmdline wd)
      by_mode true d wd c = inl refl
      by_mode false d wd (exe, args, c) =
          started wd exe args d c (run_backend-StartsOnly o r cmdline exe args c.split wd)

  -- Whatever the processes, the folder and the context do, `Run` starts at most one process; it
  -- does so only where it is no dry run, with the time limit of the configuration, and only with the
  -- arguments of the command configured for the kind: none of the shell operators occurs in that, and
  -- its executable is in the allowlist. These are the arguments of the process exactly where no sandbox
  -- is configured; else they stand at the end of the docker command of that sandbox.
  pub run-Authorised :
      (ended : Option Text) → Authorised r kind dry_run (run o r ended kind dry_run)
  unfolding run
  run-Authorised (some reason) = inl refl
  run-Authorised none = by_command (command_for r kind) refl
    where
      by_command :
          (c : Result QaError Text)
          → command_for r kind ≡ c
          → Authorised r kind dry_run
              (elim c [ err e ↦ refused (qa e) | ok cmdline ↦ run_slot o r cmdline dry_run ])
      by_command (err x) e = inl refl
      by_command (ok cmdline) e = run_slot-Authorised cmdline e
