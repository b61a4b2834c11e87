-- ===== src/Repair/Handler/Writes.antt =====
-- What the repair loop writes.
use ai_team_toolhub.Base.{
  ◌≡◌, refl, sym, inl, inr, Bool, true, not, ◌&&◌, List, [], All, some, Option-cases, Result, ok,
  err, Result-cases, Bool-cases, subst,
}
use ai_team_toolhub.Text.{Text}
use ai_team_toolhub.FilePath.{is_rooted}
use ai_team_toolhub.Policy.Paths.{Clear}
use ai_team_toolhub.CodeOps.{CodeError, CodeResult, Action, git}
use ai_team_toolhub.CodeOps as Code
use ai_team_toolhub.CodeOps.Effects.{
  WritesOnly, Performs-All, execute_respects_policy, rollback_branch-All,
}
use ai_team_toolhub.Repair.{Outside, Server, Body, Job, check_request}
use ai_team_toolhub.Repair.Attempts.{repair_loop, loop_start}
use ai_team_toolhub.Repair.Handler.{
  is_success, Progress, request_of, pull_request_of, executed_with, write_code, roll_back, rounds,
  check_code, verify, submit, open_pull_request, finish, handle_code_repair_loop, perform,
}
use ai_team_toolhub.Repair.Handler.Gate.{Gated, check_request-Gated}

module _ (P : Action → Type 0) (by_git : (wd : Text) (args : List Text) → P (git wd args)) where
  finish-All :
      (o : Outside) (dry_run : Bool) (p : Progress)
      → All P p.actions
      → All P (finish o dry_run p).actions
  unfolding finish
  finish-All o dry_run p h = elim (Result-cases (o.record_call (is_success p.run_err))) [
    | inl (id, e) ↦ rw (e, finish) h
    | inr (msg, e) ↦ rw (e, finish) h
  ]

  submit-All :
      (o : Outside) (job : Job) (p : Progress) → All P p.actions → All P (submit o job p).actions
  unfolding submit
  submit-All o job p h =
      elim (Result-cases (o.create_pull_request (pull_request_of job.run job.body))) [
        | inl (id, e) ↦ rw (e, submit) h
        | inr (msg, e) ↦ rw (e, submit) h
      ]

  check_code-All :
      (o : Outside) (job : Job) (p : Progress)
      → All P p.actions
      → All P (check_code o job p).actions
  unfolding check_code roll_back
  check_code-All o job p h =
      elim (Bool-cases (repair_loop o job.qa 1 (rounds job.max_iterations) loop_start).qa_passed) [
        | inl b ↦ rw (b, check_code) h
        | inr b ↦
            rw (b, check_code, roll_back)
              (rollback_branch-All o.code job.code job.body.base_branch job.body.head_branch
                p.actions P by_git h)
      ]

  open_pull_request-All :
      (o : Outside) (job : Job) (p : Progress)
      → All P p.actions
      → All P (open_pull_request o job p).actions
  unfolding open_pull_request
  open_pull_request-All o job p h = elim (Option-cases p.run_err) [
    | inr (x, e) ↦ rw (e, open_pull_request) h
    | inl e ↦ elim (Bool-cases (not job.body.dry_run && p.qa.qa_passed)) [
      | inr b ↦ rw (e, b, open_pull_request) h
      | inl b ↦ rw (e, b, open_pull_request) (submit-All o job p h)
    ]
  ]

  verify-All :
      (o : Outside) (job : Job) (p : Progress) → All P p.actions → All P (verify o job p).actions
  unfolding verify
  verify-All o job p h = elim (Option-cases p.run_err) [
    | inr (x, e) ↦ rw (e, verify) h
    | inl e ↦ elim (Bool-cases job.body.dry_run) [
      | inl b ↦ rw (e, b, verify) h
      | inr b ↦ rw (e, b, verify) (check_code-All o job p h)
    ]
  ]

executed_with-actions :
    (r : Result CodeError CodeResult × List Action) → (executed_with r).actions ≡ r.1
unfolding executed_with
executed_with-actions (ok x, log) = refl
executed_with-actions (err e, log) = refl

module _ (o : Outside) (s : Server) (run_id : Text) (decoded : Result Text Body) (wd : Text) where
  abbrev Safe : Action → Type 0
  Safe = WritesOnly wd (Clear s.policy.forbidden_path_prefixes)

  write_code-All :
      (job : Job)
      → Gated o s run_id decoded job
      → o.code.abs job.code.work_dir ≡ ok wd
      → is_rooted wd ≡ true
      → All Safe (write_code o job).actions
  unfolding write_code request_of
  write_code-All job g e rooted = subst (All Safe) (sym (executed_with-actions _)) (
      Performs-All []
        (execute_respects_policy o.code job.code (request_of job.body) s.policy wd e rooted
          g.paths_allowed)
        tt)

-- Whatever the database, git, the checks and GitHub answer, the handler writes files, and makes
-- folders, only inside the work directory `wd`, which `filepath.Abs` resolves to a rooted path: each path
-- is that directory, cleaned, followed by one or more plain names, without `..`, and no forbidden prefix
-- of the server's policy matches the path that these names make.
pub repair_loop_writes_permitted :
    (o : Outside) (s : Server) (run_id : Text) (decoded : Result Text Body) (cfg : Code.Config)
    (wd : Text)
    → s.code ≡ some cfg
    → o.code.abs cfg.work_dir ≡ ok wd
    → is_rooted wd ≡ true
    → All
        (WritesOnly wd (Clear s.policy.forbidden_path_prefixes))
        (handle_code_repair_loop o s run_id decoded).actions
unfolding handle_code_repair_loop
repair_loop_writes_permitted o s run_id decoded cfg wd c e rooted =
    elim (Result-cases (check_request o s run_id decoded)) [
      | inr (x, q) ↦ rw (q, handle_code_repair_loop) tt
      | inl (job, q) ↦
          let g = check_request-Gated o s run_id decoded job q in
          rw (q, handle_code_repair_loop)
            (performed job (write_code-All o s run_id decoded wd job g (same_folder job g) rooted))
    ]
  where
    worked :
        (job : Job)
        → All (Safe o s run_id decoded wd) (write_code o job).actions
        → All
            (Safe o s run_id decoded wd)
            (finish o job.body.dry_run
              (open_pull_request o job (verify o job (write_code o job)))).actions
    worked job h =
        let P = Safe o s run_id decoded wd in
        finish-All P (λ w args. tt) o job.body.dry_run
          (open_pull_request o job (verify o job (write_code o job)))
          (open_pull_request-All P (λ w args. tt) o job (verify o job (write_code o job))
            (verify-All P (λ w args. tt) o job (write_code o job) h))

    performed :
        (job : Job)
        → All (Safe o s run_id decoded wd) (write_code o job).actions
        → All (Safe o s run_id decoded wd) (perform o job).actions
    performed job h = elim (Result-cases o.start_step) [
      | inr (x, k) ↦ rw (k, perform) tt
      | inl (x, k) ↦ rw (k, perform) (worked job h)
    ]

    same_folder : (job : Job) → Gated o s run_id decoded job → o.code.abs job.code.work_dir ≡ ok wd
    same_folder job g = cc (g.code_configured, c, e)
