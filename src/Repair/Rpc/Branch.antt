-- ===== src/Repair/Rpc/Branch.antt =====
-- Proofs that compare toolCodeBranchPRCreate with handleCodeBranchPR.
use ai_team_toolhub.Base.{◌++◌, [], err, true, Bool-cases}
use ai_team_toolhub.Repair.BranchPr.{
  branch_request, branch_pull_request, combined_patch, submit_branch, finish_branch, is_success,
}
use ai_team_toolhub.Repair.Rpc.{
  branch_executed, branch_pull, ask_branch_pull, open_branch, finish_branch_work, patch_of,
  branch_work, audit_error, run_failed,
}
use ai_team_toolhub.Base.{
  ℕ, ◌≡◌, refl, ap, ◌∙◌, inl, inr, false, map, Option, none, some, Result, ok, Result-cases,
  >>=-eq-ok, >>-eq-ok, ok_injective,
}
use ai_team_toolhub.Text.{Text, codes, is_empty, trim_space}
use ai_team_toolhub.Policy.{check_tool, check_paths}
use ai_team_toolhub.CodeOps as Code
use ai_team_toolhub.CodeOps.{Action, CodeError, CodeResult}
use ai_team_toolhub.CodeOps.Exec.{execute}
use ai_team_toolhub.Repair.Attempts.{is_nil}
use ai_team_toolhub.Repair.Handler.{RunErr, pull_request_failed}
use ai_team_toolhub.Repair.{
  Outside, Server, Run, found, configured, decode, allow_tool, permit_paths, check_approval,
}
use ai_team_toolhub.Repair.Handler.Gate.{
  Usable, found_ok, configured_ok, allow_tool_ok, permit_paths_ok, check_approval-Usable,
}
use ai_team_toolhub.Repair.BranchPr as Http
use ai_team_toolhub.Repair.BranchPr.{
  BranchBody, BranchJob, BranchResult, BranchAnswer, check_branch_request, handle_code_branch_pr,
  work_branch,
}
use ai_team_toolhub.Repair.Rpc.{
  RpcReply, completed, CallArgs, decode_args, named, run_of, allow_call, runner_of,
  check_call_approval, permit_call, check_branch_call, BranchRpcAnswer, tool_code_branch_pr_create,
}
use ai_team_toolhub.Repair.Rpc.Checks.{
  fail_if-false, run_of_ok, runner_of_ok, check_call_approval-Usable, allow_call_ok, permit_call_ok,
  either_false, approval_passes, call_passes, approval_name,
}

-- What both sets of checks come to.
record Admitted (o : Outside) (s : Server) (run_id : Text) (job : BranchJob) : Type 0 where
  run_found : o.get_run run_id ≡ ok (some job.run)
  tool_allowed : check_tool s.policy (codes "code.branch_pr.create") ≡ ok tt
  code_configured : s.code ≡ some job.code
  has_approval : is_empty (trim_space job.body.approval_id) ≡ false
  approval : Usable o run_id job.body.approval_id
  paths_allowed : check_paths s.policy (map (λ f. f.path) job.body.files) ≡ ok tt

module _ (o : Outside) (s : Server) (run_id : Text) (body : BranchBody) where
  abbrev job_of : Run → Code.Config → BranchJob
  job_of run code = record { run = run; code = code; body = body }

  abbrev args : Result Text (CallArgs BranchBody)
  args = ok (record { run_id = run_id; body = body })

  -- A job of this body that the checks admit.
  abbrev AdmittedAs : BranchJob → Type 0
  AdmittedAs job =
      (run : Run) × (code : Code.Config) × Admitted o s run_id (job_of run code)
      × (job_of run code ≡ job)

  Admitted-check_branch_request :
      (run : Run) (code : Code.Config)
      → Admitted o s run_id (job_of run code)
      → check_branch_request o s run_id (ok body) ≡ ok (job_of run code)
  unfolding check_branch_request found configured decode
  Admitted-check_branch_request run code h =
      let may : allow_tool s.policy (codes "code.branch_pr.create") ≡ ok tt =
        rw (h.tool_allowed, allow_tool) refl in
      let free : permit_paths s.policy body.files ≡ ok tt =
        rw (h.paths_allowed, permit_paths) refl in
      simp
        (
          h.run_found,
          may,
          h.code_configured,
          approval_passes o run_id body.approval_id h.approval h.has_approval,
          free,
        )
        refl

  check_branch_request-Admitted :
      (job : BranchJob) → check_branch_request o s run_id (ok body) ≡ ok job → AdmittedAs job
  unfolding check_branch_request decode
  check_branch_request-Admitted job h =
      let (run, e0, h0) = >>=-eq-ok (found (o.get_run run_id) _) _ h in
      let (e1, h1) = >>-eq-ok (allow_tool s.policy (codes "code.branch_pr.create")) _ h0 in
      let (code, e2, h2) = >>=-eq-ok (configured s.code _) _ h1 in
      let (e6, h6) = >>-eq-ok (check_approval o run_id body.approval_id) _ h2 in
      let (e7, h7) = >>-eq-ok (permit_paths s.policy body.files) _ h6 in
      (
        run,
        code,
        record {
          run_found = found_ok _ _ e0;
          tool_allowed = allow_tool_ok s _ e1;
          code_configured = configured_ok _ _ e2;
          has_approval = approval_name o run_id body.approval_id e6;
          approval = check_approval-Usable o run_id body.approval_id e6;
          paths_allowed = permit_paths_ok s body.files e7;
        },
        ok_injective h7,
      )

  Admitted-check_branch_call :
      (run : Run) (code : Code.Config)
      → is_empty (trim_space run_id) ≡ false
      → Admitted o s run_id (job_of run code)
      → check_branch_call o s args ≡ ok (job_of run code)
  unfolding check_branch_call decode_args named run_of runner_of
  Admitted-check_branch_call run code present h =
      let may : allow_call s.policy (codes "code.branch_pr.create") ≡ ok tt =
        rw (h.tool_allowed, allow_call) refl in
      let free : permit_call s.policy run_id body.dry_run body.files ≡ ok tt =
        rw (h.paths_allowed, permit_call) refl in
      let fits = call_passes o run_id body.approval_id h.approval in
      simp (present, h.has_approval, h.run_found, may, h.code_configured, fits, free) refl

  check_branch_call-Admitted :
      (job : BranchJob) → check_branch_call o s args ≡ ok job → AdmittedAs job
  unfolding check_branch_call decode_args named
  check_branch_call-Admitted job h =
      let (e0, h0) = >>-eq-ok (named run_id body.approval_id) _ h in
      let (run, e2, h2) = >>=-eq-ok (run_of (o.get_run run_id)) _ h0 in
      let (e3, h3) = >>-eq-ok (allow_call s.policy (codes "code.branch_pr.create")) _ h2 in
      let (code, e4, h4) = >>=-eq-ok (runner_of s.code _) _ h3 in
      let (e6, h6) = >>-eq-ok (check_call_approval o run_id body.approval_id) _ h4 in
      let (e7, h7) = >>-eq-ok (permit_call s.policy run_id body.dry_run body.files) _ h6 in
      (
        run,
        code,
        record {
          run_found = run_of_ok _ e2;
          tool_allowed = allow_call_ok s.policy _ e3;
          code_configured = runner_of_ok _ _ e4;
          has_approval = either_false _ _ (fail_if-false _ _ e0);
          approval = check_call_approval-Usable o run_id body.approval_id e6;
          paths_allowed = permit_call_ok s.policy run_id body.dry_run body.files e7;
        },
        ok_injective h7,
      )

-- The result that a reply has, if any.
abbrev result_of_rpc : RpcReply (Text × BranchResult) → Option (Text × Text × BranchResult)
result_of_rpc (completed id (patch, r)) = some (id, patch, r)
result_of_rpc other = none

abbrev result_of_http : Http.BranchReply → Option (Text × Text × BranchResult)
result_of_http (Http.done id patch r) = some (id, patch, r)
result_of_http other = none

abbrev pub SameBranch : BranchRpcAnswer → BranchAnswer → Type 0
SameBranch a b =
    (a.actions ≡ b.actions)
    × (a.pull_request ≡ b.pull_request)
    × (result_of_rpc a.reply ≡ result_of_http b.reply)

module _ (o : Outside) (job : BranchJob) where
  asked_alike :
      (r : CodeResult)
      → ask_branch_pull o job (branch_executed (ok r))
        ≡ (elim (o.create_pull_request (branch_pull_request job.run job.body))
            as (λ _. BranchResult) [
              | err msg ↦ record {
                run_err = some (pull_request_failed msg);
                code_result = r;
                pull_request = none;
                code_errors_counted = 0;
              }
              | ok opened ↦ record {
                run_err = none;
                code_result = r;
                pull_request = some opened;
                code_errors_counted = 0;
              }
            ])
  unfolding ask_branch_pull branch_executed branch_pull_request
  asked_alike r = by (o.create_pull_request (branch_pull job))
    where
      by :
          (p : Result Text Text)
          → (elim p as (λ _. BranchResult) [
            | err msg ↦ record (branch_executed (ok r)) { run_err = some (pull_request_failed msg) }
            | ok opened ↦ record (branch_executed (ok r)) { pull_request = some opened }
          ])
            ≡ (elim p as (λ _. BranchResult) [
              | err msg ↦ record {
                run_err = some (pull_request_failed msg);
                code_result = r;
                pull_request = none;
                code_errors_counted = 0;
              }
              | ok opened ↦ record {
                run_err = none;
                code_result = r;
                pull_request = some opened;
                code_errors_counted = 0;
              }
            ])
      by (err msg) = refl
      by (ok opened) = refl

  open_branch-submit_branch :
      (x : Result CodeError CodeResult)
      → open_branch o job (branch_executed x) ≡ submit_branch o job x
  unfolding open_branch branch_executed submit_branch is_nil
  open_branch-submit_branch (err e) = refl
  open_branch-submit_branch (ok r) = elim (Bool-cases job.body.dry_run) [
    | inl d ↦ rw d refl
    | inr d ↦ rw d (asked_alike r)
  ]

finish_branch_work-result :
    (o : Outside) (patch : Text) (b : BranchResult)
    → result_of_rpc (finish_branch_work o patch b) ≡ result_of_http (finish_branch o patch b)
unfolding finish_branch_work finish_branch is_nil is_success
finish_branch_work-result o patch b = by b.run_err
  where
    ended :
        (e : Option RunErr) (r : Result Text Text)
        → result_of_rpc (elim r as (λ _. RpcReply (Text × BranchResult)) [
          | err msg ↦ audit_error (codes "audit record failed: " ++ msg)
          | ok id ↦ elim e as (λ _. RpcReply (Text × BranchResult)) [
            | some x ↦ run_failed x
            | none ↦ completed id (patch, b)
          ]
        ])
          ≡ result_of_http (elim r as (λ _. Http.BranchReply) [
            | err msg ↦ Http.audit_failed msg
            | ok id ↦ elim e as (λ _. Http.BranchReply) [
              | some x ↦ Http.failed x
              | none ↦ Http.done id patch b
            ]
          ])
    ended e (err msg) = refl
    ended none (ok id) = refl
    ended (some x) (ok id) = refl

    by :
        (e : Option RunErr)
        → result_of_rpc (elim (o.record_call (is_nil e)) as (λ _. RpcReply (Text × BranchResult)) [
          | err msg ↦ audit_error (codes "audit record failed: " ++ msg)
          | ok id ↦ elim e as (λ _. RpcReply (Text × BranchResult)) [
            | some x ↦ run_failed x
            | none ↦ completed id (patch, b)
          ]
        ])
          ≡ result_of_http (elim (o.record_call (is_success e)) as (λ _. Http.BranchReply) [
            | err msg ↦ Http.audit_failed msg
            | ok id ↦ elim e as (λ _. Http.BranchReply) [
              | some x ↦ Http.failed x
              | none ↦ Http.done id patch b
            ]
          ])
    by none = ended none (o.record_call true)
    by (some x) = ended (some x) (o.record_call false)

branch_work-SameBranch :
    (o : Outside) (decimal : ℕ → Text) (job : BranchJob)
    → SameBranch (branch_work o decimal job) (work_branch o decimal job)
unfolding branch_work work_branch branch_request combined_patch patch_of
branch_work-SameBranch o decimal job =
    let x = execute o.code job.code (branch_request job.body) [] in
    let patch = combined_patch decimal job.body.files in
    let q = open_branch-submit_branch o job x.0 in
    (
      refl,
      ap (λ b. b.pull_request) q,
      ap (λ b. result_of_rpc (finish_branch_work o patch b)) q
          ∙ finish_branch_work-result o patch (submit_branch o job x.0),
    )

-- Where the run's identifier is not blank, the tool code_branch_pr_create and the HTTP handler, asked the
-- same, perform the same actions and open the same pull request, whatever the outside answers, and the
-- one gives the tool call with its result exactly if the other does, with the same result. The request that
-- is recorded is not compared.
pub tool_code_branch_pr_create-SameBranch :
    (o : Outside) (decimal : ℕ → Text) (s : Server) (run_id : Text) (body : BranchBody)
    → is_empty (trim_space run_id) ≡ false
    → SameBranch
        (tool_code_branch_pr_create o decimal s (ok (record { run_id = run_id; body = body })))
        (handle_code_branch_pr o decimal s run_id (ok body))
unfolding tool_code_branch_pr_create handle_code_branch_pr
tool_code_branch_pr_create-SameBranch o decimal s run_id body present =
    let call = check_branch_call o s (args o s run_id body) in
    elim (Result-cases call) [
      | inl (job, e) ↦
          let (run, code, admitted, same) = check_branch_call-Admitted o s run_id body job e in
          let both : check_branch_request o s run_id (ok body) ≡ ok job =
            Admitted-check_branch_request o s run_id body run code admitted ∙ ap (λ j. ok j) same in
          rw (e, both, tool_code_branch_pr_create, handle_code_branch_pr)
            (branch_work-SameBranch o decimal job)
      | inr (x, e) ↦ elim (Result-cases (check_branch_request o s run_id (ok body))) [
        | inr (y, f) ↦
            rw (e, f, tool_code_branch_pr_create, handle_code_branch_pr) (refl, refl, refl)
        | inl (job, f) ↦
            let (run, code, admitted, same) = check_branch_request-Admitted o s run_id body job f in
            let both : call ≡ ok (job_of o s run_id body run code) =
              Admitted-check_branch_call o s run_id body run code present admitted in
            cc
      ]
    ]
