-- ===== src/Repair/Rpc/Checks.antt =====
-- Proofs that the checks of toolCodeRepairLoop and of handleCodeRepairLoop come to the same.
use ai_team_toolhub.Base.{List, not, true}
use ai_team_toolhub.Base.{
  ◌≡◌, refl, sym, ap, ◌∙◌, inl, inr, Bool, true, false, not, ◌||◌, List, map, Option, none, some,
  Result, ok, err, >>=-eq-ok, >>-eq-ok, ok_injective, subst, fail_if, arith, Bool-cases,
}
use ai_team_toolhub.Base.Int.{int_le}
use ai_team_toolhub.Text.{Text, codes, is_empty, text_eq, trim_space}
use ai_team_toolhub.Text.Laws.{text_eq_iff, text_eq_self}
use ai_team_toolhub.Policy.{Policy, check_tool, check_paths}
use ai_team_toolhub.CodeOps as Code
use ai_team_toolhub.CodeOps.{FileChange, Action}
use ai_team_toolhub.Qa.Runner.{Runner}
use ai_team_toolhub.Repair.{
  Outside, Server, Run, Approval, Body, Job, found, configured, decode, allow_tool, permit_paths,
  check_approval, check_request, iterations, said,
}
use ai_team_toolhub.Repair.Handler.Gate.{
  Usable, found_ok, configured_ok, allow_tool_ok, permit_paths_ok, check_approval-Usable,
}
use ai_team_toolhub.Repair.Rpc.{
  error_reply, invalid_params, CallArgs, decode_args, named, run_of, allow_call, runner_of,
  approval_of, check_call_approval, permit_call, job_of, check_call,
}

-- What both sets of checks come to.
pub record Admitted (o : Outside) (s : Server) (run_id : Text) (body : Body) (run : Run)
    (code : Code.Config) (qa : Runner) : Type 0 where
  run_found : o.get_run run_id ≡ ok (some run)
  tool_allowed : check_tool s.policy (codes "code.repair_loop") ≡ ok tt
  code_configured : s.code ≡ some code
  qa_configured : s.qa ≡ some qa
  bounded : int_le (iterations s body) s.repair_max_iterations ≡ true
  has_approval : is_empty (trim_space body.approval_id) ≡ false
  approval : Usable o run_id body.approval_id
  paths_allowed : check_paths s.policy (map (λ f. f.path) body.files) ≡ ok tt

pub fail_if-false : {E : Type 0} (b : Bool) (e : E) → fail_if b e ≡ ok tt → b ≡ false
fail_if-false false e h = refl
fail_if-false true e h = cc

pub not-false : (b : Bool) → not b ≡ false → b ≡ true
not-false b h = ground arith

module _ (o : Outside) (run_id approval_id : Text) where
  pub approval_passes :
      Usable o run_id approval_id
      → is_empty (trim_space approval_id) ≡ false
      → check_approval o run_id approval_id ≡ ok tt
  unfolding check_approval found text_eq
  approval_passes (a, e, of_run, status, scope) present =
      rw (present, e, of_run, status, scope, text_eq_self run_id) refl

  pub approval_name :
      check_approval o run_id approval_id ≡ ok tt → is_empty (trim_space approval_id) ≡ false
  unfolding check_approval
  approval_name h =
      let (h0, h1) = >>-eq-ok (fail_if (is_empty (trim_space approval_id)) _) _ h in
      fail_if-false _ _ h0

  pub call_passes : Usable o run_id approval_id → check_call_approval o run_id approval_id ≡ ok tt
  unfolding check_call_approval approval_of text_eq
  call_passes (a, e, of_run, status, scope) =
      rw (e, of_run, status, scope, text_eq_self run_id) refl

module _ (o : Outside) (s : Server) (run_id : Text) (body : Body) where
  pub Admitted-check_request :
      (run : Run) (code : Code.Config) (qa : Runner)
      → Admitted o s run_id body run code qa
      → check_request o s run_id (ok body) ≡ ok (job_of s run code qa body)
  unfolding check_request found allow_tool configured decode permit_paths
  Admitted-check_request run code qa h =
      let may : allow_tool s.policy (codes "code.repair_loop") ≡ ok tt =
        rw (h.tool_allowed, allow_tool) refl in
      let free : permit_paths s.policy body.files ≡ ok tt =
        rw (h.paths_allowed, permit_paths) refl in
      simp
        (
          h.run_found,
          may,
          h.code_configured,
          h.qa_configured,
          h.bounded,
          approval_passes o run_id body.approval_id h.approval h.has_approval,
          free,
        )
        refl

  pub check_request-Admitted :
      (job : Job)
      → check_request o s run_id (ok body) ≡ ok job
      → (run : Run) × (code : Code.Config) × (qa : Runner) × Admitted o s run_id body run code qa
        × (job_of s run code qa body ≡ job)
  unfolding check_request decode
  check_request-Admitted job h =
      let (run, e0, h0) = >>=-eq-ok (found (o.get_run run_id) _) _ h in
      let (e1, h1) = >>-eq-ok (allow_tool s.policy (codes "code.repair_loop")) _ h0 in
      let (code, e2, h2) = >>=-eq-ok (configured s.code _) _ h1 in
      let (qa, e3, h3) = >>=-eq-ok (configured s.qa _) _ h2 in
      let (e5, h5) =
        >>-eq-ok (fail_if (not (int_le (iterations s body) s.repair_max_iterations)) _) _ h3 in
      let (e6, h6) = >>-eq-ok (check_approval o run_id body.approval_id) _ h5 in
      let (e7, h7) = >>-eq-ok (permit_paths s.policy body.files) _ h6 in
      (
        run,
        code,
        qa,
        record {
          run_found = found_ok _ _ e0;
          tool_allowed = allow_tool_ok s _ e1;
          code_configured = configured_ok _ _ e2;
          qa_configured = configured_ok _ _ e3;
          bounded = not-false _ (fail_if-false _ _ e5);
          has_approval = approval_name o run_id body.approval_id e6;
          approval = check_approval-Usable o run_id body.approval_id e6;
          paths_allowed = permit_paths_ok s body.files e7;
        },
        ok_injective h7,
      )

  -- The checks of the tool.
  module _ (present : is_empty (trim_space run_id) ≡ false) where
    abbrev pub args : Result Text (CallArgs Body)
    args = ok (record { run_id = run_id; body = body })

    pub Admitted-check_call :
        (run : Run) (code : Code.Config) (qa : Runner)
        → Admitted o s run_id body run code qa
        → check_call o s args ≡ ok (job_of s run code qa body)
    unfolding check_call decode_args named run_of runner_of text_eq
    Admitted-check_call run code qa h =
        let may : allow_call s.policy (codes "code.repair_loop") ≡ ok tt =
          rw (h.tool_allowed, allow_call) refl in
        let free : permit_call s.policy run_id body.dry_run body.files ≡ ok tt =
          rw (h.paths_allowed, permit_call) refl in
        let fits : check_call_approval o run_id body.approval_id ≡ ok tt =
          call_passes o run_id body.approval_id h.approval in
        simp
          (
            present, h.has_approval, h.bounded, h.run_found, may, h.code_configured,
            h.qa_configured, fits, free,
          )
          refl

-- The other way: what the tool's checks let through.
pub run_of_ok : (r : Result Text (Option Run)) {run : Run} → run_of r ≡ ok run → r ≡ ok (some run)
unfolding run_of
run_of_ok (err msg) h = cc
run_of_ok (ok none) h = cc
run_of_ok (ok (some run)) h = ap (λ x. ok (some x)) (ok_injective h)

pub runner_of_ok :
    {A : Type 0} (r : Option A) (m : Text) {a : A} → runner_of r m ≡ ok a → r ≡ some a
unfolding runner_of
runner_of_ok none m h = cc
runner_of_ok (some b) m h = ap (λ x. some x) (ok_injective h)

approval_of_ok :
    (run_id : Text) (r : Result Text (Option Approval)) {a : Approval}
    → approval_of run_id r ≡ ok a
    → (r ≡ ok (some a)) × (a.run_id ≡ run_id)
unfolding approval_of
approval_of_ok run_id (err msg) h = cc
approval_of_ok run_id (ok none) h = cc
approval_of_ok run_id (ok (some b)) {a = a} h = elim (Bool-cases (text_eq b.run_id run_id)) [
  | inl e ↦
      let q : approval_of run_id (ok (some b)) ≡ ok b = rw (e, approval_of) refl in
      let same : b ≡ a = ok_injective (sym q ∙ h) in
      (
        ap (λ x. ok (some x)) same,
        subst (λ x. x.run_id ≡ run_id) same ((text_eq_iff b.run_id run_id).0 e),
      )
  | inr e ↦
      let q : approval_of run_id (ok (some b))
          ≡ err (error_reply invalid_params (said (codes "approval not found"))) =
        rw (e, approval_of) refl in
      cc
]

said_so : (t u : Text) → not (text_eq t u) ≡ false → t ≡ u
said_so t u h = (text_eq_iff t u).0 (not-false _ h)

pub check_call_approval-Usable :
    (o : Outside) (run_id approval_id : Text)
    → check_call_approval o run_id approval_id ≡ ok tt
    → Usable o run_id approval_id
unfolding check_call_approval
check_call_approval-Usable o run_id approval_id h =
    let (a, e, h1) = >>=-eq-ok (approval_of run_id (o.get_approval approval_id)) _ h in
    let (i, k) = >>-eq-ok (fail_if (not (text_eq a.status (codes "approved"))) _) _ h1 in
    let (found_it, mine) = approval_of_ok run_id (o.get_approval approval_id) e in
    (a, found_it, mine, said_so _ _ (fail_if-false _ _ i), said_so _ _ (fail_if-false _ _ k))

pub allow_call_ok :
    (p : Policy) (tool : Text) → allow_call p tool ≡ ok tt → check_tool p tool ≡ ok tt
unfolding allow_call
allow_call_ok p tool h = ground arith

pub permit_call_ok :
    (p : Policy) (run_id : Text) (dry_run : Bool) (files : List FileChange)
    → permit_call p run_id dry_run files ≡ ok tt
    → check_paths p (map (λ f. f.path) files) ≡ ok tt
unfolding permit_call
permit_call_ok p run_id dry_run files h = ground arith

pub either_false : (a b : Bool) → (a || b) ≡ false → b ≡ false
either_false a b h = ground arith

pub check_call-Admitted :
    (o : Outside) (s : Server) (run_id : Text) (body : Body) (job : Job)
    → check_call o s (ok (record { run_id = run_id; body = body })) ≡ ok job
    → (run : Run) × (code : Code.Config) × (qa : Runner) × Admitted o s run_id body run code qa
      × (job_of s run code qa body ≡ job)
unfolding check_call decode_args named
check_call-Admitted o s run_id body job h =
    let (e0, h0) = >>-eq-ok (named run_id body.approval_id) _ h in
    let (e1, h1) =
      >>-eq-ok (fail_if (not (int_le (iterations s body) s.repair_max_iterations)) _) _ h0 in
    let (run, e2, h2) = >>=-eq-ok (run_of (o.get_run run_id)) _ h1 in
    let (e3, h3) = >>-eq-ok (allow_call s.policy (codes "code.repair_loop")) _ h2 in
    let (code, e4, h4) = >>=-eq-ok (runner_of s.code _) _ h3 in
    let (qa, e5, h5) = >>=-eq-ok (runner_of s.qa _) _ h4 in
    let (e6, h6) = >>-eq-ok (check_call_approval o run_id body.approval_id) _ h5 in
    let (e7, h7) = >>-eq-ok (permit_call s.policy run_id body.dry_run body.files) _ h6 in
    (
      run,
      code,
      qa,
      record {
        run_found = run_of_ok _ e2;
        tool_allowed = allow_call_ok s.policy _ e3;
        code_configured = runner_of_ok _ _ e4;
        qa_configured = runner_of_ok _ _ e5;
        bounded = not-false _ (fail_if-false _ _ e1);
        has_approval = either_false _ _ (fail_if-false _ _ e0);
        approval = check_call_approval-Usable o run_id body.approval_id e6;
        paths_allowed = permit_call_ok s.policy run_id body.dry_run body.files e7;
      },
      ok_injective h7,
    )
