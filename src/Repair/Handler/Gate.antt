-- ===== src/Repair/Handler/Gate.antt =====
-- What has been checked before the repair loop changes anything.
use ai_team_toolhub.Base.{
  ◌≡◌, refl, ◌⊎◌, inl, inr, Bool, true, false, not, List, [], map, Option, none, some, Result, ok,
  err, Result-cases, >>=-eq-ok, >>-eq-ok, ok_injective, subst, fail_if, arith, Bool-cases,
}
use ai_team_toolhub.Base.Int.{int_le, not_positive}
use ai_team_toolhub.Text.{Text, codes, is_empty, text_eq, trim_space}
use ai_team_toolhub.Text.Laws.{text_eq_iff}
use ai_team_toolhub.Policy.{check_tool, check_paths}
use ai_team_toolhub.CodeOps.{FileChange}
use ai_team_toolhub.Repair.{
  Outside, Server, Approval, Body, Job, Refusal, found, configured, decode, allow_tool,
  permit_paths, check_approval, check_request, iterations,
}
use ai_team_toolhub.Repair.Handler.{handle_code_repair_loop, perform, Answer, refused}

-- The run exists, the tool and every path are allowed, and the approval that the request names
-- belongs to the run, is approved and is for writing code.
pub record Gated (o : Outside) (s : Server) (run_id : Text) (decoded : Result Text Body) (job : Job)
    : Type 0 where
  pub run_found : o.get_run run_id ≡ ok (some job.run)
  pub tool_allowed : check_tool s.policy (codes "code.repair_loop") ≡ ok tt
  pub code_configured : s.code ≡ some job.code
  pub qa_configured : s.qa ≡ some job.qa
  pub decoded_body : decoded ≡ ok job.body
  pub bounded : int_le job.max_iterations s.repair_max_iterations ≡ true
  -- No number was asked for, and the limit is taken, or the number that was.
  pub asked_for :
      (not_positive job.body.max_iterations ≡ true) × (job.max_iterations ≡ s.repair_max_iterations)
      ⊎ (not_positive job.body.max_iterations ≡ false)
        × (job.max_iterations ≡ job.body.max_iterations)
  pub approval : Approval
  pub approval_found : o.get_approval job.body.approval_id ≡ ok (some approval)
  pub of_the_run : approval.run_id ≡ run_id
  pub is_approved : approval.status ≡ codes "approved"
  pub is_for_code : approval.scope ≡ codes "code_write"
  pub paths_allowed : check_paths s.policy (map (λ f. f.path) job.body.files) ≡ ok tt

pub found_ok :
    {A : Type 0} (r : Result Text (Option A)) (m : Text) {a : A}
    → found r m ≡ ok a
    → r ≡ ok (some a)
unfolding found
found_ok (err e) m h = cc
found_ok (ok none) m h = cc
found_ok (ok (some b)) m h = cc

pub configured_ok :
    {A : Type 0} (r : Option A) (m : Text) {a : A} → configured r m ≡ ok a → r ≡ some a
unfolding configured
configured_ok none m h = cc
configured_ok (some b) m h = cc

pub decode_ok : {B : Type 0} (r : Result Text B) {a : B} → decode r ≡ ok a → r ≡ ok a
unfolding decode
decode_ok (err e) h = cc
decode_ok (ok b) h = cc

fail_if_ok : {E : Type 0} (b : Bool) (e : E) → fail_if b e ≡ ok tt → b ≡ false
fail_if_ok false e h = refl
fail_if_ok true e h = cc

not-text_eq : (s t : Text) → not (text_eq s t) ≡ false → s ≡ t
not-text_eq s t h = (text_eq_iff s t).0 (ground arith)

abbrev pub Usable : Outside → Text → Text → Type 0
Usable o run_id approval_id =
    (a : Approval) × (o.get_approval approval_id ≡ ok (some a))
    × (a.run_id ≡ run_id)
    × (a.status ≡ codes "approved")
    × (a.scope ≡ codes "code_write")

pub check_approval-Usable :
    (o : Outside) (run_id approval_id : Text)
    → check_approval o run_id approval_id ≡ ok tt
    → Usable o run_id approval_id
unfolding check_approval
check_approval-Usable o run_id approval_id h =
    let (h0, h1) = >>-eq-ok (fail_if (is_empty (trim_space approval_id)) _) _ h in
    let (a, e, h2) = >>=-eq-ok (found (o.get_approval approval_id) _) _ h1 in
    let (i, h3) = >>-eq-ok (fail_if (not (text_eq a.run_id run_id)) _) _ h2 in
    let (j, k) = >>-eq-ok (fail_if (not (text_eq a.status (codes "approved"))) _) _ h3 in
    (
      a,
      found_ok _ _ e,
      not-text_eq _ _ (fail_if_ok _ _ i),
      not-text_eq _ _ (fail_if_ok _ _ j),
      not-text_eq _ _ (fail_if_ok _ _ k),
    )

pub allow_tool_ok :
    (s : Server) (tool : Text) → allow_tool s.policy tool ≡ ok tt → check_tool s.policy tool ≡ ok tt
unfolding allow_tool
allow_tool_ok s tool h = ground arith

pub permit_paths_ok :
    (s : Server) (files : List FileChange)
    → permit_paths s.policy files ≡ ok tt
    → check_paths s.policy (map (λ f. f.path) files) ≡ ok tt
unfolding permit_paths
permit_paths_ok s files h = ground arith

not-not : (b : Bool) → not b ≡ false → b ≡ true
not-not b h = ground arith

iterations-asked :
    (s : Server) (body : Body)
    → (not_positive body.max_iterations ≡ true) × (iterations s body ≡ s.repair_max_iterations)
      ⊎ (not_positive body.max_iterations ≡ false) × (iterations s body ≡ body.max_iterations)
unfolding iterations
iterations-asked s body = elim (Bool-cases (not_positive body.max_iterations)) [
  | inl e ↦ inl (e, rw (e, iterations) refl)
  | inr e ↦ inr (e, rw (e, iterations) refl)
]

pub check_request-Gated :
    (o : Outside) (s : Server) (run_id : Text) (decoded : Result Text Body) (job : Job)
    → check_request o s run_id decoded ≡ ok job
    → Gated o s run_id decoded job
unfolding check_request
check_request-Gated o s run_id decoded job h =
    let (run, e0, h0) = >>=-eq-ok (found (o.get_run run_id) _) _ h in
    let (e1, h1) = >>-eq-ok (allow_tool s.policy (codes "code.repair_loop")) _ h0 in
    let (code, e2, h2) = >>=-eq-ok (configured s.code _) _ h1 in
    let (qa, e3, h3) = >>=-eq-ok (configured s.qa _) _ h2 in
    let (body, e4, h4) = >>=-eq-ok (decode decoded) _ h3 in
    let (e5, h5) =
      >>-eq-ok (fail_if (not (int_le (iterations s body) s.repair_max_iterations)) _) _ h4 in
    let (e6, h6) = >>-eq-ok (check_approval o run_id body.approval_id) _ h5 in
    let (e7, h7) = >>-eq-ok (permit_paths s.policy body.files) _ h6 in
    subst (Gated o s run_id decoded) (ok_injective h7) (record {
      run_found = found_ok _ _ e0;
      tool_allowed = allow_tool_ok s _ e1;
      code_configured = configured_ok _ _ e2;
      qa_configured = configured_ok _ _ e3;
      decoded_body = decode_ok _ e4;
      bounded = not-not _ (fail_if_ok _ _ e5);
      asked_for = iterations-asked s body;
      approval = (check_approval-Usable o run_id body.approval_id e6).0;
      approval_found = (check_approval-Usable o run_id body.approval_id e6).1;
      of_the_run = (check_approval-Usable o run_id body.approval_id e6).2;
      is_approved = (check_approval-Usable o run_id body.approval_id e6).3;
      is_for_code = (check_approval-Usable o run_id body.approval_id e6).4;
      paths_allowed = permit_paths_ok s body.files e7;
    })

abbrev pub Refused : Answer → Type 0
Refused a = (x : Refusal) × (a.reply ≡ refused x) × (a.events ≡ []) × (a.actions ≡ [])

-- The handler refuses the request, and then it has changed nothing, or else it does the work of a job
-- that is gated: the run exists, both runners are configured, the tool and all paths of the request are
-- allowed; the rounds of the job are those that the request asks for, or the server's limit if it asks
-- for none, and within that limit; and the approval named by the request exists, is of this run, is
-- approved, and has the scope `code_write`.
pub repair_loop-Gated :
    (o : Outside) (s : Server) (run_id : Text) (decoded : Result Text Body)
    → Refused (handle_code_repair_loop o s run_id decoded)
      ⊎ ((job : Job) × (handle_code_repair_loop o s run_id decoded ≡ perform o job)
          × Gated o s run_id decoded job)
unfolding handle_code_repair_loop
repair_loop-Gated o s run_id decoded = elim (Result-cases (check_request o s run_id decoded)) [
  | inr (x, e) ↦ rw (e, handle_code_repair_loop) (inl (x, refl, refl, refl))
  | inl (job, e) ↦
      inr (job, rw (e, handle_code_repair_loop) refl, check_request-Gated o s run_id decoded job e)
]
