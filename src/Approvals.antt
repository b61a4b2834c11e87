-- ===== src/Approvals.antt =====
-- The handlers of approvals in toolhub/internal/http/server.go, over the audit service.
pub mod Machine
pub mod Named
pub mod Lasting
mod Tests
use ai_team_toolhub.Base.{
  Bool, true, false, not, ◌&&◌, List, [], ◌∷◌, Option, none, some, Result, ok, err, ◌>>=◌, ◌>>◌,
  fail_if, if◌then◌else◌, followed, ℕ,
}
use ai_team_toolhub.Text.{Text, codes, text_eq, is_empty, trim_space}
use ai_team_toolhub.Policy.{Policy, PolicyViolation, check_paths, requires_approval}
use ai_team_toolhub.Repair.{Run}
use ai_team_toolhub.Audit.{Approval, State, Outside, AuditError}
use ai_team_toolhub.Audit.Tables.{get_approval, list_approvals_by_run}
use ai_team_toolhub.Audit.Steps.{create_approval, resolve_approval}

-- createApprovalBody; of the payload the bytes that `json.Marshal` makes of it with the paths.
pub record CreateBody : Type 0 where
  pub scope : Text
  pub paths : List Text
  pub payload : Result Text Text

-- What the handlers use: the policy, the look-up of runs, and the audit service.
pub record Site : Type 0 where
  pub policy : Policy
  pub get_run : Text → Result Text (Option Run)
  pub audit : Outside

pub data Refusal : Type 0 where
  run_failed : Text → Refusal
  run_not_found : Refusal
  invalid_json : Text → Refusal
  scope_required : Refusal
  paths_refused : PolicyViolation → Refusal
  scope_must_be_path_change : Refusal
  approval_not_found : Refusal
  approver_required : Refusal
  audit_failed : AuditError → Refusal

-- The status of each refusal.
unfoldable pub status_of : Refusal → ℕ
status_of (run_failed msg) = 500
status_of run_not_found = 404
status_of (invalid_json msg) = 400
status_of scope_required = 400
status_of (paths_refused violation) = 403
status_of scope_must_be_path_change = 400
status_of approval_not_found = 404
status_of approver_required = 400
status_of (audit_failed e) = 500

-- A handler's answer, and the state after it.
abbrev pub Handler : Type 0 → Type 0
Handler A = State → Result Refusal A × State

abbrev pub checked : {A : Type 0} → Result Refusal A → Handler A
checked r s = (r, s)

-- A call of the audit service: an error is answered with 500.
abbrev pub audited : {A : Type 0} → Result AuditError A × State → Result Refusal A × State
audited (ok a, s) = (ok a, s)
audited (err e, s) = (err (audit_failed e), s)

unfoldable pub find_run : Site → Text → Result Refusal Run
find_run site run_id = elim (site.get_run run_id) [
  | err msg ↦ err (run_failed msg)
  | ok found ↦ elim found [ none ↦ err run_not_found | some run ↦ ok run ]
]

abbrev pub decoded : {A : Type 0} → Result Text A → Result Refusal A
decoded (ok body) = ok body
decoded (err msg) = err (invalid_json msg)

abbrev pub permitted : Policy → List Text → Result Refusal (Unit {0})
permitted p paths = elim (check_paths p paths) [ ok u ↦ ok u | err v ↦ err (paths_refused v) ]

-- The checks of handleCreateApproval.
unfoldable pub check_create : Site → Text → Result Text CreateBody → Result Refusal CreateBody
check_create site run_id request = do
  run ← find_run site run_id
  body ← decoded request
  fail_if (is_empty (trim_space body.scope)) scope_required
  permitted site.policy body.paths
  fail_if
      (requires_approval site.policy body.paths && not (text_eq body.scope (codes "path_change")))
      scope_must_be_path_change
  ok body

-- handleCreateApproval
unfoldable pub handle_create_approval : Site → Text → Result Text CreateBody → Handler Approval
handle_create_approval site run_id request s =
    followed
      (λ body t. audited (create_approval site.audit run_id body.scope (some body.payload) t))
      (checked (check_create site run_id request) s)

-- The approval of the run, or 404.
abbrev pub of_run : Text → Option Approval → Result Refusal Approval
of_run run_id none = err approval_not_found
of_run run_id (some item) = if text_eq item.run_id run_id then ok item else err approval_not_found

-- handleGetApproval, and the look-ups of handleResolveApproval.
unfoldable pub handle_get_approval : Site → Text → Text → Handler Approval
handle_get_approval site run_id approval_id s =
    followed
      (λ run t.
        followed (λ item u. checked (of_run run_id item) u)
          (audited (get_approval site.audit approval_id t)))
      (checked (find_run site run_id) s)

-- handleListApprovals
unfoldable pub handle_list_approvals : Site → Text → Handler (List Approval)
handle_list_approvals site run_id s =
    followed (λ run t. audited (list_approvals_by_run site.audit run_id t))
      (checked (find_run site run_id) s)

-- resolveApprovalBody, which is the approver.
unfoldable pub check_approver : Result Text Text → Result Refusal Text
check_approver request = do
  approver ← decoded request
  fail_if (is_empty (trim_space approver)) approver_required
  ok approver

-- handleResolveApproval; the answer is the row after it.
unfoldable pub handle_resolve_approval :
    Site → Text → Text → Text → Result Text Text → Handler (Option Approval)
handle_resolve_approval site status run_id approval_id request s =
    followed
      (λ current t.
        followed
          (λ approver u. audited (resolve_approval site.audit approval_id run_id status approver u))
          (checked (check_approver request) t))
      (handle_get_approval site run_id approval_id s)

-- handleApproveApproval and handleRejectApproval
unfoldable pub handle_approve_approval :
    Site → Text → Text → Result Text Text → Handler (Option Approval)
handle_approve_approval site = handle_resolve_approval site (codes "approved")

unfoldable pub handle_reject_approval :
    Site → Text → Text → Result Text Text → Handler (Option Approval)
handle_reject_approval site = handle_resolve_approval site (codes "rejected")
