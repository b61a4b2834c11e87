-- ===== src/Approvals/Named.antt =====
-- What the requests of toolhub/internal/http/server.go and the calls of the audit service make of the
-- approvals, over any sequence of them.
use ai_team_toolhub.Base.{Option, Result}
use ai_team_toolhub.Text.{Text}
use ai_team_toolhub.Audit.{State}
use ai_team_toolhub.Audit.Service.{RecordInput, record_call}
use ai_team_toolhub.Audit.Steps.{start_step, finish_step, record_decision}
use ai_team_toolhub.Audit.Frame.{
  record_call-keeps, start_step-keeps, finish_step-keeps, record_decision-keeps,
}
use ai_team_toolhub.Approvals.{
  CreateBody, Site, handle_create_approval, handle_get_approval, handle_list_approvals,
  handle_approve_approval, handle_reject_approval,
}
use ai_team_toolhub.Approvals.Machine.{
  approved, rejected, Change, kept, From, From-Blind, handle_create_approval-Change,
  handle_get_approval-keeps, handle_list_approvals-keeps, handle_resolve_approval-Change,
}

-- The requests about approvals, and the calls that the other handlers make of the audit service.
pub data Request : Type 0 where
  create : Text → Result Text CreateBody → Request
  approve reject : Text → Text → Result Text Text → Request
  get : Text → Text → Request
  list : Text → Request
  record_tool : RecordInput → Request
  start finish : Text → Text → Text → Request
  decide : Text → Option Text → Text → Text → Option (Result Text Text) → Request

-- The state after a request, whatever it is answered.
unfoldable pub serve : Site → Request → State → State
serve site (create run_id request) s = (handle_create_approval site run_id request s).1
serve site (approve run_id id request) s = (handle_approve_approval site run_id id request s).1
serve site (reject run_id id request) s = (handle_reject_approval site run_id id request s).1
serve site (get run_id id) s = (handle_get_approval site run_id id s).1
serve site (list run_id) s = (handle_list_approvals site run_id s).1
serve site (record_tool input) s = (record_call site.audit site.policy input s).1
serve site (start run_id name kind) s = (start_step site.audit run_id name kind s).1
serve site (finish run_id id status) s = (finish_step site.audit id status s).1
serve site (decide run_id step actor kind payload) s =
    (record_decision site.audit run_id step actor kind payload s).1

-- Whatever the database, the files and the request's body do, a request changes the approvals in one
-- of three ways: not at all; it adds a row with a key that none has, whose status is "requested" and
-- which has no approver; or it sets the status of the row with one key, to "approved" or "rejected",
-- with an approver whose name is not blank.
pub serve-Change :
    (site : Site) (req : Request) (s : State) → Change s.approvals (serve site req s).approvals
unfolding serve handle_approve_approval handle_reject_approval
serve-Change site (create run_id request) s = handle_create_approval-Change site run_id request s
serve-Change site (approve run_id id request) s =
    handle_resolve_approval-Change site approved run_id id request s
serve-Change site (reject run_id id request) s =
    handle_resolve_approval-Change site rejected run_id id request s
serve-Change site (get run_id id) s =
    handle_get_approval-keeps site (From s.approvals) (From-Blind s.approvals) run_id id s kept
serve-Change site (list run_id) s =
    handle_list_approvals-keeps site (From s.approvals) (From-Blind s.approvals) run_id s kept
serve-Change site (record_tool input) s =
    record_call-keeps (From s.approvals) (From-Blind s.approvals) site.audit site.policy input s
      kept
serve-Change site (start run_id name kind) s =
    start_step-keeps (From s.approvals) (From-Blind s.approvals) site.audit run_id name kind s kept
serve-Change site (finish run_id id status) s =
    finish_step-keeps (From s.approvals) (From-Blind s.approvals) site.audit id status s kept
serve-Change site (decide run_id step actor kind payload) s =
    record_decision-keeps (From s.approvals) (From-Blind s.approvals) site.audit run_id step actor
      kind payload s kept
