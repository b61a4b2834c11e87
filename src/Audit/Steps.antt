-- ===== src/Audit/Steps.antt =====
-- Approvals, steps and decisions in AuditService of toolhub/internal/core/audit.go.
use ai_team_toolhub.Base.{ℕ, ◌++◌, Option, none, some, Result, ok, if◌then◌else◌, followed}
use ai_team_toolhub.Text.{Text, codes, text_eq}
use ai_team_toolhub.Audit.{Step, Decision, Approval, Outside, Action, ticked}
use ai_team_toolhub.Audit.Tables.{
  insert_step, update_step_status, insert_decision, insert_approval, update_approval_decision,
  get_approval,
}
use ai_team_toolhub.Audit.Service.{save_json}

-- The payload, where there is one: the identifier of its artifact.
unfoldable pub save_payload :
    Outside → Text → Text → Text → Option (Result Text Text) → Action (Option Text)
save_payload o run_id name what none s = (ok none, s)
save_payload o run_id name what (some payload) s =
    followed (λ saved t. (ok (some saved.0.artifact_id), t))
      (save_json o run_id name what payload s)

unfoldable pub approval_of : Outside → Text → Text → Text → ℕ → Approval
approval_of o id run_id scope now = record {
  approval_id = id;
  run_id = run_id;
  scope = scope;
  status = codes "requested";
  requested_at = now;
  approved_at = none;
  approver = none;
  created_at = now;
}

unfoldable pub decision_of : Text → Text → Option Text → Text → Text → Option Text → ℕ → Decision
decision_of id run_id step_id actor decision_type payload now = record {
  decision_id = id;
  run_id = run_id;
  step_id = step_id;
  actor = actor;
  decision_type = decision_type;
  payload_artifact_id = payload;
  created_at = now;
}

-- A decision with an identifier of its own.
unfoldable pub decide :
    Outside → Text → Option Text → Text → Text → ℕ → Option Text → Action (Unit {0})
decide o run_id step_id actor decision_type now payload s =
    insert_decision o (decision_of (o.uuid s.ticks) run_id step_id actor decision_type payload now)
      (ticked s)

-- CreateApproval
unfoldable pub create_approval : Outside → Text → Text → Option (Result Text Text) → Action Approval
create_approval o run_id scope payload s =
    let id = o.uuid s.ticks in
    let now = o.now s.ticks in
    let item = approval_of o id run_id scope now in
    followed
      (λ inserted t.
        followed
          (λ artifact u.
            followed (λ decided v. (ok item, v))
              (decide o run_id none (codes "system") (codes "approval_requested") now artifact u))
          (save_payload o run_id (codes "approval." ++ id ++ codes ".payload.json")
            (codes "approval payload") payload t))
      (insert_approval o item (ticked s))

unfoldable pub decision_type_of : Text → Text
unfolding text_eq
decision_type_of status =
    if text_eq status (codes "approved")
    then codes "approval_approved"
    else codes "approval_rejected"

-- ResolveApproval
unfoldable pub resolve_approval : Outside → Text → Text → Text → Text → Action (Option Approval)
resolve_approval o approval_id run_id status approver s =
    let now = o.now s.ticks in
    followed
      (λ updated t.
        followed (λ decided u. get_approval o approval_id u)
          (decide o run_id none approver (decision_type_of status) now none t))
      (update_approval_decision o approval_id status now approver (ticked s))

-- StartStep
unfoldable pub start_step : Outside → Text → Text → Text → Action Step
start_step o run_id name step_type s =
    let step : Step = record {
      step_id = o.uuid s.ticks;
      run_id = run_id;
      name = name;
      step_type = step_type;
      status = codes "running";
      started_at = some (o.now s.ticks);
      finished_at = none;
      created_at = o.now s.ticks;
    } in
    followed (λ inserted t. (ok step, t)) (insert_step o step (ticked s))

-- FinishStep
unfoldable pub finish_step : Outside → Text → Text → Action (Unit {0})
finish_step o step_id status s = update_step_status o step_id status (o.now s.ticks) s

-- RecordDecision
unfoldable pub record_decision :
    Outside → Text → Option Text → Text → Text → Option (Result Text Text) → Action (Unit {0})
record_decision o run_id step_id actor decision_type payload s =
    followed (λ artifact t. decide o run_id step_id actor decision_type (o.now t.ticks) artifact t)
      (save_payload o run_id (codes "decision." ++ o.uuid s.ticks ++ codes ".payload.json")
        (codes "decision payload") payload (ticked s))
