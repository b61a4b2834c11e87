-- ===== src/Audit/Frame.antt =====
-- What the audit service leaves alone: all of toolhub/internal/core/audit.go but CreateApproval and
-- ResolveApproval keeps every predicate of the approvals alone.
use ai_team_toolhub.Base.{
  ℕ, inl, inr, List, [], ◌∷◌, Option, none, some, Result, ok, err, Option-cases, followed-keeps,
}
use ai_team_toolhub.Text.{Text}
use ai_team_toolhub.Policy.{Policy}
use ai_team_toolhub.Audit.{
  State, Outside, File, Artifact, ToolCall, Step, Decision, AuditError, ticked,
}
use ai_team_toolhub.Audit.Tables.{
  insert_artifact, insert_tool_call, insert_decision, insert_step, update_step_status, get_approval,
  list_approvals_by_run,
}
use ai_team_toolhub.Audit.Artifacts.{SaveInput, remove, or_remove, copy, save_at, save, lifted}
use ai_team_toolhub.Audit.Service.{
  RecordInput, ExtraArtifact, counted_save, save_counted, save_json, save_extras, insert_call,
  wrapped, record_call, marshalled, allowed,
}
use ai_team_toolhub.Audit.Steps.{save_payload, decide, start_step, finish_step, record_decision}
use ai_team_toolhub.Audit.Keeps.{attempt-keeps, insert-keeps, select-keeps}

-- A predicate that looks only at the approvals.
pub record Blind (P : State → Type 0) : Type 0 where
  pub tick : (t : State) → P t → P (ticked t)
  pub on_files : (files : List File) (t : State) → P t → P (record t { files = files })
  pub on_artifacts : (rows : List Artifact) (t : State) → P t → P (record t { artifacts = rows })
  pub on_calls : (rows : List ToolCall) (t : State) → P t → P (record t { tool_calls = rows })
  pub on_steps : (rows : List Step) (t : State) → P t → P (record t { steps = rows })
  pub on_decisions : (rows : List Decision) (t : State) → P t → P (record t { decisions = rows })
  pub on_failures : (n : ℕ) (t : State) → P t → P (record t { write_failures = n })
  pub on_counted : (l : List (Text × Text)) (t : State) → P t → P (record t { counted = l })

module _ (P : State → Type 0) (b : Blind P) (o : Outside) where
  remove-keeps : (path : Text) (s : State) → P s → P (remove o path s)
  unfolding remove
  remove-keeps path s h = elim (Option-cases (o.fault s.ticks)) [
    | inl e ↦ rw (e, remove) (b.on_files _ (ticked s) (b.tick s h))
    | inr (msg, e) ↦ rw (e, remove) (b.tick s h)
  ]

  or_remove-keeps :
      {A : Type 0} (path : Text) (p : Result AuditError A × State)
      → P p.1
      → P (or_remove o path p).1
  or_remove-keeps path (ok a, s) h = h
  or_remove-keeps path (err e, s) h = remove-keeps path s h

  copy-keeps : (path body : Text) (s : State) → P s → P (copy o path body s).1
  unfolding copy
  copy-keeps path body s h = elim (Option-cases (o.fault s.ticks)) [
    | inl e ↦ rw (e, copy) (b.on_files _ (ticked s) (b.tick s h))
    | inr (msg, e) ↦ rw (e, copy) (b.on_files _ (ticked s) (b.tick s h))
  ]

  save_at-keeps :
      (input : SaveInput) (id path : Text) (s : State) → P s → P (save_at o input id path s).1
  unfolding save_at insert_artifact
  save_at-keeps input id path s h =
      followed-keeps P _ _ (attempt-keeps P b.tick o _ _ s h (λ t k. b.on_files _ t k))
        (λ created t k.
          followed-keeps P _ _
            (or_remove-keeps path (copy o path input.body t) (copy-keeps path input.body t k))
            (λ copied u l.
              followed-keeps P _ _
                (or_remove-keeps path _
                  (insert-keeps P b.tick o _ _ _ u l (λ v m. b.on_artifacts _ v m)))
                (λ inserted v m. m)))

  save-keeps : (input : SaveInput) (s : State) → P s → P (save o input s).1
  unfolding save
  save-keeps input s h =
      followed-keeps P _ _ (attempt-keeps P b.tick o _ (λ t. t) (ticked s) (b.tick s h) (λ t k. k))
        (λ made t k. save_at-keeps input (o.uuid s.ticks) _ t k)

  counted_save-keeps :
      (what : Text) (p : Result AuditError Artifact × State) → P p.1 → P (counted_save what p).1
  counted_save-keeps what (ok art, s) h = h
  counted_save-keeps what (err e, s) h = b.on_failures _ s h

  pub save_json-keeps :
      (run_id name what : Text) (value : Result Text Text) (s : State)
      → P s
      → P (save_json o run_id name what value s).1
  unfolding save_json save_counted
  save_json-keeps run_id name what value s h =
      followed-keeps P _ (lifted (marshalled _ value) s) h (λ bytes t k.
        followed-keeps P _ _ (counted_save-keeps _ _ (save-keeps _ t k)) (λ art u l. l))

  save_extras-keeps :
      (run_id : Text) (extras : List ExtraArtifact) (s : State)
      → P s
      → P (save_extras o run_id extras s).1
  unfolding save_extras save_counted
  save_extras-keeps run_id [] s h = h
  save_extras-keeps run_id (extra ∷ extras) s h =
      followed-keeps P _ _ (counted_save-keeps _ _ (save-keeps _ s h))
        (λ art t k. followed-keeps P _ _ (save_extras-keeps run_id extras t k) (λ ids u l. l))

  wrapped-keeps :
      {A : Type 0} (what : Text) (p : Result AuditError A × State) → P p.1 → P (wrapped what p).1
  wrapped-keeps what (ok a, s) h = h
  wrapped-keeps what (err e, s) h = h

  pub record_call-keeps :
      (p : Policy) (input : RecordInput) (s : State) → P s → P (record_call o p input s).1
  unfolding record_call insert_call insert_tool_call
  record_call-keeps p input s h =
      followed-keeps P _ (lifted (allowed p input.tool_name) s) h (λ may t k.
        followed-keeps P _ _ (save_json-keeps _ _ _ _ t k) (λ req u l.
          followed-keeps P _ _ (save_json-keeps _ _ _ _ u l) (λ resp v m.
            followed-keeps P _ _ (save_extras-keeps _ _ v m) (λ ids w n.
              followed-keeps P _ _
                (wrapped-keeps _ _
                  (insert-keeps P b.tick o _ _ _ (ticked w) (b.tick w n) (λ x i. b.on_calls _ x i)))
                (λ inserted x i. b.on_counted _ x i)))))

  pub decide-keeps :
      (run_id : Text) (step_id : Option Text) (actor kind : Text) (now : ℕ) (payload : Option Text)
      (s : State)
      → P s
      → P (decide o run_id step_id actor kind now payload s).1
  unfolding decide insert_decision
  decide-keeps run_id step_id actor kind now payload s h =
      insert-keeps P b.tick o _ _ _ (ticked s) (b.tick s h) (λ t k. b.on_decisions _ t k)

  pub save_payload-keeps :
      (run_id name what : Text) (payload : Option (Result Text Text)) (s : State)
      → P s
      → P (save_payload o run_id name what payload s).1
  unfolding save_payload
  save_payload-keeps run_id name what none s h = h
  save_payload-keeps run_id name what (some payload) s h =
      followed-keeps P _ _ (save_json-keeps run_id name what payload s h) (λ saved t k. k)

  pub start_step-keeps :
      (run_id name kind : Text) (s : State) → P s → P (start_step o run_id name kind s).1
  unfolding start_step insert_step
  start_step-keeps run_id name kind s h =
      followed-keeps P _ _
        (insert-keeps P b.tick o _ _ _ (ticked s) (b.tick s h) (λ t k. b.on_steps _ t k))
        (λ inserted t k. k)

  pub finish_step-keeps : (id status : Text) (s : State) → P s → P (finish_step o id status s).1
  unfolding finish_step update_step_status
  finish_step-keeps id status s h = attempt-keeps P b.tick o _ _ s h (λ t k. b.on_steps _ t k)

  pub record_decision-keeps :
      (run_id : Text) (step_id : Option Text) (actor kind : Text)
      (payload : Option (Result Text Text)) (s : State)
      → P s
      → P (record_decision o run_id step_id actor kind payload s).1
  unfolding record_decision
  record_decision-keeps run_id step_id actor kind payload s h =
      followed-keeps P _ _ (save_payload-keeps _ _ _ payload (ticked s) (b.tick s h))
        (λ artifact t k. decide-keeps _ _ _ _ _ _ t k)

  pub get_approval-keeps : (id : Text) (s : State) → P s → P (get_approval o id s).1
  unfolding get_approval
  get_approval-keeps id s h = select-keeps P b.tick o _ _ s h

  pub list_approvals_by_run-keeps :
      (run_id : Text) (s : State) → P s → P (list_approvals_by_run o run_id s).1
  unfolding list_approvals_by_run
  list_approvals_by_run-keeps run_id s h = select-keeps P b.tick o _ _ s h
