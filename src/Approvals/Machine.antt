-- ===== src/Approvals/Machine.antt =====
-- The states of an approval: what the requests of toolhub/internal/http/server.go do to the table.
use ai_team_toolhub.Base.{
  ℕ, ◌≡◌, refl, sym, ap, subst, ◌∙◌, inl, inr, false, List, ◌∷◌, Option, none, some, Result, ok,
  err, Bool-cases, followed-keeps, followed-leads, any, ok_injective,
}
use ai_team_toolhub.Text.{Text, codes, text_eq, is_empty, trim_space}
use ai_team_toolhub.Audit.{Approval, State, Outside, AuditError, ticked}
use ai_team_toolhub.Audit.Tables.{insert_approval, update, update_approval_decision}
use ai_team_toolhub.Audit.Steps.{approval_of, create_approval, resolve_approval}
use ai_team_toolhub.Audit.Keeps.{insert-either, attempt-either}
use ai_team_toolhub.Audit.Frame.{
  Blind, save_payload-keeps, decide-keeps, get_approval-keeps, list_approvals_by_run-keeps,
}
use ai_team_toolhub.Approvals.{
  CreateBody, Site, Refusal, checked, audited, find_run, check_create, handle_create_approval,
  handle_get_approval, handle_list_approvals, check_approver, handle_resolve_approval,
  approver_required,
}

-- The two decisions.
pub data Resolution : Type 0 where
  approved rejected : Resolution

abbrev pub text_of : Resolution → Text
text_of approved = codes "approved"
text_of rejected = codes "rejected"

-- What one request may do to the table: nothing; add a row for an approval that is asked for; or set
-- the row with a key, where there is one, to a decision by a named approver.
pub data Change (rows : List Approval) : List Approval → Type 0 where
  kept : Change rows rows
  requested :
      (row : Approval)
      → row.status ≡ codes "requested"
      → row.approver ≡ none
      → row.approved_at ≡ none
      → any (λ x. text_eq x.approval_id row.approval_id) rows ≡ false
      → Change rows (row ∷ rows)
  resolved :
      (id approver : Text) (now : ℕ) (r : Resolution)
      → is_empty (trim_space approver) ≡ false
      → Change rows (
          update
            (λ x. text_eq x.approval_id id)
            (λ x. record x { status = text_of r; approved_at = some now; approver = some approver })
            rows)

-- The table of a state came from these rows so.
abbrev pub From : List Approval → State → Type 0
From rows t = Change rows t.approvals

abbrev pub Same : List Approval → State → Type 0
Same rows t = rows ≡ t.approvals

Same-From : (rows : List Approval) (t : State) → Same rows t → From rows t
Same-From rows t q = subst (λ l. Change rows l) q kept

moved : {rows same after : List Approval} → rows ≡ same → Change same after → Change rows after
moved {after = after} q c = subst (λ l. Change l after) (sym q) c

pub From-Blind : (rows : List Approval) → Blind (From rows)
From-Blind rows = record {
  tick = λ t h. h;
  on_files = λ l t h. h;
  on_artifacts = λ l t h. h;
  on_calls = λ l t h. h;
  on_steps = λ l t h. h;
  on_decisions = λ l t h. h;
  on_failures = λ n t h. h;
  on_counted = λ l t h. h;
}

pub Same-Blind : (rows : List Approval) → Blind (Same rows)
Same-Blind rows = record {
  tick = λ t h. h;
  on_files = λ l t h. h;
  on_artifacts = λ l t h. h;
  on_calls = λ l t h. h;
  on_steps = λ l t h. h;
  on_decisions = λ l t h. h;
  on_failures = λ n t h. h;
  on_counted = λ l t h. h;
}

module _ (o : Outside) where
  insert_approval-From :
      (id run_id scope : Text) (now : ℕ) (s : State)
      → From s.approvals (insert_approval o (approval_of o id run_id scope now) s).1
  unfolding insert_approval approval_of
  insert_approval-From id run_id scope now s = elim (insert-either o _ _ _ s) [
    | inl q ↦ subst (From s.approvals) (sym q) kept
    | inr (free, q) ↦
        subst (From s.approvals) (sym q)
          (requested (approval_of o id run_id scope now) refl refl refl free)
  ]

  create_approval-From :
      (run_id scope : Text) (payload : Option (Result Text Text)) (s : State)
      → From s.approvals (create_approval o run_id scope payload s).1
  unfolding create_approval
  create_approval-From run_id scope payload s =
      followed-keeps (From s.approvals) _ _
        (insert_approval-From (o.uuid s.ticks) run_id scope (o.now s.ticks) (ticked s))
        (λ inserted t h.
          followed-keeps (From s.approvals) _ _
            (save_payload-keeps (From s.approvals) (From-Blind s.approvals) o _ _ _ payload t h)
            (λ artifact u k.
              followed-keeps (From s.approvals) _ _
                (decide-keeps (From s.approvals) (From-Blind s.approvals) o _ _ _ _ _ _ u k)
                (λ decided v l. l)))

  resolve_approval-From :
      (rows : List Approval) (id run_id approver : Text) (r : Resolution) (s : State)
      → is_empty (trim_space approver) ≡ false
      → Same rows s
      → From rows (resolve_approval o id run_id (text_of r) approver s).1
  unfolding resolve_approval update_approval_decision
  resolve_approval-From rows id run_id approver r s named same =
      followed-keeps (From rows) _ _
        (followed-keeps (From rows) _ _
          (elim (attempt-either o _ _ (ticked s)) [
            | inl q ↦ subst (From rows) (sym q) (Same-From rows s same)
            | inr q ↦
                subst (From rows) (sym q)
                  (moved same (resolved id approver (o.now s.ticks) r named))
          ])
          (λ done t h. elim (attempt-either o _ _ t) [
            | inl q ↦ subst (From rows) (sym q) h
            | inr q ↦ subst (From rows) (sym q) h
          ]))
        (λ updated t h.
          followed-keeps (From rows) _ _
            (decide-keeps (From rows) (From-Blind rows) o _ _ _ _ _ _ t h)
            (λ decided u k. get_approval-keeps (From rows) (From-Blind rows) o id u k))

  audited-From :
      {A : Type 0} (P : State → Type 0) (p : Result AuditError A × State) → P p.1 → P (audited p).1
  audited-From P (ok a, s) h = h
  audited-From P (err e, s) h = h

-- The check lets through only an approver with a name.
check_approver-named :
    (request : Result Text Text) (approver : Text)
    → check_approver request ≡ ok approver
    → is_empty (trim_space approver) ≡ false
unfolding check_approver
check_approver-named (err msg) approver q = cc
check_approver-named (ok name) approver q = elim (Bool-cases (is_empty (trim_space name))) [
  | inl e ↦
      let h : check_approver (ok name) ≡ err approver_required = rw (e, check_approver) refl in cc
  | inr e ↦
      let h : check_approver (ok name) ≡ ok name = rw (e, check_approver) refl in
      subst (λ a. is_empty (trim_space a) ≡ false) (ok_injective (sym h ∙ q)) e
]

checked-ok :
    {A : Type 0} (r : Result Refusal A) (s t : State) {a : A} → checked r s ≡ (ok a, t) → r ≡ ok a
checked-ok r s t q = ap (λ p. p.0) q

module _ (site : Site) where
  pub handle_create_approval-Change :
      (run_id : Text) (request : Result Text CreateBody) (s : State)
      → From s.approvals (handle_create_approval site run_id request s).1
  unfolding handle_create_approval
  handle_create_approval-Change run_id request s =
      followed-leads (Same s.approvals) (From s.approvals) _
        (checked (check_create site run_id request) s) refl (Same-From s.approvals)
        (λ body t q same.
          audited-From site.audit (From s.approvals) _
            (moved same (create_approval-From site.audit run_id body.scope (some body.payload) t)))

  pub handle_get_approval-keeps :
      (P : State → Type 0)
      → Blind P
      → (run_id id : Text) (s : State) → P s
      → P (handle_get_approval site run_id id s).1
  unfolding handle_get_approval
  handle_get_approval-keeps P b run_id id s h =
      followed-keeps P _ (checked (find_run site run_id) s) h (λ run t k.
        followed-keeps P _ _
          (audited-From site.audit P _ (get_approval-keeps P b site.audit id t k)) (λ item u l. l))

  pub handle_list_approvals-keeps :
      (P : State → Type 0)
      → Blind P
      → (run_id : Text) (s : State) → P s
      → P (handle_list_approvals site run_id s).1
  unfolding handle_list_approvals
  handle_list_approvals-keeps P b run_id s h =
      followed-keeps P _ (checked (find_run site run_id) s) h (λ run t k.
        audited-From site.audit P _ (list_approvals_by_run-keeps P b site.audit run_id t k))

  pub handle_resolve_approval-Change :
      (r : Resolution) (run_id id : Text) (request : Result Text Text) (s : State)
      → From s.approvals (handle_resolve_approval site (text_of r) run_id id request s).1
  unfolding handle_resolve_approval
  handle_resolve_approval-Change r run_id id request s =
      let rows = s.approvals in
      followed-leads (Same rows) (From rows) _ _
        (handle_get_approval-keeps (Same rows) (Same-Blind rows) run_id id s refl) (Same-From rows)
        (λ current t q same.
          followed-leads (Same rows) (From rows) _ (checked (check_approver request) t) same
            (Same-From rows)
            (λ approver u found still. audited-From site.audit (From rows) _ (
              resolve_approval-From site.audit rows id run_id approver r u
                (check_approver-named request approver
                  (checked-ok (check_approver request) t u found))
                still)))
