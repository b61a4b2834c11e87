-- ===== src/Audit/Tables.antt =====
-- The statements of toolhub/internal/db/db.go. A table has a primary key, so that an INSERT of a key
-- that is there fails; so does one that the unique index on tool_calls refuses.
use ai_team_toolhub.Base.{
  ℕ, Bool, true, false, ◌&&◌, ◌||◌, List, [], ◌∷◌, reverse, Option, none, some, ok, err, any,
  if◌then◌else◌, followed, leb,
}
use ai_team_toolhub.Text.{Text, codes, text_eq, is_empty, trim_space}
use ai_team_toolhub.Audit.{
  Artifact, ToolCall, Step, Decision, Approval, State, Outside, Action, failed, ticked, attempt,
}

-- The first row that passes.
abbrev pub find : {A : Type 0} → (A → Bool) → List A → Option A
find t [] = none
find t (a ∷ rows) = if t a then some a else find t rows

abbrev pub filter : {A : Type 0} → (A → Bool) → List A → List A
filter t [] = []
filter t (a ∷ rows) = let rest = filter t rows in if t a then a ∷ rest else rest

-- An INSERT into a table with the keys `taken`.
unfoldable pub insert : Outside → Text → Bool → (State → State) → Action (Unit {0})
insert o what taken change s =
    if taken then (err (failed what (codes "duplicate key")), ticked s) else attempt o what change s

abbrev pub has_artifact : Text → State → Bool
has_artifact id s = any (λ a. text_eq a.artifact_id id) s.artifacts

unfoldable pub insert_artifact : Outside → Artifact → Action (Unit {0})
insert_artifact o a s =
    insert o (codes "insert artifact") (has_artifact a.artifact_id s)
      (λ t. record t { artifacts = a ∷ t.artifacts }) s

-- A SELECT changes nothing.
unfoldable pub select : {A : Type 0} → Outside → Text → (State → A) → Action A
select o what query s = followed (λ done t. (ok (query s), t)) (attempt o what (λ t. t) s)

unfoldable pub get_artifact : Outside → Text → Action (Option Artifact)
get_artifact o id =
    select o (codes "get artifact") (λ s. find (λ a. text_eq a.artifact_id id) s.artifacts)

unfoldable pub get_artifact_by_run_and_id : Outside → Text → Text → Action (Option Artifact)
get_artifact_by_run_and_id o run_id id =
    select o (codes "get artifact by run and id")
      (λ s. find (λ a. text_eq a.run_id run_id && text_eq a.artifact_id id) s.artifacts)

unfoldable pub list_artifacts_by_run : Outside → Text → Action (List Artifact)
list_artifacts_by_run o run_id =
    select o (codes "list artifacts")
      (λ s. reverse (filter (λ a. text_eq a.run_id run_id) s.artifacts))

abbrev pub same_text : Text → Option Text → Bool
same_text key none = false
same_text key (some k) = text_eq k key

abbrev pub matches : Text → Text → Text → ToolCall → Bool
matches run_id tool_name key c =
    text_eq c.run_id run_id
    && (text_eq c.tool_name tool_name
        && (same_text key c.idempotency_key && text_eq c.status (codes "ok")))

-- Where the unique index over the run, the tool and the key of the successful calls has the row's.
unfoldable pub key_taken : ToolCall → List ToolCall → Bool
key_taken tc rows = elim tc.idempotency_key [
  | none ↦ false
  | some key ↦ text_eq tc.status (codes "ok") && any (matches tc.run_id tc.tool_name key) rows
]

unfoldable pub insert_tool_call : Outside → ToolCall → Action (Unit {0})
insert_tool_call o tc s =
    insert o (codes "insert tool_call")
      (any (λ c. text_eq c.tool_call_id tc.tool_call_id) s.tool_calls || key_taken tc s.tool_calls)
      (λ t. record t { tool_calls = tc ∷ t.tool_calls }) s

-- GetSuccessfulToolCallByIdempotency
unfoldable pub get_successful_tool_call : Outside → Text → Text → Text → Action (Option ToolCall)
get_successful_tool_call o run_id tool_name key =
    select o (codes "get tool_call by idempotency")
      (λ s. find (matches run_id tool_name key) s.tool_calls)

-- db.ToolCallListFilter
pub record Filter : Type 0 where
  pub status : Text
  pub tool_name : Text
  pub created_after : Option ℕ
  pub created_before : Option ℕ

abbrev pub wanted : Text → Text → Bool
wanted filter value = is_empty (trim_space filter) || text_eq value filter

abbrev pub from : Option ℕ → ℕ → Bool
from none t = true
from (some after) t = leb after t

abbrev pub until : Option ℕ → ℕ → Bool
until none t = true
until (some before) t = leb t before

unfoldable pub passes : Text → Filter → ToolCall → Bool
unfolding trim_space
passes run_id f c =
    text_eq c.run_id run_id
    && (wanted f.status c.status
        && (wanted f.tool_name c.tool_name
            && (from f.created_after c.created_at && until f.created_before c.created_at)))

-- ListToolCallsByRunFiltered
unfoldable pub list_tool_calls_by_run_filtered : Outside → Text → Filter → Action (List ToolCall)
list_tool_calls_by_run_filtered o run_id f =
    select o (codes "list tool_calls") (λ s. reverse (filter (passes run_id f) s.tool_calls))

unfoldable pub insert_step : Outside → Step → Action (Unit {0})
insert_step o step s =
    insert o (codes "insert step") (any (λ x. text_eq x.step_id step.step_id) s.steps)
      (λ t. record t { steps = step ∷ t.steps }) s

-- The rows with the key, changed.
abbrev pub update : {A : Type 0} → (A → Bool) → (A → A) → List A → List A
update t f [] = []
update t f (a ∷ rows) = (if t a then f a else a) ∷ update t f rows

unfoldable pub update_step_status : Outside → Text → Text → ℕ → Action (Unit {0})
update_step_status o id status finished_at = attempt o (codes "update step status") (λ t. record t {
  steps =
      update (λ x. text_eq x.step_id id)
        (λ x. record x { status = status; finished_at = some finished_at }) t.steps;
})

unfoldable pub insert_decision : Outside → Decision → Action (Unit {0})
insert_decision o d s =
    insert o (codes "insert decision") (any (λ x. text_eq x.decision_id d.decision_id) s.decisions)
      (λ t. record t { decisions = d ∷ t.decisions }) s

unfoldable pub insert_approval : Outside → Approval → Action (Unit {0})
insert_approval o a s =
    insert o (codes "insert approval") (any (λ x. text_eq x.approval_id a.approval_id) s.approvals)
      (λ t. record t { approvals = a ∷ t.approvals }) s

-- That no row has the key is no error; an error of RowsAffected comes after the update.
unfoldable pub update_approval_decision : Outside → Text → Text → ℕ → Text → Action (Unit {0})
update_approval_decision o id status approved_at approver s =
    followed (λ done. attempt o (codes "rows affected approval update") (λ t. t))
      (attempt o (codes "update approval")
        (λ t. record t {
          approvals =
              update (λ x. text_eq x.approval_id id)
                (λ x. record x {
                  status = status;
                  approved_at = some approved_at;
                  approver = some approver;
                })
                t.approvals;
        })
        s)

unfoldable pub get_approval : Outside → Text → Action (Option Approval)
get_approval o id =
    select o (codes "get approval") (λ s. find (λ x. text_eq x.approval_id id) s.approvals)

unfoldable pub list_approvals_by_run : Outside → Text → Action (List Approval)
list_approvals_by_run o run_id =
    select o (codes "list approvals")
      (λ s. reverse (filter (λ x. text_eq x.run_id run_id) s.approvals))
