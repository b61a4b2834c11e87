-- ===== src/Audit.antt =====
-- The rows of toolhub/internal/db/db.go and the state that the audit service changes: the tables and
-- the files of the artifacts. PostgreSQL and the file system are the lists of `State`, where a call
-- that succeeds does what its statement says; that any of them can fail is the parameter `Outside`.
pub mod Tables
pub mod Artifacts
pub mod Service
pub mod Steps
pub mod Keeps
pub mod Frame
pub mod Stored
pub mod Saved
pub mod Replay
mod Tests
use ai_team_toolhub.Base.{ℕ, ◌+◌, Bool, List, [], ◌∷◌, Option, none, some, Result, ok, err}
use ai_team_toolhub.Text.{Text}
use ai_team_toolhub.Policy.{Policy, AllowError}

-- db.Artifact; `uri` is the path in "file://<path>".
pub record Artifact : Type 0 where
  pub artifact_id : Text
  pub run_id : Text
  pub name : Text
  pub uri : Text
  pub sha256 : Text
  pub size_bytes : ℕ
  pub content_type : Text
  pub created_at : ℕ

-- db.ToolCall
pub record ToolCall : Type 0 where
  pub tool_call_id : Text
  pub run_id : Text
  pub tool_name : Text
  pub idempotency_key : Option Text
  pub status : Text
  pub request_artifact_id : Option Text
  pub response_artifact_id : Option Text
  pub evidence_hash : Text
  pub created_at : ℕ

-- db.Step
pub record Step : Type 0 where
  pub step_id : Text
  pub run_id : Text
  pub name : Text
  pub step_type : Text
  pub status : Text
  pub started_at : Option ℕ
  pub finished_at : Option ℕ
  pub created_at : ℕ

-- db.Decision
pub record Decision : Type 0 where
  pub decision_id : Text
  pub run_id : Text
  pub step_id : Option Text
  pub actor : Text
  pub decision_type : Text
  pub payload_artifact_id : Option Text
  pub created_at : ℕ

-- db.Approval
pub record Approval : Type 0 where
  pub approval_id : Text
  pub run_id : Text
  pub scope : Text
  pub status : Text
  pub requested_at : ℕ
  pub approved_at : Option ℕ
  pub approver : Option Text
  pub created_at : ℕ

pub record File : Type 0 where
  pub path : Text
  pub content : Text

-- The tables have their newest row first: the clock does not go back. `ticks` counts the calls so far,
-- `write_failures` and `counted` are the counters of telemetry.
pub record State : Type 0 where
  pub files : List File
  pub artifacts : List Artifact
  pub tool_calls : List ToolCall
  pub steps : List Step
  pub decisions : List Decision
  pub approvals : List Approval
  pub write_failures : ℕ
  pub counted : List (Text × Text)
  pub ticks : ℕ

-- The n-th call: whether it fails, and with what; the identifier it gives, or the time; and what a
-- write that fails leaves in the file. `digest` is the hexadecimal SHA-256 of some bytes, `compact`
-- `json.Compact`.
pub record Outside : Type 0 where
  pub fault : ℕ → Option Text
  pub uuid : ℕ → Text
  pub now : ℕ → ℕ
  pub partial : ℕ → Text
  pub digest : Text → Text
  pub compact : Text → Result Text Text
  pub base_dir : Text

-- The errors; `failed what msg` is `fmt.Errorf("<what>: %w", err)`, and so is `within`
-- around an error of these.
pub data AuditError : Type 0 where
  tool_refused : AllowError → AuditError
  failed : Text → Text → AuditError
  artifact_not_found : Text → AuditError
  path_escapes : AuditError
  within : Text → AuditError → AuditError
  missing : Text → AuditError
  conflict : AuditError

abbrev pub Action : Type 0 → Type 0
Action A = State → Result AuditError A × State

abbrev pub ticked : State → State
ticked s = record s { ticks = s.ticks + 1 }

-- A call of the database or the file system: it fails and changes nothing, or it does its work.
unfoldable pub attempt : Outside → Text → (State → State) → Action (Unit {0})
attempt o what change s = elim (o.fault s.ticks) [
  | some msg ↦ (err (failed what msg), ticked s)
  | none ↦ (ok tt, change (ticked s))
]
