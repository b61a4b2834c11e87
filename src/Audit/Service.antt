-- ===== src/Audit/Service.antt =====
-- AuditService of toolhub/internal/core/audit.go.
use ai_team_toolhub.Base.{
  ◌+◌, Bool, true, false, List, [], ◌∷◌, ◌++◌, Option, none, some, Result, ok, err, if◌then◌else◌,
  followed,
}
use ai_team_toolhub.Text.{Text, codes, text_eq}
use ai_team_toolhub.Policy.{Policy, check_tool}
use ai_team_toolhub.Audit.{
  Artifact, ToolCall, State, Outside, AuditError, Action, failed, tool_refused, within, missing,
  conflict, ticked,
}
use ai_team_toolhub.Audit.Tables.{insert_tool_call, get_successful_tool_call}
use ai_team_toolhub.Audit.Artifacts.{SaveInput, save, read, lifted}

pub record ExtraArtifact : Type 0 where
  pub name : Text
  pub content_type : Text
  pub body : Text

-- RecordInput; of the request and the response the bytes of `json.Marshal`, or its error, and of `Err`
-- whether there is one.
pub record RecordInput : Type 0 where
  pub run_id : Text
  pub tool_name : Text
  pub idem_key : Option Text
  pub request : Result Text Text
  pub response : Result Text Text
  pub has_err : Bool
  pub extra_artifacts : List ExtraArtifact

-- `Save`, with the counter of failures.
abbrev pub counted_save :
    Text → Result AuditError Artifact × State → Result AuditError Artifact × State
counted_save what (ok art, s) = (ok art, s)
counted_save what (err e, s) =
    (err (within what e), record s { write_failures = s.write_failures + 1 })

unfoldable pub save_counted : Outside → Text → SaveInput → Action Artifact
save_counted o what input s = counted_save what (save o input s)

abbrev pub marshalled : Text → Result Text Text → Result AuditError Text
marshalled what (ok bytes) = ok bytes
marshalled what (err msg) = err (failed what msg)

abbrev pub json_input : Text → Text → Text → SaveInput
json_input run_id name bytes = record {
  run_id = run_id;
  name = name;
  content_type = codes "application/json";
  body = bytes;
}

-- `json.Marshal` and `Save` of a value, `what` being what it is; the artifact with the bytes.
unfoldable pub save_json :
    Outside → Text → Text → Text → Result Text Text → Action (Artifact × Text)
save_json o run_id name what value s =
    followed
      (λ bytes t.
        followed (λ art u. (ok (art, bytes), u))
          (save_counted o (codes "save " ++ what ++ codes " artifact")
            (json_input run_id name bytes) t))
      (lifted (marshalled (codes "marshal " ++ what) value) s)

-- The further artifacts, in their order: the identifiers.
unfoldable pub save_extras : Outside → Text → List ExtraArtifact → Action (List Text)
save_extras o run_id [] s = (ok [], s)
save_extras o run_id (extra ∷ extras) s =
    followed
      (λ art t. followed (λ ids u. (ok (art.artifact_id ∷ ids), u)) (save_extras o run_id extras t))
      (save_counted o (codes "save extra artifact " ++ extra.name)
        (record {
          run_id = run_id;
          name = extra.name;
          content_type = extra.content_type;
          body = extra.body;
        })
        s)

abbrev pub status_of : Bool → Text
status_of true = codes "fail"
status_of false = codes "ok"

unfoldable pub tool_call_of :
    Outside → RecordInput → Artifact × Text → Artifact × Text → State → ToolCall
tool_call_of o input (req_art, req_json) (resp_art, resp_json) s = record {
  tool_call_id = o.uuid s.ticks;
  run_id = input.run_id;
  tool_name = input.tool_name;
  idempotency_key = input.idem_key;
  status = status_of input.has_err;
  request_artifact_id = some req_art.artifact_id;
  response_artifact_id = some resp_art.artifact_id;
  evidence_hash = o.digest (req_json ++ resp_json);
  created_at = o.now s.ticks;
}

abbrev pub wrapped : {A : Type 0} → Text → Result AuditError A × State → Result AuditError A × State
wrapped what (ok a, s) = (ok a, s)
wrapped what (err e, s) = (err (within what e), s)

-- The row, and the counter of calls.
unfoldable pub insert_call :
    Outside
    → RecordInput
    → Artifact × Text
    → Artifact × Text
    → List Text
    → Action (ToolCall × List Text)
insert_call o input req resp ids s =
    let tc = tool_call_of o input req resp s in
    followed
      (λ inserted t. (ok (tc, ids), record t { counted = (tc.tool_name, tc.status) ∷ t.counted }))
      (wrapped (codes "insert tool_call") (insert_tool_call o tc (ticked s)))

abbrev pub allowed : Policy → Text → Result AuditError (Unit {0})
allowed p tool = elim (check_tool p tool) [ ok u ↦ ok u | err e ↦ err (tool_refused e) ]

-- Record
unfoldable pub record_call : Outside → Policy → RecordInput → Action (ToolCall × List Text)
record_call o p input s =
    followed
      (λ may t.
        followed
          (λ req u.
            followed
              (λ resp v.
                followed (λ ids w. insert_call o input req resp ids w)
                  (save_extras o input.run_id input.extra_artifacts v))
              (save_json o input.run_id (input.tool_name ++ codes ".response.json")
                (codes "response") input.response u))
          (save_json o input.run_id (input.tool_name ++ codes ".request.json") (codes "request")
            input.request t))
      (lifted (allowed p input.tool_name) s)

-- The stored artifact that a column names.
unfoldable pub read_named : Outside → Text → Option Text → Action Text
read_named o what none s = (err (missing what), s)
read_named o what (some id) s = read o id s

-- `json.Unmarshal` into the caller's value; `parse` is the caller's.
abbrev pub unmarshalled : {A : Type 0} → Result Text A → Result AuditError A
unmarshalled (ok a) = ok a
unmarshalled (err msg) = err (failed (codes "decode replay response") msg)

unfoldable pub replay_found :
    {A : Type 0} → Outside → (Text → Result Text A) → ToolCall → Action (Option (ToolCall × A))
replay_found o parse tc s =
    followed
      (λ bytes t.
        followed (λ out u. (ok (some (tc, out)), u)) (lifted (unmarshalled (parse bytes)) t))
      (read_named o (codes "response artifact missing for replay") tc.response_artifact_id s)

abbrev pub if_found :
    {A : Type 0} → (ToolCall → Action (Option A)) → Option ToolCall → Action (Option A)
if_found f none s = (ok none, s)
if_found f (some tc) s = f tc s

-- ReplayResponse
unfoldable pub replay_response :
    {A : Type 0}
    → Outside
    → (Text → Result Text A)
    → Text
    → Text
    → Text
    → Action (Option (ToolCall × A))
replay_response o parse run_id tool_name key s =
    followed (if_found (replay_found o parse)) (get_successful_tool_call o run_id tool_name key s)

abbrev pub compacted : Outside → Text → Text → Result AuditError Text
compacted o what bytes = elim (o.compact bytes) [ ok c ↦ ok c | err msg ↦ err (failed what msg) ]

-- The stored request and the caller's, compared after `json.Compact`.
unfoldable pub check_same_request : Outside → Result Text Text → Text → Result AuditError (Unit {0})
check_same_request o request stored =
    elim (marshalled (codes "marshal request for idempotency check") request) [
      | err e ↦ err e
      | ok current ↦ elim (compacted o (codes "normalize stored request") stored) [
        | err e ↦ err e
        | ok a ↦ elim (compacted o (codes "normalize current request") current) [
          | err e ↦ err e
          | ok b ↦ if text_eq a b then ok tt else err conflict
        ]
      ]
    ]

unfoldable pub replay_same_request :
    {A : Type 0}
    → Outside
    → Result Text Text
    → (Text → Result Text A)
    → ToolCall
    → Action (Option (ToolCall × A))
replay_same_request o request parse tc s =
    followed
      (λ stored t.
        followed (λ same u. replay_found o parse tc u)
          (lifted (check_same_request o request stored) t))
      (read_named o (codes "request artifact missing for idempotency check") tc.request_artifact_id
        s)

-- ReplayResponseWithRequestCheck
unfoldable pub replay_response_with_request_check :
    {A : Type 0}
    → Outside
    → Text
    → Text
    → Text
    → Result Text Text
    → (Text → Result Text A)
    → Action (Option (ToolCall × A))
replay_response_with_request_check o run_id tool_name key request parse s =
    followed (if_found (replay_same_request o request parse))
      (get_successful_tool_call o run_id tool_name key s)
