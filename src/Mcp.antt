-- ===== src/Mcp.antt =====
-- handleConn, dispatch and handleToolCall of toolhub/internal/mcp/server.go. The lines are those of
-- bufio.Scanner. The tools, the JSON decoders and the histogram of telemetry are fields of `Handlers`,
-- over a state of any type; a tool gives an error with its code, or its result.
pub mod Serves
mod Tests
use ai_team_toolhub.Base.{
  ℕ, Bool, true, false, List, [], ◌∷◌, ◌++◌, Option, none, some, Result, ok, err, if◌then◌else◌,
}
use ai_team_toolhub.Base.Int.{ℤ, negsuc}
use ai_team_toolhub.Text.{Text, codes, text_eq}

-- The handlers that handleToolCall chooses among.
pub data Tool : Type 0 where
  runs_create : Tool
  issues_create : Tool
  issues_batch_create : Tool
  pr_comment_create : Tool
  pr_get : Tool
  pr_files_list : Tool
  qa_test : Tool
  qa_lint : Tool
  patch_generate : Tool
  branch_pr_create : Tool
  repair_loop : Tool

-- The switch on params.Name.
unfoldable pub tool_of : Text → Option Tool
tool_of name =
    if text_eq name (codes "runs_create")
    then some runs_create
    else if text_eq name (codes "github_issues_create")
    then some issues_create
    else if text_eq name (codes "github_issues_batch_create")
    then some issues_batch_create
    else if text_eq name (codes "github_pr_comment_create")
    then some pr_comment_create
    else if text_eq name (codes "github_pr_get")
    then some pr_get
    else if text_eq name (codes "github_pr_files_list")
    then some pr_files_list
    else if text_eq name (codes "qa_test")
    then some qa_test
    else if text_eq name (codes "qa_lint")
    then some qa_lint
    else if text_eq name (codes "code_patch_generate")
    then some patch_generate
    else if text_eq name (codes "code_branch_pr_create")
    then some branch_pr_create
    else if text_eq name (codes "code_repair_loop")
    then some repair_loop
    else none

-- The names in ToolDefinitions.
abbrev pub tool_definitions : List Text
tool_definitions =
    codes "runs_create"
    ∷ codes "github_issues_create"
    ∷ codes "github_issues_batch_create"
    ∷ codes "github_pr_comment_create"
    ∷ codes "github_pr_get"
    ∷ codes "github_pr_files_list"
    ∷ codes "qa_test"
    ∷ codes "qa_lint"
    ∷ codes "code_patch_generate"
    ∷ codes "code_branch_pr_create"
    ∷ codes "code_repair_loop"
    ∷ []

-- jsonRPCRequest; the identifier is its JSON.
pub record Request : Type 0 where
  pub id : Text
  pub method : Text
  pub params : Text

-- toolCallParams
pub record CallParams : Type 0 where
  pub name : Text
  pub arguments : Text

-- The result or the error of a response.
pub data Outcome (R : Type 0) : Type 0 where
  initialized : Outcome R
  tools_listed : List Text → Outcome R
  tool_result : R → Outcome R
  rpc_error : ℤ → Text → Outcome R

-- jsonRPCResponse
pub record Response (R : Type 0) : Type 0 where
  pub id : Text
  pub outcome : Outcome R

pub record Handlers (S R : Type 0) : Type 0 where
  pub decode_request : Text → Option Request
  pub decode_params : Text → Result Text CallParams
  pub tool : Tool → Text → S → Result (ℤ × Text) R × S
  pub observe : Text → S → S

module _ {S R : Type 0} (h : Handlers S R) where
  abbrev pub outcome_of : Result (ℤ × Text) R → Outcome R
  outcome_of (err e) = rpc_error e.0 e.1
  outcome_of (ok r) = tool_result r

  unfoldable pub run_tool : CallParams → S → Outcome R × S
  run_tool call s = elim (tool_of call.name) [
    | none ↦ (rpc_error (negsuc 32601) (codes "unknown tool: " ++ call.name), s)
    | some tool ↦ let a = h.tool tool call.arguments s in (outcome_of a.0, a.1)
  ]

  -- handleToolCall; the duration is observed under the name, also where no tool has it.
  unfoldable pub handle_tool_call : Request → S → Outcome R × S
  handle_tool_call req s = elim (h.decode_params req.params) [
    | err msg ↦ (rpc_error (negsuc 32601) (codes "invalid params: " ++ msg), s)
    | ok call ↦ let a = run_tool call s in (a.0, h.observe call.name a.1)
  ]

  -- dispatch
  unfoldable pub dispatch : Request → S → Outcome R × S
  dispatch req s =
      if text_eq req.method (codes "initialize")
      then (initialized, s)
      else if text_eq req.method (codes "tools/list")
      then (tools_listed tool_definitions, s)
      else if text_eq req.method (codes "tools/call")
      then handle_tool_call req s
      else (rpc_error (negsuc 32600) (codes "method not found: " ++ req.method), s)

  -- What is done with a line that is not empty.
  unfoldable pub handle_line : Text → S → Response R × S
  handle_line line s = elim (h.decode_request line) [
    | none ↦
        (record { id = codes "null"; outcome = rpc_error (negsuc 32699) (codes "parse error") }, s)
    | some req ↦ let a = dispatch req s in (record { id = req.id; outcome = a.0 }, a.1)
  ]

  -- handleConn: the responses, in the order in which they are written.
  unfoldable pub handle_conn : List Text → S → List (Response R) × S
  handle_conn [] s = ([], s)
  handle_conn ([] ∷ lines) s = handle_conn lines s
  handle_conn ((c ∷ cs) ∷ lines) s =
      let a = handle_line (c ∷ cs) s in let b = handle_conn lines a.1 in (a.0 ∷ b.0, b.1)
