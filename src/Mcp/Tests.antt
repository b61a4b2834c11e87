-- ===== src/Mcp/Tests.antt =====
-- A connection with lines of every kind, over a state that is the names that were observed.
use ai_team_toolhub.Base.{◌≡◌, refl, List, [], ◌∷◌, none, some, ok, map, any, if◌then◌else◌}
use ai_team_toolhub.Text.{Text, codes, text_eq}
use ai_team_toolhub.Mcp.{
  Handlers, handle_conn, tool_of, tool_definitions, handle_line, dispatch, handle_tool_call,
  run_tool,
}
use ai_team_toolhub.Mcp.Serves.{
  is_some, ids, calls, perform_all, handle_conn-Serves, tool_of-offered,
}

-- A line with its own text as its identifier and as its method, and as the tool that it calls.
abbrev handlers : Handlers (List Text) Text
handlers = record {
  decode_request = λ line.
      if text_eq line (codes "x")
      then none
      else if text_eq line (codes "ping")
      then some (record { id = line; method = line; params = line })
      else some (record { id = line; method = codes "tools/call"; params = line });
  decode_params = λ params. ok (record { name = params; arguments = [] });
  tool = λ tool arguments s. (ok arguments, codes "called" ∷ s);
  observe = λ name s. name ∷ s;
}

abbrev lines : List Text
lines = codes "qa_test" ∷ [] ∷ codes "x" ∷ codes "ping" ∷ codes "other" ∷ []

handle_conn-Serves_example :
    (map (λ r. r.id) (handle_conn handlers lines []).0 ≡ ids handlers lines)
    × ((handle_conn handlers lines []).1 ≡ perform_all handlers (calls handlers lines) [])
handle_conn-Serves_example = handle_conn-Serves handlers lines []

tool_of-offered_example :
    is_some (tool_of (codes "qa_lint")) ≡ any (text_eq (codes "qa_lint")) tool_definitions
tool_of-offered_example = tool_of-offered (codes "qa_lint")

-- The tool of the first line runs, and the last line names none.
served : (handle_conn handlers lines []).1 ≡ codes "other" ∷ codes "qa_test" ∷ codes "called" ∷ []
unfolding handle_conn handle_line dispatch handle_tool_call run_tool tool_of text_eq
served = refl
