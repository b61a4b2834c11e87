-- ===== src/Mcp/Serves.antt =====
-- Proofs about handleConn and about the names of the tools, toolhub/internal/mcp/server.go.
use ai_team_toolhub.Base.{
  ◌≡◌, refl, sym, ap, ◌∙◌, Bool, true, false, ◌||◌, List, [], ◌∷◌, ◌++◌, Option, none, some, ok,
  err, map, any, if◌then◌else◌, Option-cases, Result-cases, Bool-cases, inl, inr,
}
use ai_team_toolhub.Text.{Text, codes, text_eq}
use ai_team_toolhub.Text.Laws.{text_eq→eq}
use ai_team_toolhub.Mcp.{
  Tool, tool_of, tool_definitions, Request, CallParams, Handlers, run_tool, handle_tool_call,
  dispatch, handle_line, handle_conn, runs_create, issues_create, issues_batch_create,
  pr_comment_create, pr_get, pr_files_list, qa_test, qa_lint, patch_generate, branch_pr_create,
  repair_loop,
}

unfoldable pub is_some : {A : Type 0} → Option A → Bool
is_some none = false
is_some (some a) = true

is_some-if :
    (b : Bool) (tool : Tool) (rest : Option Tool)
    → is_some (if b then some tool else rest) ≡ b || is_some rest
unfolding is_some
is_some-if true tool rest = refl
is_some-if false tool rest = refl

is_chosen :
    (name offered : Text) (tool : Tool) (rest : Option Tool) (c : Bool)
    → is_some rest ≡ c
    → is_some (if text_eq name offered then some tool else rest) ≡ text_eq name offered || c
is_chosen name offered tool rest c h =
    is_some-if (text_eq name offered) tool rest ∙ ap (λ c. text_eq name offered || c) h

none_chosen : is_some {A = Tool} none ≡ false
unfolding is_some
none_chosen = refl

-- handleToolCall has a tool for a name exactly if ToolDefinitions, the result of tools/list, names it.
pub tool_of-offered : (name : Text) → is_some (tool_of name) ≡ any (text_eq name) tool_definitions
unfolding tool_of
tool_of-offered name = is_chosen name (codes "runs_create") runs_create _ _ (
    is_chosen name (codes "github_issues_create") issues_create _ _ (
      is_chosen name (codes "github_issues_batch_create") issues_batch_create _ _ (
        is_chosen name (codes "github_pr_comment_create") pr_comment_create _ _ (
          is_chosen name (codes "github_pr_get") pr_get _ _ (
            is_chosen name (codes "github_pr_files_list") pr_files_list _ _ (
              is_chosen name (codes "qa_test") qa_test _ _ (
                is_chosen name (codes "qa_lint") qa_lint _ _ (
                  is_chosen name (codes "code_patch_generate") patch_generate _ _ (
                    is_chosen name (codes "code_branch_pr_create") branch_pr_create _ _ (
                      is_chosen name (codes "code_repair_loop") repair_loop _ _
                        none_chosen))))))))))

not_call :
    (method : Text) (other : Text)
    → text_eq other (codes "tools/call") ≡ false
    → text_eq method other ≡ true
    → text_eq method (codes "tools/call") ≡ false
not_call method other differs e =
    ap (λ m. text_eq m (codes "tools/call")) (text_eq→eq method other e) ∙ differs

method_initialize : text_eq (codes "initialize") (codes "tools/call") ≡ false
unfolding text_eq
method_initialize = refl

method_list : text_eq (codes "tools/list") (codes "tools/call") ≡ false
unfolding text_eq
method_list = refl

module _ {S R : Type 0} (h : Handlers S R) where
  unfoldable pub id_of : Text → Text
  id_of line = elim (h.decode_request line) [ none ↦ codes "null" | some req ↦ req.id ]

  -- The identifiers of the requests.
  abbrev pub ids : List Text → List Text
  ids [] = []
  ids ([] ∷ lines) = ids lines
  ids ((c ∷ cs) ∷ lines) = id_of (c ∷ cs) ∷ ids lines

  unfoldable pub params_of : Request → List CallParams
  params_of req = elim (h.decode_params req.params) [ err msg ↦ [] | ok call ↦ call ∷ [] ]

  unfoldable pub call_in : Request → List CallParams
  call_in req = if text_eq req.method (codes "tools/call") then params_of req else []

  unfoldable pub call_of : Text → List CallParams
  call_of line = elim (h.decode_request line) [ none ↦ [] | some req ↦ call_in req ]

  -- The calls of tools that the lines ask for.
  abbrev pub calls : List Text → List CallParams
  calls [] = []
  calls ([] ∷ lines) = calls lines
  calls ((c ∷ cs) ∷ lines) = call_of (c ∷ cs) ++ calls lines

  -- A call changes the state as its tool does, if there is one, and is observed.
  unfoldable pub perform : CallParams → S → S
  perform call s =
      h.observe call.name
        (elim (tool_of call.name) [ none ↦ s | some tool ↦ (h.tool tool call.arguments s).1 ])

  abbrev pub perform_all : List CallParams → S → S
  perform_all [] s = s
  perform_all (call ∷ rest) s = perform_all rest (perform call s)

  perform_all-append :
      (xs ys : List CallParams) (s : S)
      → perform_all (xs ++ ys) s ≡ perform_all ys (perform_all xs s)
  perform_all-append [] ys s = refl
  perform_all-append (x ∷ xs) ys s = perform_all-append xs ys (perform x s)

  run_tool-perform :
      (call : CallParams) (s : S) → h.observe call.name (run_tool h call s).1 ≡ perform call s
  unfolding run_tool perform
  run_tool-perform call s = elim (Option-cases (tool_of call.name)) [
    | inl e ↦ rw (e, run_tool, perform) refl
    | inr (tool, e) ↦ rw (e, run_tool, perform) refl
  ]

  handle_tool_call-params :
      (req : Request) (s : S) → (handle_tool_call h req s).1 ≡ perform_all (params_of req) s
  unfolding handle_tool_call params_of
  handle_tool_call-params req s = elim (Result-cases (h.decode_params req.params)) [
    | inl (call, e) ↦ rw (e, handle_tool_call, params_of) (run_tool-perform call s)
    | inr (msg, e) ↦ rw (e, handle_tool_call, params_of) refl
  ]

  dispatch-call_in : (req : Request) (s : S) → (dispatch h req s).1 ≡ perform_all (call_in req) s
  unfolding dispatch call_in
  dispatch-call_in req s = elim (Bool-cases (text_eq req.method (codes "initialize"))) [
    | inl e ↦ rw (e, dispatch, call_in, not_call req.method _ method_initialize e) refl
    | inr e ↦ elim (Bool-cases (text_eq req.method (codes "tools/list"))) [
      | inl f ↦ rw (e, f, dispatch, call_in, not_call req.method _ method_list f) refl
      | inr f ↦ elim (Bool-cases (text_eq req.method (codes "tools/call"))) [
        | inl g ↦ rw (e, f, g, dispatch, call_in) (handle_tool_call-params req s)
        | inr g ↦ rw (e, f, g, dispatch, call_in) refl
      ]
    ]
  ]

  handle_line-call_of :
      (line : Text) (s : S) → (handle_line h line s).1 ≡ perform_all (call_of line) s
  unfolding handle_line call_of
  handle_line-call_of line s = elim (Option-cases (h.decode_request line)) [
    | inl e ↦ rw (e, handle_line, call_of) refl
    | inr (req, e) ↦ rw (e, handle_line, call_of) (dispatch-call_in req s)
  ]

  handle_line-id_of : (line : Text) (s : S) → (handle_line h line s).0.id ≡ id_of line
  unfolding handle_line id_of
  handle_line-id_of line s = elim (Option-cases (h.decode_request line)) [
    | inl e ↦ rw (e, handle_line, id_of) refl
    | inr (req, e) ↦ rw (e, handle_line, id_of) refl
  ]

  -- Every line that is not empty is answered once, in order, with the identifier of its request, or null
  -- where it is none; and the state is what the calls of tools among the lines make of it, in order.
  pub handle_conn-Serves :
      (lines : List Text) (s : S)
      → (map (λ r. r.id) (handle_conn h lines s).0 ≡ ids lines)
        × ((handle_conn h lines s).1 ≡ perform_all (calls lines) s)
  unfolding handle_conn
  handle_conn-Serves [] s = (refl, refl)
  handle_conn-Serves ([] ∷ lines) s = handle_conn-Serves lines s
  handle_conn-Serves ((c ∷ cs) ∷ lines) s =
      let line = c ∷ cs in
      let (names, state) = handle_conn-Serves lines (handle_line h line s).1 in
      (
        ap (λ i. i ∷ map (λ r. r.id) (handle_conn h lines (handle_line h line s).1).0)
              (handle_line-id_of line s)
            ∙ ap (λ rest. id_of line ∷ rest) names,
        state
            ∙ ap (perform_all (calls lines)) (handle_line-call_of line s)
            ∙ sym (perform_all-append (call_of line) (calls lines) s),
      )
