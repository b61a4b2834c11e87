-- ===== src/Audit/Replay.antt =====
-- What ReplayResponse and ReplayResponseWithRequestCheck of toolhub/internal/core/audit.go give back.
use ai_team_toolhub.Base.{
  ℕ, ◌+◌, ◌≡◌, refl, sym, ap, subst, ◌∙◌, inl, inr, false, List, Option, none, some, Result, ok,
  err, Bool-cases, followed, if◌then◌else◌, arith, ◌≤◌, ok_injective,
}
use ai_team_toolhub.Text.{Text, codes, text_eq}
use ai_team_toolhub.Text.Laws.{text_eq_self}
use ai_team_toolhub.Policy.{Policy}
use ai_team_toolhub.Audit.{
  Artifact, ToolCall, State, Outside, AuditError, attempt, ticked, conflict,
}
use ai_team_toolhub.Audit.Tables.{find, select, get_artifact, matches, get_successful_tool_call}
use ai_team_toolhub.Audit.Artifacts.{file_path, safe_path, read_file, read_found, read}
use ai_team_toolhub.Audit.Stored.{OwnFiles, Holds, tick-Holds}
use ai_team_toolhub.Audit.Saved.{Recorded, record_call-Recorded}
use ai_team_toolhub.Audit.Service.{
  RecordInput, record_call, check_same_request, replay_found, replay_same_request, replay_response,
  replay_response_with_request_check, marshalled, read_named,
}

-- A call that has no fault.
attempt-calm :
    (o : Outside) (what : Text) (change : State → State) (s : State)
    → o.fault s.ticks ≡ none
    → attempt o what change s ≡ (ok tt, change (ticked s))
unfolding attempt
attempt-calm o what change s e = rw (e, attempt) refl

select-calm :
    {A : Type 0} (o : Outside) (what : Text) (query : State → A) (s : State)
    → o.fault s.ticks ≡ none
    → select o what query s ≡ (ok (query s), ticked s)
unfolding select followed
select-calm o what query s e = rw (attempt-calm o what (λ t. t) s e) refl

-- From this state on no call fails, and the file of an artifact is where its row says.
pub record Calm (o : Outside) (run : Text) (u : State) : Type 0 where
  pub calm : (n : ℕ) → u.ticks ≤ n → o.fault n ≡ none
  pub plain :
      (n : ℕ) → safe_path o.base_dir run (o.uuid n) ≡ ok (file_path o.base_dir run (o.uuid n))

module _ (o : Outside) (run : Text) (n : ℕ) (art : Artifact) (body : Text) where
  -- The artifact is read, after `k` more calls.
  read-calm :
      (s : State)
      → Holds o run n art body s
      → art.artifact_id ≡ o.uuid n
      → o.fault s.ticks ≡ none
      → o.fault (s.ticks + 1) ≡ none
      → safe_path o.base_dir run (o.uuid n) ≡ ok (file_path o.base_dir run (o.uuid n))
      → read o (o.uuid n) s ≡ (ok body, ticked (ticked s))
  unfolding read get_artifact read_found read_file followed
  read-calm s h own e1 e2 safe =
      let row : find (λ a. text_eq a.artifact_id (o.uuid n)) s.artifacts ≡ some art =
        subst (λ id. find (λ a. text_eq a.artifact_id id) s.artifacts ≡ some art) own h.row in
      rw
        (
          select-calm o (codes "get artifact")
              (λ t. find (λ a. text_eq a.artifact_id (o.uuid n)) t.artifacts) s e1,
          row,
          h.of_run,
          safe,
          e2,
          h.file,
          followed,
          read_file,
        )
        refl

check_same_request-verdict :
    (o : Outside) (request : Result Text Text) (was again stored current : Text)
    → request ≡ ok again
    → o.compact was ≡ ok stored
    → o.compact again ≡ ok current
    → check_same_request o request was ≡ (if text_eq stored current then ok tt else err conflict)
unfolding check_same_request
check_same_request-verdict o request was again stored current e1 e2 e3 =
    rw (e1, check_same_request, marshalled, e2, e3) refl

module _ {A : Type 0} (o : Outside) (parse : Text → Result Text A) (input : RecordInput)
    (tc : ToolCall) (u : State) where
  replay_found-calm :
      (rec : Recorded o input tc u) (s : State) (out : A)
      → Holds o input.run_id rec.m rec.resp.0 rec.resp.1 s
      → o.fault s.ticks ≡ none
      → o.fault (s.ticks + 1) ≡ none
      → safe_path o.base_dir input.run_id (o.uuid rec.m)
        ≡ ok (file_path o.base_dir input.run_id (o.uuid rec.m))
      → parse rec.resp.1 ≡ ok out
      → (replay_found o parse tc s).0 ≡ ok (some (tc, out))
  unfolding replay_found read_named followed
  replay_found-calm rec s out h e1 e2 safe parsed =
      let e : read_named o (codes "response artifact missing for replay") tc.response_artifact_id s
          ≡ (ok rec.resp.1, ticked (ticked s)) =
        ap (λ i. read_named o (codes "response artifact missing for replay") i s) rec.response_id
        ∙ read-calm o input.run_id rec.m rec.resp.0 rec.resp.1 s h rec.response_own e1 e2 safe in
      rw (e, parsed, followed) refl

  -- The look-up finds the newest call, the recorded one.
  Recorded-matches :
      (rec : Recorded o input tc u) (key : Text)
      → input.idem_key ≡ some key
      → input.has_err ≡ false
      → find (matches input.run_id input.tool_name key) u.tool_calls ≡ some tc
  unfolding text_eq
  Recorded-matches rec key keyed no_err =
      rw
        (
          rec.first,
          rec.of_run,
          rec.of_tool,
          rec.key,
          rec.status,
          keyed,
          no_err,
          text_eq_self input.run_id,
          text_eq_self input.tool_name,
          text_eq_self key,
        )
        refl

  lookup-calm :
      (rec : Recorded o input tc u) (key : Text)
      → o.fault u.ticks ≡ none
      → input.idem_key ≡ some key
      → input.has_err ≡ false
      → get_successful_tool_call o input.run_id input.tool_name key u ≡ (ok (some tc), ticked u)
  unfolding get_successful_tool_call
  lookup-calm rec key calm keyed no_err =
      select-calm o (codes "get tool_call by idempotency")
        (λ t. find (matches input.run_id input.tool_name key) t.tool_calls) u calm
      ∙ ap (λ r. (ok r, ticked u)) (Recorded-matches rec key keyed no_err)

  -- After a successful `Record` under a key, without an error, `ReplayResponse` with that key gives back
  -- the recorded call and the value that its response decodes to, where no call fails from then on.
  -- Identifiers give files of their own, and `safePath` accepts the files of the run.
  pub record_call-replay_response :
      (p : Policy) (s : State) (ids : List Text) (key : Text) (bytes : Text) (out : A)
      → OwnFiles o input.run_id
      → record_call o p input s ≡ (ok (tc, ids), u)
      → Calm o input.run_id u
      → input.idem_key ≡ some key
      → input.has_err ≡ false
      → input.response ≡ ok bytes
      → parse bytes ≡ ok out
      → (replay_response o parse input.run_id input.tool_name key u).0 ≡ ok (some (tc, out))
  unfolding replay_response get_successful_tool_call followed
  record_call-replay_response p s ids key bytes out own done c keyed no_err sent parsed =
      let rec = record_call-Recorded o p input s own done in
      let same : parse rec.resp.1 ≡ ok out =
        ap parse (ok_injective (sym rec.response ∙ sent)) ∙ parsed in
      let found = lookup-calm rec key (c.calm u.ticks (omega arith)) keyed no_err in
      rw found (
        replay_found-calm rec (ticked u) out
          (tick-Holds o input.run_id own rec.m rec.resp.0 rec.resp.1 u rec.response_holds)
          (c.calm (u.ticks + 1) (omega arith)) (c.calm (u.ticks + 1 + 1) (omega arith))
          (c.plain rec.m) same)

  -- The verdict of `ReplayResponseWithRequestCheck` on two requests, compacted.
  abbrev pub same_request : Text → Text → A → Result AuditError (Option (ToolCall × A))
  same_request stored current out =
      if text_eq stored current then ok (some (tc, out)) else err conflict

  -- After a successful `Record` under a key, without an error, `ReplayResponseWithRequestCheck` with that
  -- key gives back the recorded call and the value that its response decodes to, if the request, compacted,
  -- is the recorded one, compacted, and else the conflict; where no call fails from then on. Identifiers
  -- give files of their own, and `safePath` accepts the files of the run.
  pub record_call-replay_checked :
      (p : Policy) (s : State) (ids : List Text) (key bytes sent : Text) (out : A)
      (request : Result Text Text) (again stored current : Text)
      → OwnFiles o input.run_id
      → record_call o p input s ≡ (ok (tc, ids), u)
      → Calm o input.run_id u
      → input.idem_key ≡ some key
      → input.has_err ≡ false
      → input.response ≡ ok bytes
      → parse bytes ≡ ok out
      → input.request ≡ ok sent
      → request ≡ ok again
      → o.compact sent ≡ ok stored
      → o.compact again ≡ ok current
      → (replay_response_with_request_check o input.run_id input.tool_name key request parse u).0
        ≡ same_request stored current out
  unfolding replay_response_with_request_check get_successful_tool_call replay_same_request followed
      read_named read
  record_call-replay_checked p s ids key bytes sent out request again stored current own done c
        keyed no_err replied parsed asked marshals compacts1 compacts2 =
      let rec = record_call-Recorded o p input s own done in
      let same : parse rec.resp.1 ≡ ok out =
        ap parse (ok_injective (sym rec.response ∙ replied)) ∙ parsed in
      let first : o.compact rec.req.1 ≡ ok stored =
        ap o.compact (ok_injective (sym rec.request ∙ asked)) ∙ compacts1 in
      let found = lookup-calm rec key (c.calm u.ticks (omega arith)) keyed no_err in
      let h1 = tick-Holds o input.run_id own rec.n rec.req.0 rec.req.1 u rec.request_holds in
      let e : read_named o (codes "request artifact missing for idempotency check")
            tc.request_artifact_id (ticked u)
          ≡ (ok rec.req.1, ticked (ticked (ticked u))) =
        ap (λ i. read_named o (codes "request artifact missing for idempotency check") i (ticked u))
          rec.request_id
        ∙ read-calm o input.run_id rec.n rec.req.0 rec.req.1 (ticked u) h1 rec.request_own
            (c.calm (u.ticks + 1) (omega arith)) (c.calm (u.ticks + 1 + 1) (omega arith))
            (c.plain rec.n) in
      let h3 = tick-Holds o input.run_id own rec.m rec.resp.0 rec.resp.1 (ticked (ticked u)) (
        tick-Holds o input.run_id own rec.m rec.resp.0 rec.resp.1 (ticked u)
          (tick-Holds o input.run_id own rec.m rec.resp.0 rec.resp.1 u rec.response_holds)) in
      let replayed =
        replay_found-calm rec (ticked (ticked (ticked u))) out h3
          (c.calm (u.ticks + 1 + 1 + 1) (omega arith))
          (c.calm (u.ticks + 1 + 1 + 1 + 1) (omega arith)) (c.plain rec.m) same in
      let verdict =
        check_same_request-verdict o request rec.req.1 again stored current marshals first
          compacts2 in
      elim (Bool-cases (text_eq stored current)) [
        | inl eq ↦ simp (found, e, verdict, eq) replayed
        | inr ne ↦ simp (found, e, verdict, ne) refl
      ]
