-- ===== src/Audit/Saved.antt =====
-- What Save and Record of toolhub/internal/core have done where they succeed.
use ai_team_toolhub.Base.{
  ℕ, ◌<◌, ◌≡◌, refl, sym, ap, subst, ◌∙◌, inl, inr, Bool, true, false, List, ◌∷◌, some, Result, ok,
  err, Option-cases, followed, followed-ok, arith,
}
use ai_team_toolhub.Text.{Text, codes, text_eq}
use ai_team_toolhub.Text.Laws.{text_eq_self}
use ai_team_toolhub.Policy.{Policy}
use ai_team_toolhub.Audit.{
  Artifact, ToolCall, File, State, Outside, AuditError, attempt, ticked, failed,
}
use ai_team_toolhub.Audit.Tables.{find, insert, insert_artifact, insert_tool_call}
use ai_team_toolhub.Audit.Artifacts.{
  SaveInput, file_path, content_at, write, or_remove, copy, artifact_of, save_at, save, lifted,
}
use ai_team_toolhub.Audit.Service.{
  RecordInput, counted_save, save_counted, save_json, save_extras, insert_call, wrapped,
  tool_call_of, allowed, json_input, record_call, status_of,
}
use ai_team_toolhub.Audit.Stored.{OwnFiles, Holds, save_extras-Holds, save_json-Holds_on}

module _ {A : Type 0} {a : A} {t : State} where
  or_remove-ok :
      (o : Outside) (path : Text) (p : Result AuditError A × State)
      → or_remove o path p ≡ (ok a, t)
      → p ≡ (ok a, t)
  or_remove-ok o path (ok b, s) q = q
  or_remove-ok o path (err e, s) q = cc

  wrapped-ok :
      (what : Text) (p : Result AuditError A × State) → wrapped what p ≡ (ok a, t) → p ≡ (ok a, t)
  wrapped-ok what (ok b, s) q = q
  wrapped-ok what (err e, s) q = cc

counted_save-ok :
    (what : Text) (p : Result AuditError Artifact × State) {a : Artifact} {t : State}
    → counted_save what p ≡ (ok a, t)
    → p ≡ (ok a, t)
counted_save-ok what (ok b, s) q = q
counted_save-ok what (err e, s) q = cc

attempt-ok :
    (o : Outside) (what : Text) (change : State → State) (s : State) {u : Unit {0}} {t : State}
    → attempt o what change s ≡ (ok u, t)
    → change (ticked s) ≡ t
unfolding attempt
attempt-ok o what change s q = elim (Option-cases (o.fault s.ticks)) [
  | inl e ↦
      let h : attempt o what change s ≡ (ok tt, change (ticked s)) = rw (e, attempt) refl in
      ap (λ p. p.1) (sym h ∙ q)
  | inr (msg, e) ↦
      let h : attempt o what change s ≡ (err (failed what msg), ticked s) = rw (e, attempt) refl in
      cc
]

insert-ok :
    (o : Outside) (what : Text) (taken : Bool) (change : State → State) (s : State) {u : Unit {0}}
    {t : State}
    → insert o what taken change s ≡ (ok u, t)
    → change (ticked s) ≡ t
unfolding insert
insert-ok o what true change s q = cc
insert-ok o what false change s q = attempt-ok o what change s q

copy-ok :
    (o : Outside) (path body : Text) (s : State) {u : Unit {0}} {t : State}
    → copy o path body s ≡ (ok u, t)
    → record (ticked s) { files = write path body s.files } ≡ t
unfolding copy
copy-ok o path body s q = elim (Option-cases (o.fault s.ticks)) [
  | inl e ↦
      let h : copy o path body s ≡ (ok tt, record (ticked s) { files = write path body s.files }) =
        rw (e, copy) refl in
      ap (λ p. p.1) (sym h ∙ q)
  | inr (msg, e) ↦
      let h : copy o path body s ≡ (
        err (failed (codes "write artifact") msg),
        record (ticked s) { files = write path (o.partial s.ticks) s.files },
      ) =
        rw (e, copy) refl in
      cc
]

write-same :
    (path content : Text) (files : List File)
    → content_at path (write path content files) ≡ some content
write-same path content files = rw (text_eq_self path) refl

abbrev Written : ℕ → Text → Text → State → Type 0
Written n path body s = (n < s.ticks) × (content_at path s.files ≡ some body)

abbrev SavedAs : Outside → Text → ℕ → Text → Result AuditError Artifact × State → Type 0
SavedAs o run n body (ok art, s) = Holds o run n art body s × (art.artifact_id ≡ o.uuid n)
SavedAs o run n body (err e, s) = Unit

-- The artifact that a successful `Save` gives back has its row and its file.
save_at-Holds :
    (o : Outside) (input : SaveInput) (n : ℕ) (s : State) {art : Artifact} {u : State}
    → n < s.ticks
    → save_at o input (o.uuid n) (file_path o.base_dir input.run_id (o.uuid n)) s ≡ (ok art, u)
    → Holds o input.run_id n art input.body u × (art.artifact_id ≡ o.uuid n)
unfolding save_at insert_artifact artifact_of
save_at-Holds o input n s early q =
    let path = file_path o.base_dir input.run_id (o.uuid n) in
    let (c, t, created, q1) = followed-ok _ (attempt o _ _ s) q in
    let (d, v, copied, q2) = followed-ok _ (or_remove o path (copy o path input.body t)) q1 in
    let (i, w, inserted, q3) = followed-ok _ (or_remove o path (insert_artifact o _ v)) q2 in
    let e1 = attempt-ok o _ _ s created in
    let e2 = copy-ok o path input.body t (or_remove-ok o path _ copied) in
    let e3 = insert-ok o _ _ _ v (or_remove-ok o path _ inserted) in
    let h1 : n < t.ticks = subst (λ x. n < x.ticks) e1 (omega (arith, early)) in
    let h2 : Written n path input.body v =
      subst (Written n path input.body) e2
        (omega (arith, h1), write-same path input.body t.files) in
    let h3 : Holds o input.run_id n (artifact_of o input (o.uuid n) path (o.now s.ticks)) input.body
        w =
      subst
        (Holds o input.run_id n (artifact_of o input (o.uuid n) path (o.now s.ticks)) input.body) e3
        (record {
          before = omega (arith, h2.0);
          of_run = refl;
          row = rw (text_eq_self (o.uuid n)) refl;
          file = h2.1;
        }) in
    subst (SavedAs o input.run_id n input.body) q3 (h3, refl)

save-Holds :
    (o : Outside) (input : SaveInput) (s : State) {art : Artifact} {u : State}
    → save o input s ≡ (ok art, u)
    → Holds o input.run_id s.ticks art input.body u × (art.artifact_id ≡ o.uuid s.ticks)
unfolding save
save-Holds o input s q =
    let (made, t, first, next) = followed-ok _ (attempt o _ _ (ticked s)) q in
    let e = attempt-ok o _ _ (ticked s) first in
    save_at-Holds o input s.ticks t (subst (λ x. s.ticks < x.ticks) e (omega arith)) next

abbrev PartSaved :
    Outside → Text → Text → State → Result AuditError (Artifact × Text) × State → Type 0
PartSaved o run bytes s (ok saved, u) =
    (bytes ≡ saved.1)
    × Holds o run s.ticks saved.0 saved.1 u
    × (saved.0.artifact_id ≡ o.uuid s.ticks)
PartSaved o run bytes s (err e, u) = Unit

-- A part of the call that `Record` has saved: its bytes, with the artifact.
pub save_json-Holds :
    (o : Outside) (run name what : Text) (value : Result Text Text) (s : State)
    {saved : Artifact × Text} {u : State}
    → save_json o run name what value s ≡ (ok saved, u)
    → (value ≡ ok saved.1)
      × Holds o run s.ticks saved.0 saved.1 u
      × (saved.0.artifact_id ≡ o.uuid s.ticks)
unfolding save_json save_counted followed
save_json-Holds o run name what (err msg) s q = cc
save_json-Holds o run name what (ok bytes) s q =
    let (art, t, first, next) = followed-ok _ (save_counted o _ (json_input run name bytes) s) q in
    let (h, id) =
      save-Holds o (json_input run name bytes) s
        (counted_save-ok _ (save o (json_input run name bytes) s) first) in
    let (same, held, own) = subst (PartSaved o run bytes s) next (refl, h, id) in
    (ap (λ b. ok b) same, held, own)

abbrev InsertedAs :
    ToolCall → List Text → State → Result AuditError (ToolCall × List Text) × State → Type 0
InsertedAs tc ids s (ok result, u) =
    (result.0 ≡ tc)
    × (u.tool_calls ≡ result.0 ∷ s.tool_calls)
    × (u.artifacts ≡ s.artifacts)
    × (u.files ≡ s.files)
    × (s.ticks < u.ticks)
InsertedAs tc ids s (err e, u) = Unit

-- The row of a call that `Record` has inserted, before the others.
insert_call-Row :
    (o : Outside) (input : RecordInput) (req resp : Artifact × Text) (ids : List Text) (s : State)
    {result : ToolCall × List Text} {u : State}
    → insert_call o input req resp ids s ≡ (ok result, u)
    → (result.0 ≡ tool_call_of o input req resp s)
      × (u.tool_calls ≡ result.0 ∷ s.tool_calls)
      × (u.artifacts ≡ s.artifacts)
      × (u.files ≡ s.files)
      × (s.ticks < u.ticks)
unfolding insert_call insert_tool_call
insert_call-Row o input req resp ids s q =
    let tc = tool_call_of o input req resp s in
    let (done, t, first, next) = followed-ok _ (wrapped _ (insert_tool_call o tc (ticked s))) q in
    let e = insert-ok o _ _ _ (ticked s) (wrapped-ok _ (insert_tool_call o tc (ticked s)) first) in
    let h : InsertedAs tc ids s (ok (tc, ids), t) =
      subst (λ x. InsertedAs tc ids s (ok (tc, ids), x)) e (refl, refl, refl, refl, omega arith) in
    subst (InsertedAs tc ids s) next h

-- What a successful `Record` leaves: the row with the run, the tool, the key and the status, before the
-- others; and the request and the response, under the identifiers of the row.
pub record Recorded (o : Outside) (input : RecordInput) (tc : ToolCall) (u : State) : Type 0 where
  pub req : Artifact × Text
  pub resp : Artifact × Text
  pub n : ℕ
  pub m : ℕ
  pub older : List ToolCall
  pub first : u.tool_calls ≡ tc ∷ older
  pub of_run : tc.run_id ≡ input.run_id
  pub of_tool : tc.tool_name ≡ input.tool_name
  pub key : tc.idempotency_key ≡ input.idem_key
  pub status : tc.status ≡ status_of input.has_err
  pub request : input.request ≡ ok req.1
  pub request_id : tc.request_artifact_id ≡ some (o.uuid n)
  pub request_holds : Holds o input.run_id n req.0 req.1 u
  pub request_own : req.0.artifact_id ≡ o.uuid n
  pub response : input.response ≡ ok resp.1
  pub response_id : tc.response_artifact_id ≡ some (o.uuid m)
  pub response_holds : Holds o input.run_id m resp.0 resp.1 u
  pub response_own : resp.0.artifact_id ≡ o.uuid m

Holds-moved :
    (o : Outside) (run : Text) (n : ℕ) (art : Artifact) (body : Text) (s u : State)
    → u.artifacts ≡ s.artifacts
    → u.files ≡ s.files
    → s.ticks < u.ticks
    → Holds o run n art body s
    → Holds o run n art body u
Holds-moved o run n art body s u rows files later h = record {
  before = omega (arith, h.before, later);
  of_run = h.of_run;
  row = ap (find (λ a. text_eq a.artifact_id art.artifact_id)) rows ∙ h.row;
  file = ap (content_at (file_path o.base_dir run (o.uuid n))) files ∙ h.file;
}

pub record_call-Recorded :
    (o : Outside) (p : Policy) (input : RecordInput) (s : State) {result : ToolCall × List Text}
    {u : State}
    → OwnFiles o input.run_id
    → record_call o p input s ≡ (ok result, u)
    → Recorded o input result.0 u
unfolding record_call tool_call_of followed
record_call-Recorded o p input s {result = result} {u = u} own q =
    let (may, s0, allowed_so, q0) = followed-ok _ (lifted (allowed p input.tool_name) s) q in
    let (req, s1, saved1, q1) = followed-ok _ (save_json o input.run_id _ _ input.request s0) q0 in
    let (resp, s2, saved2, q2) =
      followed-ok _ (save_json o input.run_id _ _ input.response s1) q1 in
    let (ids, s3, saved3, q3) =
      followed-ok _ (save_extras o input.run_id input.extra_artifacts s2) q2 in
    let (bytes1, held1, own1) = save_json-Holds o input.run_id _ _ input.request s0 saved1 in
    let (bytes2, held2, own2) = save_json-Holds o input.run_id _ _ input.response s1 saved2 in
    let (is_row, table, rows, files, later) = insert_call-Row o input req resp ids s3 q3 in
    let kept1 =
      save_json-Holds_on o input.run_id own s0.ticks req.0 req.1 _ _ input.response s1 held1 in
    let h1 : Holds o input.run_id s0.ticks req.0 req.1 s2 =
      subst (Holds o input.run_id s0.ticks req.0 req.1) (ap (λ x. x.1) saved2) kept1 in
    record {
      req = req;
      resp = resp;
      n = s0.ticks;
      m = s1.ticks;
      older = s3.tool_calls;
      first = table;
      of_run = ap (λ tc. tc.run_id) is_row;
      of_tool = ap (λ tc. tc.tool_name) is_row;
      key = ap (λ tc. tc.idempotency_key) is_row;
      status = ap (λ tc. tc.status) is_row;
      request = bytes1;
      request_id = ap (λ tc. tc.request_artifact_id) is_row ∙ ap (λ t. some t) own1;
      request_holds = after_extras s0.ticks req ids s2 s3 saved3 rows files later h1;
      request_own = own1;
      response = bytes2;
      response_id = ap (λ tc. tc.response_artifact_id) is_row ∙ ap (λ t. some t) own2;
      response_holds = after_extras s1.ticks resp ids s2 s3 saved3 rows files later held2;
      response_own = own2;
    }
  where
    after_extras :
        (k : ℕ) (part : Artifact × Text) (ids : List Text) (t v : State)
        → save_extras o input.run_id input.extra_artifacts t ≡ (ok ids, v)
        → u.artifacts ≡ v.artifacts
        → u.files ≡ v.files
        → v.ticks < u.ticks
        → Holds o input.run_id k part.0 part.1 t
        → Holds o input.run_id k part.0 part.1 u
    after_extras k part ids t v saved rows files later h =
        Holds-moved o input.run_id k part.0 part.1 v u rows files later (
          subst (Holds o input.run_id k part.0 part.1) (ap (λ x. x.1) saved)
            (save_extras-Holds o input.run_id own k part.0 part.1 input.extra_artifacts t h))
