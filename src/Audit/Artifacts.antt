-- ===== src/Audit/Artifacts.antt =====
-- ArtifactStore of toolhub/internal/core/artifact.go.
use ai_team_toolhub.Base.{
  ℕ, List, [], ◌∷◌, ◌++◌, Option, none, some, Result, ok, err, if◌then◌else◌, followed,
}
use ai_team_toolhub.Text.{Text, codes, text_eq, has_prefix, byte_len}
use ai_team_toolhub.FilePath.{clean, slash}
use ai_team_toolhub.Audit.{
  Artifact, File, State, Outside, AuditError, Action, failed, artifact_not_found, path_escapes,
  ticked, attempt,
}
use ai_team_toolhub.Audit.Tables.{insert_artifact, get_artifact, get_artifact_by_run_and_id}

-- SaveInput; the body is read whole.
pub record SaveInput : Type 0 where
  pub run_id : Text
  pub name : Text
  pub content_type : Text
  pub body : Text

-- `filepath.Join` of the base folder, none of whose elements is empty here.
unfoldable pub file_path : Text → Text → Text → Text
unfolding clean
file_path base run_id id = clean (clean (base ++ slash ∷ run_id) ++ slash ∷ id)

abbrev pub delete : Text → List File → List File
delete path [] = []
delete path (f ∷ files) =
    let rest = delete path files in if text_eq f.path path then rest else f ∷ rest

-- `os.Create` truncates a file that is there, and a write puts in its content.
abbrev pub write : Text → Text → List File → List File
write path content files = record { path = path; content = content } ∷ delete path files

abbrev pub content_at : Text → List File → Option Text
content_at path [] = none
content_at path (f ∷ files) = if text_eq f.path path then some f.content else content_at path files

-- `os.Remove(fpath)`, whose error is dropped.
unfoldable pub remove : Outside → Text → State → State
remove o path s = elim (o.fault s.ticks) [
  | some msg ↦ ticked s
  | none ↦ let t = ticked s in record t { files = delete path t.files }
]

-- After an error: the file is removed, and the error given back.
abbrev pub or_remove :
    {A : Type 0} → Outside → Text → Result AuditError A × State → Result AuditError A × State
or_remove o path (ok a, s) = (ok a, s)
or_remove o path (err e, s) = (err e, remove o path s)

-- `io.Copy` and `Close`: a failure leaves some part of the body in the file.
unfoldable pub copy : Outside → Text → Text → Action (Unit {0})
copy o path body s = elim (o.fault s.ticks) [
  | some msg ↦
      let t = ticked s in
      (
        err (failed (codes "write artifact") msg),
        record t { files = write path (o.partial s.ticks) t.files },
      )
  | none ↦ let t = ticked s in (ok tt, record t { files = write path body t.files })
]

unfoldable pub artifact_of : Outside → SaveInput → Text → Text → ℕ → Artifact
artifact_of o input id path now = record {
  artifact_id = id;
  run_id = input.run_id;
  name = input.name;
  uri = codes "file://" ++ path;
  sha256 = o.digest input.body;
  size_bytes = byte_len input.body;
  content_type = input.content_type;
  created_at = now;
}

-- From the file on: `os.Create`, the copy, and the row.
unfoldable pub save_at : Outside → SaveInput → Text → Text → Action Artifact
save_at o input id path s =
    let art = artifact_of o input id path (o.now s.ticks) in
    followed
      (λ created t.
        followed
          (λ copied u.
            followed (λ inserted v. (ok art, v)) (or_remove o path (insert_artifact o art u)))
          (or_remove o path (copy o path input.body t)))
      (attempt o (codes "create file") (λ t. record t { files = write path [] t.files }) s)

-- Save
unfoldable pub save : Outside → SaveInput → Action Artifact
save o input s =
    let id = o.uuid s.ticks in
    followed (λ made t. save_at o input id (file_path o.base_dir input.run_id id) t)
      (attempt o (codes "mkdir artifact") (λ t. t) (ticked s))

-- safePath
unfoldable pub safe_path : Text → Text → Text → Result AuditError Text
unfolding clean has_prefix
safe_path base run_id id =
    let p = clean (base ++ slash ∷ run_id ++ slash ∷ id) in
    if has_prefix p (clean base ++ slash ∷ []) then ok p else err path_escapes

-- `os.ReadFile`
unfoldable pub read_file : Outside → Text → Text → Action Text
read_file o what path s = elim (o.fault s.ticks) [
  | some msg ↦ (err (failed what msg), ticked s)
  | none ↦ elim (content_at path s.files) [
    | none ↦ (err (failed what (codes "no such file or directory")), ticked s)
    | some content ↦ (ok content, ticked s)
  ]
]

abbrev pub lifted : {A : Type 0} → Result AuditError A → Action A
lifted r s = (r, s)

-- The row that Read works with, and the file.
unfoldable pub read_found : Outside → Text → Option Artifact → Action Text
read_found o id none s = (err (artifact_not_found id), s)
read_found o id (some art) s =
    followed (λ path t. read_file o (codes "read artifact file") path t)
      (lifted (safe_path o.base_dir art.run_id id) s)

-- Read
unfoldable pub read : Outside → Text → Action Text
read o id s = followed (λ art t. read_found o id art t) (get_artifact o id s)

unfoldable pub open_found :
    Outside → Text → Text → Option Artifact → Action (Option (Text × Artifact))
open_found o run_id id none s = (ok none, s)
open_found o run_id id (some art) s =
    followed
      (λ path t.
        followed (λ content u. (ok (some (content, art)), u))
          (read_file o (codes "open artifact file") path t))
      (lifted (safe_path o.base_dir run_id id) s)

-- ReadContentByRunAndID; the file that it opens stands as its content.
unfoldable pub read_content_by_run_and_id :
    Outside → Text → Text → Action (Option (Text × Artifact))
read_content_by_run_and_id o run_id id s =
    followed (λ art t. open_found o run_id id art t) (get_artifact_by_run_and_id o run_id id s)
