-- ===== src/Audit/Stored.antt =====
-- A saved artifact stays readable: Save of toolhub/internal/core/artifact.go and what follows it.
use ai_team_toolhub.Base.{
  ℕ, ◌<◌, ◌≡◌, refl, sym, ap, subst, ◌∙◌, inl, inr, Bool, true, false, List, [], ◌∷◌, some, Result,
  ok, err, Option-cases, Bool-cases, followed-keeps, any, if◌then◌else◌, arith,
}
use ai_team_toolhub.Text.{Text, codes, text_eq}
use ai_team_toolhub.Text.Laws.{text_eq_iff}
use ai_team_toolhub.Audit.{Artifact, File, State, Outside, AuditError, ticked}
use ai_team_toolhub.Audit.Tables.{find, has_artifact, insert_artifact}
use ai_team_toolhub.Audit.Artifacts.{
  SaveInput, file_path, delete, write, content_at, remove, or_remove, copy, save_at, save, lifted,
}
use ai_team_toolhub.Audit.Keeps.{attempt-keeps, insert-either}
use ai_team_toolhub.Audit.Service.{
  ExtraArtifact, counted_save, save_counted, save_json, save_extras, marshalled,
}

-- A write or a removal of another file.
module _ (path other : Text) (apart : text_eq other path ≡ false) where
  delete-other : (files : List File) → content_at path (delete other files) ≡ content_at path files
  delete-other [] = refl
  delete-other (f ∷ files) = elim (Bool-cases (text_eq f.path other)) [
    | inr e ↦
        rw e (ap (λ c. if text_eq f.path path then some f.content else c) (delete-other files))
    | inl e ↦
        let same : f.path ≡ other = (text_eq_iff f.path other).0 e in
        let no : text_eq f.path path ≡ false = ap (λ p. text_eq p path) same ∙ apart in
        rw (e, no) (delete-other files)
  ]

  write-other :
      (content : Text) (files : List File)
      → content_at path (write other content files) ≡ content_at path files
  write-other content files = rw apart (delete-other files)

text_eq_apart : (s t : Text) → (s ≡ t → ⊥) → text_eq s t ≡ false
text_eq_apart s t differ = elim (Bool-cases (text_eq s t)) [
  | inl e ↦ absurd (differ ((text_eq_iff s t).0 e))
  | inr e ↦ e
]

pub find-any :
    {A : Type 0} (t : A → Bool) (rows : List A) {a : A} → find t rows ≡ some a → any t rows ≡ true
find-any t [] q = cc
find-any t (x ∷ rows) q = elim (Bool-cases (t x)) [
  | inl e ↦ rw e refl
  | inr e ↦
      let h : find t (x ∷ rows) ≡ find t rows = rw e refl in rw e (find-any t rows (sym h ∙ q))
]

-- The identifiers give files of their own in the run's folder.
abbrev pub OwnFiles : Outside → Text → Type 0
OwnFiles o run =
    (n m : ℕ) → file_path o.base_dir run (o.uuid n) ≡ file_path o.base_dir run (o.uuid m) → n ≡ m

-- The artifact has its row, and its file the body; its identifier was given by the n-th call.
pub record Holds (o : Outside) (run : Text) (n : ℕ) (art : Artifact) (body : Text) (s : State)
    : Type 0 where
  pub before : n < s.ticks
  pub of_run : art.run_id ≡ run
  pub row : find (λ a. text_eq a.artifact_id art.artifact_id) s.artifacts ≡ some art
  pub file : content_at (file_path o.base_dir run (o.uuid n)) s.files ≡ some body

module _ (o : Outside) (run : Text) (own : OwnFiles o run) (n : ℕ) (art : Artifact)
    (body : Text) where
  abbrev pub H : State → Type 0
  H s = Holds o run n art body s

  pub tick-Holds : (s : State) → H s → H (ticked s)
  tick-Holds s h = record {
    before = omega (arith, h.before);
    of_run = h.of_run;
    row = h.row;
    file = h.file;
  }

  -- Files of another call.
  module _ (m : ℕ) (later : n < m) where
    apart :
        text_eq (file_path o.base_dir run (o.uuid m)) (file_path o.base_dir run (o.uuid n)) ≡ false
    apart = text_eq_apart _ _ (λ q. ground (arith, own m n q, later))

    write-Holds :
        (content : Text) (s : State)
        → H s
        → H (record s { files = write (file_path o.base_dir run (o.uuid m)) content s.files })
    write-Holds content s h = record {
      before = h.before;
      of_run = h.of_run;
      row = h.row;
      file = write-other _ _ apart content s.files ∙ h.file;
    }

    delete-Holds :
        (s : State)
        → H s
        → H (record s { files = delete (file_path o.base_dir run (o.uuid m)) s.files })
    delete-Holds s h = record {
      before = h.before;
      of_run = h.of_run;
      row = h.row;
      file = delete-other _ _ apart s.files ∙ h.file;
    }

    remove-Holds : (s : State) → H s → H (remove o (file_path o.base_dir run (o.uuid m)) s)
    unfolding remove
    remove-Holds s h = elim (Option-cases (o.fault s.ticks)) [
      | inl e ↦ rw (e, remove) (delete-Holds (ticked s) (tick-Holds s h))
      | inr (msg, e) ↦ rw (e, remove) (tick-Holds s h)
    ]

    or_remove-Holds :
        {A : Type 0} (p : Result AuditError A × State)
        → H p.1
        → H (or_remove o (file_path o.base_dir run (o.uuid m)) p).1
    or_remove-Holds (ok a, s) h = h
    or_remove-Holds (err e, s) h = remove-Holds s h

    copy-Holds :
        (content : Text) (s : State)
        → H s
        → H (copy o (file_path o.base_dir run (o.uuid m)) content s).1
    unfolding copy
    copy-Holds content s h = elim (Option-cases (o.fault s.ticks)) [
      | inl e ↦ rw (e, copy) (write-Holds content (ticked s) (tick-Holds s h))
      | inr (msg, e) ↦ rw (e, copy) (write-Holds (o.partial s.ticks) (ticked s) (tick-Holds s h))
    ]

    -- A row with another key is put before.
    insert_artifact-Holds : (a : Artifact) (s : State) → H s → H (insert_artifact o a s).1
    unfolding insert_artifact
    insert_artifact-Holds a s h = elim (insert-either o _ _ _ s) [
      | inl q ↦ subst H (sym q) (tick-Holds s h)
      | inr (free, q) ↦ subst H (sym q) (in_front free)
    ]
      where
        in_front :
            has_artifact a.artifact_id s ≡ false
            → H (record (ticked s) { artifacts = a ∷ s.artifacts })
        in_front free =
            let other : text_eq a.artifact_id art.artifact_id ≡ false = text_eq_apart _ _ (λ q.
              let found : has_artifact a.artifact_id s ≡ true =
                rw q (find-any (λ x. text_eq x.artifact_id art.artifact_id) s.artifacts h.row) in
              cc) in
            record {
              before = omega (arith, h.before);
              of_run = h.of_run;
              row = rw other h.row;
              file = h.file;
            }

    save_at-Holds :
        (input : SaveInput) (id : Text) (s : State)
        → H s
        → H (save_at o input id (file_path o.base_dir run (o.uuid m)) s).1
    unfolding save_at
    save_at-Holds input id s h =
        followed-keeps H _ _ (attempt-keeps H tick-Holds o _ _ s h (λ t k. write-Holds [] t k))
          (λ created t k.
            followed-keeps H _ _
              (or_remove-Holds (copy o _ input.body t) (copy-Holds input.body t k))
              (λ copied u l.
                followed-keeps H _ _ (or_remove-Holds _ (insert_artifact-Holds _ u l))
                  (λ inserted v i. i)))

  -- Whatever else of the run is saved.
  abbrev input_of : Text → Text → Text → SaveInput
  input_of name kind content = record {
    run_id = run;
    name = name;
    content_type = kind;
    body = content;
  }

  save-Holds :
      (name kind content : Text) (s : State) → H s → H (save o (input_of name kind content) s).1
  unfolding save
  save-Holds name kind content s h =
      followed-keeps H _ _
        (attempt-keeps H tick-Holds o _ (λ t. t) (ticked s) (tick-Holds s h) (λ t k. k))
        (λ made t k.
          save_at-Holds s.ticks h.before (input_of name kind content) (o.uuid s.ticks) t k)

  counted_save-Holds :
      (what : Text) (p : Result AuditError Artifact × State) → H p.1 → H (counted_save what p).1
  counted_save-Holds what (ok a, s) h = h
  counted_save-Holds what (err e, s) h = record {
    before = h.before;
    of_run = h.of_run;
    row = h.row;
    file = h.file;
  }

  pub save_extras-Holds :
      (extras : List ExtraArtifact) (s : State) → H s → H (save_extras o run extras s).1
  unfolding save_extras save_counted
  save_extras-Holds [] s h = h
  save_extras-Holds (extra ∷ extras) s h =
      followed-keeps H _ _
        (counted_save-Holds _ _ (save-Holds extra.name extra.content_type extra.body s h))
        (λ a t k. followed-keeps H _ _ (save_extras-Holds extras t k) (λ ids u l. l))

  pub save_json-Holds_on :
      (name what : Text) (value : Result Text Text) (s : State)
      → H s
      → H (save_json o run name what value s).1
  unfolding save_json save_counted
  save_json-Holds_on name what value s h =
      followed-keeps H _ (lifted (marshalled _ value) s) h (λ bytes t k.
        followed-keeps H _ _
          (counted_save-Holds _ _ (save-Holds name (codes "application/json") bytes t k))
          (λ a u l. l))
