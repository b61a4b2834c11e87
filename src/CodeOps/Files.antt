-- ===== src/CodeOps/Files.antt =====
-- The two loops of `Execute` over the files, planned and carried out.
use ai_team_toolhub.Base.{
  ◌≡◌, refl, ◌∙◌, List, [], ◌∷◌, ◌++◌, append-nil, append_assoc, Result, ok, err, arith, inl, inr,
  Result-cases,
}
use ai_team_toolhub.Text.{Text, codes}
use ai_team_toolhub.CodeOps.{
  CodeError, FileChange, Action, git, mkdir_for, write_file, Outside, safe_relative_path, join_path,
  git_in, plan_files,
}
use ai_team_toolhub.CodeOps.Exec.{Exec, next, ◌>>=◌, perform, attempt, write_files}

-- The files of a request with the commands planned for them and the actions that carry these out:
-- the safe path is the same in all of them.
pub data Planned (o : Outside) (wd : Text)
    : List FileChange → List Text → List Action → Type 0 where
  no_files : Planned o wd [] [] []
  one_file :
      {f : FileChange} {files : List FileChange} {commands : List Text} {actions : List Action}
      (c : Text)
      → safe_relative_path f.path ≡ ok c
      → Planned o wd files commands actions
      → Planned o wd
          (f ∷ files)
          ((codes "write " ++ o.quote c) ∷ (git_in o wd ++ codes "add -- " ++ o.quote c) ∷ commands)
          (mkdir_for (join_path wd c)
            ∷ write_file (join_path wd c) f.modified_content
            ∷ git wd (codes "add" ∷ codes "--" ∷ c ∷ [])
            ∷ actions)

module _ {A : Type 0} (o : Outside) where
  pub attempt_ok :
      (action : Action) (k : Unit {0} → Exec A) (log log' : List Action) (a : A)
      → (attempt o action >>= k) log ≡ (ok a, log')
      → k tt (log ++ action ∷ []) ≡ (ok a, log')
  unfolding attempt perform
  attempt_ok action k log log' a h = elim (Result-cases (o.outcome log action)) [
    | inl (out, e) ↦ rw (e, next) at h
    | inr (msg, e) ↦ cc (rw (e, next) at h)
  ]

module _ {A B : Type 0} where
  pub next_ok :
      (p : Result CodeError A × List Action) (k : A → Exec B) {log' : List Action} {b : B}
      → next p k ≡ (ok b, log')
      → (a : A) × (log : List Action) × (p ≡ (ok a, log)) × (k a log ≡ (ok b, log'))
  next_ok (ok a, log) k h = (a, log, refl, h)
  next_ok (err e, log) k h = cc

-- What `plan_files` adds to the commands, and what `write_files` adds to the log if it succeeds.
pub record Carried (o : Outside) (wd : Text) (before : List Text) (files : List FileChange)
    (commands : List Text) : Type 0 where
  pub more : List Text
  pub actions : List Action
  pub planned : Planned o wd files more actions
  pub same : commands ≡ before ++ more
  pub carried_out :
      (log log' : List Action) → write_files o wd files log ≡ (ok tt, log') → log' ≡ log ++ actions

extend :
    (o : Outside) (wd : Text) (before : List Text) (f : FileChange) (files : List FileChange)
    (commands : List Text) (c : Text)
    → safe_relative_path f.path ≡ ok c
    → Carried o wd
        (before
          ++ (codes "write " ++ o.quote c) ∷ (git_in o wd ++ codes "add -- " ++ o.quote c) ∷ [])
        files
        commands
    → Carried o wd before (f ∷ files) commands
unfolding write_files
extend o wd before f files commands c q r = record {
  more = _;
  actions = _;
  planned = one_file c q r.planned;
  same = r.same ∙ append_assoc before _ r.more;
  carried_out = λ log log' h.
      let h0 = rw (q, next) at h in
      let h1 = attempt_ok o _ _ log log' tt h0 in
      let h2 = attempt_ok o _ _ _ log' tt h1 in
      let h3 = attempt_ok o _ _ _ log' tt h2 in r.carried_out _ log' h3 ∙ simp append_assoc refl;
}

pub plan_files-Carried :
    (o : Outside) (wd : Text) (before : List Text) (files : List FileChange) (commands : List Text)
    → plan_files o wd before files ≡ ok commands
    → Carried o wd before files commands
unfolding plan_files write_files
plan_files-Carried o wd before [] commands h = record {
  more = [];
  actions = [];
  planned = no_files;
  same = ground (arith, append-nil before);
  carried_out = λ log log' e. ground (arith, append-nil log);
}
plan_files-Carried o wd before (f ∷ files) commands h =
    elim (Result-cases (safe_relative_path f.path)) [
      | inr (e, q) ↦ cc (rw (q, plan_files) at h)
      | inl (c, q) ↦
          extend o wd before f files commands c q
            (plan_files-Carried o wd _ files commands (rw (q, plan_files) at h))
    ]
