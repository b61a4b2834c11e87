-- ===== src/CodeOps/Effects.antt =====
-- What `Execute` does to the outside.
use ai_team_toolhub.Base.{
  subst, ◌≡◌, refl, sym, ap, ◌∙◌, Bool, true, false, List, [], ◌∷◌, ◌++◌, map, append-nil,
  append_assoc, All, All-append, Result, ok, err, arith, inl, inr, if◌then◌else◌, ok_injective,
  Result-cases,
}
use ai_team_toolhub.Text.{Text}
use ai_team_toolhub.Policy.{Policy, check_paths}
use ai_team_toolhub.Policy.Paths.{Permitted, Clear, check_paths_iff}
use ai_team_toolhub.CodeOps.{
  CodeError, FileChange, Config, Request, Action, git, mkdir_for, write_file, Outside,
  safe_relative_path, plan, rollback_plan,
}
use ai_team_toolhub.FilePath.{is_rooted}
use ai_team_toolhub.CodeOps.Inside.{Inside, safe_relative_path-Inside}
use ai_team_toolhub.CodeOps.Paths.{safe_relative_path-canonicalize_path}
use ai_team_toolhub.CodeOps.Exec.{
  Exec, next, ◌>>=◌, pure, lift, perform, attempt, run_git, write_files, apply_changes, execute,
  rollback_branch, Rollback,
}

-- `m` only appends to the log, and what it appends satisfies `P`, also where it fails.
pub record Performs {A : Type 0} (P : Action → Type 0) (m : Exec A) : Type 0 where
  pub at : (log : List Action) → (new : List Action) × ((m log).1 ≡ log ++ new) × All P new

module _ {A : Type 0} {P : Action → Type 0} where
  Performs-pure : (a : A) → Performs P (pure a)
  Performs-pure a = record { at = λ log. ([], sym (append-nil log), tt) }

  Performs-lift : (r : Result CodeError A) → Performs P (lift r)
  Performs-lift r = record { at = λ log. ([], sym (append-nil log), tt) }

module _ {P : Action → Type 0} where
  Performs-perform : (o : Outside) (action : Action) → P action → Performs P (perform o action)
  unfolding perform
  Performs-perform o action p = record { at = λ log. (action ∷ [], refl, (p, tt)) }

module _ {A B : Type 0} {P : Action → Type 0} where
  -- The rest may use what a check returned.
  Performs-bind-lift :
      (r : Result CodeError A) (f : A → Exec B)
      → ((a : A) → r ≡ ok a → Performs P (f a))
      → Performs P (lift r >>= f)
  Performs-bind-lift (ok a) f h = record { at = (h a refl).at }
  Performs-bind-lift (err e) f h = record { at = λ log. ([], sym (append-nil log), tt) }

  continued :
      (log : List Action) (p : Result CodeError A × List Action) (f : A → Exec B)
      → (new : List Action) × (p.1 ≡ log ++ new) × All P new
      → ((a : A) → Performs P (f a))
      → (new : List Action) × ((next p f).1 ≡ log ++ new) × All P new
  continued log (err e, log') f first h = first
  continued log (ok a, log') f (new, e, ps) h =
      let (more, e', qs) = (h a).at log' in
      (
        new ++ more,
        e' ∙ ap (λ l. l ++ more) e ∙ append_assoc log new more,
        All-append P new more ps qs,
      )

  Performs-bind :
      (m : Exec A) (f : A → Exec B)
      → Performs P m
      → ((a : A) → Performs P (f a))
      → Performs P (m >>= f)
  Performs-bind m f hm hf = record { at = λ log. continued log (m log) f (hm.at log) hf }

module _ {P : Action → Type 0} (o : Outside) where
  Performs-attempt : (action : Action) → P action → Performs P (attempt o action)
  unfolding attempt
  Performs-attempt action p =
      Performs-bind (perform o action) (λ _. pure tt) (Performs-perform o action p)
        (λ _. Performs-pure tt)

-- A file is written, or a folder made for it, only inside the folder `wd`, at a path of plain names that
-- `Q` holds of.
abbrev pub WritesOnly : Text → (Text → Type 0) → Action → Type 0
WritesOnly wd Q (git _ _) = Unit {0}
WritesOnly wd Q (mkdir_for full) = (c : Text) × Inside wd c full × Q c
WritesOnly wd Q (write_file full _) = (c : Text) × Inside wd c full × Q c

-- Where `Q` holds of each safe path of the list, no other path is written.
write_files-WritesOnly :
    (o : Outside) (wd : Text) (Q : Text → Type 0) (files : List FileChange)
    → is_rooted wd ≡ true
    → All (λ f. (c : Text) → safe_relative_path f.path ≡ ok c → Q c) files
    → Performs (WritesOnly wd Q) (write_files o wd files)
unfolding write_files
write_files-WritesOnly o wd Q [] rooted h = Performs-pure tt
write_files-WritesOnly o wd Q (f ∷ files) rooted h =
    Performs-bind-lift (safe_relative_path f.path) _ λ c e.
      Performs-bind _ _
        (Performs-attempt o _ (c, safe_relative_path-Inside wd f.path rooted e, h.0 c e))
        λ _.
          Performs-bind _ _
            (Performs-attempt o _ (c, safe_relative_path-Inside wd f.path rooted e, h.0 c e))
            λ _.
              Performs-bind _ _ (Performs-attempt o _ tt)
                λ _. write_files-WritesOnly o wd Q files rooted h.1

apply_changes-WritesOnly :
    (o : Outside) (cfg : Config) (req : Request) (wd : Text) (commands : List Text)
    (Q : Text → Type 0)
    → is_rooted wd ≡ true
    → All (λ f. (c : Text) → safe_relative_path f.path ≡ ok c → Q c) req.files
    → Performs (WritesOnly wd Q) (apply_changes o cfg req wd commands)
unfolding apply_changes
apply_changes-WritesOnly o cfg req wd commands Q rooted h =
    Performs-bind _ _ (Performs-attempt o _ tt) λ _.
      Performs-bind _ _ (Performs-attempt o _ tt) λ _.
        Performs-bind _ _ (write_files-WritesOnly o wd Q req.files rooted h) λ _.
          Performs-bind _ _ (Performs-attempt o _ tt) λ _.
            Performs-bind _ _ (Performs-attempt o _ tt)
              λ _. Performs-bind _ _ (Performs-perform o _ tt) λ _. Performs-pure _

-- The branch on `DryRun`.
run_or_preview :
    {P : Action → Type 0} (b : Bool) {A : Type 0} (preview : A) (m : Exec A)
    → Performs P m
    → Performs P (if b then pure preview else m)
run_or_preview true preview m h = Performs-pure preview
run_or_preview false preview m h = h

plan-abs :
    (o : Outside) (cfg : Config) (req : Request) (wd wd' : Text) (commands : List Text)
    → o.abs cfg.work_dir ≡ ok wd
    → plan o cfg req ≡ ok (wd', commands)
    → wd' ≡ wd
unfolding plan
plan-abs o cfg req wd wd' commands e h = ground arith

-- After `CheckPaths` has accepted the paths of a request, `Execute` writes files, and makes folders,
-- only inside the work directory, which `filepath.Abs` resolves to a rooted path: each path is that
-- directory, cleaned, followed by one or more plain names, without `..`, and no forbidden prefix matches
-- the path that these names make. This holds whatever git and the file system answer, and where
-- `Execute` fails half-way.
pub execute_respects_policy :
    (o : Outside) (cfg : Config) (req : Request) (p : Policy) (wd : Text)
    → o.abs cfg.work_dir ≡ ok wd
    → is_rooted wd ≡ true
    → check_paths p (map (λ f. f.path) req.files) ≡ ok tt
    → Performs (WritesOnly wd (Clear p.forbidden_path_prefixes)) (execute o cfg req)
unfolding execute
execute_respects_policy o cfg req p wd e rooted h =
    Performs-bind-lift (plan o cfg req) _ λ w planned. run_or_preview req.dry_run _ _ (
      rw (plan-abs o cfg req wd w.0 w.1 e planned) (
        apply_changes-WritesOnly o cfg req wd w.1 (Clear p.forbidden_path_prefixes) rooted
          (clear req.files ((check_paths_iff p _).0 h))))
  where
    clear :
        (files : List FileChange)
        → All (Permitted p) (map (λ f. f.path) files)
        → All
            (λ f. (c : Text) → safe_relative_path f.path ≡ ok c → Clear p.forbidden_path_prefixes c)
            files
    clear [] h = tt
    clear (f ∷ files) h = (one f.path h.0, clear files h.1)
      where
        one :
            (raw : Text)
            → Permitted p raw
            → (c : Text) → safe_relative_path raw ≡ ok c
            → Clear p.forbidden_path_prefixes c
        one raw (c', e', k) c e =
            rw (ok_injective (sym (safe_relative_path-canonicalize_path raw e) ∙ e')) k

pub Performs-All :
    {A : Type 0} {P : Action → Type 0} {m : Exec A} (log : List Action)
    → Performs P m
    → All P log
    → All P (m log).1
Performs-All {P = P} log h ps =
    let (new, e, qs) = h.at log in subst (All P) (sym e) (All-append P log new ps qs)

-- `RollbackBranch` only runs git.
pub rollback_branch-All :
    (o : Outside) (cfg : Config) (base_branch head_branch : Text) (log : List Action)
    (P : Action → Type 0)
    → ((wd : Text) (args : List Text) → P (git wd args))
    → All P log
    → All P (rollback_branch o cfg base_branch head_branch false log).1
unfolding rollback_branch
rollback_branch-All o cfg base_branch head_branch log P h ps =
    elim (Result-cases (rollback_plan o cfg base_branch head_branch)) [
      | inr (x, e) ↦ rw (e, rollback_branch) ps
      | inl (w, e) ↦
          rw (e, rollback_branch)
            (either_way (run_git o w.0 _ log).0 (_, _) (λ e. (_, _))
              (by_git w.0 _ _ (by_git w.0 _ _ (by_git w.0 _ log ps))) (λ e. by_git w.0 _ log ps))
    ]
  where
    either_way :
        (r : Result CodeError (Unit {0})) (x : Rollback × List Action)
        (y : CodeError → Rollback × List Action)
        → All P x.1
        → ((e : CodeError) → All P (y e).1)
        → All P ((elim r as (λ _. Rollback × List Action) [ ok u ↦ x | err e ↦ y e ]).1)
    either_way (ok u) x y hx hy = hx
    either_way (err e) x y hx hy = hy e

    by_git :
        (wd : Text) (args : List Text) (before : List Action)
        → All P before
        → All P (run_git o wd args before).1
    by_git wd args before qs = Performs-All before (Performs-attempt o (git wd args) (h wd args)) qs
