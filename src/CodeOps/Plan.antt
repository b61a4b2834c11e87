-- ===== src/CodeOps/Plan.antt =====
-- What a successful `Execute` has done is what it planned.
use ai_team_toolhub.Base.{
  ◌≡◌, refl, sym, ap, ◌∙◌, true, false, List, [], ◌∷◌, ◌++◌, append_assoc, Result, ok, err, arith,
  >>=-eq-ok, fail_if, length, ◌==◌,
}
use ai_team_toolhub.Text.{Text, codes, is_empty, trim_space}
use ai_team_toolhub.CodeOps.{
  CodeError, Config, Request, CodeResult, Action, git, Outside, git_in, plan, plan_files,
  resolve_workdir, validate_branch, commit_message_required, files_required,
}
use ai_team_toolhub.CodeOps.Exec.{next, pure, perform, write_files, apply_changes, execute}
use ai_team_toolhub.CodeOps.Files.{Planned, attempt_ok, next_ok, plan_files-Carried}

-- The commands around those for the files.
abbrev checkouts : Outside → Request → Text → List Text
checkouts o req wd =
    (git_in o wd ++ codes "checkout " ++ o.quote req.base_branch)
    ∷ (git_in o wd ++ codes "checkout -b " ++ o.quote req.head_branch)
    ∷ []

abbrev publish : Outside → Config → Request → Text → List Text
publish o cfg req wd =
    (git_in o wd ++ codes "commit -m " ++ o.quote req.commit_message)
    ∷ (git_in o wd
        ++ codes "push -u "
        ++ o.quote cfg.remote
        ++ codes " "
        ++ o.quote req.head_branch)
    ∷ []

-- The actions that carry these out.
abbrev checkout_actions : Request → Text → List Action
checkout_actions req wd =
    git wd (codes "checkout" ∷ req.base_branch ∷ [])
    ∷ git wd (codes "checkout" ∷ codes "-b" ∷ req.head_branch ∷ [])
    ∷ []

abbrev publish_actions : Config → Request → Text → List Action
publish_actions cfg req wd =
    git wd (codes "commit" ∷ codes "-m" ∷ req.commit_message ∷ [])
    ∷ git wd (codes "push" ∷ codes "-u" ∷ cfg.remote ∷ req.head_branch ∷ [])
    ∷ git wd (codes "rev-parse" ∷ codes "HEAD" ∷ [])
    ∷ []

-- A result and two logs, before and after, that fit one plan.
pub record IsDone (o : Outside) (cfg : Config) (req : Request) (r : CodeResult)
    (log log' : List Action) : Type 0 where
  pub wd : Text
  pub commands : List Text
  pub actions : List Action
  pub resolved : o.abs cfg.work_dir ≡ ok wd
  pub planned : Planned o wd req.files commands actions
  pub reported : r.planned_commands ≡ checkouts o req wd ++ commands ++ publish o cfg req wd
  pub performed : log' ≡ log ++ (checkout_actions req wd ++ (actions ++ publish_actions cfg req wd))

record PlanParts (o : Outside) (cfg : Config) (req : Request) (wd : Text) (commands : List Text)
    : Type 0 where
  files_planned : List Text
  resolved : o.abs cfg.work_dir ≡ ok wd
  from_files : plan_files o wd (checkouts o req wd) req.files ≡ ok files_planned
  whole : commands ≡ files_planned ++ publish o cfg req wd

workdir_resolved :
    (o : Outside) (cfg : Config) (wd : Text)
    → resolve_workdir o cfg ≡ ok wd
    → o.abs cfg.work_dir ≡ ok wd
unfolding resolve_workdir
workdir_resolved o cfg wd h = ground arith

planned_parts :
    (o : Outside) (cfg : Config) (req : Request) (wd wd' : Text) (commands mid : List Text)
    → resolve_workdir o cfg ≡ ok wd'
    → plan_files o wd' (checkouts o req wd') req.files ≡ ok mid
    → ◌≡◌ {A = Result CodeError (Text × List Text)}
        (ok (wd', mid ++ publish o cfg req wd'))
        (ok (wd, commands))
    → PlanParts o cfg req wd commands
planned_parts o cfg req wd wd' commands mid e f h =
    let w : wd' ≡ wd = cc in
    record {
      files_planned = mid;
      resolved = workdir_resolved o cfg wd (rw w at e);
      from_files = rw w at f;
      whole = rw (← w) (cc);
    }

plan-PlanParts :
    (o : Outside) (cfg : Config) (req : Request) (wd : Text) (commands : List Text)
    → plan o cfg req ≡ ok (wd, commands)
    → PlanParts o cfg req wd commands
unfolding plan
plan-PlanParts o cfg req wd commands h =
    let (_, _, h1) = >>=-eq-ok (validate_branch req.base_branch) _ h in
    let (_, _, h2) = >>=-eq-ok (validate_branch req.head_branch) _ h1 in
    let (_, _, h3) =
      >>=-eq-ok (fail_if (is_empty (trim_space req.commit_message)) commit_message_required) _ h2 in
    let (_, _, h4) = >>=-eq-ok (fail_if (length req.files == 0) files_required) _ h3 in
    let (wd', e, h5) = >>=-eq-ok (resolve_workdir o cfg) _ h4 in
    let (mid, f, h6) = >>=-eq-ok (plan_files o wd' (checkouts o req wd') req.files) _ h5 in
    planned_parts o cfg req wd wd' commands mid e f h6

pair_parts :
    {A : Type 0} {x y : Result CodeError A} {l m : List Action}
    → ◌≡◌ {A = Result CodeError A × List Action} (x, l) (y, m)
    → (x ≡ y) × (l ≡ m)
pair_parts h = (ap (λ t. t.0) h, ap (λ t. t.1) h)

pair_ok :
    {A : Type 0} {a b : A} {l m : List Action}
    → ◌≡◌ {A = Result CodeError A × List Action} (ok a, l) (ok b, m)
    → (a ≡ b) × (l ≡ m)
pair_ok h = (cc, cc)

-- A success of `apply_changes`, read backwards.
record Applied (o : Outside) (cfg : Config) (req : Request) (wd : Text) (commands : List Text)
    (log log' : List Action) (r : CodeResult) : Type 0 where
  mid : List Action
  written :
      write_files o wd req.files (
        (log ++ git wd (codes "checkout" ∷ req.base_branch ∷ []) ∷ [])
        ++ git wd (codes "checkout" ∷ codes "-b" ∷ req.head_branch ∷ []) ∷ [])
      ≡ (ok tt, mid)
  reported : r.planned_commands ≡ commands
  final : log' ≡ mid ++ publish_actions cfg req wd

apply_changes-Applied :
    (o : Outside) (cfg : Config) (req : Request) (wd : Text) (commands : List Text)
    (log log' : List Action) (r : CodeResult)
    → apply_changes o cfg req wd commands log ≡ (ok r, log')
    → Applied o cfg req wd commands log log' r
unfolding apply_changes perform
apply_changes-Applied o cfg req wd commands log log' r h =
    let h1 = attempt_ok o _ _ log log' r h in
    let h2 = attempt_ok o _ _ _ log' r h1 in
    let (u, mid, written, h3) = next_ok (write_files o wd req.files _) _ h2 in
    let h4 = attempt_ok o _ _ mid log' r h3 in
    let h5 = attempt_ok o _ _ _ log' r h4 in
    let (out, last, asked, h6) = next_ok (perform o _ _) _ h5 in
    let (same, final) = pair_ok h6 in
    record {
      mid = mid;
      written = written;
      reported = ap (λ (c : CodeResult). c.planned_commands) (sym same);
      final =
          sym final
          ∙ ap (λ (t : Result CodeError Text × List Action). t.1) (sym asked)
          ∙ regroup mid _ _ _;
    }
  where
    regroup :
        (l : List Action) (a b c : Action)
        → ((l ++ a ∷ []) ++ b ∷ []) ++ c ∷ [] ≡ l ++ a ∷ b ∷ c ∷ []
    regroup l a b c = simp append_assoc refl

apply_changes-IsDone :
    (o : Outside) (cfg : Config) (req : Request) (wd : Text) (commands : List Text)
    (log log' : List Action) (r : CodeResult)
    → PlanParts o cfg req wd commands
    → Applied o cfg req wd commands log log' r
    → IsDone o cfg req r log log'
apply_changes-IsDone o cfg req wd commands log log' r parts done =
    let carried =
      plan_files-Carried o wd (checkouts o req wd) req.files parts.files_planned parts.from_files in
    record {
      wd = wd;
      commands = carried.more;
      actions = carried.actions;
      resolved = parts.resolved;
      planned = carried.planned;
      reported =
          done.reported
          ∙ parts.whole
          ∙ ap (λ l. l ++ publish o cfg req wd) carried.same
          ∙ append_assoc (checkouts o req wd) carried.more (publish o cfg req wd);
      performed =
          done.final
          ∙ ap (λ m. m ++ publish_actions cfg req wd) (carried.carried_out _ done.mid done.written)
          ∙ regroup log _ _ carried.actions (publish_actions cfg req wd);
    }
  where
    regroup :
        (l : List Action) (a b : Action) (m n : List Action)
        → (((l ++ a ∷ []) ++ b ∷ []) ++ m) ++ n ≡ l ++ a ∷ b ∷ (m ++ n)
    regroup l a b m n = simp append_assoc refl

-- Where `Execute` returns a result and is no dry run, it has done what it reports: the actions
-- since its start are the two checkouts, for each file of the request in turn the folder, the
-- write and the `git add` at its safe path, then the commit, the push and the question for the
-- hash; and the planned commands of the result name these in the same order.
pub execute-IsDone :
    (o : Outside) (cfg : Config) (req : Request) (log log' : List Action) (r : CodeResult)
    → req.dry_run ≡ false
    → execute o cfg req log ≡ (ok r, log')
    → IsDone o cfg req r log log'
unfolding execute
execute-IsDone o cfg req log log' r wet h =
    let (planned, mid, e, h1) = next_ok (plan o cfg req, log) _ h in
    let (same, start) = pair_parts e in
    let h2 = rw wet at h1 in
    apply_changes-IsDone o cfg req planned.0 planned.1 log log' r
      (plan-PlanParts o cfg req _ _ same)
      (apply_changes-Applied o cfg req _ _ log log' r (rw (← start) at h2))

-- What a dry run says of the run that does the same: the commands that it reports, if it succeeds; and
-- where the dry run fails, it fails alike.
abbrev pub Foretold : Result CodeError CodeResult → Result CodeError CodeResult → Type 0
Foretold (ok p) (ok r) = (p.planned_commands ≡ r.planned_commands) × (p.commit_hash ≡ [])
Foretold (ok p) (err e) = Unit
Foretold (err e) (ok r) = ⊥
Foretold (err e) (err e') = e ≡ e'

-- A dry run performs no action, whatever becomes of it. Where the same request, not as a dry run,
-- succeeds, the dry run returns the planned commands which that run reports, and no hash; and where the
-- dry run fails, that run fails with the same error.
pub dry_run_previews :
    (o : Outside) (cfg : Config) (req : Request) (log : List Action)
    → ((execute o cfg (record req { dry_run = true }) log).1 ≡ log)
      × Foretold
          (execute o cfg (record req { dry_run = true }) log).0
          (execute o cfg (record req { dry_run = false }) log).0
unfolding execute plan
dry_run_previews o cfg req log = by_plan (plan o cfg (record req { dry_run = false })) refl
  where
    by_plan :
        (p : Result CodeError (Text × List Text))
        → plan o cfg (record req { dry_run = false }) ≡ p
        → ((next {B = CodeResult}
              (p, log)
              (λ w. pure (record { planned_commands = w.1; commit_hash = [] }))).1
            ≡ log)
          × Foretold
              (next {B = CodeResult}
                (p, log)
                (λ w. pure (record { planned_commands = w.1; commit_hash = [] }))).0
              (next {B = CodeResult}
                (p, log)
                (λ w. apply_changes o cfg (record req { dry_run = false }) w.0 w.1)).0
    by_plan (err e) q = (refl, refl)
    by_plan (ok (wd, commands)) q =
        (refl, by_run (apply_changes o cfg (record req { dry_run = false }) wd commands log) refl)
      where
        by_run :
            (x : Result CodeError CodeResult × List Action)
            → apply_changes o cfg (record req { dry_run = false }) wd commands log ≡ x
            → Foretold (ok (record { planned_commands = commands; commit_hash = [] })) x.0
        by_run (err e, end) h = tt
        by_run (ok r, end) h = (
          sym
              (apply_changes-Applied o cfg (record req { dry_run = false }) wd commands log end r
                h).reported,
          refl,
        )
