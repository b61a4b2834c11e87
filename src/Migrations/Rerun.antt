-- ===== src/Migrations/Rerun.antt =====
-- Proofs about a run of ApplyMigrations and a later one, toolhub/internal/db/migrate.go.
use ai_team_toolhub.Base.{
  ◌≡◌, refl, sym, ap, subst, ◌∙◌, inl, inr, Bool, true, false, ◌||◌, List, [], ◌∷◌, Result, ok, err,
  any, All, if◌then◌else◌, Option-cases, followed-ok, followed-keeps, followed-leads, arith,
}
use ai_team_toolhub.Text.{Text, codes, text_eq}
use ai_team_toolhub.Text.Laws.{text_eq_self}
use ai_team_toolhub.Migrations.{
  Schema, Outside, failed, ticked, call, is_applied, same, in_transaction, apply_script, version_of,
  unless_applied, migrate_one, migrate_all, before, insert, sort, with_entries, apply_migrations,
}
use ai_team_toolhub.Migrations.Once.{Applied, call-keeps, call-ok, in_transaction-leads}

-- The tables that a run leaves alone.
abbrev Frozen : Schema → Schema → Type 0
Frozen s t = (t.applied ≡ s.applied) × (t.executed ≡ s.executed)

Frozen-Applied : (s t : Schema) (path : Text) → Frozen s t → Applied s path → Applied t path
Frozen-Applied s t path h a = ap (λ rows. any (λ v. text_eq v (version_of path)) rows) h.0 ∙ a

migrate_one-Frozen :
    (o : Outside) (path : Text) (s t : Schema)
    → Applied s path
    → Frozen s t
    → Frozen s (migrate_one o path t).1
unfolding migrate_one
migrate_one-Frozen o path s t a h =
    let version = version_of path in
    followed-leads (Frozen s) (Frozen s) _ _
      (call-keeps (Frozen s) (λ x k. k) o (codes "check migration") version (is_applied version)
        same t h (λ x k. k))
      (λ x k. k)
      (λ already u q k.
        let (value, state) = call-ok o (codes "check migration") version (is_applied version) t q in
        let yes : already ≡ true = sym value ∙ Frozen-Applied s t path h a in
        subst (λ b. Frozen s (unless_applied o path b u).1) (sym yes) k)

migrate_all-Frozen :
    (o : Outside) (paths : List Text) (s t : Schema)
    → All (Applied s) paths
    → Frozen s t
    → Frozen s (migrate_all o paths t).1
unfolding migrate_all
migrate_all-Frozen o [] s t a h = h
migrate_all-Frozen o (path ∷ paths) s t a h =
    followed-keeps (Frozen s) _ _ (migrate_one-Frozen o path s t a.0 h)
      (λ done u k. migrate_all-Frozen o paths s u a.1 k)

-- What is applied stays so, and a round that succeeds has applied its version.
apply_script-Applied :
    (o : Outside) (path version : Text) (script : Result Text Text) (s : Schema)
    → Applied s path
    → Applied (apply_script o version script s).1 path
unfolding apply_script
apply_script-Applied o path version (err msg) s a = a
apply_script-Applied o path version (ok script) s a =
    in_transaction-leads (λ t. Applied t path) (λ t. Applied t path) (λ t k. k) (λ t k. k) o version
      script s a (λ t k. ground (arith, k))

migrate_one-Applied :
    (o : Outside) (path other : Text) (s : Schema)
    → Applied s other
    → Applied (migrate_one o path s).1 other
unfolding migrate_one
migrate_one-Applied o path other s a =
    followed-keeps (λ t. Applied t other) _ _
      (call-keeps (λ t. Applied t other) (λ t k. k) o (codes "check migration") _ _ same s a
        (λ t k. k))
      (λ already t k. by already t k)
  where
    by :
        (already : Bool) (t : Schema)
        → Applied t other
        → Applied (unless_applied o path already t).1 other
    by true t k = k
    by false t k = apply_script-Applied o other (version_of path) (o.read_file path) t k

call-changed :
    {A : Type 0} (o : Outside) (what version : Text) (value : Schema → A) (change : Schema → Schema)
    (s : Schema) {a : A} {t : Schema}
    → call o what version value change s ≡ (ok a, t)
    → change (ticked s) ≡ t
unfolding call
call-changed o what version value change s q = elim (Option-cases (o.fault s.ticks)) [
  | inl e ↦
      let h : call o what version value change s ≡ (ok (value s), change (ticked s)) =
        rw (e, call) refl in
      ap (λ p. p.1) (sym h ∙ q)
  | inr (msg, e) ↦
      let h : call o what version value change s ≡ (err (failed what version msg), ticked s) =
        rw (e, call) refl in
      cc
]

apply_script_done :
    (o : Outside) (version : Text) (script : Result Text Text) (s : Schema) {t : Schema}
    → apply_script o version script s ≡ (ok tt, t)
    → is_applied version t ≡ true
unfolding apply_script in_transaction
apply_script_done o version (err msg) s q = cc
apply_script_done o version (ok script) s q =
    let (begun, t1, e1, q1) =
      followed-ok _ (call o (codes "begin migration") version (λ x. tt) same s) q in
    let (run, t2, e2, q2) =
      followed-ok _ (call o (codes "apply migration") version (λ x. tt) same t1) q1 in
    let (noted, t3, e3, q3) =
      followed-ok _ (call o (codes "record migration") version (λ x. tt) same t2) q2 in
    subst (λ t. is_applied version t ≡ true) (call-changed o _ version _ _ t3 q3)
      (ap (λ b. b || any (λ v. text_eq v version) t3.applied) (text_eq_self version))

migrate_one_done :
    (o : Outside) (path : Text) (s : Schema) {t : Schema}
    → migrate_one o path s ≡ (ok tt, t)
    → Applied t path
unfolding migrate_one
migrate_one_done o path s {t = t} q =
    let version = version_of path in
    let (already, t1, e1, q1) =
      followed-ok _ (call o (codes "check migration") version (is_applied version) same s) q in
    let (value, state) = call-ok o (codes "check migration") version (is_applied version) s e1 in
    by already t1 value state q1
  where
    by :
        (already : Bool) (t1 : Schema)
        → is_applied (version_of path) s ≡ already
        → ticked s ≡ t1
        → unless_applied o path already t1 ≡ (ok tt, t)
        → Applied t path
    by true t1 value state q1 = subst (λ u. Applied u path) (state ∙ ap (λ p. p.1) q1) value
    by false t1 value state q1 = apply_script_done o (version_of path) (o.read_file path) t1 q1

migrate_all-Applied :
    (o : Outside) (paths : List Text) (other : Text) (s : Schema)
    → Applied s other
    → Applied (migrate_all o paths s).1 other
unfolding migrate_all
migrate_all-Applied o [] other s a = a
migrate_all-Applied o (path ∷ paths) other s a =
    followed-keeps (λ t. Applied t other) _ _ (migrate_one-Applied o path other s a)
      (λ done t k. migrate_all-Applied o paths other t k)

migrate_all_done :
    (o : Outside) (paths : List Text) (s : Schema) {t : Schema}
    → migrate_all o paths s ≡ (ok tt, t)
    → All (Applied t) paths
unfolding migrate_all
migrate_all_done o [] s q = tt
migrate_all_done o (path ∷ paths) s q =
    let (done, t1, e1, q1) = followed-ok _ (migrate_one o path s) q in
    (
      subst (λ t. Applied t path) (ap (λ p. p.1) q1)
          (migrate_all-Applied o paths path t1 (migrate_one_done o path s e1)),
      migrate_all_done o paths t1 q1,
    )

-- Sorting loses nothing.
module _ (P : Text → Type 0) where
  insert-All : (x : Text) (ys : List Text) → All P (insert x ys) → P x × All P ys
  unfolding insert
  insert-All x [] h = h
  insert-All x (y ∷ ys) h = by (before x y) (insert-All x ys) h
    where
      by :
          (b : Bool)
          → (All P (insert x ys) → P x × All P ys)
          → All P (if b then x ∷ y ∷ ys else y ∷ insert x ys)
          → P x × All P (y ∷ ys)
      by true below k = k
      by false below k = let (px, rest) = below k.1 in (px, (k.0, rest))

  sort-All : (xs : List Text) → All P (sort xs) → All P xs
  unfolding sort
  sort-All [] h = tt
  sort-All (x ∷ xs) h = let (px, rest) = insert-All x (sort xs) h in (px, sort-All xs rest)

-- After a run of ApplyMigrations that returned no error every embedded migration is recorded as applied;
-- and a later run of a program with the same files, whatever fails in it, records and executes nothing.
pub apply_migrations_rerun :
    (o later : Outside) (entries : List Text) (s t : Schema)
    → o.glob ≡ ok entries
    → later.glob ≡ ok entries
    → apply_migrations o s ≡ (ok tt, t)
    → All (Applied t) entries
      × ((apply_migrations later t).1.applied ≡ t.applied)
      × ((apply_migrations later t).1.executed ≡ t.executed)
unfolding apply_migrations
apply_migrations_rerun o later entries s t files same_files q =
    let (created, t1, e1, q1) =
      followed-ok _ (call o (codes "create schema_migrations") [] (λ x. tt) same s) q in
    let ran : migrate_all o (sort entries) t1 ≡ (ok tt, t) =
      ap (λ g. with_entries o g t1) (sym files) ∙ q1 in
    let all = migrate_all_done o (sort entries) t1 ran in
    let frozen : Frozen t (apply_migrations later t).1 =
      followed-keeps (Frozen t) _ _
        (call-keeps (Frozen t) (λ x k. k) later (codes "create schema_migrations") [] (λ x. tt) same
          t (refl, refl) (λ x k. k))
        (λ done u k.
          subst (λ g. Frozen t (with_entries later g u).1) (sym same_files)
            (migrate_all-Frozen later (sort entries) t u all k)) in
    (sort-All (Applied t) entries all, frozen.0, frozen.1)
