-- ===== src/Migrations.antt =====
-- ApplyMigrations of toolhub/internal/db/migrate.go. The database is the versions in schema_migrations and
-- the scripts that were committed, newest first. A transaction that is rolled back, or whose commit
-- fails, leaves nothing.
pub mod Once
pub mod Rerun
mod Tests
use ai_team_toolhub.Base.{
  ℕ, ◌+◌, Bool, true, false, List, [], ◌∷◌, Option, none, some, Result, ok, err, any, if◌then◌else◌,
  ltb, ◌==◌, followed,
}
use ai_team_toolhub.Text.{Text, codes, text_eq, trim_prefix}

pub record Schema : Type 0 where
  pub applied : List Text
  pub executed : List Text
  pub ticks : ℕ

-- What the n-th call of the database answers, an error or none; the files that are embedded, by the
-- pattern migrations/*.sql, and their contents.
pub record Outside : Type 0 where
  pub fault : ℕ → Option Text
  pub glob : Result Text (List Text)
  pub read_file : Text → Result Text Text

-- The step that failed, with the version, and the error.
pub data MigrateError : Type 0 where
  failed : Text → Text → Text → MigrateError

abbrev pub Action : Type 0 → Type 0
Action A = Schema → Result MigrateError A × Schema

abbrev pub ticked : Schema → Schema
ticked s = record s { ticks = s.ticks + 1 }

-- A call that fails, or gives `value` and leads to `change`.
unfoldable pub call :
    {A : Type 0} → Outside → Text → Text → (Schema → A) → (Schema → Schema) → Action A
call o what version value change s = elim (o.fault s.ticks) [
  | some msg ↦ (err (failed what version msg), ticked s)
  | none ↦ (ok (value s), change (ticked s))
]

abbrev pub is_applied : Text → Schema → Bool
is_applied version s = any (λ v. text_eq v version) s.applied

abbrev pub same : Schema → Schema
same s = s

-- The transaction: the script, the row of the version, and the commit.
unfoldable pub in_transaction : Outside → Text → Text → Action (Unit {0})
in_transaction o version script s =
    followed
      (λ begun t.
        followed
          (λ run u.
            followed
              (λ noted v.
                call o (codes "commit migration") version (λ x. tt)
                  (λ x. record x { applied = version ∷ x.applied; executed = script ∷ x.executed })
                  v)
              (call o (codes "record migration") version (λ x. tt) same u))
          (call o (codes "apply migration") version (λ x. tt) same t))
      (call o (codes "begin migration") version (λ x. tt) same s)

unfoldable pub apply_script : Outside → Text → Result Text Text → Action (Unit {0})
apply_script o version (err msg) s = (err (failed (codes "read migration") version msg), s)
apply_script o version (ok script) s = in_transaction o version script s

unfoldable pub version_of : Text → Text
unfolding trim_prefix
version_of path = trim_prefix path (codes "migrations/")

abbrev pub unless_applied : Outside → Text → Bool → Action (Unit {0})
unless_applied o path true s = (ok tt, s)
unless_applied o path false s = apply_script o (version_of path) (o.read_file path) s

-- One round of the loop.
unfoldable pub migrate_one : Outside → Text → Action (Unit {0})
migrate_one o path s =
    followed (λ already t. unless_applied o path already t)
      (call o (codes "check migration") (version_of path) (is_applied (version_of path)) same s)

unfoldable pub migrate_all : Outside → List Text → Action (Unit {0})
migrate_all o [] s = (ok tt, s)
migrate_all o (path ∷ paths) s = followed (λ done t. migrate_all o paths t) (migrate_one o path s)

-- sort.Strings
unfoldable pub before : Text → Text → Bool
before [] t = true
before (c ∷ s) [] = false
before (c ∷ s) (d ∷ t) = let rest = before s t in if c == d then rest else ltb c d

unfoldable pub insert : Text → List Text → List Text
unfolding before
insert x [] = x ∷ []
insert x (y ∷ ys) = let rest = insert x ys in if before x y then x ∷ y ∷ ys else y ∷ rest

unfoldable pub sort : List Text → List Text
unfolding insert
sort [] = []
sort (x ∷ xs) = insert x (sort xs)

abbrev pub with_entries : Outside → Result Text (List Text) → Action (Unit {0})
with_entries o (err msg) s = (err (failed (codes "list migrations") [] msg), s)
with_entries o (ok entries) s = migrate_all o (sort entries) s

-- ApplyMigrations
unfoldable pub apply_migrations : Outside → Action (Unit {0})
apply_migrations o s =
    followed (λ created t. with_entries o o.glob t)
      (call o (codes "create schema_migrations") [] (λ x. tt) same s)
