-- ===== src/Migrations/Tests.antt =====
-- Two migrations, and a run that fails.
use ai_team_toolhub.Base.{
  ◌≡◌, refl, List, [], ◌∷◌, none, some, ok, All, ◌==◌, followed, if◌then◌else◌,
}
use ai_team_toolhub.Text.{Text, codes, text_eq}
use ai_team_toolhub.Migrations.{
  Schema, Outside, apply_migrations, migrate_all, migrate_one, apply_script, in_transaction, call,
  version_of, sort,
}
use ai_team_toolhub.Migrations.Once.{IsOnce, Applied, apply_migrations-IsOnce}
use ai_team_toolhub.Migrations.Rerun.{apply_migrations_rerun}

abbrev files : List Text
files = codes "migrations/2" ∷ codes "migrations/1" ∷ []

abbrev outside : Outside
outside = record { fault = λ n. none; glob = ok files; read_file = λ path. ok path }

-- The commit of the second migration fails.
abbrev failing : Outside
failing = record {
  fault = λ n. if n == 10 then some (codes "gone") else none;
  glob = ok files;
  read_file = λ path. ok path;
}

abbrev empty : Schema
empty = record { applied = []; executed = []; ticks = 0 }

abbrev full : Schema
full = record {
  applied = codes "2" ∷ codes "1" ∷ [];
  executed = codes "migrations/2" ∷ codes "migrations/1" ∷ [];
  ticks = 11;
}

ran : apply_migrations outside empty ≡ (ok tt, full)
unfolding apply_migrations followed call migrate_all sort migrate_one apply_script in_transaction
    text_eq version_of
ran = refl

apply_migrations-IsOnce_example : IsOnce (apply_migrations failing empty).1
apply_migrations-IsOnce_example = apply_migrations-IsOnce failing empty tt

apply_migrations_rerun_example :
    All (Applied full) files
    × ((apply_migrations failing full).1.applied ≡ full.applied)
    × ((apply_migrations failing full).1.executed ≡ full.executed)
apply_migrations_rerun_example =
    apply_migrations_rerun outside failing files empty full refl refl ran
