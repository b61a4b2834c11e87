-- ===== src/Migrations/Once.antt =====
-- Proofs about the rows that ApplyMigrations records, toolhub/internal/db/migrate.go.
use ai_team_toolhub.Base.{
  ◌≡◌, refl, sym, ap, ◌∙◌, inl, inr, Bool, true, false, List, [], ◌∷◌, Result, ok, err, any,
  Option-cases, followed-keeps, followed-leads, ok_injective,
}
use ai_team_toolhub.Text.{Text, codes, text_eq}
use ai_team_toolhub.Migrations.{
  Schema, Outside, failed, ticked, call, is_applied, same, in_transaction, apply_script, version_of,
  unless_applied, migrate_one, migrate_all, sort, with_entries, apply_migrations,
}

-- No version stands twice, and a script was committed for each.
abbrev pub Once : List Text → List Text → Type 0
Once [] [] = Unit
Once (v ∷ vs) (script ∷ scripts) = (any (λ w. text_eq w v) vs ≡ false) × Once vs scripts
Once [] (script ∷ scripts) = ⊥
Once (v ∷ vs) [] = ⊥

abbrev pub IsOnce : Schema → Type 0
IsOnce s = Once s.applied s.executed

abbrev pub Applied : Schema → Text → Type 0
Applied s path = is_applied (version_of path) s ≡ true

module _ (P : Schema → Type 0) (tick : (t : Schema) → P t → P (ticked t)) where
  pub call-keeps :
      {A : Type 0} (o : Outside) (what version : Text) (value : Schema → A)
      (change : Schema → Schema) (s : Schema)
      → P s
      → ((t : Schema) → P t → P (change t))
      → P (call o what version value change s).1
  unfolding call
  call-keeps o what version value change s h changes = elim (Option-cases (o.fault s.ticks)) [
    | inl e ↦ rw (e, call) (changes (ticked s) (tick s h))
    | inr (msg, e) ↦ rw (e, call) (tick s h)
  ]

-- A predicate that holds before the transaction, and after its commit.
module _ (P Q : Schema → Type 0) (tickP : (t : Schema) → P t → P (ticked t))
    (weaken : (t : Schema) → P t → Q t) where
  call-leads :
      {A : Type 0} (o : Outside) (what version : Text) (value : Schema → A)
      (change : Schema → Schema) (s : Schema)
      → P s
      → ((t : Schema) → P t → Q (change t))
      → Q (call o what version value change s).1
  unfolding call
  call-leads o what version value change s h changes = elim (Option-cases (o.fault s.ticks)) [
    | inl e ↦ rw (e, call) (changes (ticked s) (tickP s h))
    | inr (msg, e) ↦ rw (e, call) (weaken (ticked s) (tickP s h))
  ]

  pub in_transaction-leads :
      (o : Outside) (version script : Text) (s : Schema)
      → P s
      → ((t : Schema)
          → P t
          → Q (record t { applied = version ∷ t.applied; executed = script ∷ t.executed }))
      → Q (in_transaction o version script s).1
  unfolding in_transaction
  in_transaction-leads o version script s h commit =
      followed-leads P Q _ _ (call-keeps P tickP o _ version _ same s h (λ t k. k)) weaken
        (λ begun t q k.
          followed-leads P Q _ _ (call-keeps P tickP o _ version _ same t k (λ t k. k)) weaken
            (λ run u q l.
              followed-leads P Q _ _ (call-keeps P tickP o _ version _ same u l (λ t k. k)) weaken
                (λ noted v q m. call-leads o _ version _ _ v m commit)))

pub call-ok :
    {A : Type 0} (o : Outside) (what version : Text) (value : Schema → A) (s : Schema) {a : A}
    {t : Schema}
    → call o what version value same s ≡ (ok a, t)
    → (value s ≡ a) × (ticked s ≡ t)
unfolding call
call-ok o what version value s {a = a} {t = t} q = elim (Option-cases (o.fault s.ticks)) [
  | inl e ↦
      let h : call o what version value same s ≡ (ok (value s), ticked s) = rw (e, call) refl in
      let k = sym h ∙ q in (ok_injective (ap (λ p. p.0) k), ap (λ p. p.1) k)
  | inr (msg, e) ↦
      let h : call o what version value same s ≡ (err (failed what version msg), ticked s) =
        rw (e, call) refl in
      cc
]

tick-IsOnce : (t : Schema) → IsOnce t → IsOnce (ticked t)
tick-IsOnce t h = h

-- The transaction adds a version that is not there.
apply_script-IsOnce :
    (o : Outside) (version : Text) (script : Result Text Text) (s : Schema)
    → IsOnce s
    → is_applied version s ≡ false
    → IsOnce (apply_script o version script s).1
unfolding apply_script
apply_script-IsOnce o version (err msg) s h new = h
apply_script-IsOnce o version (ok script) s h new =
    in_transaction-leads (λ t. IsOnce t × (is_applied version t ≡ false)) IsOnce (λ t k. k)
      (λ t k. k.0) o version script s (h, new) (λ t k. (k.1, k.0))

migrate_one-IsOnce :
    (o : Outside) (path : Text) (s : Schema) → IsOnce s → IsOnce (migrate_one o path s).1
unfolding migrate_one
migrate_one-IsOnce o path s h =
    let version = version_of path in
    followed-leads IsOnce IsOnce _ _
      (call-keeps IsOnce tick-IsOnce o (codes "check migration") version (is_applied version) same s
        h (λ t k. k))
      (λ t k. k)
      (λ already t q k.
        let (value, state) = call-ok o (codes "check migration") version (is_applied version) s q in
        checked already t k (value ∙ refl) state)
  where
    checked :
        (already : Bool) (t : Schema)
        → IsOnce t
        → is_applied (version_of path) s ≡ already
        → ticked s ≡ t
        → IsOnce (unless_applied o path already t).1
    checked true t k value state = k
    checked false t k value state =
        apply_script-IsOnce o (version_of path) (o.read_file path) t k
          (ap (is_applied (version_of path)) (sym state) ∙ value)

migrate_all-IsOnce :
    (o : Outside) (paths : List Text) (s : Schema) → IsOnce s → IsOnce (migrate_all o paths s).1
unfolding migrate_all
migrate_all-IsOnce o [] s h = h
migrate_all-IsOnce o (path ∷ paths) s h =
    followed-keeps IsOnce _ _ (migrate_one-IsOnce o path s h)
      (λ done t k. migrate_all-IsOnce o paths t k)

with_entries-IsOnce :
    (o : Outside) (entries : Result Text (List Text)) (s : Schema)
    → IsOnce s
    → IsOnce (with_entries o entries s).1
with_entries-IsOnce o (err msg) s h = h
with_entries-IsOnce o (ok entries) s h = migrate_all-IsOnce o (sort entries) s h

-- If no version is recorded twice and one script was committed for each, then so it is after
-- ApplyMigrations, whatever fails in it.
pub apply_migrations-IsOnce :
    (o : Outside) (s : Schema) → IsOnce s → IsOnce (apply_migrations o s).1
unfolding apply_migrations
apply_migrations-IsOnce o s h =
    followed-keeps IsOnce _ _
      (call-keeps IsOnce tick-IsOnce o (codes "create schema_migrations") [] (λ x. tt) same s h
        (λ t k. k))
      (λ created t k. with_entries-IsOnce o o.glob t k)
