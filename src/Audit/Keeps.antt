-- ===== src/Audit/Keeps.antt =====
-- Predicates of the state that the calls of toolhub/internal/db/db.go keep.
use ai_team_toolhub.Base.{◌≡◌, refl, ◌⊎◌, inl, inr, Bool, true, false, Option-cases, followed-keeps}
use ai_team_toolhub.Text.{Text}
use ai_team_toolhub.Audit.{State, Outside, attempt, ticked}
use ai_team_toolhub.Audit.Tables.{insert, select}

-- For a predicate that does not look at the number of calls.
module _ (P : State → Type 0) (tick : (t : State) → P t → P (ticked t)) (o : Outside)
    (what : Text) where
  pub attempt-keeps :
      (change : State → State) (s : State)
      → P s
      → ((t : State) → P t → P (change t))
      → P (attempt o what change s).1
  unfolding attempt
  attempt-keeps change s h changes = elim (Option-cases (o.fault s.ticks)) [
    | inl e ↦ rw (e, attempt) (changes (ticked s) (tick s h))
    | inr (msg, e) ↦ rw (e, attempt) (tick s h)
  ]

  pub insert-keeps :
      (taken : Bool) (change : State → State) (s : State)
      → P s
      → ((t : State) → P t → P (change t))
      → P (insert o what taken change s).1
  unfolding insert
  insert-keeps true change s h changes = tick s h
  insert-keeps false change s h changes = attempt-keeps change s h changes

  pub select-keeps :
      {A : Type 0} (query : State → A) (s : State) → P s → P (select o what query s).1
  unfolding select
  select-keeps query s h =
      followed-keeps P _ (attempt o what (λ t. t) s) (attempt-keeps (λ t. t) s h (λ t k. k))
        (λ done t k. k)

-- A call of `insert` has only counted, or there was no such key and the row is in.
pub insert-either :
    (o : Outside) (what : Text) (taken : Bool) (change : State → State) (s : State)
    → ((insert o what taken change s).1 ≡ ticked s)
      ⊎ ((taken ≡ false) × ((insert o what taken change s).1 ≡ change (ticked s)))
unfolding insert attempt
insert-either o what true change s = inl refl
insert-either o what false change s = elim (Option-cases (o.fault s.ticks)) [
  | inl e ↦ inr (refl, rw (e, insert, attempt) refl)
  | inr (msg, e) ↦ inl (rw (e, insert, attempt) refl)
]

pub attempt-either :
    (o : Outside) (what : Text) (change : State → State) (s : State)
    → ((attempt o what change s).1 ≡ ticked s) ⊎ ((attempt o what change s).1 ≡ change (ticked s))
unfolding attempt
attempt-either o what change s = elim (Option-cases (o.fault s.ticks)) [
  | inl e ↦ inr (rw (e, attempt) refl)
  | inr (msg, e) ↦ inl (rw (e, attempt) refl)
]
