-- ===== src/Issues/Batch/Counts.antt =====
-- The counts of a batch response.
use ai_team_toolhub.Base.{
  ℕ, suc, ◌+◌, ◌≤◌, ◌≡◌, refl, sym, ap, ◌∙◌, Bool, true, false, [], ◌∷◌, ◌++◌, Option, none, some,
  length, length-append, one, count, count-append, Result, ok, err, arith,
}
use ai_team_toolhub.Text.{Text}
use ai_team_toolhub.Issues.{BatchMode, strict_mode}
use ai_team_toolhub.Issues.Batch.{BatchResult, Progress, created_one, replayed_one}

pub has_error : BatchResult → Bool
has_error r = elim r.error [ none ↦ false | some msg ↦ true ]

-- After `i` issues: a result for each, and the counts are those of the results.
pub record Counts (i : ℕ) (p : Progress) : Type 0 where
  pub listed : length p.results ≡ i
  pub replays : p.replayed_count ≡ count (λ r. r.replayed) p.results
  pub errors : p.err_count ≡ count has_error p.results
  pub bounded : p.err_count + p.replayed_count ≤ i

-- While the loop goes on in the strict mode, there is no error.
pub record Running (mode : BatchMode) (i : ℕ) (p : Progress) : Type 0 where
  pub counts : Counts i p
  pub strict : mode ≡ strict_mode → p.err_count ≡ 0

-- One more result, and the counts that go with it.
add-Counts :
    (i : ℕ) (p p' : Progress) (r : BatchResult)
    → Counts i p
    → p'.results ≡ p.results ++ r ∷ []
    → p'.replayed_count ≡ p.replayed_count + one r.replayed
    → p'.err_count ≡ p.err_count + one (has_error r)
    → one (has_error r) + one r.replayed ≤ 1
    → Counts (suc i) p'
add-Counts i p p' r h e ereplayed eerr b = record {
  listed = ap length e ∙ length-append p.results (r ∷ []) ∙ omega (arith, h.listed);
  replays =
      ereplayed
      ∙ omega (arith, h.replays, count-append (λ x. x.replayed) p.results (r ∷ []))
      ∙ sym (ap (count (λ x. x.replayed)) e);
  errors =
      eerr
      ∙ omega (arith, h.errors, count-append has_error p.results (r ∷ []))
      ∙ sym (ap (count has_error) e);
  bounded = omega (arith, h.bounded, ereplayed, eerr, b);
}

pub replayed_one-Counts :
    (i : ℕ) (old : Text) (p : Progress) → Counts i p → Counts (suc i) (replayed_one old p)
unfolding replayed_one has_error
replayed_one-Counts i old p h =
    add-Counts i p _ (record { issue = some old; replayed = true; error = none }) h refl
      (omega arith) (omega arith) (omega arith)

pub created_one-Counts :
    (i : ℕ) (r : Option (Result Text Text)) (p : Progress)
    → Counts i p
    → Counts (suc i) (created_one r p)
unfolding created_one has_error
created_one-Counts i none p h = add-Counts i p _ _ h refl (omega arith) (omega arith) (omega arith)
created_one-Counts i (some (ok x)) p h =
    add-Counts i p _ _ h refl (omega arith) (omega arith) (omega arith)
created_one-Counts i (some (err x)) p h =
    add-Counts i p _ _ h refl (omega arith) (omega arith) (omega arith)
