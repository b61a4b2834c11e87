-- ===== src/Repair/Attempts/Ends.antt =====
-- How the loop over the iterations ends.
use ai_team_toolhub.Base.{
  ℕ, zero, suc, ◌+◌, ◌<◌, ◌≡◌, refl, sym, ap, ◌∙◌, ◌⊎◌, inl, inr, Bool, true, false, List, [], ◌∷◌,
  ◌++◌, append-nil, append_assoc, arith, Bool-cases,
}
use ai_team_toolhub.Qa.Runner.{Runner}
use ai_team_toolhub.Repair.{Outside}
use ai_team_toolhub.Repair.Attempts.{
  Attempt, passed, attempt, Loop, loop_start, attempted, repair_loop,
}

-- The attempts number `i`, `i + 1` and so on, `n` of them.
pub attempts_from : Outside → Runner → ℕ → ℕ → List Attempt
attempts_from o r i zero = []
attempts_from o r i (suc n) = attempt o r i ∷ attempts_from o r (suc i) n

-- None of the attempts number `i` to `i + n - 1` passes.
abbrev pub AllFail : Outside → Runner → ℕ → ℕ → Type 0
AllFail o r i n = (j : ℕ) → j < n → passed (attempt o r (i + j)) ≡ false

-- Of at most `n` rounds that begin with number `i`, the last one passed and no other, or all `n` were
-- made and none passed.
abbrev pub Verdict : Outside → Runner → ℕ → ℕ → ℕ → Bool → Type 0
Verdict o r i n rounds qa_passed =
    ((m : ℕ) × (rounds ≡ suc m)
      × (m < n)
      × AllFail o r i m
      × (passed (attempt o r (i + m)) ≡ true)
      × (qa_passed ≡ true))
    ⊎ (rounds ≡ n) × AllFail o r i n × (qa_passed ≡ false)

pub record Ends (o : Outside) (r : Runner) (i n : ℕ) (before : List Attempt) (res : Loop)
    : Type 0 where
  pub rounds : ℕ
  pub counted : suc res.iterations_run ≡ i + rounds
  pub listed : res.qa_attempts ≡ before ++ attempts_from o r i rounds
  pub verdict : Verdict o r i n rounds res.qa_passed

here : (o : Outside) (r : Runner) (i : ℕ) → passed (attempt o r (i + 0)) ≡ passed (attempt o r i)
here o r i = ap (λ x. passed (attempt o r x)) (omega arith)

shift :
    (o : Outside) (r : Runner) (i j : ℕ)
    → passed (attempt o r (i + suc j)) ≡ passed (attempt o r (suc i + j))
shift o r i j = ap (λ x. passed (attempt o r x)) (omega arith)

module _ (o : Outside) (r : Runner) (i : ℕ) (failed : passed (attempt o r i) ≡ false) where
  AllFail-suc : (n : ℕ) → AllFail o r (suc i) n → AllFail o r i (suc n)
  AllFail-suc n h zero k = here o r i ∙ failed
  AllFail-suc n h (suc j) k = shift o r i j ∙ h j (omega arith)

  Verdict-suc :
      (n rounds : ℕ) (b : Bool)
      → Verdict o r (suc i) n rounds b
      → Verdict o r i (suc n) (suc rounds) b
  Verdict-suc n rounds b (inl (m, e, k, fails, p, q)) =
      inl (suc m, ap suc e, omega arith, AllFail-suc m fails, shift o r i m ∙ p, q)
  Verdict-suc n rounds b (inr (e, fails, q)) = inr (ap suc e, AllFail-suc n fails, q)

repair_loop-Ends' :
    (o : Outside) (r : Runner) (i n : ℕ) (st : Loop)
    → suc st.iterations_run ≡ i
    → st.qa_passed ≡ false
    → Ends o r i n st.qa_attempts (repair_loop o r i n st)
unfolding repair_loop attempted attempts_from
repair_loop-Ends' o r i zero st e q = record {
  rounds = 0;
  counted = e ∙ omega arith;
  listed = sym (append-nil st.qa_attempts);
  verdict = inr (refl, (λ j k. absurd (omega arith)), q);
}
repair_loop-Ends' o r i (suc n) st e q = elim (Bool-cases (passed (attempt o r i))) [
  | inl p ↦
      rw (p, repair_loop, attempted)
        (record {
          rounds = 1;
          counted = omega arith;
          listed = refl;
          verdict = inl (0, refl, omega arith, (λ j k. absurd (omega arith)), here o r i ∙ p, refl);
        })
  | inr p ↦
      rw (p, repair_loop, attempted)
        (let rest =
            repair_loop-Ends' o r (suc i) n
              (record {
                iterations_run = i;
                qa_passed = false;
                qa_attempts = st.qa_attempts ++ attempt o r i ∷ [];
              })
              refl refl in
          record {
            rounds = suc rest.rounds;
            counted = rest.counted ∙ omega arith;
            listed = rest.listed ∙ append_assoc st.qa_attempts (attempt o r i ∷ []) _;
            verdict = Verdict-suc o r i p n rest.rounds _ rest.verdict;
          })
]

-- The loop makes at least one round and at most `n`, if `n` is positive; it numbers them from 1 and
-- keeps the attempt of each, in order. It stops after the first round in which neither the tests nor
-- the linter returned an error, and then `qaPassed` is set; if there is none, it makes `n` rounds and
-- `qaPassed` is not set.
pub repair_loop-Ends :
    (o : Outside) (r : Runner) (n : ℕ) → Ends o r 1 n [] (repair_loop o r 1 n loop_start)
repair_loop-Ends o r n = repair_loop-Ends' o r 1 n loop_start refl refl
