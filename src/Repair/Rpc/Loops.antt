-- ===== src/Repair/Rpc/Loops.antt =====
-- Proofs that compare the variables of toolCodeRepairLoop with what handleCodeRepairLoop computes.
use ai_team_toolhub.Base.{
  ℕ, zero, suc, ◌≡◌, refl, sym, ap, subst, ◌∙◌, ◌⊎◌, inl, inr, Bool, true, false, not, ◌&&◌, List,
  [], ◌∷◌, ◌++◌, append_assoc, append-nil, Option, none, some, Result, ok, err, if◌then◌else◌,
  Result-cases,
}
use ai_team_toolhub.Text.{Text, codes}
use ai_team_toolhub.CodeOps.{CodeError, CodeResult, Action}
use ai_team_toolhub.CodeOps.Exec.{execute}
use ai_team_toolhub.Qa.{RunError}
use ai_team_toolhub.Qa.Runner.{Runner}
use ai_team_toolhub.Repair.{Outside, Job}
use ai_team_toolhub.Repair.Attempts.{
  is_nil, Attempt, passed, attempt, attempted, Loop, loop_start, repair_loop,
}
use ai_team_toolhub.Repair.Handler.{
  Event, Progress, RunErr, executed_with, write_code, attempt_events, loop_events, last_errors,
  roll_back, rounds, check_code, verify, submit, open_pull_request, result_status, request_of,
  pull_request_of, rollback_events,
}
use ai_team_toolhub.Repair.Rpc.Work.{
  Vars, after_execute, iterate_once, iterate, take_back, check_work, ask_pull_request, open_work,
  progress_of, work, rollback_counters,
}

loop_events-append :
    (tries : List Attempt) (a : Attempt)
    → loop_events (tries ++ a ∷ []) ≡ loop_events tries ++ attempt_events a
unfolding loop_events
loop_events-append [] a = append-nil (attempt_events a)
loop_events-append (b ∷ tries) a =
    ap (λ l. attempt_events b ++ l) (loop_events-append tries a)
    ∙ sym (append_assoc (attempt_events b) (loop_events tries) (attempt_events a))

last_errors-append :
    (tries : List Attempt) (a : Attempt) → last_errors (tries ++ a ∷ []) ≡ (a.test.err, a.lint.err)
unfolding last_errors
last_errors-append [] a = refl
last_errors-append (b ∷ []) a = refl
last_errors-append (b ∷ c ∷ tries) a = last_errors-append (c ∷ tries) a

-- The variables after the iterations that `st` tells of, begun with `v`.
abbrev told : Vars → Loop → List Event → Option RunError × Option RunError → Vars
told v st es errors = record v {
  events = es;
  iterations_run = st.iterations_run;
  qa_passed = st.qa_passed;
  qa_attempts = st.qa_attempts;
  last_test_err = errors.0;
  last_lint_err = errors.1;
}

abbrev vars_at : Vars → Loop → Vars
vars_at v st = told v st (v.events ++ loop_events st.qa_attempts) (last_errors st.qa_attempts)

iterate_once-attempted :
    (o : Outside) (r : Runner) (i : ℕ) (v : Vars) (st : Loop)
    → iterate_once o r i (vars_at v st) ≡ vars_at v (attempted o r i st)
unfolding iterate_once attempted attempt_events passed is_nil attempt
iterate_once-attempted o r i v st =
    let a = attempt o r i in
    ap (λ es. told v (attempted o r i st) es (a.test.err, a.lint.err))
      (append_assoc v.events (loop_events st.qa_attempts) (attempt_events a)
        ∙ ap (λ l. v.events ++ l) (sym (loop_events-append st.qa_attempts a)))
    ∙ ap (told v (attempted o r i st) (v.events ++ loop_events (st.qa_attempts ++ a ∷ [])))
        (sym (last_errors-append st.qa_attempts a))

iterate-repair_loop :
    (o : Outside) (r : Runner) (i n : ℕ) (v : Vars) (st : Loop)
    → iterate o r i n (vars_at v st) ≡ vars_at v (repair_loop o r i n st)
unfolding iterate repair_loop
iterate-repair_loop o r i zero v st = refl
iterate-repair_loop o r i (suc n) v st =
    ap (λ w. let more = iterate o r (suc i) n w in if w.qa_passed then w else more)
      (iterate_once-attempted o r i v st)
    ∙ by (attempted o r i st).qa_passed (iterate-repair_loop o r (suc i) n v (attempted o r i st))
  where
    by :
        (b : Bool)
        → iterate o r (suc i) n (vars_at v (attempted o r i st))
          ≡ vars_at v (repair_loop o r (suc i) n (attempted o r i st))
        → (if b
            then vars_at v (attempted o r i st)
            else iterate o r (suc i) n (vars_at v (attempted o r i st)))
          ≡ vars_at v
              (if b then attempted o r i st else repair_loop o r (suc i) n (attempted o r i st))
    by true q = refl
    by false q = q

-- The variables agree with what the handler has, and the status is the first one unless `runErr` is set.
pub record Agrees (v : Vars) (p : Progress) : Type 0 where
  pub progress : progress_of v ≡ p
  pub status : (v.status ≡ codes "completed") ⊎ (is_nil v.run_err ≡ false)

rollback_counters-same : (es : List CodeError) → rollback_counters es ≡ rollback_events es
unfolding rollback_events
rollback_counters-same [] = refl
rollback_counters-same (e ∷ es) = refl

module _ (o : Outside) (job : Job) where
  abbrev last : Loop
  last = repair_loop o job.qa 1 (rounds job.max_iterations) loop_start

  abbrev looped : Progress → Progress
  looped p = record p { events = p.events ++ loop_events last.qa_attempts; qa = last }

  take_back-Agrees :
      (v : Vars)
      → progress_of (take_back o job (vars_at v last)) ≡ roll_back o job (looped (progress_of v))
  unfolding take_back roll_back
  take_back-Agrees v = simp rollback_counters-same refl

  checked-Agrees :
      (x : Result CodeError CodeResult × List Action)
      → Agrees (check_work o job (after_execute x)) (verify o job (executed_with x))
  unfolding check_work take_back after_execute verify executed_with check_code is_nil last_errors
      loop_events
  checked-Agrees (err e, log) = record { progress = refl; status = inl refl }
  checked-Agrees (ok r, log) =
      subst (λ w. Agrees w (verify o job (executed_with (ok r, log)))) (sym run_on)
        (by job.body.dry_run last.qa_passed)
    where
      v : Vars
      v = after_execute (ok r, log)

      p : Progress
      p = executed_with (ok r, log)

      run_on : check_work o job (after_execute (ok r, log)) ≡ (
          if not job.body.dry_run
          then (if last.qa_passed then vars_at v last else take_back o job (vars_at v last))
          else v)
      run_on =
          ap
            (λ w.
              if not job.body.dry_run then (if w.qa_passed then w else take_back o job w) else v)
            (iterate-repair_loop o job.qa 1 (rounds job.max_iterations) v loop_start)

      by :
          (d c : Bool)
          → Agrees
              (if not d
                then (if c then vars_at v last else take_back o job (vars_at v last))
                else v)
              (if d then p else if c then looped p else roll_back o job (looped p))
      by true c = record { progress = refl; status = inl refl }
      by false true = record { progress = refl; status = inl refl }
      by false false = record { progress = take_back-Agrees v; status = inr refl }

  Settled : Vars → Type 0
  Settled v = (v.status ≡ codes "completed") ⊎ (is_nil v.run_err ≡ false)

  ask-Agrees :
      (v : Vars) → Settled v → Agrees (ask_pull_request o job v) (submit o job (progress_of v))
  unfolding ask_pull_request submit pull_request_of is_nil Settled
  ask-Agrees v s = elim (Result-cases (o.create_pull_request (pull_request_of job.run job.body))) [
    | inl (id, e) ↦ rw (e, ask_pull_request, submit) (record { progress = refl; status = s })
    | inr (msg, e) ↦
        rw (e, ask_pull_request, submit) (record { progress = refl; status = inr refl })
  ]

  opened-Agrees :
      (v : Vars) → Settled v → Agrees (open_work o job v) (open_pull_request o job (progress_of v))
  unfolding open_work open_pull_request is_nil Settled
  opened-Agrees v s = by v.run_err (not job.body.dry_run && v.qa_passed)
    where
      by :
          (e : Option RunErr) (c : Bool)
          → Agrees
              (if is_nil e && c then ask_pull_request o job v else v)
              (elim e as (λ _. Progress) [
                | some x ↦ progress_of v
                | none ↦ if c then submit o job (progress_of v) else progress_of v
              ])
      by (some x) c = record { progress = refl; status = s }
      by none true = ask-Agrees v s
      by none false = record { progress = refl; status = s }

  -- The work of the tool leads to what the handler has.
  pub work-Agrees : Agrees (work o job) (open_pull_request o job (verify o job (write_code o job)))
  unfolding work write_code request_of Settled
  work-Agrees =
      let x = execute o.code job.code (request_of job.body) [] in
      let c = checked-Agrees x in
      subst (λ p. Agrees (work o job) (open_pull_request o job p)) c.progress
        (opened-Agrees (check_work o job (after_execute x)) c.status)

pub status_of-result :
    (dry_run : Bool) (e : Option RunErr) (status : Text)
    → (status ≡ codes "completed") ⊎ (is_nil e ≡ false)
    → (if not (is_nil e) then codes "failed" else if dry_run then codes "dry_run" else status)
      ≡ result_status dry_run e
unfolding is_nil result_status
status_of-result dry_run (some e) status h = refl
status_of-result true none status h = refl
status_of-result false none status (inl q) = q
status_of-result false none status (inr q) = cc
