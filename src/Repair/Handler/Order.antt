-- ===== src/Repair/Handler/Order.antt =====
-- When the repair loop opens a pull request, and when it rolls back.
use ai_team_toolhub.Base.{
  subst, ℕ, ◌+◌, ◌<◌, ◌≡◌, refl, sym, ap, ◌∙◌, ◌⊎◌, inl, inr, Bool, true, false, not, ◌&&◌, List,
  [], ◌++◌, any-append, Option, none, some, Result, ok, err, Result-cases, Bool-cases,
  if◌then◌else◌, arith,
}
use ai_team_toolhub.Text.{Text}
use ai_team_toolhub.CodeOps.{CodeError, CodeResult, Action}
use ai_team_toolhub.CodeOps.Exec.{execute}
use ai_team_toolhub.Repair.{Outside, Server, Body, Job, Refusal, check_request}
use ai_team_toolhub.Repair.Attempts.{passed, attempt, loop_start, repair_loop}
use ai_team_toolhub.Repair.Attempts.Ends.{AllFail, Verdict, repair_loop-Ends}
use ai_team_toolhub.Repair.Handler.{
  RunErr, code_failed, qa_failed, pull_request_of, Event, Progress, Answer, audit_failed, refused,
  request_of, executed_with, write_code, loop_events, roll_back, rounds, check_code, verify, submit,
  open_pull_request, finish, handle_code_repair_loop,
}
use ai_team_toolhub.Repair.Handler.Events.{
  opens, rolls, Flags, Flags-append, Flags-then, loop_events-Flags, rollback_events-Flags,
  finish-Flags,
}

-- No round of the loop passes, up to the limit of the job.
abbrev pub NonePasses : Outside → Job → Type 0
NonePasses o job = AllFail o job.qa 1 (rounds job.max_iterations)

-- A round passes within the limit, after others that do not.
abbrev pub SomePasses : Outside → Job → Type 0
SomePasses o job =
    (m : ℕ) × (m < rounds job.max_iterations)
    × AllFail o job.qa 1 m
    × (passed (attempt o job.qa (1 + m)) ≡ true)

loop_verdict :
    (o : Outside) (job : Job)
    → let st = repair_loop o job.qa 1 (rounds job.max_iterations) loop_start in
      SomePasses o job × (st.qa_passed ≡ true) ⊎ NonePasses o job × (st.qa_passed ≡ false)
loop_verdict o job = by_verdict (repair_loop-Ends o job.qa (rounds job.max_iterations)).verdict
  where
    by_verdict :
        {k : ℕ} {b : Bool}
        → Verdict o job.qa 1 (rounds job.max_iterations) k b
        → SomePasses o job × (b ≡ true) ⊎ NonePasses o job × (b ≡ false)
    by_verdict (inl (m, e, k, fails, p, q)) = inl ((m, k, fails, p), q)
    by_verdict (inr (e, fails, q)) = inr (fails, q)

-- `Execute` returns a result.
abbrev pub Written : Outside → Job → Type 0
Written o job = (x : CodeResult) × ((execute o.code job.code (request_of job.body) []).0 ≡ ok x)

-- What `runErr` and the branch of the code say of the events.
pub data Outcome (o : Outside) (job : Job) : Bool → Bool → Type 0 where
  not_written :
      {e : CodeError}
      → (execute o.code job.code (request_of job.body) []).0 ≡ err e
      → Outcome o job false false
  previewed : Written o job → job.body.dry_run ≡ true → Outcome o job false false
  submitted :
      Written o job
      → job.body.dry_run ≡ false
      → SomePasses o job
      → {id : Text} → o.create_pull_request (pull_request_of job.run job.body) ≡ ok id
      → Outcome o job true false
  not_submitted :
      Written o job
      → job.body.dry_run ≡ false
      → SomePasses o job
      → {msg : Text} → o.create_pull_request (pull_request_of job.run job.body) ≡ err msg
      → Outcome o job false false
  taken_back :
      Written o job → job.body.dry_run ≡ false → NonePasses o job → Outcome o job false true

-- The outcome and the events agree.
abbrev pub Told : Outside → Job → List Event → Type 0
Told o job es = (b c : Bool) × Outcome o job b c × Flags b c es

module _ (o : Outside) (job : Job) where
  abbrev after : Progress → Progress
  after p = open_pull_request o job (verify o job p)

  abbrev verify_on : Progress → Option RunErr → Progress
  verify_on p none = if job.body.dry_run then p else check_code o job p
  verify_on p (some e) = p

  abbrev open_on : Progress → Option RunErr → Progress
  open_on p none = if not job.body.dry_run && p.qa.qa_passed then submit o job p else p
  open_on p (some e) = p

  verify_failed : (p : Progress) (e : RunErr) → p.run_err ≡ some e → verify o job p ≡ p
  unfolding verify
  verify_failed p e q = ap (verify_on p) q

  open_failed : (p : Progress) (e : RunErr) → p.run_err ≡ some e → open_pull_request o job p ≡ p
  unfolding open_pull_request
  open_failed p e q = ap (open_on p) q

  after_failed : (p : Progress) (e : RunErr) → p.run_err ≡ some e → after p ≡ p
  after_failed p e q = ap (open_pull_request o job) (verify_failed p e q) ∙ open_failed p e q

  verify_wet :
      (p : Progress)
      → p.run_err ≡ none
      → verify o job p ≡ (if job.body.dry_run then p else check_code o job p)
  unfolding verify
  verify_wet p q = ap (verify_on p) q

  open_wet :
      (p : Progress)
      → p.run_err ≡ none
      → open_pull_request o job p
        ≡ (if not job.body.dry_run && p.qa.qa_passed then submit o job p else p)
  unfolding open_pull_request
  open_wet p q = ap (open_on p) q

  after_dry : (p : Progress) → p.run_err ≡ none → job.body.dry_run ≡ true → after p ≡ p
  after_dry p q d =
      ap (open_pull_request o job)
        (verify_wet p q ∙ ap (λ b. if b then p else check_code o job p) d)
      ∙ open_wet p q
      ∙ ap (λ b. if not b && p.qa.qa_passed then submit o job p else p) d

  submit-Told :
      (p : Progress)
      → Written o job
      → job.body.dry_run ≡ false
      → SomePasses o job
      → Flags false false p.events
      → Told o job (submit o job p).events
  unfolding submit opens rolls
  submit-Told p w d s h =
      elim (Result-cases (o.create_pull_request (pull_request_of job.run job.body))) [
        | inr (msg, e) ↦ rw (e, submit) (false, false, not_submitted w d s e, h)
        | inl (id, e) ↦
            rw (e, submit)
              (
                true,
                false,
                submitted w d s e,
                (
                  any-append opens p.events _ ∙ ground arith,
                  any-append rolls p.events _ ∙ ground arith,
                ),
              )
      ]

  abbrev looped : Progress → Progress
  looped p =
      let st = repair_loop o job.qa 1 (rounds job.max_iterations) loop_start in
      record p { events = p.events ++ loop_events st.qa_attempts; qa = st }

  rolled_back-Flags :
      (p : Progress) → Flags false false p.events → Flags false true (roll_back o job p).events
  unfolding roll_back
  rolled_back-Flags p h = Flags-then p.events _ h (rollback_events-Flags _)

  goes : (b : Bool) → job.body.dry_run ≡ false → b ≡ true → (not job.body.dry_run && b) ≡ true
  goes b d e = ground arith

  wet :
      (p : Progress)
      → Written o job
      → p.run_err ≡ none
      → job.body.dry_run ≡ false
      → Flags false false p.events
      → Told o job (after p).events
  unfolding check_code
  wet p w q d h =
      let st = repair_loop o job.qa 1 (rounds job.max_iterations) loop_start in
      let quiet = Flags-append p.events _ h (loop_events-Flags st.qa_attempts) in
      let verified = verify_wet p q ∙ ap (λ b. if b then p else check_code o job p) d in
      elim (loop_verdict o job) [
        | inl (s, b) ↦
            subst (λ x. Told o job x.events)
              (sym (
                ap (open_pull_request o job)
                  (verified ∙ ap (λ b. if b then looped p else roll_back o job (looped p)) b)
                ∙ open_wet (looped p) q
                ∙ ap (λ x. if x then submit o job (looped p) else looped p)
                    (goes st.qa_passed d b)))
              (submit-Told (looped p) w d s quiet)
        | inr (n, b) ↦
            subst (λ x. Told o job x.events)
              (sym (
                ap (open_pull_request o job)
                  (verified ∙ ap (λ b. if b then looped p else roll_back o job (looped p)) b)
                ∙ open_failed (roll_back o job (looped p)) qa_failed (unfold roll_back in refl)))
              (false, true, taken_back w d n, rolled_back-Flags (looped p) quiet)
      ]

  written-Told :
      (x : Result CodeError CodeResult × List Action)
      → execute o.code job.code (request_of job.body) [] ≡ x
      → Told o job (after (executed_with x)).events
  unfolding executed_with opens rolls
  written-Told (err e, log) q = (
    false,
    false,
    not_written (ap (λ y. y.0) q),
    subst (λ p. Flags false false p.events)
        (sym (after_failed (executed_with (err e, log)) (code_failed e) refl)) (refl, refl),
  )
  written-Told (ok r, log) q = elim (Bool-cases job.body.dry_run) [
    | inl d ↦ (
      false,
      false,
      previewed (r, ap (λ y. y.0) q) d,
      subst (λ p. Flags false false p.events) (sym (after_dry (executed_with (ok r, log)) refl d))
          (refl, refl),
    )
    | inr d ↦ wet (executed_with (ok r, log)) (r, ap (λ y. y.0) q) refl d (refl, refl)
  ]

module _ (o : Outside) (s : Server) (run_id : Text) (decoded : Result Text Body) where
  abbrev start_on : Job → Result Text Text → Answer
  start_on job (err msg) = record { reply = audit_failed msg; events = []; actions = [] }
  start_on job (ok step) = finish o job.body.dry_run (after o job (write_code o job))

  abbrev handle_on : Result Refusal Job → Answer
  handle_on (err x) = record { reply = refused x; events = []; actions = [] }
  handle_on (ok job) = start_on job o.start_step

  handled :
      (job : Job) (step : Text)
      → check_request o s run_id decoded ≡ ok job
      → o.start_step ≡ ok step
      → handle_code_repair_loop o s run_id decoded
        ≡ finish o job.body.dry_run (after o job (write_code o job))
  unfolding handle_code_repair_loop
  handled job step q k = ap handle_on q ∙ ap (start_on job) k

-- A request that passes the checks and whose step is started has one of five outcomes, and the events
-- tell which. `Execute` fails, or it succeeds in a dry run: there is neither a pull request nor a
-- roll-back. Else it succeeds and is no dry run, and an iteration within the limit passes, after others
-- that do not: the pull request is asked for, it is among the events exactly if GitHub opened it, and
-- nothing is rolled back. Or none passes up to the limit: the branch is rolled back and there is no pull
-- request.
pub repair_loop-Outcome :
    (o : Outside) (s : Server) (run_id : Text) (decoded : Result Text Body) (job : Job)
    (step : Text)
    → check_request o s run_id decoded ≡ ok job
    → o.start_step ≡ ok step
    → (b c : Bool) × Outcome o job b c
      × Flags b c (handle_code_repair_loop o s run_id decoded).events
unfolding write_code
repair_loop-Outcome o s run_id decoded job step q k =
    let (b, c, outcome, flags) = written-Told o job _ refl in
    (
      b,
      c,
      outcome,
      subst (λ a. Flags b c a.events) (sym (handled o s run_id decoded job step q k))
          (finish-Flags o job.body.dry_run _ flags),
    )
