-- ===== src/Repair/Rpc/Agrees.antt =====
-- Proofs that compare toolCodeRepairLoop with handleCodeRepairLoop.
use ai_team_toolhub.Base.{◌++◌, ◌∷◌, ◌⊎◌, [], if◌then◌else◌, not, true}
use ai_team_toolhub.Repair.Handler.{open_pull_request, verify, write_code}
use ai_team_toolhub.Base.{
  ◌≡◌, refl, ap, ◌∙◌, inl, inr, Bool, true, false, not, Option, none, some, Result, ok, err,
  Result-cases, subst,
}
use ai_team_toolhub.Text.{Text, codes, is_empty, trim_space}
use ai_team_toolhub.Repair.{Outside, Server, Body, Job, check_request}
use ai_team_toolhub.Repair.Handler.{
  Event, Progress, RunErr, recorded, handle_code_repair_loop, perform, finish, reply_with,
  closing_events, result_status, is_success,
}
use ai_team_toolhub.Repair.Attempts.{is_nil}
use ai_team_toolhub.Repair.Rpc.Work.{Vars, status_of, closing, progress_of, work}
use ai_team_toolhub.Repair.Rpc.Loops.{work-Agrees, status_of-result}
use ai_team_toolhub.Repair.Handler as Http
use ai_team_toolhub.Repair.Rpc.{
  completed, run_failed, audit_error, finish_work, start_work, RpcReply, job_of, check_call,
  tool_code_repair_loop, RpcAnswer,
}
use ai_team_toolhub.Repair.Rpc.Checks.{
  Admitted-check_request, check_request-Admitted, Admitted-check_call, check_call-Admitted,
}

-- Both do the same work: the events and the actions, and the result that the reply has, if any.
abbrev result_of_rpc : RpcReply Progress → Option (Text × Progress)
result_of_rpc (completed id p) = some (id, p)
result_of_rpc other = none

abbrev result_of_http : Http.Reply → Option (Text × Progress)
result_of_http (Http.done id p) = some (id, p)
result_of_http other = none

abbrev pub SameWork : RpcAnswer → Http.Answer → Type 0
SameWork a b =
    (a.events ≡ b.events)
    × (a.actions ≡ b.actions)
    × (result_of_rpc a.reply ≡ result_of_http b.reply)

module _ (o : Outside) (dry_run : Bool) (v : Vars) where
  abbrev tool_end : Option RunErr → Text → Result Text Text → RpcAnswer
  tool_end e status (err msg) = record {
    reply = audit_error (codes "audit record failed: " ++ msg);
    events = v.events;
    actions = v.actions;
  }
  tool_end e status (ok id) = record {
    reply = elim e [ some x ↦ run_failed x | none ↦ completed id (progress_of v) ];
    events = v.events ++ recorded (is_nil e) status ∷ closing (is_nil e);
    actions = v.actions;
  }

  abbrev handler_end : Option RunErr → Result Text Text → Http.Answer
  handler_end e (err msg) = record {
    reply = Http.audit_failed msg;
    events = v.events;
    actions = v.actions;
  }
  handler_end e (ok id) = record {
    reply = reply_with e id (progress_of v);
    events = v.events ++ closing_events dry_run e;
    actions = v.actions;
  }

  ends_alike :
      (e : Option RunErr) (status : Text) (r : Result Text Text)
      → status ≡ result_status dry_run e
      → SameWork (tool_end e status r) (handler_end e r)
  unfolding is_nil closing reply_with closing_events
  ends_alike e status (err msg) q = (refl, refl, refl)
  ends_alike none status (ok id) q =
      (ap (λ t. v.events ++ recorded true t ∷ closing true) q, refl, refl)
  ends_alike (some x) status (ok id) q =
      (ap (λ t. v.events ++ recorded false t ∷ closing false) q, refl, refl)

  finish_work-SameWork :
      (v.status ≡ codes "completed") ⊎ (is_nil v.run_err ≡ false)
      → SameWork (finish_work o dry_run v) (finish o dry_run (progress_of v))
  unfolding finish_work finish status_of is_nil is_success
  finish_work-SameWork h = by v.run_err (status_of-result dry_run v.run_err v.status h)
    where
      by :
          (e : Option RunErr)
          → (if not (is_nil e)
              then codes "failed"
              else if dry_run
              then codes "dry_run"
              else v.status)
            ≡ result_status dry_run e
          → SameWork
              (tool_end e
                (if not (is_nil e)
                  then codes "failed"
                  else if dry_run
                  then codes "dry_run"
                  else v.status)
                (o.record_call (is_nil e)))
              (handler_end e (o.record_call (is_success e)))
      by none q = ends_alike none _ (o.record_call true) q
      by (some x) q = ends_alike (some x) _ (o.record_call false) q

start_work-SameWork : (o : Outside) (job : Job) → SameWork (start_work o job) (perform o job)
unfolding start_work
start_work-SameWork o job = by o.start_step
  where
    by :
        (r : Result Text Text)
        → SameWork
            (elim r as (λ _. RpcAnswer) [
              | err msg ↦ record { reply = audit_error msg; events = []; actions = [] }
              | ok step ↦ finish_work o job.body.dry_run (work o job)
            ])
            (elim r as (λ _. Http.Answer) [
              | err msg ↦ record { reply = Http.audit_failed msg; events = []; actions = [] }
              | ok step ↦
                  finish o job.body.dry_run
                    (open_pull_request o job (verify o job (write_code o job)))
            ])
    by (err msg) = (refl, refl, refl)
    by (ok step) =
        let a = work-Agrees o job in
        subst
          (λ p.
            SameWork (finish_work o job.body.dry_run (work o job)) (finish o job.body.dry_run p))
          a.progress (finish_work-SameWork o job.body.dry_run (work o job) a.status)

-- Where the run's identifier is not blank, the tool code_repair_loop and the HTTP handler, asked the same,
-- do the same, whatever the outside answers: the same decisions, counters, runs of the checks, pull request,
-- outcome and status of the recorded call in the same order, the same actions in the work directory, and
-- the one gives the tool call with its result exactly if the other does, with the same result. The request
-- that is recorded is not compared.
pub tool_code_repair_loop-SameWork :
    (o : Outside) (s : Server) (run_id : Text) (body : Body)
    → is_empty (trim_space run_id) ≡ false
    → SameWork
        (tool_code_repair_loop o s (ok (record { run_id = run_id; body = body })))
        (handle_code_repair_loop o s run_id (ok body))
unfolding tool_code_repair_loop handle_code_repair_loop
tool_code_repair_loop-SameWork o s run_id body present =
    let call = check_call o s (ok (record { run_id = run_id; body = body })) in
    elim (Result-cases call) [
      | inl (job, e) ↦
          let (run, code, qa, admitted, same) = check_call-Admitted o s run_id body job e in
          let both : check_request o s run_id (ok body) ≡ ok job =
            Admitted-check_request o s run_id body run code qa admitted ∙ ap (λ j. ok j) same in
          rw (e, both, tool_code_repair_loop, handle_code_repair_loop) (start_work-SameWork o job)
      | inr (x, e) ↦ elim (Result-cases (check_request o s run_id (ok body))) [
        | inr (y, f) ↦ rw (e, f, tool_code_repair_loop, handle_code_repair_loop) (refl, refl, refl)
        | inl (job, f) ↦
            let (run, code, qa, admitted, same) = check_request-Admitted o s run_id body job f in
            let both : call ≡ ok (job_of s run code qa body) =
              Admitted-check_call o s run_id body present run code qa admitted in
            cc
      ]
    ]
