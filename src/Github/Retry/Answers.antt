-- ===== src/Github/Retry/Answers.antt =====
-- The requests that CreateIssue of toolhub/internal/github/client.go sends, by their answers.
use ai_team_toolhub.Base.{
  followed, ℕ, zero, suc, ◌+◌, ◌≤◌, ◌≡◌, refl, ◌∙◌, sym, ap, ◌⊎◌, inl, inr, Bool, true, not, List,
  [], ◌∷◌, ◌++◌, Option, none, some, Result, ok, err, Bool-cases, Option-cases, arith, ◌==◌, ==_iff,
  length, length-append, All, All-append, append_assoc,
}
use ai_team_toolhub.Base.Int.{ℤ, pos}
use ai_team_toolhub.Text.{Text}
use ai_team_toolhub.Github.{
  Cause, ClientError, Response, Answer, Issue, IssueInput, Call, Remote, send, sent, wrap,
  post_issue, is_context_error, is_retryable_status, is_retryable_error,
}
use ai_team_toolhub.Github.Session.{Session, Action, at, noted}
use ai_team_toolhub.Github.Calls.{bad_status}
use ai_team_toolhub.Github.Tokens.{answers, Asked, not_sent, was_sent, do_api-Asked}
use ai_team_toolhub.Github.Retry.{
  Verdict, give_up, try_again, created, verdict_of, refused, decoded, judge_response, judge,
  attempt_issue, concluded, sleep_with_backoff, last_error, create_issue_from, create_issue,
  operation, retry_after_duration,
}

-- An answer after which it may go better: a failure that is not the context's, 429 or 5xx.
unfoldable pub may_pass : Answer → Bool
may_pass (err c) = not (is_context_error c)
may_pass (ok resp) = is_retryable_status resp.status

abbrev pub Passing : Answer → Type 0
Passing a = may_pass a ≡ true

-- What an answer must be for what is done after it.
abbrev Fits : Remote → Answer → Verdict → Type 0
Fits r a (created issue) =
    (resp : Response) × (a ≡ ok resp) × (resp.status ≡ 201) × (r.decode_issue resp ≡ ok issue)
Fits r a (try_again after e) = Passing a
Fits r a (give_up e) = Unit

abbrev Goes : Verdict → Type 0
Goes (created issue) = ⊥
Goes (try_again after e) = Unit
Goes (give_up e) = Unit

-- One round sends nothing, or one request whose answer fits what is done next.
abbrev Tried : Remote → Session → Verdict × Session → Type 0
Tried r s p =
    (Goes p.0 × (answers p.1.log ≡ answers s.log))
    ⊎ ((a : Answer) × (answers p.1.log ≡ a ∷ answers s.log) × Fits r a p.0)

verdict_of-Goes :
    (attempt : ℕ) (retryable : Bool) (after : ℤ) (e : ClientError)
    → Goes (verdict_of attempt retryable after e)
unfolding verdict_of
verdict_of-Goes attempt retryable after e = ground arith

verdict_of-Fits :
    (r : Remote) (a : Answer) (attempt : ℕ) (retryable : Bool) (after : ℤ) (e : ClientError)
    → may_pass a ≡ retryable
    → Fits r a (verdict_of attempt retryable after e)
unfolding verdict_of
verdict_of-Fits r a attempt retryable after e q = ground arith

bad_status-answers :
    (op : Text) (resp : Response) (s : Session)
    → answers (bad_status op resp s).1.log ≡ answers s.log
unfolding bad_status answers
bad_status-answers op resp s = elim (Option-cases resp.body_err) [
  | inl e ↦ rw (e, bad_status) refl
  | inr (c, e) ↦ rw (e, bad_status) refl
]

decoded-Fits :
    (r : Remote) (resp : Response) (found : Result Cause Issue)
    → resp.status ≡ 201
    → r.decode_issue resp ≡ found
    → Fits r (ok resp) (decoded found)
unfolding decoded
decoded-Fits r resp (ok issue) status q = (resp, refl, status, q)
decoded-Fits r resp (err c) status q = tt

refused-Fits :
    (r : Remote) (attempt : ℕ) (resp : Response) (p : ClientError × Session)
    → Fits r (ok resp) (refused r attempt resp p).0
unfolding refused may_pass
refused-Fits r attempt resp (e, s) =
    verdict_of-Fits r (ok resp) attempt (is_retryable_status resp.status)
      (retry_after_duration r s resp) e refl

refused-answers :
    (r : Remote) (attempt : ℕ) (resp : Response) (p : ClientError × Session)
    → answers (refused r attempt resp p).1.log ≡ answers p.1.log
unfolding refused
refused-answers r attempt resp (e, s) = refl

judge_response-Fits :
    (r : Remote) (attempt : ℕ) (resp : Response) (s : Session)
    → Fits r (ok resp) (judge_response r attempt resp s).0
unfolding judge_response
judge_response-Fits r attempt resp s = elim (Bool-cases (resp.status == 201)) [
  | inl e ↦
      rw (e, judge_response)
        (decoded-Fits r resp (r.decode_issue resp) ((==_iff resp.status 201).0 e) refl)
  | inr e ↦ rw (e, judge_response) (refused-Fits r attempt resp (bad_status operation resp s))
]

judge_response-answers :
    (r : Remote) (attempt : ℕ) (resp : Response) (s : Session)
    → answers (judge_response r attempt resp s).1.log ≡ answers s.log
unfolding judge_response
judge_response-answers r attempt resp s = elim (Bool-cases (resp.status == 201)) [
  | inl e ↦ rw (e, judge_response) refl
  | inr e ↦
      rw (e, judge_response)
        (refused-answers r attempt resp (bad_status operation resp s)
          ∙ bad_status-answers operation resp s)
]

judge-Tried :
    (r : Remote) (attempt : ℕ) (call : Call) (s : Session)
    (p : Result ClientError Response × Session)
    → Asked r call s p
    → Tried r s (judge r attempt p)
unfolding judge may_pass is_retryable_error answers
judge-Tried r attempt call s p (not_sent e u same) =
    inl (verdict_of-Goes attempt (is_retryable_error e) (pos 0) e, same)
judge-Tried r attempt call s p (was_sent token u good same) =
    by_answer (r.send u.log token call) refl
  where
    by_answer :
        (a : Answer)
        → r.send u.log token call ≡ a
        → Tried r s (judge r attempt (at send a, noted (sent token call a) u))
    by_answer (err c) q = inr (
      err c,
      ap (λ l. err c ∷ l) same,
      verdict_of-Fits r (err c) attempt (is_retryable_error (wrap send c)) (pos 0) (wrap send c)
          refl,
    )
    by_answer (ok resp) q =
        let t : Session = noted (sent token call (ok resp)) u in
        inr (
          ok resp,
          judge_response-answers r attempt resp t ∙ ap (λ l. ok resp ∷ l) same,
          judge_response-Fits r attempt resp t,
        )

attempt_issue-Tried :
    (r : Remote) (owner repo : Text) (input : IssueInput) (attempt : ℕ) (s : Session)
    → Tried r s (attempt_issue r owner repo input attempt s)
unfolding attempt_issue
attempt_issue-Tried r owner repo input attempt s =
    judge-Tried r attempt (post_issue owner repo input) s _
      (do_api-Asked r (post_issue owner repo input) s)

sleep_with_backoff-answers :
    (r : Remote) (attempt : ℕ) (after : ℤ) (s : Session)
    → answers (sleep_with_backoff r attempt after s).1.log ≡ answers s.log
unfolding sleep_with_backoff answers
sleep_with_backoff-answers r attempt after s = refl

-- How the answers end: an issue is the decoded answer 201, the newest; all before the newest may pass.
abbrev pub Closed : Remote → Result ClientError Issue → List Answer → Type 0
Closed r (ok issue) [] = ⊥
Closed r (ok issue) (a ∷ older) =
    ((resp : Response) × (a ≡ ok resp) × (resp.status ≡ 201) × (r.decode_issue resp ≡ ok issue))
    × All Passing older
Closed r (err e) [] = Unit
Closed r (err e) (a ∷ older) = All Passing older

Closed-append :
    (r : Remote) (res : Result ClientError Issue) (new : List Answer) (a : Answer)
    → Passing a
    → Closed r res new
    → Closed r res (new ++ a ∷ [])
Closed-append r (ok issue) [] a passing h = absurd h
Closed-append r (ok issue) (b ∷ older) a passing h =
    (h.0, All-append Passing older (a ∷ []) h.1 (passing, tt))
Closed-append r (err e) [] a passing h = tt
Closed-append r (err e) (b ∷ older) a passing h = All-append Passing older (a ∷ []) h (passing, tt)

-- At most `n` requests, whose answers end so.
abbrev pub Ends : Remote → ℕ → Session → Result ClientError Issue × Session → Type 0
Ends r n s p =
    (new : List Answer) × (answers p.1.log ≡ new ++ answers s.log)
    × (length new ≤ n)
    × Closed r p.0 new

none_new :
    (r : Remote) (n : ℕ) (s : Session) (e : ClientError) (t : Session)
    → answers t.log ≡ answers s.log
    → Ends r n s (err e, t)
none_new r n s e t same = ([], same, omega arith, tt)

-- One more request before.
one_before :
    (r : Remote) (n : ℕ) (s t : Session) (a : Answer) (p : Result ClientError Issue × Session)
    → Passing a
    → answers t.log ≡ a ∷ answers s.log
    → Ends r n t p
    → Ends r (suc n) s p
one_before r n s t a (res, u) passing one (new, same, bound, closed) = (
  new ++ a ∷ [],
  same ∙ ap (λ l. new ++ l) one ∙ sym (append_assoc new (a ∷ []) (answers s.log)),
  omega (arith, length-append new (a ∷ []), bound),
  Closed-append r res new a passing closed,
)

none_before :
    (r : Remote) (n : ℕ) (s t : Session) (p : Result ClientError Issue × Session)
    → answers t.log ≡ answers s.log
    → Ends r n t p
    → Ends r (suc n) s p
none_before r n s t p q (new, same, bound, closed) =
    (new, same ∙ ap (λ l. new ++ l) q, omega (arith, bound), closed)

concluded-Ends :
    (r : Remote) (n : ℕ) (s : Session) (again : ℤ → ClientError → Action Issue)
    (p : Verdict × Session)
    → Tried r s p
    → ((after : ℤ) (e : ClientError) (t : Session) → Ends r n t (again after e t))
    → Ends r (suc n) s (concluded again p)
concluded-Ends r n s again (created issue, t) (inl (never, same)) next = absurd never
concluded-Ends r n s again (created issue, t) (inr (a, one, fits)) next =
    (a ∷ [], one, omega arith, (fits, tt))
concluded-Ends r n s again (give_up e, t) (inl (u, same)) next = none_new r (suc n) s e t same
concluded-Ends r n s again (give_up e, t) (inr (a, one, fits)) next = (a ∷ [], one, omega arith, tt)
concluded-Ends r n s again (try_again after e, t) (inl (u, same)) next =
    none_before r n s t (again after e t) same (next after e t)
concluded-Ends r n s again (try_again after e, t) (inr (a, one, fits)) next =
    one_before r n s t a (again after e t) fits one (next after e t)

slept-Ends :
    (r : Remote) (n : ℕ) (t : Session) (f : Unit {0} → Action Issue)
    (p : Result ClientError (Unit {0}) × Session)
    → answers p.1.log ≡ answers t.log
    → ((u : Session) → Ends r n u (f tt u))
    → Ends r n t (followed f p)
unfolding followed
slept-Ends r n t f (err e, u) same next = none_new r n t e u same
slept-Ends r n t f (ok done, u) same next =
    let (new, q, bound, closed) = next u in (new, q ∙ ap (λ l. new ++ l) same, bound, closed)

create_issue_from-Ends :
    (r : Remote) (owner repo : Text) (input : IssueInput) (left attempt : ℕ)
    (last : Option ClientError) (s : Session)
    → Ends r left s (create_issue_from r owner repo input left attempt last s)
unfolding create_issue_from
create_issue_from-Ends r owner repo input zero attempt last s =
    none_new r zero s (last_error last) s refl
create_issue_from-Ends r owner repo input (suc left) attempt last s =
    concluded-Ends r left s _ _ (attempt_issue-Tried r owner repo input attempt s) (λ after e t.
      slept-Ends r left t (λ done. create_issue_from r owner repo input left (attempt + 1) (some e))
        (sleep_with_backoff r attempt after t) (sleep_with_backoff-answers r attempt after t)
        (λ u. create_issue_from-Ends r owner repo input left (attempt + 1) (some e) u))

-- `CreateIssue` sends at most four requests with a token. All of their answers but the newest are
-- failures that are not the context's, or have the status 429 or 5xx. Where it returns an issue, the
-- newest answer has the status 201 and the issue is what it decodes to: no request follows one that
-- was answered so.
pub create_issue-Ends :
    (r : Remote) (owner repo : Text) (input : IssueInput) (s : Session)
    → Ends r 4 s (create_issue r owner repo input s)
unfolding create_issue
create_issue-Ends r owner repo input s = create_issue_from-Ends r owner repo input 4 1 none s
