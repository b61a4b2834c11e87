-- ===== src/Github/Retry/Waits.antt =====
-- How long `sleepWithBackoff` of toolhub/internal/github/client.go waits.
use ai_team_toolhub.Base.{
  followed, suc, List, Option, Result, ok, err, true, ◌==◌, if◌then◌else◌, ap, ◌∙◌, ℕ, ◌+◌, ◌*◌,
  ◌-◌, ◌≤◌, ◌<◌, ◌≡◌, refl, ◌⊎◌, inl, inr, false, some, Bool-cases, arith, ltb, ◌%◌,
}
use native.Mathlib.Nat.{one-le-pow}
use ai_team_toolhub.Base.Int.{ℤ, pos}
use ai_team_toolhub.Text.{Text, is_empty}
use ai_team_toolhub.Github.{
  Response, Remote, Event, Issue, IssueInput, ClientError, waited, wrap, context_ended, post_issue,
  is_retryable_status,
}
use ai_team_toolhub.Github.Calls.{bad_status}
use ai_team_toolhub.Github.Session.{Session, Action, noted, do_api}
use ai_team_toolhub.Github.Retry.{
  second, millisecond, int64, of_seconds, retry_after_duration, backoff_of, longer, wait_of,
  sleep_with_backoff, try_again, verdict_of, refused, judge_response, judge, attempt_issue,
  create_issue_from, operation,
}

-- A product of seconds that int64 holds is exact.
int64_fits : (n : ℕ) → n < 9223372036854775808 → int64 n ≡ pos n
unfolding int64
int64_fits n h = elim (Bool-cases (ltb n 9223372036854775808)) [
  | inr e ↦ ground (arith, h, e)
  | inl e ↦ let m : n % 18446744073709551616 ≡ n = omega (arith, h) in rw (m, e) refl
]

longer-bounds :
    (d wait : ℕ)
    → (wait ≤ longer (pos d) wait)
      × (d ≤ longer (pos d) wait)
      × ((longer (pos d) wait ≡ d) ⊎ (longer (pos d) wait ≡ wait))
unfolding longer
longer-bounds d wait = ground arith

backoff_of-bounds :
    (attempt : ℕ) → (250 * millisecond ≤ backoff_of attempt) × (backoff_of attempt ≤ 5 * second)
unfolding backoff_of
backoff_of-bounds attempt = omega (arith, one-le-pow (attempt - 1) 2 (omega arith))

retry_after_duration-secs :
    (r : Remote) (s : Session) (resp : Response) (secs : ℕ)
    → is_empty resp.retry_after ≡ false
    → r.atoi resp.retry_after ≡ some (pos secs)
    → secs ≤ 9223372036
    → retry_after_duration r s resp ≡ pos (secs * second)
unfolding retry_after_duration of_seconds
retry_after_duration-secs r s resp secs present number small =
    rw (present, number, retry_after_duration, of_seconds)
      (int64_fits (secs * second) (omega (arith, small)))

-- How long is waited after an answer that asks for `secs` seconds: at least that long, and at least the
-- back-off of the attempt, which is 250 ms or more; exactly as long as asked, or less than 200 ms more
-- than the back-off, which is 5 s at most.
abbrev pub WaitsFor : ℕ → ℕ → ℕ → Type 0
WaitsFor attempt secs d =
    (secs * second ≤ d)
    × (250 * millisecond ≤ d)
    × (backoff_of attempt ≤ d)
    × ((d ≡ secs * second)
        ⊎ ((d < backoff_of attempt + 200 * millisecond) × (d < 5 * second + 200 * millisecond)))

wait_of-WaitsFor :
    (r : Remote) (attempt : ℕ) (s : Session) (secs : ℕ)
    → r.rand_intn s.log 200 < 200
    → WaitsFor attempt secs (wait_of r attempt (pos (secs * second)) s)
unfolding wait_of
wait_of-WaitsFor r attempt s secs random =
    let w = backoff_of attempt + r.rand_intn s.log 200 * millisecond in
    let (more, asked, exact) = longer-bounds (secs * second) w in
    let (low, high) = backoff_of-bounds attempt in
    (
      asked,
      omega (arith, low, more),
      omega (arith, more),
      elim exact [
        | inl e ↦ inl e
        | inr e ↦ inr (omega (arith, e, random), omega (arith, e, random, high))
      ],
    )

retryable_ne_created : (status : ℕ) → is_retryable_status status ≡ true → (status == 201) ≡ false
unfolding is_retryable_status
retryable_ne_created status h = ground (arith, h)

-- The wait, and then the next round, or the error of the context where the timer did not fire.
abbrev pub waits_then :
    Remote
    → ℕ
    → (Session → Result ClientError Issue × Session)
    → Session
    → Result ClientError Issue × Session
waits_then r d again u = if r.timer_fires u.log d then again (noted (waited d true) u) else (
  err (wrap context_ended (r.ctx_err (noted (waited d false) u).log)),
  noted (waited d false) u,
)

slept :
    (r : Remote) (attempt : ℕ) (after : ℤ) (u : Session) (again : Unit {0} → Action Issue)
    → followed again (sleep_with_backoff r attempt after u)
      ≡ waits_then r (wait_of r attempt after u) (again tt) u
unfolding sleep_with_backoff followed
slept r attempt after u again =
    elim (Bool-cases (r.timer_fires u.log (wait_of r attempt after u))) [
      | inl e ↦ rw (e, sleep_with_backoff, followed) refl
      | inr e ↦ rw (e, sleep_with_backoff, followed) refl
    ]

-- Where GitHub answers a request of `CreateIssue` other than the fourth with the status 429 or 5xx and a
-- `Retry-After` of at most 9223372036 seconds, `CreateIssue` waits at least that long, and at least the
-- back-off of the attempt, which is 250 ms or more; exactly as long as asked, or less than 200 ms more
-- than the back-off, which is 5 s at most. Then it goes on with the next attempt; or, where the context
-- ends the wait, it returns that error and sends nothing more. The random number is below its limit.
pub retry_after_honoured :
    (r : Remote) (owner repo : Text) (input : IssueInput) (left attempt : ℕ)
    (last : Option ClientError) (s t : Session) (resp : Response) (secs : ℕ)
    → attempt < 4
    → do_api r (post_issue owner repo input) s ≡ (ok resp, t)
    → is_retryable_status resp.status ≡ true
    → ((log : List Event) → r.rand_intn log 200 < 200)
    → is_empty resp.retry_after ≡ false
    → r.atoi resp.retry_after ≡ some (pos secs)
    → secs ≤ 9223372036
    → let failed = bad_status operation resp t in
      (d : ℕ) × WaitsFor attempt secs d
      × (create_issue_from r owner repo input (suc left) attempt last s
          ≡ waits_then r d
              (create_issue_from r owner repo input left (attempt + 1) (some failed.0))
              failed.1)
unfolding create_issue_from attempt_issue judge judge_response refused verdict_of
retry_after_honoured r owner repo input left attempt last s t resp secs early answered passing
      random present number small =
    let failed = bad_status operation resp t in
    let again : Unit {0} → Action Issue =
      λ done. create_issue_from r owner repo input left (attempt + 1) (some failed.0) in
    let go : ltb attempt 4 ≡ true = ground (arith, early) in
    let asked = retry_after_duration-secs r failed.1 resp secs present number small in
    let other = retryable_ne_created resp.status passing in
    let round : attempt_issue r owner repo input attempt s
        ≡ (try_again (pos (secs * second)) failed.0, failed.1) =
      ap (judge r attempt) answered
      ∙ simp (other, judge, judge_response, refused, verdict_of, passing, go, asked) refl in
    (
      wait_of r attempt (pos (secs * second)) failed.1,
      wait_of-WaitsFor r attempt failed.1 secs (random failed.1.log),
      rw (round, create_issue_from) (slept r attempt (pos (secs * second)) failed.1 again),
    )
