-- ===== src/Github/Session.antt =====
-- The client and its token: `ensureInstallationID`, `installationToken` and `doAPI` of
-- toolhub/internal/github/client.go. `installationToken` holds the mutex, so its calls are one after
-- another.
use ai_team_toolhub.Base.{
  ℕ, Bool, false, not, ◌&&◌, List, [], ◌∷◌, Option, none, some, Result, ok, err, ◌==◌, ltb,
  if◌then◌else◌, followed, length, ◌-◌,
}
use ai_team_toolhub.Base.Int.{ℤ, pos, negsuc}
use ai_team_toolhub.Text.{Text, is_empty}
use ai_team_toolhub.Github.{
  Cause, Stage, ClientError, Response, Answer, Call, Event, Remote, has_body, sign_jwt,
  discover_installation, decode_installations, request_token, decode_token, marshal_body,
  new_request, send, wrap, discover_status, token_status, no_installation, multiple_installations,
  listed_installations, asked_token, sent,
}

-- `Client`, with what it has done so far.
pub record Session : Type 0 where
  pub app_id : ℤ
  pub installation_id : ℤ
  pub token : Text
  pub exp_at : ℕ
  pub log : List Event

-- A method of the client: its two results, and the client afterwards.
abbrev pub Action : Type 0 → Type 0
Action A = Session → Result ClientError A × Session

infixl 5 ◌>>=◌
abbrev pub ◌>>=◌ : {A B : Type 0} → Action A → (A → Action B) → Action B
◌>>=◌ m f s = followed f (m s)

-- A result of a library, with what the client was doing.
abbrev pub at {ℓ} : {A : Type ℓ} → Stage → Result Cause A → Result ClientError A
at stage (ok a) = ok a
at stage (err c) = err (wrap stage c)

abbrev pub noted : Event → Session → Session
noted e s = record s { log = e ∷ s.log }

abbrev pub minute : ℕ
minute = 60000000000

unfoldable pub is_zero : ℤ → Bool
is_zero (pos n) = n == 0
is_zero (negsuc n) = false

-- Exactly one installation must be there.
unfoldable pub choose_installation : Result Cause (List ℤ) → Action (Unit {0})
choose_installation (err c) s = (err (wrap decode_installations c), s)
choose_installation (ok []) s = (err no_installation, s)
choose_installation (ok (i ∷ [])) s = (ok tt, record s { installation_id = i })
choose_installation (ok (i ∷ j ∷ more)) s =
    (err (multiple_installations (length (i ∷ j ∷ more))), s)

unfoldable pub discovered : Remote → Answer → Action (Unit {0})
discovered r (err c) s = (err (wrap discover_installation c), s)
discovered r (ok resp) s =
    if resp.status == 200
    then choose_installation (r.decode_installations resp) s
    else (err (discover_status resp.status resp.body), s)

-- ensureInstallationID; the request for the list has a fixed URL, so making it does not fail.
unfoldable pub ensure_installation_id : Remote → Action (Unit {0})
ensure_installation_id r s =
    if not (is_zero s.installation_id) then (ok tt, s) else elim (r.sign s.log s.app_id) [
      | err c ↦ (err (wrap sign_jwt c), s)
      | ok jwt ↦
          let answer = r.installations s.log jwt in
          discovered r answer (noted (listed_installations answer) s)
    ]

-- The token that GitHub gave is kept with the time it expires at.
unfoldable pub keep_token : Result Cause (Text × ℕ) → Action Text
keep_token (err c) s = (err (wrap decode_token c), s)
keep_token (ok (token, expires_at)) s = (ok token, record s { token = token; exp_at = expires_at })

unfoldable pub token_received : Remote → Answer → Action Text
token_received r (err c) s = (err (wrap request_token c), s)
token_received r (ok resp) s =
    if resp.status == 201
    then keep_token (r.decode_token resp) s
    else (err (token_status resp.status resp.body), s)

unfoldable pub renew_token : Remote → Action Text
renew_token r s = elim (r.sign s.log s.app_id) [
  | err c ↦ (err (wrap sign_jwt c), s)
  | ok jwt ↦
      let answer = r.access_token s.log s.installation_id jwt in
      token_received r answer (noted (asked_token s.installation_id answer) s)
]

-- `c.token != "" && time.Now().Before(c.expAt.Add(-time.Minute))`
unfoldable pub is_current : Remote → Session → Bool
is_current r s = not (is_empty s.token) && ltb (r.now s.log) (s.exp_at - minute)

unfoldable pub current_token : Remote → Action Text
current_token r s = if is_current r s then (ok s.token, s) else renew_token r s

-- installationToken
unfoldable pub installation_token : Remote → Action Text
installation_token r = ensure_installation_id r >>= λ done. current_token r

-- The errors before the request leaves: `json.Marshal`, where there is a body, and `NewRequest`.
unfoldable pub built : Remote → Call → Option ClientError
built r call = elim (if has_body call then r.marshal call else none) [
  | some c ↦ some (wrap marshal_body c)
  | none ↦ elim (r.new_request call) [ some c ↦ some (wrap new_request c) | none ↦ none ]
]

unfoldable pub send_with : Remote → Call → Text → Action Response
send_with r call token s = elim (built r call) [
  | some e ↦ (err e, s)
  | none ↦
      let answer = r.send s.log token call in (at send answer, noted (sent token call answer) s)
]

-- doAPI
unfoldable pub do_api : Remote → Call → Action Response
do_api r call = installation_token r >>= send_with r call
