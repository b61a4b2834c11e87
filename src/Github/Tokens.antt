-- ===== src/Github/Tokens.antt =====
-- Which token a request carries: `installationToken` and `doAPI` of
-- toolhub/internal/github/client.go.
use ai_team_toolhub.Base.{
  followed, followed-ok, ℕ, ◌+◌, ◌<◌, ◌≡◌, refl, ◌∙◌, sym, ap, subst, inl, inr, true, false, List,
  [], ◌∷◌, Result, ok, err, Bool-cases, Option-cases, Result-cases, arith, ◌==◌, ==_iff,
}
use ai_team_toolhub.Base.Int.{ℤ}
use ai_team_toolhub.Text.{Text, is_empty}
use ai_team_toolhub.Github.{
  Cause, ClientError, Response, Answer, Call, Event, Remote, listed_installations, asked_token,
  sent, waited, counted, send, token_status, wrap, sign_jwt,
}
use ai_team_toolhub.Github.Session.{
  Session, Action, minute, at, is_zero, choose_installation, discovered, ensure_installation_id,
  keep_token, token_received, renew_token, is_current, current_token, noted, installation_token,
  built, send_with, do_api,
}

-- The answers to the requests that carry a token, newest first.
unfoldable pub answers : List Event → List Answer
answers [] = []
answers (listed_installations a ∷ log) = answers log
answers (asked_token i a ∷ log) = answers log
answers (sent token call a ∷ log) = a ∷ answers log
answers (waited d fired ∷ log) = answers log
answers (counted op code ∷ log) = answers log

module _ {A B : Type 0} where
  pub followed-answers :
      (f : A → Action B) (p : Result ClientError A × Session) {before : List Answer}
      → answers p.1.log ≡ before
      → ((a : A) (t : Session) → answers (f a t).1.log ≡ answers t.log)
      → answers (followed f p).1.log ≡ before
  unfolding followed
  followed-answers f (ok a, t) q next = next a t ∙ q
  followed-answers f (err e, t) q next = q

choose_installation-answers :
    (found : Result Cause (List ℤ)) (s : Session)
    → answers (choose_installation found s).1.log ≡ answers s.log
unfolding choose_installation
choose_installation-answers (err c) s = refl
choose_installation-answers (ok []) s = refl
choose_installation-answers (ok (i ∷ [])) s = refl
choose_installation-answers (ok (i ∷ j ∷ more)) s = refl

discovered-answers :
    (r : Remote) (a : Answer) (s : Session) → answers (discovered r a s).1.log ≡ answers s.log
unfolding discovered
discovered-answers r (err c) s = refl
discovered-answers r (ok resp) s = elim (Bool-cases (resp.status == 200)) [
  | inl e ↦ rw (e, discovered) (choose_installation-answers (r.decode_installations resp) s)
  | inr e ↦ rw (e, discovered) refl
]

ensure_installation_id-answers :
    (r : Remote) (s : Session) → answers (ensure_installation_id r s).1.log ≡ answers s.log
unfolding ensure_installation_id answers
ensure_installation_id-answers r s = elim (Bool-cases (is_zero s.installation_id)) [
  | inr e ↦ rw (e, ensure_installation_id) refl
  | inl e ↦ elim (Result-cases (r.sign s.log s.app_id)) [
    | inr (c, f) ↦ rw (e, f, ensure_installation_id) refl
    | inl (jwt, f) ↦
        rw (e, f, ensure_installation_id) (discovered-answers r (r.installations s.log jwt) _)
  ]
]

-- What makes a token good for a request: it is the client's, with more than a minute left, or GitHub
-- has just sent it, and the client keeps it with its time.
pub data Usable (r : Remote) (token : Text) (u : Session) : Type 0 where
  kept :
      token ≡ u.token → is_empty token ≡ false → r.now u.log + minute < u.exp_at → Usable r token u
  renewed :
      (id : ℤ) (resp : Response) (before : List Event)
      → u.log ≡ asked_token id (ok resp) ∷ before
      → resp.status ≡ 201
      → r.decode_token resp ≡ ok (token, u.exp_at)
      → u.token ≡ token
      → Usable r token u

is_current-Usable : (r : Remote) (s : Session) → is_current r s ≡ true → Usable r s.token s
unfolding is_current
is_current-Usable r s e = kept refl (ground arith) (ground arith)

abbrev token_of : Text → Result ClientError Text × Session → Text
token_of other (ok t, u) = t
token_of other (err e, u) = other

-- `installationToken` after GitHub's answer, which is the newest event.
keep_token-Usable :
    (r : Remote) (id : ℤ) (resp : Response) (before : List Event) (s : Session)
    (found : Result Cause (Text × ℕ)) {token : Text} {u : Session}
    → s.log ≡ asked_token id (ok resp) ∷ before
    → resp.status ≡ 201
    → r.decode_token resp ≡ found
    → keep_token found s ≡ (ok token, u)
    → Usable r token u
unfolding keep_token
keep_token-Usable r id resp before s (err c) l status d q = cc
keep_token-Usable r id resp before s (ok (t, exp)) l status d q =
    subst (λ p. Usable r (token_of [] p) p.1) q (renewed id resp before l status d refl)

token_received-Usable :
    (r : Remote) (id : ℤ) (a : Answer) (before : List Event) (s : Session) {token : Text}
    {u : Session}
    → s.log ≡ asked_token id a ∷ before
    → token_received r a s ≡ (ok token, u)
    → Usable r token u
unfolding token_received
token_received-Usable r id (err c) before s l q = cc
token_received-Usable r id (ok resp) before s l q = elim (Bool-cases (resp.status == 201)) [
  | inr e ↦
      let h : token_received r (ok resp) s ≡ (err (token_status resp.status resp.body), s) =
        rw (e, token_received) refl in
      cc
  | inl e ↦
      let h : token_received r (ok resp) s ≡ keep_token (r.decode_token resp) s =
        rw (e, token_received) refl in
      keep_token-Usable r id resp before s (r.decode_token resp) l ((==_iff resp.status 201).0 e)
        refl (sym h ∙ q)
]

renew_token-Usable :
    (r : Remote) (s : Session) {token : Text} {u : Session}
    → renew_token r s ≡ (ok token, u)
    → Usable r token u
unfolding renew_token
renew_token-Usable r s q = elim (Result-cases (r.sign s.log s.app_id)) [
  | inr (c, f) ↦
      let h : renew_token r s ≡ (err (wrap sign_jwt c), s) = rw (f, renew_token) refl in cc
  | inl (jwt, f) ↦
      let a : Answer = r.access_token s.log s.installation_id jwt in
      let h : renew_token r s ≡ token_received r a (noted (asked_token s.installation_id a) s) =
        rw (f, renew_token) refl in
      token_received-Usable r s.installation_id a s.log (noted (asked_token s.installation_id a) s)
        refl (sym h ∙ q)
]

current_token-Usable :
    (r : Remote) (s : Session) {token : Text} {u : Session}
    → current_token r s ≡ (ok token, u)
    → Usable r token u
unfolding current_token
current_token-Usable r s q = elim (Bool-cases (is_current r s)) [
  | inr e ↦
      let h : current_token r s ≡ renew_token r s = rw (e, current_token) refl in
      renew_token-Usable r s (sym h ∙ q)
  | inl e ↦
      let h : current_token r s ≡ (ok s.token, s) = rw (e, current_token) refl in
      subst (λ p. Usable r (token_of s.token p) p.1) (sym h ∙ q) (is_current-Usable r s e)
]

installation_token-Usable :
    (r : Remote) (s : Session) {token : Text} {u : Session}
    → installation_token r s ≡ (ok token, u)
    → Usable r token u
unfolding installation_token
installation_token-Usable r s q =
    let (done, t, first, next) =
      followed-ok (λ done. current_token r) (ensure_installation_id r s) q in
    current_token-Usable r t next

-- None of it sends a request that carries a token.
keep_token-answers :
    (found : Result Cause (Text × ℕ)) (s : Session)
    → answers (keep_token found s).1.log ≡ answers s.log
unfolding keep_token
keep_token-answers (err c) s = refl
keep_token-answers (ok (t, exp)) s = refl

token_received-answers :
    (r : Remote) (a : Answer) (s : Session) → answers (token_received r a s).1.log ≡ answers s.log
unfolding token_received
token_received-answers r (err c) s = refl
token_received-answers r (ok resp) s = elim (Bool-cases (resp.status == 201)) [
  | inl e ↦ rw (e, token_received) (keep_token-answers (r.decode_token resp) s)
  | inr e ↦ rw (e, token_received) refl
]

current_token-answers :
    (r : Remote) (s : Session) → answers (current_token r s).1.log ≡ answers s.log
unfolding current_token renew_token answers
current_token-answers r s = elim (Bool-cases (is_current r s)) [
  | inl e ↦ rw (e, current_token) refl
  | inr e ↦ elim (Result-cases (r.sign s.log s.app_id)) [
    | inr (c, f) ↦ rw (e, f, current_token, renew_token) refl
    | inl (jwt, f) ↦
        rw (e, f, current_token, renew_token)
          (token_received-answers r (r.access_token s.log s.installation_id jwt) _)
  ]
]

installation_token-answers :
    (r : Remote) (s : Session) → answers (installation_token r s).1.log ≡ answers s.log
unfolding installation_token
installation_token-answers r s =
    followed-answers (λ done. current_token r) (ensure_installation_id r s)
      (ensure_installation_id-answers r s) (λ done t. current_token-answers r t)

-- How a call of `doAPI` ends: with an error before the request left, or with the answer to one
-- request, the newest event, whose token was good when it left.
pub data Asked (r : Remote) (call : Call) (s : Session)
    : Result ClientError Response × Session → Type 0 where
  not_sent :
      (e : ClientError) (u : Session) → answers u.log ≡ answers s.log → Asked r call s (err e, u)
  was_sent :
      (token : Text) (u : Session)
      → Usable r token u
      → answers u.log ≡ answers s.log
      → Asked r call s
          (at send (r.send u.log token call), noted (sent token call (r.send u.log token call)) u)

send_with-Asked :
    (r : Remote) (call : Call) (s : Session) (token : Text) (u : Session)
    → Usable r token u
    → answers u.log ≡ answers s.log
    → Asked r call s (send_with r call token u)
unfolding send_with
send_with-Asked r call s token u good same = elim (Option-cases (built r call)) [
  | inl f ↦ rw (f, send_with) (was_sent token u good same)
  | inr (e, f) ↦ rw (f, send_with) (not_sent e u same)
]

-- `doAPI` sends at most one request, and none where it could not get a token: the token that the
-- request carries is the client's, not empty and with more than a minute left at that time, or one
-- that GitHub sent just before and that the client keeps with its time.
pub do_api-Asked : (r : Remote) (call : Call) (s : Session) → Asked r call s (do_api r call s)
unfolding do_api followed
do_api-Asked r call s = by_token (installation_token r s) refl (installation_token-answers r s)
  where
    by_token :
        (p : Result ClientError Text × Session)
        → installation_token r s ≡ p
        → answers (installation_token r s).1.log ≡ answers s.log
        → Asked r call s (followed (send_with r call) p)
    by_token (err e, u) q same = not_sent e u (ap (λ p. answers p.1.log) (sym q) ∙ same)
    by_token (ok token, u) q same =
        send_with-Asked r call s token u (installation_token-Usable r s q)
          (ap (λ p. answers p.1.log) (sym q) ∙ same)
