-- ===== src/Github/Pages.antt =====
-- What ListPullRequestFiles of toolhub/internal/github/client.go collects.
use ai_team_toolhub.Base.{
  followed, ℕ, zero, suc, ◌+◌, ◌*◌, ◌-◌, ◌<◌, ◌≡◌, refl, ◌∙◌, sym, ap, true, false, List, [], ◌++◌,
  none, ok, Bool-cases, inl, inr, append-nil, arith, ltb, ltb_sound, length, take, drop, take_sum,
  take_short, drop-drop, append_assoc,
}
use ai_team_toolhub.Base.Int.{ℤ}
use ai_team_toolhub.Text.{Text, is_empty}
use ai_team_toolhub.Github.{Response, Event, Remote, PullRequestFile, get_files, sent, has_body}
use ai_team_toolhub.Github.Session.{
  Session, minute, noted, is_zero, ensure_installation_id, is_current, current_token,
  installation_token, built, send_with, do_api,
}
use ai_team_toolhub.Github.Calls.{ask_once, list_page, list_pages, list_pull_request_files}

module _ (r : Remote) (owner repo : Text) (pr_number : ℤ) (all : List PullRequestFile) where
  -- The client has a token that stays good, and GitHub answers for each page of 100 files.
  pub record Serves (s : Session) : Type 0 where
    pub known : is_zero s.installation_id ≡ false
    pub present : is_empty s.token ≡ false
    pub good : (log : List Event) → r.now log + minute < s.exp_at
    pub request : (page : ℕ) → r.new_request (get_files owner repo pr_number page) ≡ none
    pub response : List Event → ℕ → Response
    pub answer :
        (log : List Event) (page : ℕ)
        → r.send log s.token (get_files owner repo pr_number page) ≡ ok (response log page)
    pub status : (log : List Event) (page : ℕ) → (response log page).status ≡ 200
    pub files :
        (log : List Event) (page : ℕ)
        → r.decode_files (response log page) ≡ ok (take 100 (drop (100 * (page - 1)) all))

  Serves-noted : (e : Event) (s : Session) → Serves s → Serves (noted e s)
  Serves-noted e s h = record {
    known = h.known;
    present = h.present;
    good = h.good;
    request = h.request;
    response = h.response;
    answer = h.answer;
    status = h.status;
    files = h.files;
  }

  installation_token_kept : (s : Session) → Serves s → installation_token r s ≡ (ok s.token, s)
  unfolding installation_token ensure_installation_id current_token is_current followed
  installation_token_kept s h =
      let current : is_current r s ≡ true = ground (arith, h.present, h.good s.log) in
      rw (h.known, current, installation_token, ensure_installation_id) refl

  list_page_served :
      (page : ℕ) (s : Session)
      → Serves s
      → (t : Session) × Serves t
        × (list_page r owner repo pr_number page s
            ≡ (ok (take 100 (drop (100 * (page - 1)) all)), t))
  unfolding list_page ask_once do_api send_with built has_body followed
  list_page_served page s h =
      let e : Event =
        sent s.token (get_files owner repo pr_number page)
          (r.send s.log s.token (get_files owner repo pr_number page)) in
      (
        noted e s,
        Serves-noted e s h,
        rw
            (
              installation_token_kept s h,
              h.request page,
              h.answer s.log page,
              h.files s.log page,
              h.status s.log page,
            )
            refl,
      )

  -- What is left of the list is taken, page by page.
  list_pages_served :
      (left k : ℕ) (files : List PullRequestFile) (s : Session)
      → Serves s
      → (list_pages r owner repo pr_number left (k + 1) files s).0
        ≡ ok (files ++ take (100 * left) (drop (100 * k) all))
  unfolding list_pages followed
  list_pages_served zero k files s h = ap (λ l. ok l) (sym (append-nil files))
  list_pages_served (suc left) k files s h =
      let (t, served, q) = list_page_served (k + 1) s h in
      let e1 : 100 * (k + 1 - 1) ≡ 100 * k = omega arith in
      let e2 : 100 * suc left ≡ 100 + 100 * left = omega arith in
      let xs = drop (100 * k) all in
      let e3 : drop (100 * (k + 1)) all ≡ drop 100 xs =
        ap (λ n. drop n all) (omega arith) ∙ sym (drop-drop (100 * k) 100 all) in
      let e4 : take (100 * left) (drop (100 * (k + 1)) all) ≡ take (100 * left) (drop 100 xs) =
        ap (take (100 * left)) e3 in
      let e5 : take (100 + 100 * left) xs
          ≡ take 100 xs ++ take (100 * left) (drop (100 * (k + 1)) all) =
        take_sum 100 (100 * left) xs ∙ ap (λ l. take 100 xs ++ l) (sym e4) in
      rw (q, e1, e2)
        (elim (Bool-cases (ltb (length (take 100 xs)) 100)) [
          | inl short ↦
              rw (short, followed)
                (ap (λ l. ok (files ++ l))
                  (take_short 100 (100 * left) xs (ltb_sound (length (take 100 xs)) 100 short)))
          | inr long ↦
              rw (long, followed)
                (list_pages_served left (k + 1) (files ++ take 100 xs) t served
                  ∙ ap (λ l. ok l)
                      (append_assoc files (take 100 xs) _ ∙ ap (λ l. files ++ l) (sym e5)))
        ])

  -- Where the client's token stays good and GitHub gives the files in pages of 100,
  -- `ListPullRequestFiles` returns the first 1000 of them, in their order, and no error: those
  -- after them are dropped.
  pub list_pull_request_files-take :
      (s : Session)
      → Serves s
      → (list_pull_request_files r owner repo pr_number s).0 ≡ ok (take 1000 all)
  unfolding list_pull_request_files
  list_pull_request_files-take s h = list_pages_served 10 0 [] s h
