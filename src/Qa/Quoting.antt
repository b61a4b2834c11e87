-- ===== src/Qa/Quoting.antt =====
-- Quoting the arguments of `splitCommandLine` (toolhub/internal/qa/runner.go).
use ai_team_toolhub.Base.{
  ℕ, ◌≡◌, ◌≢◌, refl, sym, ap, ◌∙◌, inl, inr, false, List, [], ◌∷◌, ◌++◌, map, append_assoc,
  append-nil, ok, All, Bool-cases, ◌==◌, ==_iff,
}
use ai_team_toolhub.Text.{Text, is_empty, is_space, trim_space, join}
use ai_team_toolhub.Text.Cut.{Lacks}
use ai_team_toolhub.Text.Trim.{trim_space_between}
use ai_team_toolhub.Qa.CommandLine.{Scan, scan, scan_step, scan_start, finish, split_command_line}

abbrev quote_mark : ℕ
quote_mark = b'\''

-- An argument between single quotes.
abbrev pub single_quote : Text → Text
single_quote a = quote_mark ∷ (a ++ quote_mark ∷ [])

abbrev state : List Text → Text → ℕ → Scan
state args token quote = record { args = args; token = token; quote = quote; escape = false }

-- Between the quotes every character is taken as it is.
scan_quoted :
    (args : List Text) (token a rest : Text)
    → Lacks quote_mark a
    → scan (state args token quote_mark) (a ++ rest)
      ≡ scan (state args (token ++ a) quote_mark) rest
unfolding scan scan_step
scan_quoted args token [] rest h = rw append-nil refl
scan_quoted args token (c ∷ a) rest h = elim (Bool-cases (c == quote_mark)) [
  | inl e ↦ absurd (h.0 ((==_iff c quote_mark).0 e))
  | inr e ↦
      rw (e, scan, scan_step)
        (scan_quoted args (token ++ c ∷ []) a rest h.1
          ∙ ap (λ t. scan (state args t quote_mark) rest) (append_assoc token (c ∷ []) a))
]

-- A quoted argument becomes the current token.
scan-single_quote :
    (args : List Text) (a rest : Text)
    → Lacks quote_mark a
    → scan (state args [] 0) (single_quote a ++ rest) ≡ scan (state args a 0) rest
unfolding scan scan_step
scan-single_quote args a rest h =
    ap (λ t. scan (state args [] quote_mark) t) (append_assoc a (quote_mark ∷ []) rest)
    ∙ scan_quoted args [] a (quote_mark ∷ rest) h

abbrev pub IsQuotable : Text → Type 0
IsQuotable a = (a ≢ []) × Lacks quote_mark a

-- The rest of the command line, after a token that is not empty.
finish_quoted :
    (args : List Text) (a : Text) (more : List Text)
    → All IsQuotable (a ∷ more)
    → finish (scan (state args [] 0) (join (map single_quote (a ∷ more)) b' '))
      ≡ ok (args ++ a ∷ more)
unfolding join finish scan scan_step
finish_quoted args a [] h =
    rw (← append-nil (single_quote a)) (rw (scan-single_quote args a [] h.0.1) (last a h.0.0))
  where
    last : (t : Text) → t ≢ [] → finish (state args t 0) ≡ ok (args ++ t ∷ [])
    last [] n = absurd (n refl)
    last (c ∷ t) n = refl
finish_quoted args a (b ∷ more) h =
    rw (scan-single_quote args a _ h.0.1)
      (flushed a h.0.0 (finish_quoted (args ++ a ∷ []) b more h.1))
  where
    rest : Text
    rest = join (map single_quote (b ∷ more)) b' '

    flushed :
        (t : Text)
        → t ≢ []
        → finish (scan (state (args ++ t ∷ []) [] 0) rest) ≡ ok ((args ++ t ∷ []) ++ b ∷ more)
        → finish (scan (state args t 0) (b' ' ∷ rest)) ≡ ok (args ++ t ∷ b ∷ more)
    flushed [] n e = absurd (n refl)
    flushed (c ∷ t) n e = e ∙ ap ok (append_assoc args ((c ∷ t) ∷ []) (b ∷ more))

-- The text of quoted arguments begins and ends with a quote mark.
join_ends :
    (a : Text) (more : List Text)
    → (t : Text) × (join (map single_quote (a ∷ more)) b' ' ≡ quote_mark ∷ (t ++ quote_mark ∷ []))
unfolding join
join_ends a [] = (a, refl)
join_ends a (b ∷ more) =
    let rec = join_ends b more in
    (
      a ++ quote_mark ∷ b' ' ∷ quote_mark ∷ rec.0,
      ap (λ t. quote_mark ∷ t)
          (ap (λ t. (a ++ quote_mark ∷ []) ++ b' ' ∷ t) rec.1
            ∙ append_assoc a (quote_mark ∷ []) (b' ' ∷ quote_mark ∷ (rec.0 ++ quote_mark ∷ []))
            ∙ sym (append_assoc a (quote_mark ∷ b' ' ∷ quote_mark ∷ rec.0) (quote_mark ∷ []))),
    )

split_quoted :
    (args : List Text) (line t : Text)
    → line ≡ quote_mark ∷ (t ++ quote_mark ∷ [])
    → finish (scan scan_start line) ≡ ok args
    → split_command_line line ≡ ok args
unfolding split_command_line is_space
split_quoted args line t e h =
    rw (ap trim_space e ∙ trim_space_between quote_mark t quote_mark refl refl ∙ sym e)
      (rw (ap is_empty e) h)

-- Arguments that are not empty and hold no single quote, each between single quotes and joined by
-- spaces, are what `splitCommandLine` returns, whatever other characters they hold.
pub split_command_line-join :
    (args : List Text)
    → All IsQuotable args
    → split_command_line (join (map single_quote args) b' ') ≡ ok args
unfolding split_command_line join trim_space
split_command_line-join [] h = refl
split_command_line-join (a ∷ more) h =
    let ends = join_ends a more in
    split_quoted (a ∷ more) (join (map single_quote (a ∷ more)) b' ') ends.0 ends.1
      (finish_quoted [] a more h)
