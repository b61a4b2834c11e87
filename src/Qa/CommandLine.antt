-- ===== src/Qa/CommandLine.antt =====
-- `validateCommandLine` and `splitCommandLine` of toolhub/internal/qa/runner.go.
use ai_team_toolhub.Base.{
  ℕ, Bool, true, false, not, ◌||◌, List, [], ◌∷◌, ◌++◌, Option, none, some, ◌==◌, Result, ok, err,
  if◌then◌else◌,
}
use ai_team_toolhub.Text.{Text, codes, is_empty, trim_space, contains}
use ai_team_toolhub.Qa.{
  QaError, command_empty, command_invalid, command_is_empty, forbidden_operator,
  unterminated_escape, unterminated_quote,
}

abbrev pub dangerous : List Text
dangerous =
    codes "&&"
    ∷ codes "||"
    ∷ codes ";"
    ∷ codes "|"
    ∷ codes "$("
    ∷ codes "`"
    ∷ codes ">"
    ∷ codes "<"
    ∷ (10 ∷ [])
    ∷ (13 ∷ [])
    ∷ []

-- The loop over `dangerous`: the first operator that occurs.
unfoldable pub find_operator : Text → List Text → Option Text
find_operator trimmed [] = none
find_operator trimmed (token ∷ tokens) =
    let rest = find_operator trimmed tokens in if contains trimmed token then some token else rest

-- validateCommandLine
unfoldable pub validate_command_line : Text → Result QaError (Unit {0})
unfolding find_operator
validate_command_line cmdline =
    let trimmed = trim_space cmdline in
    if is_empty trimmed
    then err (record { err_code = command_empty; detail = command_is_empty })
    else elim (find_operator trimmed dangerous) [
      | some token ↦ err (record { err_code = command_invalid; detail = forbidden_operator token })
      | none ↦ ok tt
    ]

-- The variables of the loop; `quote` is 0 outside quotes.
pub record Scan : Type 0 where
  pub args : List Text
  pub token : Text
  pub quote : ℕ
  pub escape : Bool

-- flush()
abbrev pub flush : Scan → Scan
flush st =
    if is_empty st.token then st else record st { args = st.args ++ st.token ∷ []; token = [] }

abbrev pub write_rune : Scan → ℕ → Scan
write_rune st r = record st { token = st.token ++ r ∷ [] }

-- One round of the loop.
unfoldable pub scan_step : Scan → ℕ → Scan
scan_step st r =
    if st.escape
    then record st { token = st.token ++ r ∷ []; escape = false }
    else if not (st.quote == 0)
    then (if r == st.quote then record st { quote = 0 } else write_rune st r)
    else if r == b'\\'
    then record st { escape = true }
    else if r == b'\'' || r == b'"'
    then record st { quote = r }
    else if r == b' ' || r == 9
    then flush st
    else write_rune st r

unfoldable pub scan : Scan → Text → Scan
scan st [] = st
scan st (r ∷ s) = scan (scan_step st r) s

abbrev pub scan_start : Scan
scan_start = record { args = []; token = []; quote = 0; escape = false }

-- What follows the loop.
unfoldable pub finish : Scan → Result QaError (List Text)
finish st =
    if st.escape
    then err (record { err_code = command_invalid; detail = unterminated_escape })
    else if not (st.quote == 0)
    then err (record { err_code = command_invalid; detail = unterminated_quote })
    else ok (flush st).args

-- splitCommandLine
unfoldable pub split_command_line : Text → Result QaError (List Text)
unfolding scan finish scan_step
split_command_line input =
    let trimmed = trim_space input in
    if is_empty trimmed then ok [] else finish (scan scan_start trimmed)
