-- ===== src/Qa/Output.antt =====
-- `truncateOutput` of toolhub/internal/qa/runner.go, over bytes.
use ai_team_toolhub.Base.{
  ℕ, ◌-◌, ◌≤◌, ◌<◌, ◌≡◌, ◌⊎◌, Bool, true, false, ◌∷◌, ◌||◌, ◌++◌, leb, length, take, length-append,
  length-take, arith, if◌then◌else◌,
}
use ai_team_toolhub.Base.Int.{ℤ, pos, negsuc}
use ai_team_toolhub.Text.{Text, codes}

abbrev notice : Text
notice = 10 ∷ codes "[output truncated]"

-- truncateOutput; the bytes of the notice are its code points.
pub truncate_output : Text → ℤ → Text × Bool
truncate_output text (negsuc n) = (text, false)
truncate_output text (pos max_bytes) =
    if leb max_bytes 0 || leb (length text) max_bytes
    then (text, false)
    else if leb max_bytes (length notice)
    then (take max_bytes notice, true)
    else (take (max_bytes - length notice) text ++ notice, true)

-- With a positive limit the output never exceeds it. It is cut, to exactly the limit, and marked as
-- cut, exactly if it was longer; otherwise it is what it was.
pub truncate_output_lem :
    (text : Text) (n : ℕ)
    → 0 < n
    → (length (truncate_output text (pos n)).0 ≤ n)
      × ((length text ≤ n) × (truncate_output text (pos n) ≡ (text, false))
          ⊎ (n < length text)
            × ((truncate_output text (pos n)).1 ≡ true)
            × (length (truncate_output text (pos n)).0 ≡ n))
unfolding truncate_output
truncate_output_lem text n h = ground (
  arith,
  length-append (take (n - 19) text) notice,
  length-take (n - 19) text,
  length-take n notice,
)
