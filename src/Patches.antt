-- ===== src/Patches.antt =====
-- toolhub/internal/core/patch.go.
pub mod Tests
use ai_team_toolhub.Base.{
  ℕ, ◌≡◌, ◌≢◌, refl, sym, subst, ap, ◌∙◌, inl, inr, Bool, true, false, ◌&&◌, List, [], ◌∷◌, ◌++◌,
  All, arith, Bool-cases, length, ◌==◌, ==_iff, if◌then◌else◌,
}
use ai_team_toolhub.Text.{Text, codes, is_empty, trim_space, trim_prefix, split, join}
use ai_team_toolhub.Text.Cut.{Lacks, split-join}

-- strings.ReplaceAll(content, "\r\n", "\n")
replace_crlf : Text → Text
replace_crlf [] = []
replace_crlf (c ∷ []) = c ∷ []
replace_crlf (c ∷ d ∷ s) =
    let skipped = replace_crlf s in
    let kept = replace_crlf (d ∷ s) in if c == 13 && d == 10 then 10 ∷ skipped else c ∷ kept

-- strings.TrimSuffix(content, "\n")
trim_newline : Text → Text
trim_newline [] = []
trim_newline (c ∷ []) = if c == 10 then [] else c ∷ []
trim_newline (c ∷ d ∷ s) = c ∷ trim_newline (d ∷ s)

-- splitLines
pub split_lines : Text → List Text
unfolding replace_crlf trim_newline
split_lines content =
    let trimmed = trim_newline (replace_crlf content) in
    if is_empty content then [] else if is_empty trimmed then [] else split trimmed 10

-- CountContentLines
pub count_content_lines : Text → ℕ
count_content_lines content = length (split_lines content)

-- The lines of a text, each after a mark.
mark_lines : ℕ → List Text → Text
mark_lines mark [] = []
mark_lines mark (line ∷ lines) = mark ∷ (line ++ 10 ∷ mark_lines mark lines)

clean_path : Text → Text
clean_path path =
    let cleaned = trim_prefix (trim_space path) (codes "./") in
    if is_empty cleaned then codes "unknown.txt" else cleaned

-- GenerateUnifiedDiff. The first argument is `%d`.
pub generate_unified_diff : (ℕ → Text) → Text → Text → Text → Text
unfolding mark_lines clean_path
generate_unified_diff decimal path original modified =
    let cleaned = clean_path path in
    codes "diff --git a/"
    ++ cleaned
    ++ codes " b/"
    ++ cleaned
    ++ codes "\n--- a/"
    ++ cleaned
    ++ codes "\n+++ b/"
    ++ cleaned
    ++ codes "\n@@ -1,"
    ++ decimal (count_content_lines original)
    ++ codes " +1,"
    ++ decimal (count_content_lines modified)
    ++ codes " @@\n"
    ++ mark_lines b'-' (split_lines original)
    ++ mark_lines b'+' (split_lines modified)

replace_crlf_plain : (s : Text) → Lacks 13 s → replace_crlf s ≡ s
unfolding replace_crlf
replace_crlf_plain [] h = refl
replace_crlf_plain (c ∷ []) h = refl
replace_crlf_plain (c ∷ d ∷ s) h = elim (Bool-cases (c == 13)) [
  | inl e ↦ absurd (h.0 ((==_iff c 13).0 e))
  | inr e ↦ rw (e, replace_crlf) (ap (λ t. c ∷ t) (replace_crlf_plain (d ∷ s) h.1))
]

trim_newline-append : (s : Text) → trim_newline (s ++ 10 ∷ []) ≡ s
unfolding trim_newline
trim_newline-append [] = refl
trim_newline-append (c ∷ []) = refl
trim_newline-append (c ∷ d ∷ s) = ap (λ t. c ∷ t) (trim_newline-append (d ∷ s))

split_lines-split :
    (c : ℕ) (s : Text)
    → Lacks 13 (c ∷ (s ++ 10 ∷ []))
    → split_lines (c ∷ (s ++ 10 ∷ [])) ≡ split (c ∷ s) 10
unfolding split_lines
split_lines-split c s k =
    rw (replace_crlf_plain (c ∷ (s ++ 10 ∷ [])) k, trim_newline-append (c ∷ s)) refl

join_head : (c : ℕ) (l : Text) (ps : List Text) → (t : Text) × (join ((c ∷ l) ∷ ps) 10 ≡ c ∷ t)
unfolding join
join_head c l [] = (l, refl)
join_head c l (q ∷ ps) = (_, refl)

-- Lines of which the first is not empty, and none holds a newline, are what `splitLines` makes of the
-- text in which each is followed by a newline, if that has no carriage return.
pub split_lines-join :
    (c : ℕ) (l : Text) (ps : List Text)
    → All (Lacks 10) ((c ∷ l) ∷ ps)
    → Lacks 13 (join ((c ∷ l) ∷ ps) 10 ++ 10 ∷ [])
    → split_lines (join ((c ∷ l) ∷ ps) 10 ++ 10 ∷ []) ≡ (c ∷ l) ∷ ps
split_lines-join c l ps h k =
    let (t, e) = join_head c l ps in
    ap (λ x. split_lines (x ++ 10 ∷ [])) e
    ∙ split_lines-split c t (subst (λ x. Lacks 13 (x ++ 10 ∷ [])) e k)
    ∙ ap (λ x. split x 10) (sym e)
    ∙ split-join 10 (c ∷ l) ps h
