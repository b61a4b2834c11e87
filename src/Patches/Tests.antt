-- ===== src/Patches/Tests.antt =====
-- Splitting a concrete text into lines.
use ai_team_toolhub.Base.{◌≡◌, refl, [], ◌∷◌, ◌++◌, All}
use ai_team_toolhub.Text.{codes, join, split}
use ai_team_toolhub.Text.Cut.{Lacks}
use ai_team_toolhub.Patches.{split_lines, split_lines-join}

carriage_returns : split_lines (codes "a\r\n\r\nb\n") ≡ codes "a" ∷ [] ∷ codes "b" ∷ []
unfolding split_lines split
carriage_returns = refl

no_newline : All (Lacks 10) (codes "a" ∷ codes "b" ∷ [])
no_newline = (((λ e. cc), tt), (((λ e. cc), tt), tt))

no_return : Lacks 13 (join (codes "a" ∷ codes "b" ∷ []) 10 ++ 10 ∷ [])
unfolding join
no_return = ((λ e. cc), ((λ e. cc), ((λ e. cc), ((λ e. cc), tt))))

split_lines-join_example :
    split_lines (join (codes "a" ∷ codes "b" ∷ []) 10 ++ 10 ∷ []) ≡ codes "a" ∷ codes "b" ∷ []
split_lines-join_example = split_lines-join b'a' [] (codes "b" ∷ []) no_newline no_return
