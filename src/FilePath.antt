-- ===== src/FilePath.antt =====
-- `path/filepath` on Unix: `Clean`, as a fold over the elements between the slashes.
pub mod Segments
pub mod Clean
use ai_team_toolhub.Base.{ℕ, Bool, true, false, ◌||◌, List, [], ◌∷◌, reverse, if◌then◌else◌}
use ai_team_toolhub.Text.{Text, codes, is_empty, text_eq, has_prefix, split, join}

abbrev pub slash : ℕ
slash = b'/'

abbrev pub dot : Text
dot = codes "."

abbrev pub dotdot : Text
dotdot = codes ".."

unfoldable pub is_rooted : Text → Bool
unfolding has_prefix
is_rooted s = has_prefix s (codes "/")

-- `..`: drops the last element; where there is none to drop, stays at the root or is kept.
unfoldable pub backtrack : Bool → List Text → List Text
backtrack true [] = []
backtrack false [] = dotdot ∷ []
backtrack rooted (top ∷ below) = if text_eq top dotdot then dotdot ∷ top ∷ below else below

-- One element; the stack has the last element kept at its head.
unfoldable pub resolve : Bool → List Text → Text → List Text
unfolding backtrack
resolve rooted stack seg =
    if is_empty seg || text_eq seg dot
    then stack
    else if text_eq seg dotdot
    then backtrack rooted stack
    else seg ∷ stack

unfoldable pub resolve_all : Bool → List Text → List Text → List Text
resolve_all rooted stack [] = reverse stack
resolve_all rooted stack (seg ∷ segs) = resolve_all rooted (resolve rooted stack seg) segs

unfoldable pub render : Bool → List Text → Text
render true segs = slash ∷ join segs slash
render false [] = dot
render false (p ∷ ps) = join (p ∷ ps) slash

-- filepath.Clean
unfoldable pub clean : Text → Text
clean s = render (is_rooted s) (resolve_all (is_rooted s) [] (split s slash))
