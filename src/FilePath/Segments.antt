-- ===== src/FilePath/Segments.antt =====
-- The elements that `Clean` keeps: names, behind a run of `..` that only a relative path has.
use ai_team_toolhub.Base.{
  ◌≡◌, ◌≢◌, refl, ap, ◌⊎◌, inl, inr, Bool, true, false, List, [], ◌∷◌, ◌++◌, reverse, reverse-cons,
  All, All-append, Bool-cases,
}
use ai_team_toolhub.Text.{Text, is_empty, text_eq, split}
use ai_team_toolhub.Text.Laws.{text_eq_self, text_eq→eq, text_eq_iff}
use ai_team_toolhub.Text.Cut.{Lacks, split-Lacks}
use ai_team_toolhub.FilePath.{slash, dot, dotdot, resolve, resolve_all, backtrack}

-- An element that names a file or a directory below the one before it.
pub record IsName (seg : Text) : Type 0 where
  pub nonempty : seg ≢ []
  pub not_dot : seg ≢ dot
  pub not_dotdot : seg ≢ dotdot
  pub no_slash : Lacks slash seg

abbrev AllDotdot : List Text → Type 0
AllDotdot = All (λ s. s ≡ dotdot)

-- The stack: names above, `..` below, the latter in a relative path only.
abbrev pub Shape : Bool → List Text → Type 0
Shape rooted [] = Unit
Shape rooted (s ∷ st) =
    (IsName s × Shape rooted st) ⊎ ((s ≡ dotdot) × (rooted ≡ false) × AllDotdot st)

backtrack-Shape :
    (rooted : Bool) (st : List Text) → Shape rooted st → Shape rooted (backtrack rooted st)
unfolding backtrack
backtrack-Shape true [] h = tt
backtrack-Shape false [] h = inr (refl, refl, tt)
backtrack-Shape rooted (s ∷ st) (inl (n, h)) = elim (Bool-cases (text_eq s dotdot)) [
  | inl e ↦ absurd (n.not_dotdot (text_eq→eq s dotdot e))
  | inr e ↦ rw e h
]
backtrack-Shape rooted (s ∷ st) (inr (d, r, h)) =
    rw (d, text_eq_self dotdot) (inr (refl, r, (refl, h)))

IsName-of_tests :
    (seg : Text)
    → is_empty seg ≡ false
    → text_eq seg dot ≡ false
    → text_eq seg dotdot ≡ false
    → Lacks slash seg
    → IsName seg
IsName-of_tests seg e f g lacks = record {
  nonempty = λ q. cc (e, ap is_empty q);
  not_dot = λ q. cc (f, (text_eq_iff seg dot).1 q);
  not_dotdot = λ q. cc (g, (text_eq_iff seg dotdot).1 q);
  no_slash = lacks;
}

resolve-Shape :
    (rooted : Bool) (st : List Text) (seg : Text)
    → Lacks slash seg
    → Shape rooted st
    → Shape rooted (resolve rooted st seg)
unfolding resolve
resolve-Shape rooted st seg lacks h = elim (Bool-cases (is_empty seg)) [
  | inl d ↦ rw d h
  | inr d ↦ elim (Bool-cases (text_eq seg dot)) [
    | inl e ↦ rw (d, e) h
    | inr e ↦ elim (Bool-cases (text_eq seg dotdot)) [
      | inl f ↦ rw (d, e, f) (backtrack-Shape rooted st h)
      | inr f ↦ rw (d, e, f) (inl (IsName-of_tests seg d e f lacks, h))
    ]
  ]
]

-- All names, or the path climbs out of where it starts.
abbrev pub Resolved : Bool → List Text → Type 0
Resolved rooted segs =
    All IsName segs ⊎ ((rooted ≡ false) × (more : List Text) × (segs ≡ dotdot ∷ more))

dotdots-reverse :
    (st : List Text) → AllDotdot st → (more : List Text) × (reverse (dotdot ∷ st) ≡ dotdot ∷ more)
dotdots-reverse [] h = ([], refl)
dotdots-reverse (s ∷ st) h =
    let (more, e) = dotdots-reverse st h.1 in
    (more ++ dotdot ∷ [], rw (reverse-cons dotdot (s ∷ st), h.0, e))

reverse-Resolved : (rooted : Bool) (st : List Text) → Shape rooted st → Resolved rooted (reverse st)
reverse-Resolved rooted [] h = inl tt
reverse-Resolved rooted (s ∷ st) (inl (n, h)) = elim (reverse-Resolved rooted st h) [
  | inl names ↦ inl (rw reverse-cons (All-append IsName (reverse st) (s ∷ []) names (n, tt)))
  | inr (r, more, e) ↦ inr (r, more ++ s ∷ [], rw (reverse-cons s st, e))
]
reverse-Resolved rooted (s ∷ st) (inr (d, r, h)) =
    let (more, e) = dotdots-reverse st h in inr (r, more, rw d e)

resolve_all-Resolved :
    (rooted : Bool) (st segs : List Text)
    → All (Lacks slash) segs
    → Shape rooted st
    → Resolved rooted (resolve_all rooted st segs)
unfolding resolve_all
resolve_all-Resolved rooted st [] lacks h = reverse-Resolved rooted st h
resolve_all-Resolved rooted st (seg ∷ segs) lacks h =
    resolve_all-Resolved rooted (resolve rooted st seg) segs lacks.1
      (resolve-Shape rooted st seg lacks.0 h)

-- What `Clean` keeps of the elements of any text.
pub resolve_split :
    (rooted : Bool) (s : Text) → Resolved rooted (resolve_all rooted [] (split s slash))
resolve_split rooted s = resolve_all-Resolved rooted [] (split s slash) (split-Lacks slash s) tt
