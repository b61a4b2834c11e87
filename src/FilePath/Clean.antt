-- ===== src/FilePath/Clean.antt =====
-- What a cleaned path looks like, and which tests on it fail.
use ai_team_toolhub.Base.{
  ◌≡◌, ◌≢◌, refl, ap, sym, ◌∙◌, ◌⊎◌, inl, inr, true, false, List, [], ◌∷◌, ◌++◌, arith, All,
  Bool-cases,
}
use ai_team_toolhub.Text.{Text, codes, text_eq, has_prefix, trim_prefix, split, join}
use ai_team_toolhub.Text.Laws.{text_eq→eq, has_prefix-eq, has_prefix-append}
use ai_team_toolhub.Text.Cut.{Lacks, split-join, split-append, split_at_sep, split_lacking}
use ai_team_toolhub.FilePath.{slash, dot, dotdot, is_rooted, resolve, resolve_all, render, clean}
use ai_team_toolhub.FilePath.Segments.{IsName, Resolved, resolve_split}

slashless : (ps : List Text) → All IsName ps → All (Lacks slash) ps
slashless [] h = tt
slashless (p ∷ ps) h = (h.0.no_slash, slashless ps h.1)

-- The names can be read off the joined path.
pub split-names :
    (p : Text) (ps : List Text) → All IsName (p ∷ ps) → split (join (p ∷ ps) slash) slash ≡ p ∷ ps
split-names p ps h = split-join slash p ps (slashless (p ∷ ps) h)

dot-Lacks : Lacks slash dot
dot-Lacks = (omega arith, tt)

split_dot-slash : (t : Text) → split (codes "./" ++ t) slash ≡ dot ∷ split t slash
split_dot-slash t = split-append slash dot t dot-Lacks

module _ (p : Text) (ps : List Text) (h : All IsName (p ∷ ps)) where
  first_of_split : {q : Text} {qs : List Text} → split (join (p ∷ ps) slash) slash ≡ q ∷ qs → p ≡ q
  first_of_split e = cc (e, split-names p ps h)

  names_not_rooted : has_prefix (join (p ∷ ps) slash) (codes "/") ≡ false
  names_not_rooted = elim (Bool-cases (has_prefix (join (p ∷ ps) slash) (codes "/"))) [
    | inr e ↦ e
    | inl e ↦
        let (t, f) = has_prefix-eq _ (codes "/") e in
        absurd (h.0.nonempty (first_of_split (ap (λ s. split s slash) f ∙ split_at_sep slash t)))
  ]

  names_no_dot_slash : has_prefix (join (p ∷ ps) slash) (codes "./") ≡ false
  names_no_dot_slash = elim (Bool-cases (has_prefix (join (p ∷ ps) slash) (codes "./"))) [
    | inr e ↦ e
    | inl e ↦
        let (t, f) = has_prefix-eq _ (codes "./") e in
        absurd (h.0.not_dot (first_of_split (ap (λ s. split s slash) f ∙ split_dot-slash t)))
  ]

  names_ne_dot : text_eq (join (p ∷ ps) slash) dot ≡ false
  names_ne_dot = elim (Bool-cases (text_eq (join (p ∷ ps) slash) dot)) [
    | inr e ↦ e
    | inl e ↦ absurd (
        h.0.not_dot (
          first_of_split
            (ap (λ s. split s slash) (text_eq→eq _ dot e) ∙ split_lacking slash dot dot-Lacks)))
  ]

  names_ne_nil : join (p ∷ ps) slash ≢ []
  unfolding split
  names_ne_nil e = h.0.nonempty (first_of_split (ap (λ s. split s slash) e))

-- A path made of names only is left alone by what `canonicalizePath` strips and tests.
pub strip_names :
    (segs : List Text)
    → All IsName segs
    → (trim_prefix (join segs slash) (codes "./") ≡ join segs slash)
      × (text_eq (join segs slash) dot ≡ false)
unfolding trim_prefix join text_eq
strip_names [] h = (refl, refl)
strip_names (p ∷ ps) h =
    (unfold trim_prefix in rw (names_no_dot_slash p ps h) refl, names_ne_dot p ps h)

pub strip_slash :
    (p : Text) (ps : List Text)
    → All IsName (p ∷ ps)
    → trim_prefix (join (p ∷ ps) slash) (codes "/") ≡ join (p ∷ ps) slash
unfolding trim_prefix
strip_slash p ps h = rw (names_not_rooted p ps h) refl

-- A rooted path keeps names only.
pub clean_rooted :
    (s : Text)
    → is_rooted s ≡ true
    → (segs : List Text) × All IsName segs × (clean s ≡ slash ∷ join segs slash)
unfolding clean render
clean_rooted s r = elim (resolve_split (is_rooted s) s) [
  | inl names ↦ (_, names, rw r refl)
  | inr (f, more, e) ↦ cc
]

-- A relative path is the current directory, or keeps names only, or climbs.
abbrev pub Relative : Text → Type 0
Relative k =
    (k ≡ dot)
    ⊎ ((p : Text) × (ps : List Text) × All IsName (p ∷ ps) × (k ≡ join (p ∷ ps) slash))
    ⊎ ((k ≡ dotdot) ⊎ (has_prefix k (codes "../") ≡ true))

climbing : (more : List Text) → Relative (render false (dotdot ∷ more))
unfolding render join
climbing [] = inr (inr (inl refl))
climbing (q ∷ qs) = inr (inr (inr (has_prefix-append (codes "../") (join (q ∷ qs) slash))))

names-Relative : (segs : List Text) → All IsName segs → Relative (render false segs)
unfolding render
names-Relative [] h = inl refl
names-Relative (p ∷ ps) h = inr (inl (p, ps, h, refl))

Relative-of : (segs : List Text) → Resolved false segs → Relative (render false segs)
Relative-of segs (inl names) = names-Relative segs names
Relative-of segs (inr (f, more, e)) = rw e (climbing more)

pub clean-Relative : (s : Text) → is_rooted s ≡ false → Relative (clean s)
unfolding clean
clean-Relative s r = rw r (Relative-of _ (rw r at (resolve_split (is_rooted s) s)))

Relative-ne_nil : (k : Text) → Relative k → k ≢ []
unfolding has_prefix
Relative-ne_nil k (inl d) e = cc
Relative-ne_nil k (inr (inl (p, ps, names, d))) e = names_ne_nil p ps names (sym d ∙ e)
Relative-ne_nil k (inr (inr (inl d))) e = cc
Relative-ne_nil k (inr (inr (inr d))) e = cc

pub clean_ne_nil : (s : Text) → is_rooted s ≡ false → clean s ≢ []
clean_ne_nil s r = Relative-ne_nil (clean s) (clean-Relative s r)

-- A leading `./` does not matter.
pub clean_dot_slash : (t : Text) → is_rooted t ≡ false → clean (codes "./" ++ t) ≡ clean t
unfolding clean is_rooted resolve_all resolve text_eq
clean_dot_slash t r = rw (split_dot-slash t, r) refl
