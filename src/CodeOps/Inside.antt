-- ===== src/CodeOps/Inside.antt =====
-- Proofs about where filepath.Join puts a path of plain names, for `Execute` of
-- toolhub/internal/codeops/runner.go.
use ai_team_toolhub.Base.{
  ◌≡◌, ◌≢◌, refl, sym, ap, ◌∙◌, inl, inr, true, List, [], ◌∷◌, ◌++◌, reverse, reverse-cons,
  append_assoc, append-nil, All, Bool-cases, ok, arith, ◌==◌,
}
use ai_team_toolhub.Text.{Text, is_empty, text_eq, split, join, has_prefix}
use ai_team_toolhub.Text.Laws.{text_eq→eq}
use ai_team_toolhub.Text.Cut.{split-parts}
use ai_team_toolhub.FilePath.{slash, dot, dotdot, is_rooted, resolve, resolve_all, render, clean}
use ai_team_toolhub.FilePath.Segments.{IsName, resolve_split}
use ai_team_toolhub.FilePath.Clean.{split-names}
use ai_team_toolhub.CodeOps.{safe_relative_path, join_path}
use ai_team_toolhub.CodeOps.Branches.{safe_relative_path_sound}

-- `full` is the path of the folder `wd`, cleaned, followed by the path `c` of one or more plain names: no
-- `..`, no `.`, no empty name.
pub record Inside (wd c full : Text) : Type 0 where
  pub base : List Text
  pub first : Text
  pub names : List Text
  pub base_names : All IsName base
  pub plain : All IsName (first ∷ names)
  pub folder : clean wd ≡ slash ∷ join base slash
  pub path : c ≡ join (first ∷ names) slash
  pub whole : full ≡ slash ∷ join (base ++ first ∷ names) slash

resolve-name : (st : List Text) (seg : Text) → IsName seg → resolve true st seg ≡ seg ∷ st
unfolding resolve
resolve-name st seg n = elim (Bool-cases (is_empty seg)) [
  | inl e ↦ absurd (n.nonempty (empty seg e))
  | inr d ↦ elim (Bool-cases (text_eq seg dot)) [
    | inl e ↦ absurd (n.not_dot (text_eq→eq seg dot e))
    | inr e ↦ elim (Bool-cases (text_eq seg dotdot)) [
      | inl f ↦ absurd (n.not_dotdot (text_eq→eq seg dotdot f))
      | inr f ↦ rw (d, e, f) refl
    ]
  ]
]
  where
    empty : (t : Text) → is_empty t ≡ true → t ≡ []
    empty [] e = refl
    empty (c ∷ t) e = cc

resolve_all-names :
    (st names : List Text) → All IsName names → resolve_all true st names ≡ reverse st ++ names
unfolding resolve_all
resolve_all-names st [] h = sym (append-nil (reverse st))
resolve_all-names st (seg ∷ names) h =
    ap (λ s. resolve_all true s names) (resolve-name st seg h.0)
    ∙ resolve_all-names (seg ∷ st) names h.1
    ∙ ap (λ l. l ++ names) (reverse-cons seg st)
    ∙ append_assoc (reverse st) (seg ∷ []) names

resolve_all-append :
    (st segs names : List Text)
    → All IsName names
    → resolve_all true st (segs ++ names) ≡ resolve_all true st segs ++ names
unfolding resolve_all
resolve_all-append st [] names h = resolve_all-names st names h
resolve_all-append st (seg ∷ segs) names h = resolve_all-append (resolve true st seg) segs names h

split-slash : (s t : Text) → split (s ++ slash ∷ t) slash ≡ split s slash ++ split t slash
unfolding split
split-slash [] t = refl
split-slash (c ∷ s) t = elim (Bool-cases (c == slash)) [
  | inl e ↦ rw e (ap (λ l. [] ∷ l) (split-slash s t))
  | inr e ↦ let (p, ps, h) = split-parts slash s in rw (e, split-slash s t, h) refl
]

rooted-append : (s t : Text) → is_rooted s ≡ true → is_rooted (s ++ t) ≡ true
unfolding is_rooted has_prefix
rooted-append [] t h = cc
rooted-append (c ∷ s) t h = ground (arith, h)

kept_of :
    (wd : Text)
    → is_rooted wd ≡ true
    → clean wd ≡ slash ∷ join (resolve_all true [] (split wd slash)) slash
unfolding clean render
kept_of wd rooted = rw rooted refl

kept-IsName : (wd : Text) → All IsName (resolve_all true [] (split wd slash))
kept-IsName wd = elim (resolve_split true wd) [ inl names ↦ names | inr (f, more, e) ↦ cc ]

clean-joined :
    (wd t : Text) (names : List Text)
    → is_rooted wd ≡ true
    → All IsName names
    → split t slash ≡ names
    → clean (wd ++ slash ∷ t) ≡ slash ∷ join (resolve_all true [] (split wd slash) ++ names) slash
clean-joined wd t names rooted plain q =
    kept_of (wd ++ slash ∷ t) (rooted-append wd (slash ∷ t) rooted)
    ∙ ap (λ segs. slash ∷ join (resolve_all true [] segs) slash)
        (split-slash wd t ∙ ap (λ l. split wd slash ++ l) q)
    ∙ ap (λ l. slash ∷ join l slash) (resolve_all-append [] (split wd slash) names plain)

-- A path that safeRelativePath returns, joined to the folder, is inside it.
pub safe_relative_path-Inside :
    (wd raw : Text) {c : Text}
    → is_rooted wd ≡ true
    → safe_relative_path raw ≡ ok c
    → Inside wd c (join_path wd c)
unfolding join_path
safe_relative_path-Inside wd raw {c} rooted accepted =
    let ((segs, names, e), dash, nonempty) = safe_relative_path_sound raw accepted in
    by segs names e nonempty
  where
    by :
        (segs : List Text)
        → All IsName segs
        → c ≡ join segs slash
        → c ≢ []
        → Inside wd c (join_path wd c)
    by [] names e nonempty = absurd (nonempty (unfold join in e))
    by (p ∷ ps) names e nonempty = record {
      base = resolve_all true [] (split wd slash);
      first = p;
      names = ps;
      base_names = kept-IsName wd;
      plain = names;
      folder = kept_of wd rooted;
      path = e;
      whole =
          ap (λ t. clean (wd ++ slash ∷ t)) e
          ∙ clean-joined wd (join (p ∷ ps) slash) (p ∷ ps) rooted names (split-names p ps names);
    }
