-- ===== src/Policy/Canonical.antt =====
-- What `canonicalizePath` returns.
use ai_team_toolhub.Base.{
  ℕ, zero, suc, replicate, ◌≡◌, ◌≢◌, refl, ap, ◌⊎◌, inl, inr, true, false, List, [], ◌∷◌, arith,
  All, Bool-cases, ok, err, ◌∙◌, sym,
}
use ai_team_toolhub.Text.{
  Text, codes, is_space, is_empty, text_eq, trim_space, has_prefix, trim_prefix, split, join,
}
use ai_team_toolhub.Text.Laws.{text_eq_iff}
use ai_team_toolhub.Text.Trim.{trim_space_idem, trim_space_spaceless}
use ai_team_toolhub.FilePath.{slash, dot, dotdot, is_rooted, resolve, resolve_all, render, clean}
use ai_team_toolhub.FilePath.Segments.{IsName}
use ai_team_toolhub.FilePath.Clean.{
  strip_names, strip_slash, clean_rooted, Relative, clean-Relative,
}
use ai_team_toolhub.Policy.{PathError, admit_cleaned, canonicalize_path}

-- The names that a path consists of, joined.
abbrev pub IsCanonical : Text → Type 0
IsCanonical c = (segs : List Text) × All IsName segs × (c ≡ join segs slash)

admit_rooted :
    (segs : List Text)
    → All IsName segs
    → admit_cleaned (slash ∷ join segs slash) ≡ ok (join segs slash)
unfolding admit_cleaned text_eq has_prefix
admit_rooted segs h =
    let stripped : trim_prefix (slash ∷ join segs slash) (codes "/") ≡ join segs slash =
      unfold trim_prefix has_prefix in refl in
    rw (stripped, (strip_names segs h).0, (strip_names segs h).1) refl

no_dotdot_prefix :
    (k : Text)
    → has_prefix k dotdot ≡ false
    → (text_eq k dotdot ≡ false)
      × (has_prefix k (codes "../") ≡ false)
      × (has_prefix k (codes "..\\") ≡ false)
unfolding has_prefix text_eq
no_dotdot_prefix [] e = (refl, refl, refl)
no_dotdot_prefix (a ∷ []) e = ground arith
no_dotdot_prefix (a ∷ b ∷ r) e = ground arith

not_climbing :
    (k : Text)
    → has_prefix k dotdot ≡ false
    → ¬ ((k ≡ dotdot) ⊎ (has_prefix k (codes "../") ≡ true))
not_climbing k e (inl d) = cc ((no_dotdot_prefix k e).0, (text_eq_iff k dotdot).1 d)
not_climbing k e (inr d) = cc ((no_dotdot_prefix k e).1, d)

-- What passes is the cleaned path itself, where that is made of names.
admit_names :
    (p : Text) (ps : List Text)
    → All IsName (p ∷ ps)
    → has_prefix (join (p ∷ ps) slash) dotdot ≡ false
    → admit_cleaned (join (p ∷ ps) slash) ≡ ok (join (p ∷ ps) slash)
unfolding admit_cleaned
admit_names p ps h e =
    let (a, b, c) = no_dotdot_prefix (join (p ∷ ps) slash) e in
    let (f, g) = strip_names (p ∷ ps) h in rw (a, b, c, strip_slash p ps h, f, g) refl

admit_names_inv :
    (p : Text) (ps : List Text) {c : Text}
    → All IsName (p ∷ ps)
    → admit_cleaned (join (p ∷ ps) slash) ≡ ok c
    → c ≡ join (p ∷ ps) slash
unfolding admit_cleaned
admit_names_inv p ps h e =
    ground (arith, strip_slash p ps h, (strip_names (p ∷ ps) h).0, (strip_names (p ∷ ps) h).1)

admit_dot : {c : Text} → admit_cleaned dot ≢ ok c
unfolding admit_cleaned trim_prefix has_prefix text_eq
admit_dot e = cc

admit_climbing :
    (k : Text) {c : Text}
    → (k ≡ dotdot) ⊎ (has_prefix k (codes "../") ≡ true)
    → admit_cleaned k ≢ ok c
unfolding admit_cleaned
admit_climbing k d e = ground (arith, text_eq_iff k dotdot)

IsCanonical-of_clean : (s : Text) {c : Text} → admit_cleaned (clean s) ≡ ok c → IsCanonical c
IsCanonical-of_clean s {c} e = elim (Bool-cases (is_rooted s)) [
  | inl r ↦
      let (segs, names, k) = clean_rooted s r in (segs, names, cc (admit_rooted segs names, k))
  | inr r ↦ relative (clean-Relative s r)
]
  where
    relative : Relative (clean s) → IsCanonical c
    relative (inl d) = absurd (admit_dot (ap admit_cleaned (sym d) ∙ e))
    relative (inr (inl (p, ps, names, k))) =
        (p ∷ ps, names, admit_names_inv p ps names (ap admit_cleaned (sym k) ∙ e))
    relative (inr (inr d)) = absurd (admit_climbing (clean s) d e)

ok_ne_err : {e : PathError} {c : Text} → err e ≢ ok c
ok_ne_err h = cc

-- Whatever `canonicalizePath` returns is a sequence of plain names joined by slashes: no `..`, no
-- `.`, no empty element, and no leading slash.
pub canonicalize_path-IsCanonical :
    (raw : Text) {c : Text} → canonicalize_path raw ≡ ok c → IsCanonical c
unfolding canonicalize_path
canonicalize_path-IsCanonical raw e = elim (Bool-cases (is_empty (trim_space raw))) [
  | inl d ↦ absurd (ok_ne_err (rw d at e))
  | inr d ↦ IsCanonical-of_clean (trim_space raw) (rw d at e)
]

-- Cleaned, a path that is not rooted and has no `..` in front is what `canonicalizePath` returns.
pub canonical_of_relative :
    (raw t : Text)
    → is_empty (trim_space raw) ≡ false
    → clean (trim_space raw) ≡ clean t
    → is_rooted t ≡ false
    → text_eq (clean t) dot ≡ false
    → has_prefix (clean t) dotdot ≡ false
    → canonicalize_path raw ≡ ok (clean t)
unfolding canonicalize_path
canonical_of_relative raw t nonempty same relative ne_dot no_climb =
    rw (nonempty, same) (settle (clean-Relative t relative))
  where
    settle : Relative (clean t) → admit_cleaned (clean t) ≡ ok (clean t)
    settle (inl d) = cc (ne_dot, (text_eq_iff (clean t) dot).1 d)
    settle (inr (inl (p, ps, names, k))) = rw k (admit_names p ps names (rw k at no_climb))
    settle (inr (inr d)) = absurd (not_climbing (clean t) no_climb d)

-- Only surrounding white space is lost before the path is read.
pub canonicalize_path-trim_space :
    (raw : Text) → canonicalize_path (trim_space raw) ≡ canonicalize_path raw
unfolding canonicalize_path
canonicalize_path-trim_space raw = rw (trim_space_idem raw) refl

slashes_spaceless : (n : ℕ) → All (λ c. is_space c ≡ false) (replicate n slash)
unfolding is_space
slashes_spaceless zero = tt
slashes_spaceless (suc n) = (refl, slashes_spaceless n)

resolve_slashes : (n : ℕ) → resolve_all true [] (split (replicate n slash) slash) ≡ []
unfolding resolve_all resolve split
resolve_slashes zero = refl
resolve_slashes (suc n) = resolve_slashes n

clean_slashes : (n : ℕ) → clean (replicate (suc n) slash) ≡ slash ∷ join [] slash
unfolding clean is_rooted render
clean_slashes n = rw (resolve_slashes (suc n)) refl

-- A path of slashes alone is not rejected as the root: the result is the empty path, no error.
pub canonicalize_path_root : (n : ℕ) → canonicalize_path (replicate (suc n) slash) ≡ ok []
unfolding canonicalize_path join
canonicalize_path_root n =
    rw (trim_space_spaceless (replicate (suc n) slash) (slashes_spaceless (suc n)), clean_slashes n)
      (admit_rooted [] tt)
