-- ===== src/Policy/Paths.antt =====
-- `CheckPaths`: what it lets through.
use ai_team_toolhub.Base.{
  ◌≡◌, ◌≢◌, refl, ap, ◌↔◌, inl, inr, true, false, ◌||◌, List, [], ◌∷◌, arith, Bool-cases, Result,
  ok, err, ◌∙◌, if◌then◌else◌, All, All-map, >>-eq-ok,
}
use ai_team_toolhub.Text.{Text, codes, is_empty, text_eq, trim_space, has_prefix, has_suffix}
use ai_team_toolhub.Text.Laws.{text_eq_iff}
use ai_team_toolhub.Policy.{
  Policy, PathError, has_key, check_prefixes, check_canonical, check_path, check_paths,
  canonicalize_path, matches_forbidden_prefix, set_path_policy, builtin_forbidden_prefixes,
  parse_prefixes_csv,
}
use ai_team_toolhub.Policy.Canonical.{canonicalize_path-trim_space}
use ai_team_toolhub.Policy.Prefixes.{merge_unique_prefixes-Unique}

-- No listed prefix matches the canonical path.
abbrev pub Clear : List Text → Text → Type 0
Clear prefixes c =
    (prefix : Text) → has_key prefix prefixes ≡ true → matches_forbidden_prefix c prefix ≡ false

-- The path has a canonical form, and no forbidden prefix matches that.
abbrev pub Permitted : Policy → Text → Type 0
Permitted p raw = (c : Text) × (canonicalize_path raw ≡ ok c) × Clear p.forbidden_path_prefixes c

check_prefixes-Clear :
    (raw c : Text) (prefixes : List Text) → check_prefixes raw c prefixes ≡ ok tt → Clear prefixes c
unfolding check_prefixes has_key
check_prefixes-Clear raw c [] h x e = cc
check_prefixes-Clear raw c (q ∷ prefixes) h x e = elim (Bool-cases (matches_forbidden_prefix c q)) [
  | inl m ↦ absurd (cc (rw (m, if◌then◌else◌) at h))
  | inr m ↦ ground (arith, text_eq_iff x q, check_prefixes-Clear raw c prefixes (ground arith) x)
]

Clear-check_prefixes :
    (raw c : Text) (prefixes : List Text) → Clear prefixes c → check_prefixes raw c prefixes ≡ ok tt
unfolding check_prefixes has_key
Clear-check_prefixes raw c [] h = refl
Clear-check_prefixes raw c (q ∷ prefixes) h =
    ground
      (arith, text_eq_iff q q, h q, Clear-check_prefixes raw c prefixes (λ x e. h x (ground arith)))

empty_is_rejected :
    (raw : Text) {c : Text} → is_empty (trim_space raw) ≡ true → canonicalize_path raw ≢ ok c
unfolding canonicalize_path
empty_is_rejected raw e h = ground arith

check_path_iff : (p : Policy) (raw : Text) → (check_path p raw ≡ ok tt) ↔ Permitted p raw
unfolding check_path check_canonical
check_path_iff p raw = (admitted, passes)
  where
    settled :
        (r : Result PathError Text)
        → canonicalize_path raw ≡ r
        → check_canonical p raw r ≡ ok tt
        → Permitted p raw
    settled (ok c) e h = (c, e, check_prefixes-Clear raw c _ h)
    settled (err e') e h = cc

    admitted : check_path p raw ≡ ok tt → Permitted p raw
    admitted h = elim (Bool-cases (is_empty (trim_space raw))) [
      | inl d ↦ cc (rw d at h)
      | inr d ↦ settled (canonicalize_path raw) refl (rw (d, canonicalize_path-trim_space) at h)
    ]

    passes : Permitted p raw → check_path p raw ≡ ok tt
    passes (c, e, clear) = elim (Bool-cases (is_empty (trim_space raw))) [
      | inl d ↦ absurd (empty_is_rejected raw d e)
      | inr d ↦ rw (d, canonicalize_path-trim_space, e) (Clear-check_prefixes raw c _ clear)
    ]

-- `CheckPaths` returns no error exactly if every path of the list is permitted: it has a canonical
-- form, and no forbidden prefix matches that form.
pub check_paths_iff :
    (p : Policy) (paths : List Text) → (check_paths p paths ≡ ok tt) ↔ All (Permitted p) paths
unfolding check_paths
check_paths_iff p [] = (λ h. tt, λ h. refl)
check_paths_iff p (raw ∷ paths) = (
  λ h.
      let (a, b) = >>-eq-ok (check_path p raw) (check_paths p paths) h in
      ((check_path_iff p raw).0 a, (check_paths_iff p paths).0 b),
  λ h. rw ((check_path_iff p raw).1 h.0) ((check_paths_iff p paths).1 h.1),
)

-- The path lies in none of the protected places.
pub record IsOutside (c : Text) : Type 0 where
  pub github : has_prefix c (codes ".github/") ≡ false
  pub git : has_prefix c (codes ".git/") ≡ false
  pub secrets : has_prefix c (codes "secrets/") ≡ false
  pub env : c ≢ codes ".env"
  pub env_variants : has_prefix c (codes ".env.") ≡ false

Clear-IsOutside : (c : Text) → Clear builtin_forbidden_prefixes c → IsOutside c
unfolding has_key text_eq matches_forbidden_prefix has_suffix has_prefix
Clear-IsOutside c h = record {
  github = h (codes ".github/") refl;
  git = h (codes ".git/") refl;
  secrets = h (codes "secrets/") refl;
  env = λ e. ground (arith, h (codes ".env") refl, text_eq_iff c (codes ".env"));
  env_variants = ground (arith, h (codes ".env") refl);
}

builtin_kept :
    (p : Policy) (forbidden_csv approval_csv c : Text)
    → Clear (set_path_policy p forbidden_csv approval_csv).forbidden_path_prefixes c
    → Clear builtin_forbidden_prefixes c
unfolding set_path_policy
builtin_kept p forbidden_csv approval_csv c clear x e = clear x (
    (merge_unique_prefixes-Unique builtin_forbidden_prefixes (parse_prefixes_csv forbidden_csv)).1 x
    ∙ ap (λ b. b || has_key x (parse_prefixes_csv forbidden_csv)) e)

-- Whatever prefixes are configured, the paths of a list that `CheckPaths` accepts have canonical
-- forms outside `.github/`, `.git/` and `secrets/` that are not `.env` nor begin with `.env.`.
pub builtin_prefixes_hold :
    (p : Policy) (forbidden_csv approval_csv : Text) (paths : List Text)
    → check_paths (set_path_policy p forbidden_csv approval_csv) paths ≡ ok tt
    → All (λ raw. (c : Text) × (canonicalize_path raw ≡ ok c) × IsOutside c) paths
builtin_prefixes_hold p forbidden_csv approval_csv paths h =
    All-map (Permitted (set_path_policy p forbidden_csv approval_csv)) _
      (λ raw m. (m.0, m.1, Clear-IsOutside m.0 (builtin_kept p forbidden_csv approval_csv m.0 m.2)))
      paths ((check_paths_iff _ paths).0 h)
