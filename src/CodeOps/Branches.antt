-- ===== src/CodeOps/Branches.antt =====
-- What reaches git as an argument is no option.
use ai_team_toolhub.Base.{
  ℕ, ◌≡◌, ◌≢◌, refl, ap, inl, inr, Bool, true, false, not, [], ◌∷◌, arith, All, any, Bool-cases, ok,
  ◌∙◌, sym, ◌==◌, ==_iff,
}
use ai_team_toolhub.Text.{Text, codes, is_empty, is_space, trim_space, has_prefix, contains}
use ai_team_toolhub.Text.Trim.{trim_space_bare}
use ai_team_toolhub.Policy.Canonical.{IsCanonical, canonicalize_path-IsCanonical}
use ai_team_toolhub.CodeOps.{safe_relative_path, validate_branch, is_branch_char}
use ai_team_toolhub.CodeOps.Paths.{safe_relative_path-canonicalize_path, safe_relative_path_ne_nil}

All-of_any : (p : ℕ → Bool) (s : Text) → any (λ c. not (p c)) s ≡ false → All (λ c. p c ≡ true) s
All-of_any p [] h = tt
All-of_any p (c ∷ s) h = (ground arith, All-of_any p s (ground arith))

-- A dash in front is still in front after trimming.
dash_stays :
    (name : Text)
    → has_prefix (trim_space name) (codes "-") ≡ false
    → has_prefix name (codes "-") ≡ false
unfolding has_prefix
dash_stays [] h = refl
dash_stays (c ∷ s) h = elim (Bool-cases (c == b'-')) [
  | inr e ↦ rw e refl
  | inl e ↦ cc (dashed ((==_iff c b'-').0 e))
]
  where
    dashed : c ≡ b'-' → true ≡ false
    dashed d =
        let (t, f) = trim_space_bare b'-' s (unfold is_space in refl) in
        sym (ap (λ x. has_prefix x (codes "-")) (ap (λ x. trim_space (x ∷ s)) d ∙ f)) ∙ h

accepted_name :
    (name : Text)
    → validate_branch name ≡ ok tt
    → (is_empty (trim_space name) ≡ false)
      × (has_prefix (trim_space name) (codes "-") ≡ false)
      × (contains (trim_space name) (codes "..") ≡ false)
      × (any (λ c. not (is_branch_char c)) (trim_space name) ≡ false)
unfolding validate_branch
accepted_name name h = ground arith

-- A branch name that `validateBranch` accepts does not begin with a dash as it is given to git, and
-- without its surrounding white space it is not empty, has no `..` and consists of letters, digits
-- and `._/-`.
pub validate_branch_sound :
    (name : Text)
    → validate_branch name ≡ ok tt
    → (has_prefix name (codes "-") ≡ false)
      × (trim_space name ≢ [])
      × (contains (trim_space name) (codes "..") ≡ false)
      × All (λ c. is_branch_char c ≡ true) (trim_space name)
validate_branch_sound name h =
    let (nonempty, no_dash, no_dots, chars) = accepted_name name h in
    (
      dash_stays name no_dash,
      (λ e. cc (nonempty, ap is_empty e)),
      no_dots,
      All-of_any is_branch_char _ chars,
    )

-- A path that `safeRelativePath` accepts is a canonical relative path: plain names joined by
-- slashes, at least one, and it does not begin with a dash.
pub safe_relative_path_sound :
    (raw : Text) {c : Text}
    → safe_relative_path raw ≡ ok c
    → IsCanonical c × (has_prefix c (codes "-") ≡ false) × (c ≢ [])
unfolding safe_relative_path
safe_relative_path_sound raw h = (
  canonicalize_path-IsCanonical raw (safe_relative_path-canonicalize_path raw h),
  ground arith,
  safe_relative_path_ne_nil raw h,
)
