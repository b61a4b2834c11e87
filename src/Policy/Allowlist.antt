-- ===== src/Policy/Allowlist.antt =====
-- The allowlists, from the comma-separated variables to the checks.
use ai_team_toolhub.Base.{
  ◌≡◌, ◌≢◌, refl, ap, ◌↔◌, inl, inr, Bool, true, false, not, ◌&&◌, ◌||◌, List, [], ◌∷◌, ◌++◌, map,
  arith, any, Bool-cases, ok, ◌∙◌, sym, ◌==◌, length,
}
use ai_team_toolhub.Text.{Text, is_empty, text_eq, trim_space, split}
use ai_team_toolhub.Text.Laws.{text_eq_iff}
use ai_team_toolhub.Policy.{
  Policy, has_key, add_key, parse_items, parse_csv, new_policy, set_path_policy, check_repo,
  check_tool,
}

pub has_key-append :
    (x : Text) (xs ys : List Text) → has_key x (xs ++ ys) ≡ (has_key x xs || has_key x ys)
unfolding has_key
has_key-append x [] ys = refl
has_key-append x (y ∷ xs) ys = ground (arith, has_key-append x xs ys)

-- A key that is there already adds nothing.
pub has_key_absorb :
    (x y : Text) (m : List Text) → has_key y m ≡ true → (has_key x m || text_eq x y) ≡ has_key x m
has_key_absorb x y m e = ground (arith, text_eq_iff x y)

pub has_key-one : (x y : Text) → has_key x (y ∷ []) ≡ text_eq x y
unfolding has_key
has_key-one x y = ground arith

has_key-add_key :
    (x y : Text) (m : List Text) → has_key x (add_key y m) ≡ (has_key x m || text_eq x y)
has_key-add_key x y m = elim (Bool-cases (has_key y m)) [
  | inr e ↦ rw (e, has_key-append, has_key-one) refl
  | inl e ↦ rw e (sym (has_key_absorb x y m e))
]

-- The trimmed items that are not empty.
abbrev pub listed : Text → List Text → Bool
listed x items = not (is_empty x) && has_key x (map trim_space items)

listed_skip :
    (x t : Text) (b : Bool)
    → is_empty t ≡ true
    → (not (is_empty x) && (text_eq x t || b)) ≡ (not (is_empty x) && b)
unfolding text_eq
listed_skip [] [] b e = refl
listed_skip (c ∷ x) [] b e = refl
listed_skip x (d ∷ t) b e = cc

listed_add :
    (x t : Text) (m b : Bool)
    → is_empty t ≡ false
    → ((m || text_eq x t) || (not (is_empty x) && b))
      ≡ (m || (not (is_empty x) && (text_eq x t || b)))
unfolding text_eq
listed_add x [] m b e = cc
listed_add [] (d ∷ t) m b e = ground arith
listed_add (c ∷ x) (d ∷ t) m b e = ground arith

parse_items-has_key :
    (x : Text) (m items : List Text)
    → has_key x (parse_items m items) ≡ (has_key x m || listed x items)
unfolding parse_items
parse_items-has_key x m [] = unfold has_key in ground arith
parse_items-has_key x m (raw ∷ items) = elim (Bool-cases (is_empty (trim_space raw))) [
  | inl e ↦
      rw (e, parse_items-has_key x m items)
        (unfold has_key in sym (ap (λ b. any (text_eq x) m || b) (listed_skip x _ _ e)))
  | inr e ↦
      rw (e, parse_items-has_key x (add_key (trim_space raw) m) items, has_key-add_key)
        (unfold has_key in listed_add x (trim_space raw) _ _ e)
]

pub parse_csv-has_key : (x csv : Text) → has_key x (parse_csv csv) ≡ listed x (split csv b',')
unfolding parse_csv has_key
parse_csv-has_key x csv = parse_items-has_key x [] (split csv b',')

-- What an allowlist admits, written out on its comma-separated text.
abbrev pub Allows : Text → Text → Type 0
Allows csv name = (name ≢ []) × (has_key name (map trim_space (split csv b',')) ≡ true)

listed-Allows : (csv name : Text) → (listed name (split csv b',') ≡ true) ↔ Allows csv name
listed-Allows csv [] = (λ h. cc, λ h. absurd (h.0 refl))
listed-Allows csv (c ∷ name) = (λ h. (λ e. cc, h), λ h. h.1)

has_key_nil : (x : Text) (m : List Text) → has_key x m ≡ true → (length m == 0) ≡ false
unfolding has_key
has_key_nil x [] h = cc
has_key_nil x (y ∷ m) h = ground arith

module _ (p : Policy) (name : Text) where
  check_repo_iff : (check_repo p name ≡ ok tt) ↔ (has_key name p.allowed_repos ≡ true)
  unfolding check_repo
  check_repo_iff = (λ h. ground arith, λ h. ground (arith, has_key_nil name p.allowed_repos h))

  pub check_tool_iff : (check_tool p name ≡ ok tt) ↔ (has_key name p.allowed_tools ≡ true)
  unfolding check_tool
  check_tool_iff = (λ h. ground arith, λ h. ground (arith, has_key_nil name p.allowed_tools h))

-- The policy that `main` sets up.
abbrev pub configured : Text → Text → Text → Text → Policy
configured repo_csv tool_csv forbidden_csv approval_csv =
    set_path_policy (new_policy repo_csv tool_csv) forbidden_csv approval_csv

-- A repository passes `CheckRepo`, and a tool `CheckTool`, exactly if its name is not empty and is
-- one of the trimmed items of the comma-separated allowlist; the path settings do not matter.
pub allowlists_exact :
    (repo_csv tool_csv forbidden_csv approval_csv name : Text)
    → let p = configured repo_csv tool_csv forbidden_csv approval_csv in
      ((check_repo p name ≡ ok tt) ↔ Allows repo_csv name)
      × ((check_tool p name ≡ ok tt) ↔ Allows tool_csv name)
unfolding set_path_policy new_policy
allowlists_exact repo_csv tool_csv forbidden_csv approval_csv name =
    let p = configured repo_csv tool_csv forbidden_csv approval_csv in
    (
      (
        λ h.
            (listed-Allows repo_csv name).0
              (sym (parse_csv-has_key name repo_csv) ∙ (check_repo_iff p name).0 h),
        λ h.
            (check_repo_iff p name).1
              (parse_csv-has_key name repo_csv ∙ (listed-Allows repo_csv name).1 h),
      ),
      (
        λ h.
            (listed-Allows tool_csv name).0
              (sym (parse_csv-has_key name tool_csv) ∙ (check_tool_iff p name).0 h),
        λ h.
            (check_tool_iff p name).1
              (parse_csv-has_key name tool_csv ∙ (listed-Allows tool_csv name).1 h),
      ),
    )
