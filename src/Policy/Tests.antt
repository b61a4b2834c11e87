-- ===== src/Policy/Tests.antt =====
-- The policy at concrete paths and names.
use ai_team_toolhub.Base.{◌≡◌, refl, ◌↔◌, true, [], ◌∷◌, ok, err, All, ◌||◌}
use ai_team_toolhub.Text.{Text, codes, trim_space, text_eq, split, join, trim_prefix, has_suffix}
use ai_team_toolhub.FilePath.{slash, clean, render, is_rooted, resolve_all, resolve}
use ai_team_toolhub.Base.{replicate}
use ai_team_toolhub.Policy.{
  Policy, path_traversal, path_forbidden, violation_traversal, not_canonical, matched_prefix,
  has_key, new_policy, set_path_policy, check_repo, check_tool, check_paths, canonicalize_path,
  requires_approval, merge_unique_prefixes, builtin_forbidden_prefixes, parse_prefixes_csv,
  normalize_path, matches_forbidden_prefix,
}
use ai_team_toolhub.Policy.Allowlist.{configured, Allows, allowlists_exact}
use ai_team_toolhub.Policy.Prefixes.{Unique, merge_unique_prefixes-Unique}
use ai_team_toolhub.Policy.Canonical.{
  IsCanonical, canonicalize_path-IsCanonical, canonicalize_path_root,
}
use ai_team_toolhub.Policy.Paths.{Permitted, IsOutside, check_paths_iff, builtin_prefixes_hold}

abbrev staging : Policy
staging =
    configured (codes "org/app, org/lib") (codes "qa.test,qa.lint") (codes "infra/,.env")
      (codes "db/init/")

abbrev readme : Text
readme = codes " ./docs/../README.md"

inside : check_paths staging (readme ∷ codes "toolhub/main.go" ∷ []) ≡ ok tt
unfolding check_paths canonicalize_path set_path_policy trim_space text_eq clean render is_rooted
    resolve_all split resolve join trim_prefix merge_unique_prefixes has_key parse_prefixes_csv
    normalize_path matches_forbidden_prefix has_suffix
inside = refl

climbing :
    check_paths staging (codes "docs/../../etc/passwd" ∷ [])
    ≡ err (record {
      code = violation_traversal;
      path = codes "docs/../../etc/passwd";
      reason = not_canonical path_traversal;
    })
unfolding check_paths canonicalize_path set_path_policy trim_space text_eq clean render is_rooted
    resolve_all split resolve join
climbing = refl

disguised :
    check_paths staging (codes "docs/../infra/main.tf" ∷ [])
    ≡ err (record {
      code = path_forbidden;
      path = codes "docs/../infra/main.tf";
      reason = matched_prefix (codes "infra/");
    })
unfolding check_paths canonicalize_path set_path_policy trim_space text_eq clean render is_rooted
    resolve_all split resolve join trim_prefix merge_unique_prefixes has_key parse_prefixes_csv
    normalize_path matches_forbidden_prefix has_suffix
disguised = refl

approval_needed :
    requires_approval staging (codes "docs/a.md" ∷ codes "./db/init/01.sql" ∷ []) ≡ true
unfolding requires_approval canonicalize_path set_path_policy trim_space text_eq clean render
    is_rooted resolve_all split resolve join trim_prefix parse_prefixes_csv normalize_path
approval_needed = refl

check_paths_iff_example :
    (check_paths staging (readme ∷ []) ≡ ok tt) ↔ All (Permitted staging) (readme ∷ [])
check_paths_iff_example = check_paths_iff staging (readme ∷ [])

builtin_prefixes_hold_example :
    All
      (λ raw. (c : Text) × (canonicalize_path raw ≡ ok c) × IsOutside c)
      (readme ∷ codes "toolhub/main.go" ∷ [])
builtin_prefixes_hold_example =
    builtin_prefixes_hold (new_policy (codes "org/app, org/lib") (codes "qa.test,qa.lint"))
      (codes "infra/,.env") (codes "db/init/") (readme ∷ codes "toolhub/main.go" ∷ []) inside

readme_canonical : canonicalize_path readme ≡ ok (codes "README.md")
unfolding canonicalize_path trim_space text_eq clean render is_rooted resolve_all split resolve join
    trim_prefix
readme_canonical = refl

canonicalize_path-IsCanonical_example : IsCanonical (codes "README.md")
canonicalize_path-IsCanonical_example = canonicalize_path-IsCanonical readme readme_canonical

canonicalize_path_root_example : canonicalize_path (replicate 2 slash) ≡ ok []
canonicalize_path_root_example = canonicalize_path_root 1

allowlists_exact_example :
    ((check_repo staging (codes "org/lib") ≡ ok tt)
      ↔ Allows (codes "org/app, org/lib") (codes "org/lib"))
    × ((check_tool staging (codes "org/lib") ≡ ok tt)
        ↔ Allows (codes "qa.test,qa.lint") (codes "org/lib"))
allowlists_exact_example =
    allowlists_exact (codes "org/app, org/lib") (codes "qa.test,qa.lint") (codes "infra/,.env")
      (codes "db/init/") (codes "org/lib")

merge_unique_prefixes-Unique_example :
    Unique (merge_unique_prefixes builtin_forbidden_prefixes (codes "infra/" ∷ codes ".env" ∷ []))
    × ((x : Text)
        → has_key x
            (merge_unique_prefixes builtin_forbidden_prefixes (codes "infra/" ∷ codes ".env" ∷ []))
          ≡ (has_key x builtin_forbidden_prefixes
              || has_key x (codes "infra/" ∷ codes ".env" ∷ [])))
merge_unique_prefixes-Unique_example =
    merge_unique_prefixes-Unique builtin_forbidden_prefixes (codes "infra/" ∷ codes ".env" ∷ [])
