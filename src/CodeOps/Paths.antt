-- ===== src/CodeOps/Paths.antt =====
-- The path that is written is the path that the policy saw.
use ai_team_toolhub.Base.{◌≡◌, ◌≢◌, refl, inl, inr, false, [], arith, Bool-cases, ok, ◌∙◌, sym}
use ai_team_toolhub.Text.{Text, codes, is_empty, text_eq, trim_space, has_prefix, trim_prefix}
use ai_team_toolhub.Text.Laws.{has_prefix-eq}
use ai_team_toolhub.FilePath.{dot, dotdot, is_rooted, clean}
use ai_team_toolhub.FilePath.Clean.{clean_dot_slash, clean_ne_nil}
use ai_team_toolhub.Policy.{canonicalize_path}
use ai_team_toolhub.Policy.Canonical.{canonical_of_relative}
use ai_team_toolhub.CodeOps.{safe_relative_path}

-- Stripping one `./` leaves the cleaned path as it is.
record Stripped (s t : Text) : Type 0 where
  nonempty : is_empty t ≡ false → is_empty s ≡ false
  same : is_rooted t ≡ false → clean s ≡ clean t

trim_dot_slash : (s : Text) → Stripped s (trim_prefix s (codes "./"))
unfolding trim_prefix
trim_dot_slash s = elim (Bool-cases (has_prefix s (codes "./"))) [
  | inr e ↦ rw e (record { nonempty = λ h. h; same = λ h. refl })
  | inl e ↦
      let (t, f) = has_prefix-eq s (codes "./") e in
      rw f (record { nonempty = λ h. refl; same = λ h. clean_dot_slash _ h })
]

-- What `safeRelativePath` accepts has passed these tests.
record Accepted (t c : Text) : Type 0 where
  nonempty : is_empty t ≡ false
  relative : is_rooted t ≡ false
  ne_dot : text_eq (clean t) dot ≡ false
  no_climb : has_prefix (clean t) dotdot ≡ false
  result : c ≡ clean t

safe_relative_path-Accepted :
    (raw : Text) {c : Text}
    → safe_relative_path raw ≡ ok c
    → Accepted (trim_prefix (trim_space raw) (codes "./")) c
unfolding safe_relative_path is_rooted
safe_relative_path-Accepted raw h = ground arith

-- Where `safeRelativePath` accepts a path, `canonicalizePath` accepts it too, with the same
-- result: the file that is written is the one that the policy was asked about.
pub safe_relative_path-canonicalize_path :
    (raw : Text) {c : Text} → safe_relative_path raw ≡ ok c → canonicalize_path raw ≡ ok c
safe_relative_path-canonicalize_path raw {c} h =
    let a = safe_relative_path-Accepted raw h in
    let s = trim_dot_slash (trim_space raw) in
    rw a.result (
      canonical_of_relative raw _ (s.nonempty a.nonempty) (s.same a.relative) a.relative a.ne_dot
        a.no_climb)

pub safe_relative_path_ne_nil : (raw : Text) {c : Text} → safe_relative_path raw ≡ ok c → c ≢ []
safe_relative_path_ne_nil raw h =
    let a = safe_relative_path-Accepted raw h in λ e. clean_ne_nil _ a.relative (sym a.result ∙ e)
