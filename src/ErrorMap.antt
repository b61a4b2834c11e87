-- ===== src/ErrorMap.antt =====
-- toolhub/internal/core/error_map.go.
pub mod Tests
use ai_team_toolhub.Base.{
  ℕ, ◌≡◌, ◌≢◌, refl, ◌⊎◌, inl, inr, Bool, true, false, ◌&&◌, ◌||◌, List, [], ◌∷◌, any, Option, none,
  some, Option-cases, ap, ◌∙◌, arith, leb, ltb, if◌then◌else◌,
}
use ai_team_toolhub.Text.{Text, codes, text_eq, contains, to_lower}

-- An error: its text, and its code where it is a `CodedError`.
pub record Failure : Type 0 where
  pub message : Text
  pub code : Option Text

pub record ErrorInfo : Type 0 where
  pub code : Text
  pub message : Text
  pub http_status : ℕ

abbrev one_of : Text → List Text → Bool
one_of code codes' = any (text_eq code) codes'

abbrev rejected_codes : List Text
rejected_codes =
    codes "qa_command_empty"
    ∷ codes "qa_command_invalid"
    ∷ codes "qa_workdir_invalid"
    ∷ codes "qa_tool_unsupported"
    ∷ codes "qa_backend_invalid"
    ∷ []

-- The codes of a command that was run and failed.
abbrev pub ran_codes : List Text
ran_codes = codes "qa_timeout" ∷ codes "qa_execution_failed" ∷ []

-- The `switch` on the code: a status, or nothing.
coded_status : Text → Option ℕ
coded_status code =
    if one_of code rejected_codes
    then some 400
    else if text_eq code (codes "qa_command_not_allowed")
    then some 403
    else if one_of code ran_codes
    then some 200
    else if text_eq code (codes "idempotency_key_conflict")
    then some 409
    else none

-- The `switch` on the text in lower case.
by_text : Text → Text → ℕ → ErrorInfo
by_text lower msg fallback =
    if contains lower (codes "repo") && contains lower (codes "allowlist")
    then record { code = codes "repo_not_allowed"; message = msg; http_status = 403 }
    else if contains lower (codes "tool") && contains lower (codes "allowlist")
    then record { code = codes "tool_not_allowed"; message = msg; http_status = 403 }
    else if contains lower (codes "run not found")
    then record { code = codes "run_not_found"; message = codes "run not found"; http_status = 404 }
    else if contains lower (codes "invalid json")
        || contains lower (codes "request body must contain a single json object")
        || contains lower (codes "title is required")
        || contains lower (codes "exceeds")
        || contains lower (codes "labels must not contain")
    then record { code = codes "invalid_request_schema"; message = msg; http_status = 400 }
    else if contains lower (codes "discover installation id")
        || contains lower (codes "no installation found")
        || contains lower (codes "multiple installations found")
    then record { code = codes "app_not_installed"; message = msg; http_status = 502 }
    else if contains lower (codes "http 403")
    then record { code = codes "github_permission_denied"; message = msg; http_status = 502 }
    else if contains lower (codes "http 401")
    then record { code = codes "github_auth_failed"; message = msg; http_status = 502 }
    else if contains lower (codes "http 404")
    then record { code = codes "github_not_found"; message = msg; http_status = 502 }
    else if contains lower (codes "http 422")
    then record { code = codes "github_validation_failed"; message = msg; http_status = 400 }
    else if leb 400 fallback && ltb fallback 500
    then record { code = codes "bad_request"; message = msg; http_status = fallback }
    else record { code = codes "internal_error"; message = msg; http_status = fallback }

-- The code where the `switch` on it decides, and else the text.
by_code : Option Text → Text → Text → ℕ → ErrorInfo
unfolding coded_status
by_code none lower msg fallback = by_text lower msg fallback
by_code (some code) lower msg fallback = elim (coded_status code) [
  | some status ↦ record { code = code; message = msg; http_status = status }
  | none ↦ by_text lower msg fallback
]

-- MapError
unfoldable pub map_error : (ℕ → ℕ) → Option Failure → ℕ → ErrorInfo
unfolding by_code by_text
map_error unicode_lower none fallback = record {
  code = codes "internal_error";
  message = codes "internal server error";
  http_status = fallback;
}
map_error unicode_lower (some e) fallback =
    by_code e.code (to_lower unicode_lower e.message) e.message fallback

by_text_ne_200 :
    (lower msg : Text) (fallback : ℕ)
    → fallback ≢ 200
    → (by_text lower msg fallback).http_status ≢ 200
unfolding by_text
by_text_ne_200 lower msg fallback h = ground arith

coded_status-200 : (code : Text) → coded_status code ≡ some 200 → one_of code ran_codes ≡ true
unfolding coded_status
coded_status-200 code h = ground arith

-- The answer has the code of a command that was run and failed.
abbrev pub RanAndFailed : Option Text → Text → ErrorInfo → Type 0
RanAndFailed c msg info =
    (code : Text) × (c ≡ some code)
    × (any (text_eq code) ran_codes ≡ true)
    × (info ≡ record { code = code; message = msg; http_status = 200 })

by_code_200 :
    (c : Option Text) (lower msg : Text) (fallback : ℕ)
    → fallback ≢ 200
    → (by_code c lower msg fallback).http_status ≡ 200
    → RanAndFailed c msg (by_code c lower msg fallback)
unfolding by_code
by_code_200 none lower msg fallback h k = absurd (by_text_ne_200 lower msg fallback h k)
by_code_200 (some code) lower msg fallback h k = elim (Option-cases (coded_status code)) [
  | inl e ↦ absurd (by_text_ne_200 lower msg fallback h (rw (e, by_code) at k))
  | inr (status, e) ↦
      let is_200 = rw (e, by_code) at k in
      rw (e, by_code)
        (
          code,
          refl,
          coded_status-200 code (e ∙ ap some is_200),
          ap (λ x. record { code = code; message = msg; http_status = x }) is_200,
        )
]

-- Where the fallback is no 200, an error is answered with the status 200 only if it has the code of a
-- command that timed out or failed, and then the answer has that code and the text of the error.
pub map_error_200 :
    (unicode_lower : ℕ → ℕ) (e : Failure) (fallback : ℕ)
    → fallback ≢ 200
    → (map_error unicode_lower (some e) fallback).http_status ≡ 200
    → RanAndFailed e.code e.message (map_error unicode_lower (some e) fallback)
unfolding map_error
map_error_200 unicode_lower e fallback h k =
    by_code_200 e.code (to_lower unicode_lower e.message) e.message fallback h k
