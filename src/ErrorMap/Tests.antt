-- ===== src/ErrorMap/Tests.antt =====
-- The error map on concrete errors.
use ai_team_toolhub.Base.{◌≡◌, refl, none, some, arith}
use ai_team_toolhub.Text.{codes, contains, to_lower, text_eq}
use ai_team_toolhub.ErrorMap.{Failure, RanAndFailed, map_error, map_error_200}

abbrev timed_out : Failure
timed_out = record { message = codes "qa command timed out"; code = some (codes "qa_timeout") }

-- The text of this error does not say "exceeds".
labels_not_recognised :
    (map_error
      (λ c. c)
      (some (record { message = codes "labels exceed 20 items"; code = none }))
      502).code
    ≡ codes "internal_error"
unfolding map_error contains to_lower
labels_not_recognised = refl

is_200 : (map_error (λ c. c) (some timed_out) 502).http_status ≡ 200
unfolding map_error text_eq
is_200 = refl

map_error_200_example :
    RanAndFailed
      (some (codes "qa_timeout"))
      (codes "qa command timed out")
      (map_error (λ c. c) (some timed_out) 502)
map_error_200_example = map_error_200 (λ c. c) timed_out 502 (λ e. omega arith) is_200
