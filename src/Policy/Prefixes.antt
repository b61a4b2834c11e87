-- ===== src/Policy/Prefixes.antt =====
-- `mergeUniquePrefixes`: the union, in order, each prefix once.
use ai_team_toolhub.Base.{
  ◌≡◌, inl, inr, true, false, ◌||◌, List, [], ◌∷◌, ◌++◌, arith, Bool-cases, ◌∙◌,
}
use ai_team_toolhub.Text.{Text}
use ai_team_toolhub.Text.Laws.{text_eq_iff}
use ai_team_toolhub.Policy.{has_key, merge_loop, merge_unique_prefixes}
use ai_team_toolhub.Policy.Allowlist.{has_key-append, has_key-one, has_key_absorb}

absorbed :
    (x p : Text) (s ps : List Text)
    → has_key p s ≡ true
    → (has_key x s || has_key x ps) ≡ (has_key x s || has_key x (p ∷ ps))
unfolding has_key
absorbed x p s ps e = ground (arith, has_key_absorb x p s e)

regroup :
    (x p : Text) (s ps : List Text)
    → ((has_key x s || has_key x (p ∷ [])) || has_key x ps) ≡ (has_key x s || has_key x (p ∷ ps))
unfolding has_key
regroup x p s ps = ground arith

-- `seen` and `out` hold the same elements all along.
merge_loop-has_key :
    (x : Text) (s ps : List Text) → has_key x (merge_loop s s ps) ≡ (has_key x s || has_key x ps)
unfolding merge_loop
merge_loop-has_key x s [] = unfold has_key in ground arith
merge_loop-has_key x s (p ∷ ps) = elim (Bool-cases (has_key p s)) [
  | inl e ↦ rw (e, merge_loop-has_key x s ps) (absorbed x p s ps e)
  | inr e ↦ rw (e, merge_loop-has_key x (s ++ p ∷ []) ps, has_key-append) (regroup x p s ps)
]

-- No element twice.
abbrev pub Unique : List Text → Type 0
Unique [] = Unit
Unique (x ∷ xs) = (has_key x xs ≡ false) × Unique xs

has_key_fresh :
    (x y : Text) (xs : List Text)
    → has_key y (x ∷ xs) ≡ false
    → has_key x xs ≡ false
    → has_key x (xs ++ y ∷ []) ≡ false
has_key_fresh x y xs e f =
    rw (has_key-append, has_key-one)
      (unfold has_key in ground (arith, text_eq_iff x y, text_eq_iff y x))

Unique-concat :
    (xs : List Text) (y : Text) → Unique xs → has_key y xs ≡ false → Unique (xs ++ y ∷ [])
Unique-concat [] y u e = (e, tt)
Unique-concat (x ∷ xs) y u e =
    (has_key_fresh x y xs e u.0, Unique-concat xs y u.1 (unfold has_key in ground arith))

merge_loop-Unique : (s ps : List Text) → Unique s → Unique (merge_loop s s ps)
unfolding merge_loop
merge_loop-Unique s [] u = u
merge_loop-Unique s (p ∷ ps) u = elim (Bool-cases (has_key p s)) [
  | inl e ↦ rw e (merge_loop-Unique s ps u)
  | inr e ↦ rw e (merge_loop-Unique (s ++ p ∷ []) ps (Unique-concat s p u e))
]

-- The merged prefixes are all different, and they are the prefixes of the two lists.
pub merge_unique_prefixes-Unique :
    (base extra : List Text)
    → Unique (merge_unique_prefixes base extra)
      × ((x : Text)
          → has_key x (merge_unique_prefixes base extra) ≡ (has_key x base || has_key x extra))
unfolding merge_unique_prefixes has_key
merge_unique_prefixes-Unique base extra = (
  merge_loop-Unique [] (base ++ extra) tt,
  λ x. merge_loop-has_key x [] (base ++ extra) ∙ has_key-append x base extra,
)
