-- ===== src/Text/Trim.antt =====
-- `TrimSpace` applied twice does no more than once.
use ai_team_toolhub.Base.{
  All, ◌++◌, ◌≡◌, refl, inl, inr, false, [], ◌∷◌, arith, Bool-cases, ℕ, if◌then◌else◌,
}
use ai_team_toolhub.Text.{Text, is_space, trim_left, trim_right, trim_space}

-- A text that begins with no space.
abbrev Bare : Text → Type 0
Bare [] = Unit
Bare (c ∷ s) = is_space c ≡ false

trim_left-Bare : (s : Text) → Bare (trim_left s)
unfolding trim_left
trim_left-Bare [] = tt
trim_left-Bare (c ∷ s) = elim (Bool-cases (is_space c)) [
  | inl e ↦ rw e (trim_left-Bare s)
  | inr e ↦ rw e e
]

trim_left-Bare' : (s : Text) → Bare s → trim_left s ≡ s
unfolding trim_left
trim_left-Bare' [] h = refl
trim_left-Bare' (c ∷ s) h = rw h refl

trim_right-Bare : (s : Text) → Bare s → Bare (trim_right s)
unfolding trim_right
trim_right-Bare [] h = tt
trim_right-Bare (c ∷ s) h = last (trim_right s)
  where
    last : (r : Text) → Bare (elim r [ [] ↦ if is_space c then [] else c ∷ [] | d ∷ q ↦ c ∷ d ∷ q ])
    last [] = rw h h
    last (d ∷ q) = h

trim_right_idem : (s : Text) → trim_right (trim_right s) ≡ trim_right s
unfolding trim_right
trim_right_idem [] = refl
trim_right_idem (c ∷ s) = ground (arith, trim_right_idem s)

-- Trimming a trimmed text changes nothing.
pub trim_space_idem : (s : Text) → trim_space (trim_space s) ≡ trim_space s
unfolding trim_space
trim_space_idem s =
    rw (trim_left-Bare' (trim_right (trim_left s)) (trim_right-Bare _ (trim_left-Bare s)))
      (trim_right_idem (trim_left s))

trim_right_spaceless : (s : Text) → All (λ c. is_space c ≡ false) s → trim_right s ≡ s
unfolding trim_right
trim_right_spaceless [] h = refl
trim_right_spaceless (c ∷ []) h = rw h.0 refl
trim_right_spaceless (c ∷ d ∷ s) h = rw (trim_right_spaceless (d ∷ s) h.1) refl

-- A text with no white space is its own trimming.
pub trim_space_spaceless : (s : Text) → All (λ c. is_space c ≡ false) s → trim_space s ≡ s
unfolding trim_space
trim_space_spaceless [] h = refl
trim_space_spaceless (c ∷ s) h = rw (trim_left-Bare' (c ∷ s) h.0) (trim_right_spaceless (c ∷ s) h)

-- A text that begins with no space begins alike when trimmed.
pub trim_space_bare :
    (c : ℕ) (s : Text) → is_space c ≡ false → (t : Text) × (trim_space (c ∷ s) ≡ c ∷ t)
unfolding trim_space
trim_space_bare c s h = rw (trim_left-Bare' (c ∷ s) h) (first (trim_right s))
  where
    first :
        (r : Text)
        → (t : Text) × (elim r [ [] ↦ if is_space c then [] else c ∷ [] | d ∷ q ↦ c ∷ d ∷ q ]
            ≡ c ∷ t)
    first [] = ([], rw h refl)
    first (d ∷ q) = (d ∷ q, refl)

trim_right_end : (s : Text) (c : ℕ) → is_space c ≡ false → trim_right (s ++ c ∷ []) ≡ s ++ c ∷ []
unfolding trim_right
trim_right_end [] c h = rw h refl
trim_right_end (d ∷ []) c h = rw (trim_right_end [] c h, trim_right) refl
trim_right_end (d ∷ e ∷ s) c h = rw (trim_right_end (e ∷ s) c h) refl

-- A text between two characters that are no space is its own trimming.
pub trim_space_between :
    (a : ℕ) (s : Text) (c : ℕ)
    → is_space a ≡ false
    → is_space c ≡ false
    → trim_space (a ∷ (s ++ c ∷ [])) ≡ a ∷ (s ++ c ∷ [])
unfolding trim_space
trim_space_between a s c ha hc =
    rw (trim_left-Bare' (a ∷ (s ++ c ∷ [])) ha) (trim_right_end (a ∷ s) c hc)
