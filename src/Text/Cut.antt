-- ===== src/Text/Cut.antt =====
-- Cutting a text at a separator and gluing the parts.
use ai_team_toolhub.Base.{
  ℕ, ◌≡◌, refl, ◌≢◌, [], ◌∷◌, ◌++◌, arith, ◌==◌, All, List, Bool-cases, inl, inr, ==_iff, ==_self,
}
use ai_team_toolhub.Text.{Text, split, join, push_head}

abbrev pub Lacks : ℕ → Text → Type 0
Lacks sep = All (λ c. c ≢ sep)

module _ (sep : ℕ) where
  pub split-parts : (s : Text) → (p : Text) × (ps : List Text) × (split s sep ≡ p ∷ ps)
  unfolding split
  split-parts [] = ([], [], refl)
  split-parts (c ∷ s) = elim (Bool-cases (c == sep)) [
    | inl e ↦ ([], split s sep, rw e)
    | inr e ↦ let (p, ps, h) = split-parts s in (c ∷ p, ps, rw (e, h))
  ]

  push_head-Lacks :
      (c : ℕ) (ps : List Text) → c ≢ sep → All (Lacks sep) ps → All (Lacks sep) (push_head c ps)
  push_head-Lacks c [] n h = ((n, tt), tt)
  push_head-Lacks c (p ∷ ps) n h = ((n, h.0), h.1)

  -- No part of a split holds the separator.
  pub split-Lacks : (s : Text) → All (Lacks sep) (split s sep)
  unfolding split
  split-Lacks [] = (tt, tt)
  split-Lacks (c ∷ s) = elim (Bool-cases (c == sep)) [
    | inl e ↦ rw e (tt, split-Lacks s)
    | inr e ↦ rw e (push_head-Lacks c _ (λ q. cc (e, (==_iff c sep).1 q)) (split-Lacks s))
  ]

  pub split_at_sep : (s : Text) → split (sep ∷ s) sep ≡ [] ∷ split s sep
  unfolding split
  split_at_sep s = rw (==_self sep)

  pub split_lacking : (p : Text) → Lacks sep p → split p sep ≡ p ∷ []
  unfolding split
  split_lacking [] h = refl
  split_lacking (c ∷ p) h = ground (arith, split_lacking p h.1)

  pub split-append : (p s : Text) → Lacks sep p → split (p ++ sep ∷ s) sep ≡ p ∷ split s sep
  unfolding split
  split-append [] s h = rw (==_self sep)
  split-append (c ∷ p) s h = ground (arith, split-append p s h.1)

  -- The parts come back, if there is one and none holds the separator.
  pub split-join :
      (p : Text) (ps : List Text)
      → All (Lacks sep) (p ∷ ps)
      → split (join (p ∷ ps) sep) sep ≡ p ∷ ps
  unfolding join
  split-join p [] h = split_lacking p h.0
  split-join p (q ∷ ps) h = rw (split-append p (join (q ∷ ps) sep) h.0, split-join q ps h.1)
