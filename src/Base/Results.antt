-- ===== src/Base/Results.antt =====
-- A Go pair `(value, error)`: the value, or the error.
use mathlib.Core.Path.{◌≡◌, refl}
use mathlib.Core.Logic.{◌⊎◌, inl, inr}
use mathlib.Core.Bool.{Bool, true, false}

pub data Result {ℓ κ} (E : Type κ) (A : Type ℓ) : Type (ℓ ⊔ κ) where
  ok : A → Result E A
  err : E → Result E A

-- `v, err := r; if err != nil { return err }`, and what follows with `v`.
abbrev pub ◌>>=◌ {a b e} :
    {Err : Type e} {V : Type a} {W : Type b} → Result Err V → (V → Result Err W) → Result Err W
◌>>=◌ (err problem) then_do = err problem
◌>>=◌ (ok v) then_do = then_do v

-- The same for a call that returns only an error.
abbrev pub ◌>>◌ {b e} :
    {Err : Type e} {W : Type b} → Result Err (Unit {0}) → Result Err W → Result Err W
check >> rest = check >>= λ done. rest

infixl 5 ◌>>=◌ ◌>>◌
-- `if b { return e }`
abbrev pub fail_if {μ} : {E : Type μ} → Bool → E → Result E (Unit {0})
fail_if true e = err e
fail_if false e = ok tt

-- A chain that succeeds, taken apart: its first call returned some value, and what follows is done
-- with that one.
module _ {e a b} {Err : Type e} {V : Type a} {W : Type b} where
  pub >>=-eq-ok :
      (call : Result Err V) (then_do : V → Result Err W) {last : W}
      → call >>= then_do ≡ ok last
      → (first : V) × (call ≡ ok first) × (then_do first ≡ ok last)
  >>=-eq-ok (err problem) then_do done = cc
  >>=-eq-ok (ok first) then_do done = (first, refl, done)

pub Result-cases {ℓ μ} :
    {E : Type μ} {A : Type ℓ} (r : Result E A) → ((a : A) × (r ≡ ok a)) ⊎ ((e : E) × (r ≡ err e))
Result-cases (ok a) = inl (a, refl)
Result-cases (err e) = inr (e, refl)

pub >>-eq-ok {ℓ μ} :
    {E : Type ℓ} {B : Type μ} (m : Result E (Unit {0})) (k : Result E B) {b : B}
    → (m >> k) ≡ ok b
    → (m ≡ ok tt) × (k ≡ ok b)
>>-eq-ok (ok u) k h = (refl, h)
>>-eq-ok (err e) k h = cc

pub ok_injective {ℓ μ} :
    {E : Type ℓ} {A : Type μ} {a b : A} → ◌≡◌ {A = Result E A} (ok a) (ok b) → a ≡ b
ok_injective e = cc

-- A call that changes a state `S` and has a Go pair as its answer, and what follows it.
unfoldable pub followed {μ ν ℓ κ} :
    {S : Type μ} {E : Type ν} {A : Type ℓ} {B : Type κ}
    → (A → S → Result E B × S)
    → Result E A × S
    → Result E B × S
followed f (ok a, s) = f a s
followed f (err e, s) = (err e, s)

module _ {μ ν ℓ κ} {S : Type μ} {E : Type ν} {A : Type ℓ} {B : Type κ} where
  pub followed-ok :
      (f : A → S → Result E B × S) (p : Result E A × S) {last : B} {u : S}
      → followed f p ≡ (ok last, u)
      → (first : A) × (t : S) × (p ≡ (ok first, t)) × (f first t ≡ (ok last, u))
  unfolding followed
  followed-ok f (ok first, t) q = (first, t, refl, q)
  followed-ok f (err e, t) q = cc

  -- What holds of the state after the call, and is kept by what follows, holds at the end.
  pub followed-keeps {ι} :
      (P : S → Type ι) (f : A → S → Result E B × S) (p : Result E A × S)
      → P p.1
      → ((first : A) (t : S) → P t → P (f first t).1)
      → P (followed f p).1
  unfolding followed
  followed-keeps P f (ok first, t) h next = next first t h
  followed-keeps P f (err e, t) h next = h

  -- Where the call leads to `P`, what follows leads from there to `Q`, and an error ends in `Q` too.
  pub followed-leads {ι} :
      (P Q : S → Type ι) (f : A → S → Result E B × S) (p : Result E A × S)
      → P p.1
      → ((t : S) → P t → Q t)
      → ((first : A) (t : S) → p ≡ (ok first, t) → P t → Q (f first t).1)
      → Q (followed f p).1
  unfolding followed
  followed-leads P Q f (ok first, t) h stop next = next first t refl h
  followed-leads P Q f (err e, t) h stop next = stop t h
