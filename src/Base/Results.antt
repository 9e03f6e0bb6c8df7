-- ===== src/Base/Results.antt =====
-- A computation that returns or throws: the error is a value.
use mathlib.Core.Path.{◌≡◌, refl}
use mathlib.Core.Logic.{◌⊎◌, inl, inr}

pub data Result {ℓ κ} (E : Type ℓ) (A : Type κ) : Type (ℓ ⊔ κ) where
  ok : A → Result E A
  err : E → Result E A

infixl 5 ◌>>=◌
abbrev pub ◌>>=◌ {ℓ κ μ} :
    {E : Type ℓ} {A : Type κ} {B : Type μ} → Result E A → (A → Result E B) → Result E B
ok a >>= f = f a
err e >>= f = err e

module _ {ℓ κ μ} {E : Type ℓ} {A : Type κ} {B : Type μ} where
  -- A chain that returned did so from what its first step returned.
  pub >>=-eq-ok :
      (first : Result E A) (rest : A → Result E B) {result : B}
      → (first >>= rest) ≡ ok result
      → (between : A) × (first ≡ ok between) × (rest between ≡ ok result)
  >>=-eq-ok (err thrown) rest returned = cc
  >>=-eq-ok (ok between) rest returned = (between, refl, returned)

pub Result-cases {ℓ κ} :
    {E : Type ℓ} {A : Type κ} (r : Result E A) → ((a : A) × (r ≡ ok a)) ⊎ ((e : E) × (r ≡ err e))
Result-cases (ok a) = inl (a, refl)
Result-cases (err e) = inr (e, refl)

-- The same for code that also passes a state along: the rest of it, unless an exception left it.
infixl 5 ◌▷◌
abbrev pub ◌▷◌ : {E S A B : Type 0} → Result E A × S → (A → S → Result E B × S) → Result E B × S
(ok a, s) ▷ rest = rest a s
(err e, s) ▷ rest = (err e, s)

-- A property of such a chain: of the error that its first part throws, or of the rest after its result.
pub ▷-cases :
    {E S A B : Type 0} (P : Result E B × S → Type 0) (r : Result E A × S)
    (rest : A → S → Result E B × S)
    → ((e : E) → r.0 ≡ err e → P (err e, r.1))
    → ((a : A) → r.0 ≡ ok a → P (rest a r.1))
    → P (r ▷ rest)
▷-cases P (ok a, s) rest thrown returned = returned a refl
▷-cases P (err e, s) rest thrown returned = thrown e refl
