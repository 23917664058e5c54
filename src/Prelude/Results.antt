-- ===== src/Prelude/Results.antt =====
-- Go's pair of a value and an error, and the chain of calls that return at the first error.
use mathlib.Core.Path.{◌≡◌, refl}
use mathlib.Core.Bool.{Bool, true, false}

-- The error comes first in the type, and the value that a caller goes on with second.
pub data Result {ℓ κ} (E : Type ℓ) (A : Type κ) : Type (ℓ ⊔ κ) where
  err : E → Result E A
  ok : A → Result E A

module _ {ℓ κ μ} {E : Type ℓ} {A : Type κ} {B : Type μ} where
  infixl 5 ◌>>=◌
  abbrev pub ◌>>=◌ : Result E A → (A → Result E B) → Result E B
  r >>= next = elim r [ err why ↦ err why | ok value ↦ next value ]

  pub >>=-eq-ok :
      (first : Result E A) (next : A → Result E B) {out : B}
      → (first >>= next) ≡ ok out
      → (value : A) × (first ≡ ok value) × (next value ≡ ok out)
  >>=-eq-ok (err why) next stopped = cc
  >>=-eq-ok (ok value) next done = (value, refl, done)

-- `if test { return nil, e }`.
abbrev pub fail_if {ℓ} : {E : Type ℓ} → Bool → E → Result E (Unit {0})
fail_if failed why = elim failed [ true ↦ err why | false ↦ ok tt ]

infixl 5 ◌>>◌
abbrev pub ◌>>◌ {ℓ κ} : {E : Type ℓ} {B : Type κ} → Result E (Unit {0}) → Result E B → Result E B
check >> rest = check >>= (λ _. rest)

-- Inversion of a check that lets the rest go on.
pub fail_if-eq-ok {ℓ κ} :
    {E : Type ℓ} {B : Type κ} (failed : Bool) (why : E) (rest : Result E B) {out : B}
    → (fail_if failed why >> rest) ≡ ok out
    → (failed ≡ false) × (rest ≡ ok out)
fail_if-eq-ok true why rest h = cc
fail_if-eq-ok false why rest h = (refl, h)
