-- ===== src/Prelude/Errors.antt =====
-- A call that returns a value or raises an exception.
use mathlib.Core.Path.{◌≡◌, refl}
use mathlib.Core.Bool.{Bool, true, false}

pub data Result {ℓ κ} (X : Type ℓ) (V : Type κ) : Type (ℓ ⊔ κ) where
  err : X → Result X V
  ok : V → Result X V

-- `if not b: raise x`
abbrev pub guard {ℓ} : {X : Type ℓ} → Bool → X → Result X (Unit {0})
guard false x = err x
guard true x = ok tt

infixl 5 ◌>>=◌ ◌>>◌
abbrev pub ◌>>=◌ {ℓ κ μ} :
    {X : Type ℓ} {V : Type κ} {W : Type μ} (first : Result X V) (rest : V → Result X W) → Result X W
err x >>= rest = err x
ok v >>= rest = rest v

abbrev pub ◌>>◌ {ℓ κ} :
    {X : Type ℓ} {W : Type κ} (first : Result X (Unit {0})) (rest : Result X W) → Result X W
first >> rest = first >>= λ done. rest

module _ {ℓ κ μ} {X : Type ℓ} {V : Type κ} {W : Type μ} where
  -- What ran when a chain ended with a value.
  pub >>=-eq-ok :
      (first : Result X V) (rest : V → Result X W) {w : W}
      → (first >>= rest) ≡ ok w
      → (v : V) × (first ≡ ok v) × (rest v ≡ ok w)
  >>=-eq-ok (err x) rest h = cc
  >>=-eq-ok (ok v) rest h = (v, refl, h)
