-- ===== src/Prelude/Holds.antt =====
-- Partial correctness of calls that may raise: a property of the value, if there is one.
use mathlib.Core.Path.{◌≡◌, refl, subst}
use mathlib.Core.Bool.{Bool, true, false}
use mathlib.Core.Option.{Option, none, some}
use mini_nblm_proto.Prelude.Errors.{Result, ok, err, ◌>>=◌, guard}
use mini_nblm_proto.Prelude.Tests.{if◌then◌else◌}

module _ {ℓ κ μ} {X : Type ℓ} {V : Type κ} where
  abbrev pub Holds : (V → Type μ) → Result X V → Type μ
  Holds P (err e) = Unit
  Holds P (ok v) = P v

module _ {ℓ κ μ} {X : Type ℓ} {V : Type κ} (P : V → Type μ) where
  pub Holds-if :
      (b : Bool) (first second : Result X V)
      → (b ≡ true → Holds P first)
      → (b ≡ false → Holds P second)
      → Holds P (if b then first else second)
  Holds-if true first second h k = h refl
  Holds-if false first second h k = k refl

  pub Holds-bind :
      {W : Type κ} (first : Result X W) (rest : W → Result X V)
      → ((w : W) → first ≡ ok w → Holds P (rest w))
      → Holds P (first >>= rest)
  Holds-bind (err e) rest h = tt
  Holds-bind (ok w) rest h = h w refl

  pub Holds-guard :
      (b : Bool) (e : X) (rest : Unit {0} → Result X V)
      → (b ≡ true → Holds P (rest tt))
      → Holds P (guard b e >>= rest)
  Holds-guard false e rest h = tt
  Holds-guard true e rest h = h refl

  -- A lookup that raises where nothing is found.
  pub Holds-found :
      {A : Type 0} (found : Option A) (e : X) (rest : A → Result X V)
      → ((a : A) → found ≡ some a → Holds P (rest a))
      → Holds P (elim found [ none ↦ err e | some a ↦ rest a ])
  Holds-found none e rest h = tt
  Holds-found (some a) e rest h = h a refl

  pub Holds-eq : (r : Result X V) (v : V) → Holds P r → r ≡ ok v → P v
  Holds-eq r v h e = subst (Holds P) e h

module _ {ℓ κ μ} {X : Type ℓ} {V : Type κ} where
  pub Holds-imp :
      (P Q : V → Type μ) (r : Result X V) → ((v : V) → P v → Q v) → Holds P r → Holds Q r
  Holds-imp P Q (err e) f h = tt
  Holds-imp P Q (ok v) f h = f v h
