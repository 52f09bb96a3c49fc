-- ===== src/Prelude/Equality.antt =====
-- Equality tests as an interface, membership in a Python set or list, and distinctness.
use Prim.Native.Nat.{ℕ}
use mathlib.Core.Path.{◌≡◌, refl}
use mathlib.Core.Logic.{◌↔◌}
use mathlib.Core.Bool.{Bool, true, false, ◌||◌, ◌&&◌}
use mathlib.Core.Option.{Option, none, some}
use mathlib.Core.List.{List, [], ◌∷◌, ◌++◌}
use native.Mathlib.Omega.{arith}
use mini_nblm_proto.Prelude.Tests.{nat_eq, nat_eq_iff}
use mini_nblm_proto.Prelude.Lists.{take}
use Prim.Native.Nat.{zero, suc}

infix 50 ◌==◌
-- A type whose values the program compares with `==`.
pub record Eq {κ} (K : Type κ) : Type κ where
  pub eqb : K → K → Bool
  pub eqb_iff : (x y : K) → (eqb x y ≡ true) ↔ (x ≡ y)

abbrev pub ◌==◌ {κ} : {K : Type κ} ⦃q : Eq K⦄ → K → K → Bool
◌==◌ ⦃q⦄ = q.eqb

instance abbrev pub ℕ-Eq : Eq ℕ
ℕ-Eq = record { eqb = nat_eq; eqb_iff = nat_eq_iff }

module _ {ℓ κ} {A : Type ℓ} {B : Type κ} ⦃e : Eq A⦄ ⦃f : Eq B⦄ where
  abbrev pub pair_eq : A × B → A × B → Bool
  pair_eq (a, b) (c, d) = e.eqb a c && f.eqb b d

  pub pair_eq_iff : (p q : A × B) → (pair_eq p q ≡ true) ↔ (p ≡ q)
  pair_eq_iff (a, b) (c, d) = ground (arith, e.eqb_iff a c, f.eqb_iff b d)

module _ {ℓ} {A : Type ℓ} ⦃e : Eq A⦄ where
  abbrev pub list_eq : List A → List A → Bool
  list_eq [] [] = true
  list_eq [] (y ∷ ys) = false
  list_eq (x ∷ xs) [] = false
  list_eq (x ∷ xs) (y ∷ ys) = e.eqb x y && list_eq xs ys

  pub list_eq_iff : (xs ys : List A) → (list_eq xs ys ≡ true) ↔ (xs ≡ ys)
  list_eq_iff [] [] = ground arith
  list_eq_iff [] (y ∷ ys) = ground arith
  list_eq_iff (x ∷ xs) [] = ground arith
  list_eq_iff (x ∷ xs) (y ∷ ys) = ground (arith, e.eqb_iff x y, list_eq_iff xs ys)

  abbrev pub option_eq : Option A → Option A → Bool
  option_eq none none = true
  option_eq none (some y) = false
  option_eq (some x) none = false
  option_eq (some x) (some y) = e.eqb x y

  pub option_eq_iff : (x y : Option A) → (option_eq x y ≡ true) ↔ (x ≡ y)
  option_eq_iff none none = ground arith
  option_eq_iff none (some y) = ground arith
  option_eq_iff (some x) none = ground arith
  option_eq_iff (some x) (some y) = ground (arith, e.eqb_iff x y)

  abbrev pub contains : List A → A → Bool
  contains [] a = false
  contains (x ∷ xs) a = e.eqb x a || contains xs a

  -- No value stands twice.
  abbrev pub Distinct : List A → Type 0
  Distinct [] = Unit
  Distinct (x ∷ xs) = (contains xs x ≡ false) × Distinct xs

  pub contains_head : (x : A) (xs : List A) → contains (x ∷ xs) x ≡ true
  contains_head x xs = ground (arith, e.eqb_iff x x)

  pub contains-append :
      (xs ys : List A) (a : A) → contains (xs ++ ys) a ≡ (contains xs a || contains ys a)
  contains-append [] ys a = refl
  contains-append (x ∷ xs) ys a = ground (arith, contains-append xs ys a)

  pub contains-take :
      (n : ℕ) (xs : List A) (a : A) → contains xs a ≡ false → contains (take n xs) a ≡ false
  contains-take zero xs a h = refl
  contains-take (suc n) [] a h = refl
  contains-take (suc n) (x ∷ xs) a h = ground (arith, contains-take n xs a)

  pub Distinct-take : (n : ℕ) (xs : List A) → Distinct xs → Distinct (take n xs)
  Distinct-take zero xs h = tt
  Distinct-take (suc n) [] h = tt
  Distinct-take (suc n) (x ∷ xs) h = (contains-take n xs x h.0, Distinct-take n xs h.1)

  -- Adding one new value at the end keeps a list distinct.
  pub Distinct-snoc :
      (xs : List A) (a : A) → Distinct xs → contains xs a ≡ false → Distinct (xs ++ a ∷ [])
  Distinct-snoc [] a h n = (refl, tt)
  Distinct-snoc (x ∷ xs) a h n =
      ground
        (arith, contains-append xs (a ∷ []) x, e.eqb_iff a x, e.eqb_iff x a, Distinct-snoc xs a h.1)

instance abbrev pub pair-Eq {ℓ κ} : {A : Type ℓ} {B : Type κ} ⦃e : Eq A⦄ ⦃f : Eq B⦄ → Eq (A × B)
pair-Eq = record { eqb = pair_eq; eqb_iff = pair_eq_iff }

instance abbrev pub list-Eq {ℓ} : {A : Type ℓ} ⦃e : Eq A⦄ → Eq (List A)
list-Eq = record { eqb = list_eq; eqb_iff = list_eq_iff }

instance abbrev pub option-Eq {ℓ} : {A : Type ℓ} ⦃e : Eq A⦄ → Eq (Option A)
option-Eq = record { eqb = option_eq; eqb_iff = option_eq_iff }
