-- ===== src/Coverage/Lookup.antt =====
-- Lookups in a dict made from a list: what they find.
use mini_nblm_proto.Prelude.{
  ◌≡◌, refl, ◌⊎◌, inl, inr, Bool, true, false, Option, none, some, List, [], ◌∷◌, arith,
  if◌then◌else◌, is_some, All, Any, ℕ-Eq, list-Eq, pair-Eq, option-Eq,
}
use mathlib.Core.Path.{subst}
use mini_nblm_proto.Coverage.Response.{find_last}

-- What all entries have, and the key: what a lookup finds, if it finds anything.
abbrev Found : {A : Type 0} → (A → Type 0) → Option A → Type 0
Found P none = Unit
Found P (some y) = P y

later-Found :
    {A : Type 0} (R : A → Type 0) (x : A) (b : Bool) (later : Option A)
    → (b ≡ true → R x)
    → Found R later
    → Found R (elim later [ none ↦ (if b then some x else none) | some y ↦ some y ])
later-Found R x true none h f = h refl
later-Found R x false none h f = tt
later-Found R x b (some y) h f = f

find_last-Found :
    {A : Type 0} (P : A → Type 0) (p : A → Bool) (xs : List A)
    → All P xs
    → Found (λ y. P y × (p y ≡ true)) (find_last p xs)
unfolding find_last
find_last-Found P p [] h = tt
find_last-Found P p (x ∷ xs) h =
    later-Found _ x (p x) (find_last p xs) (λ e. (h.0, e)) (find_last-Found P p xs h.1)

pub find_last-All :
    {A : Type 0} (P : A → Type 0) (p : A → Bool) (xs : List A) {y : A}
    → All P xs
    → find_last p xs ≡ some y
    → P y × (p y ≡ true)
find_last-All P p xs h e = subst (Found (λ y. P y × (p y ≡ true))) e (find_last-Found P p xs h)

All-Unit : {A : Type 0} (xs : List A) → All (λ x. Unit {0}) xs
All-Unit [] = tt
All-Unit (x ∷ xs) = (tt, All-Unit xs)

pub find_last-keyed :
    {A : Type 0} (p : A → Bool) (xs : List A) {y : A} → find_last p xs ≡ some y → p y ≡ true
find_last-keyed p xs e = (find_last-All (λ x. Unit {0}) p xs (All-Unit xs) e).1

Found-widen :
    {A : Type 0} (Q : A → Type 0) (x : A) (xs : List A) (found : Option A)
    → Found (λ y. Q y → Any Q xs) found
    → Found (λ y. Q y → Any Q (x ∷ xs)) found
Found-widen Q x xs none f = tt
Found-widen Q x xs (some y) f = λ q. inr (f q)

find_last-entry :
    {A : Type 0} (Q : A → Type 0) (p : A → Bool) (xs : List A)
    → Found (λ y. Q y → Any Q xs) (find_last p xs)
unfolding find_last
find_last-entry Q p [] = tt
find_last-entry Q p (x ∷ xs) =
    later-Found (λ y. Q y → Any Q (x ∷ xs)) x (p x) (find_last p xs) (λ e q. inl q)
      (Found-widen Q x xs (find_last p xs) (find_last-entry Q p xs))

-- What a lookup finds is an entry.
pub find_last-Any :
    {A : Type 0} (Q : A → Type 0) (p : A → Bool) (xs : List A) {y : A}
    → find_last p xs ≡ some y
    → Q y
    → Any Q xs
find_last-Any Q p xs e = subst (Found (λ y. Q y → Any Q xs)) e (find_last-entry Q p xs)

is_some_found :
    {A : Type 0} (x : A) (b : Bool) (later : Option A)
    → (b ≡ true) ⊎ (is_some later ≡ true)
    → is_some (elim later [ none ↦ (if b then some x else none) | some y ↦ some y ]) ≡ true
is_some_found x true none h = refl
is_some_found x false none h = ground (arith, h)
is_some_found x b (some y) h = refl

-- A lookup finds something where an entry has the key.
pub find_last-is_some :
    {A : Type 0} (Q : A → Type 0) (p : A → Bool) (xs : List A)
    → ((x : A) → Q x → p x ≡ true)
    → Any Q xs
    → is_some (find_last p xs) ≡ true
unfolding find_last
find_last-is_some Q p [] f h = elim h [ ]
find_last-is_some Q p (x ∷ xs) f (inl q) = is_some_found x (p x) (find_last p xs) (inl (f x q))
find_last-is_some Q p (x ∷ xs) f (inr h) =
    is_some_found x (p x) (find_last p xs) (inr (find_last-is_some Q p xs f h))
