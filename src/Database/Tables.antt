-- ===== src/Database/Tables.antt =====
-- Tables as lists: find a row, change rows, delete rows.
use mini_nblm_proto.Prelude.{
  ◌≡◌, refl, inl, inr, Bool, true, false, not, Option, none, some, List, [], ◌∷◌, ◌++◌, arith,
  if◌then◌else◌, Bool-cases, All, ℕ-Eq, list-Eq, pair-Eq, option-Eq,
}
use mathlib.Core.Option

module _ {ℓ} {A : Type ℓ} where
  -- `select(…).where(p)`, one row.
  unfoldable pub find : (A → Bool) → List A → Option A
  find p [] = none
  find p (x ∷ xs) = if p x then some x else find p xs

  -- All rows with `p`.
  unfoldable pub where_rows : (A → Bool) → List A → List A
  where_rows p [] = []
  where_rows p (x ∷ xs) = let rest = where_rows p xs in if p x then x ∷ rest else rest

  -- `delete(…).where(p)`
  unfoldable pub delete_rows : (A → Bool) → List A → List A
  unfolding where_rows
  delete_rows p xs = where_rows (λ x. not (p x)) xs

  -- Changes the rows with `p`.
  unfoldable pub update_rows : (A → Bool) → (A → A) → List A → List A
  update_rows p f [] = []
  update_rows p f (x ∷ xs) = (if p x then f x else x) ∷ update_rows p f xs

  pub find-update_self :
      (p : A → Bool) (f : A → A) (xs : List A)
      → ((x : A) → p x ≡ true → p (f x) ≡ true)
      → find p (update_rows p f xs) ≡ Option.map f (find p xs)
  unfolding find update_rows
  find-update_self p f [] k = refl
  find-update_self p f (x ∷ xs) k = elim (Bool-cases (p x)) [
    | inl e ↦ rw (e, k x e)
    | inr e ↦ rw (e, e, find-update_self p f xs k)
  ]

  -- A change of the rows with `q` is not seen by a search for `p`, if it keeps `p` and `p` rules `q`
  -- out.
  pub find-update_other :
      (p q : A → Bool) (f : A → A) (xs : List A)
      → ((x : A) → p (f x) ≡ p x)
      → ((x : A) → p x ≡ true → q x ≡ false)
      → find p (update_rows q f xs) ≡ find p xs
  unfolding find update_rows
  find-update_other p q f [] k d = refl
  find-update_other p q f (x ∷ xs) k d = ground (arith, k x, d x, find-update_other p q f xs k d)

  pub where-append :
      (p : A → Bool) (xs ys : List A) → where_rows p (xs ++ ys) ≡ where_rows p xs ++ where_rows p ys
  unfolding where_rows
  where-append p [] ys = refl
  where-append p (x ∷ xs) ys = ground (arith, where-append p xs ys)

  pub where-none : (p : A → Bool) (xs : List A) → All (λ x. p x ≡ false) xs → where_rows p xs ≡ []
  unfolding where_rows
  where-none p [] h = refl
  where-none p (x ∷ xs) h = ground (arith, where-none p xs h.1)

  -- Deleting the rows with `q` leaves those with `p`, if `p` rules `q` out.
  pub where-delete_other :
      (p q : A → Bool) (xs : List A)
      → ((x : A) → p x ≡ true → q x ≡ false)
      → where_rows p (delete_rows q xs) ≡ where_rows p xs
  unfolding where_rows delete_rows
  where-delete_other p q [] d = refl
  where-delete_other p q (x ∷ xs) d = ground (arith, d x, where-delete_other p q xs d)

  pub where-delete_self : (p : A → Bool) (xs : List A) → where_rows p (delete_rows p xs) ≡ []
  unfolding where_rows delete_rows
  where-delete_self p [] = refl
  where-delete_self p (x ∷ xs) = ground (arith, where-delete_self p xs)

  pub find-sat : (p : A → Bool) (xs : List A) (a : A) → find p xs ≡ some a → p a ≡ true
  unfolding find
  find-sat p [] a h = cc
  find-sat p (y ∷ xs) a h = ground (arith, find-sat p xs a)
