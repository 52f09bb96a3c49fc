-- ===== src/Prelude/Dedup.antt =====
-- The loop "skip what is unwanted or has a key seen before, keep the rest in order", which the
-- program writes with a `seen` set in a dozen places.
use mathlib.Core.Path.{◌≡◌, refl}
use mathlib.Core.Bool.{Bool, true, false, ◌&&◌, not}
use mathlib.Core.List.{List, [], ◌∷◌, map}
use native.Mathlib.Omega.{arith}
use mini_nblm_proto.Prelude.Equality.{Eq, contains, Distinct}
use mini_nblm_proto.Prelude.Lists.{All}

module _ {ℓ κ} {A : Type ℓ} {K : Type κ} ⦃e : Eq K⦄ (key : A → K) (wanted : A → Bool) where
  unfoldable pub keep_new : List K → List A → List A
  keep_new seen [] = []
  keep_new seen (x ∷ xs) = elim (wanted x && not (contains seen (key x))) [
    | true ↦ x ∷ keep_new (key x ∷ seen) xs
    | false ↦ keep_new seen xs
  ]

  -- No key of the result was seen before the loop.
  pub keep_new-unseen :
      (seen : List K) (xs : List A) (k : K)
      → contains seen k ≡ true
      → contains (map key (keep_new seen xs)) k ≡ false
  unfolding keep_new
  keep_new-unseen seen [] k h = refl
  keep_new-unseen seen (x ∷ xs) k h =
      ground
        (arith, keep_new-unseen seen xs k, keep_new-unseen (key x ∷ seen) xs k, e.eqb_iff (key x) k)

  pub keep_new-Distinct : (seen : List K) (xs : List A) → Distinct (map key (keep_new seen xs))
  unfolding keep_new
  keep_new-Distinct seen [] = tt
  keep_new-Distinct seen (x ∷ xs) = ground (
    arith,
    keep_new-Distinct seen xs,
    keep_new-Distinct (key x ∷ seen) xs,
    keep_new-unseen (key x ∷ seen) xs (key x),
    e.eqb_iff (key x) (key x),
  )

  pub keep_new-wanted :
      (seen : List K) (xs : List A) → All (λ x. wanted x ≡ true) (keep_new seen xs)
  unfolding keep_new
  keep_new-wanted seen [] = tt
  keep_new-wanted seen (x ∷ xs) =
      ground (arith, keep_new-wanted seen xs, keep_new-wanted (key x ∷ seen) xs)

  -- A wanted key of the input is in the result, or was seen before.
  pub keep_new_complete :
      (seen : List K) (xs : List A) (k : K)
      → contains (map key xs) k ≡ true
      → All (λ x. wanted x ≡ true) xs
      → contains seen k ≡ false
      → contains (map key (keep_new seen xs)) k ≡ true
  unfolding keep_new
  keep_new_complete seen [] k h w n = h
  keep_new_complete seen (x ∷ xs) k h w n = ground (
    arith,
    keep_new_complete seen xs k,
    keep_new_complete (key x ∷ seen) xs k,
    e.eqb_iff (key x) k,
  )

module _ {ℓ κ μ} {A : Type ℓ} {K : Type κ} ⦃e : Eq K⦄ (key : A → K) (wanted : A → Bool)
    (P : A → Type μ) where
  -- What all values have, those that are kept have.
  pub All-keep_new : (seen : List K) (xs : List A) → All P xs → All P (keep_new key wanted seen xs)
  unfolding keep_new
  All-keep_new seen [] h = tt
  All-keep_new seen (x ∷ xs) h =
      ground (arith, All-keep_new seen xs h.1, All-keep_new (key x ∷ seen) xs h.1)
