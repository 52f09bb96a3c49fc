-- ===== src/Retrieval/Ranked.antt =====
-- What rank fusion keeps: each key once, only keys that were found, within the limit, best first.
use mini_nblm_proto.Prelude.{
  ℕ, zero, suc, ◌+◌, ◌≤◌, ◌≡◌, refl, sym, ap, ◌∙◌, inl, inr, Bool, false, ◌||◌, List, [], ◌∷◌, map,
  arith, Bool-cases, length, take, length-take, Eq, ◌==◌, contains, Distinct, Distinct-take, ℕ-Eq,
  list-Eq, pair-Eq, option-Eq,
}
use mathlib.Core.Path.{subst}
use mini_nblm_proto.Retrieval.{Scores, Row}
use mini_nblm_proto.Retrieval.Fusion.{add_row, add_rows, add_sets, insert_ranked, sort_ranked, fuse}

or_again : (a b : Bool) → (a || b) ≡ ((a || b) || a)
or_again a b = ground arith

or_assoc : (a b c : Bool) → ((a || b) || c) ≡ (a || (b || c))
or_assoc a b c = ground arith

module _ {K C S : Type 0} ⦃e : Eq K⦄ (key : C → K) where
  abbrev pub keys : List (Row C S) → List K
  keys rows = map (λ row. key row.0) rows

  -- Some set has a row with the key.
  abbrev pub found_in : List (List (Row C S)) → K → Bool
  found_in [] k = false
  found_in (rows ∷ result_sets) k = contains (keys rows) k || found_in result_sets k

  keys-take : (n : ℕ) (rows : List (Row C S)) → keys (take n rows) ≡ take n (keys rows)
  keys-take zero rows = refl
  keys-take (suc n) [] = refl
  keys-take (suc n) (row ∷ rows) = ap (λ ks. key row.0 ∷ ks) (keys-take n rows)

  module _ (key_ltb : K → K → Bool) (scores : Scores S) where
    keys-add_row :
        (rank : ℕ) (row : Row C S) (entries : List (Row C S)) (k : K)
        → contains (keys (add_row key key_ltb scores rank row entries)) k
          ≡ (contains (keys entries) k || key row.0 == k)
    unfolding add_row
    keys-add_row rank (c, s, t) [] k = ground arith
    keys-add_row rank (c, s, t) ((d, s', t') ∷ entries) k = elim (Bool-cases (key d == key c)) [
      | inl q ↦ rw q (
          ap (λ x. x == k || contains (keys entries) k) (sym ((e.eqb_iff (key d) (key c)).0 q))
          ∙ or_again (key d == k) (contains (keys entries) k)
          ∙ ap (λ x. (key d == k || contains (keys entries) k) || x == k)
              ((e.eqb_iff (key d) (key c)).0 q))
      | inr q ↦ rw q (
          ap (λ b. key d == k || b) (keys-add_row rank (c, s, t) entries k)
          ∙ sym (or_assoc (key d == k) (contains (keys entries) k) (key c == k)))
    ]

    Distinct-add_row :
        (rank : ℕ) (row : Row C S) (entries : List (Row C S))
        → Distinct (keys entries)
        → Distinct (keys (add_row key key_ltb scores rank row entries))
    unfolding add_row
    Distinct-add_row rank (c, s, t) [] h = (refl, tt)
    Distinct-add_row rank (c, s, t) ((d, s', t') ∷ entries) h = ground (
      arith,
      Distinct-add_row rank (c, s, t) entries h.1,
      keys-add_row rank (c, s, t) entries (key d),
      e.eqb_iff (key d) (key c),
      e.eqb_iff (key c) (key d),
    )

    keys-add_rows :
        (rank : ℕ) (rows entries : List (Row C S)) (k : K)
        → contains (keys (add_rows key key_ltb scores rank rows entries)) k
          ≡ (contains (keys entries) k || contains (keys rows) k)
    unfolding add_rows
    keys-add_rows rank [] entries k = ground arith
    keys-add_rows rank (row ∷ rows) entries k =
        keys-add_rows (rank + 1) rows (add_row key key_ltb scores rank row entries) k
        ∙ ap (λ b. b || contains (keys rows) k) (keys-add_row rank row entries k)
        ∙ or_assoc (contains (keys entries) k) (key row.0 == k) (contains (keys rows) k)

    Distinct-add_rows :
        (rank : ℕ) (rows entries : List (Row C S))
        → Distinct (keys entries)
        → Distinct (keys (add_rows key key_ltb scores rank rows entries))
    unfolding add_rows
    Distinct-add_rows rank [] entries h = h
    Distinct-add_rows rank (row ∷ rows) entries h =
        Distinct-add_rows (rank + 1) rows _ (Distinct-add_row rank row entries h)

    pub keys-add_sets :
        (result_sets : List (List (Row C S))) (entries : List (Row C S)) (k : K)
        → contains (keys (add_sets key key_ltb scores result_sets entries)) k
          ≡ (contains (keys entries) k || found_in result_sets k)
    unfolding add_sets
    keys-add_sets [] entries k = ground arith
    keys-add_sets (rows ∷ result_sets) entries k = ground (
      arith,
      keys-add_sets result_sets (add_rows key key_ltb scores 1 rows entries) k,
      keys-add_rows 1 rows entries k,
    )

    pub Distinct-add_sets :
        (result_sets : List (List (Row C S))) (entries : List (Row C S))
        → Distinct (keys entries)
        → Distinct (keys (add_sets key key_ltb scores result_sets entries))
    unfolding add_sets
    Distinct-add_sets [] entries h = h
    Distinct-add_sets (rows ∷ result_sets) entries h =
        Distinct-add_sets result_sets _ (Distinct-add_rows 1 rows entries h)

    keys-insert_ranked :
        (row : Row C S) (rows : List (Row C S)) (k : K)
        → contains (keys (insert_ranked key key_ltb scores row rows)) k
          ≡ (key row.0 == k || contains (keys rows) k)
    unfolding insert_ranked
    keys-insert_ranked row [] k = ground arith
    keys-insert_ranked row (r ∷ rows) k = ground (arith, keys-insert_ranked row rows k)

    Distinct-insert_ranked :
        (row : Row C S) (rows : List (Row C S))
        → Distinct (keys rows)
        → contains (keys rows) (key row.0) ≡ false
        → Distinct (keys (insert_ranked key key_ltb scores row rows))
    unfolding insert_ranked
    Distinct-insert_ranked row [] h n = (refl, tt)
    Distinct-insert_ranked row (r ∷ rows) h n = ground (
      arith,
      Distinct-insert_ranked row rows h.1,
      keys-insert_ranked row rows (key r.0),
      e.eqb_iff (key row.0) (key r.0),
      e.eqb_iff (key r.0) (key row.0),
    )

    pub keys-sort_ranked :
        (rows : List (Row C S)) (k : K)
        → contains (keys (sort_ranked key key_ltb scores rows)) k ≡ contains (keys rows) k
    unfolding sort_ranked
    keys-sort_ranked [] k = refl
    keys-sort_ranked (row ∷ rows) k = ground (
      arith,
      keys-insert_ranked row (sort_ranked key key_ltb scores rows) k,
      keys-sort_ranked rows k,
    )

    pub Distinct-sort_ranked :
        (rows : List (Row C S))
        → Distinct (keys rows)
        → Distinct (keys (sort_ranked key key_ltb scores rows))
    unfolding sort_ranked
    Distinct-sort_ranked [] h = tt
    Distinct-sort_ranked (row ∷ rows) h =
        Distinct-insert_ranked row (sort_ranked key key_ltb scores rows)
          (Distinct-sort_ranked rows h.1) (keys-sort_ranked rows (key row.0) ∙ h.0)

    keys-fuse :
        (result_sets : List (List (Row C S))) (limit : ℕ)
        → keys (fuse key key_ltb scores result_sets limit)
          ≡ take limit
              (keys (sort_ranked key key_ltb scores (add_sets key key_ltb scores result_sets [])))
    unfolding fuse
    keys-fuse result_sets limit = keys-take limit _

    -- Rank fusion gives at most `limit` rows, and no key twice.
    pub fuse-Distinct :
        (result_sets : List (List (Row C S))) (limit : ℕ)
        → Distinct (keys (fuse key key_ltb scores result_sets limit))
          × (length (fuse key key_ltb scores result_sets limit) ≤ limit)
    unfolding fuse
    fuse-Distinct result_sets limit =
        let entries = add_sets key key_ltb scores result_sets [] in
        let ranked = sort_ranked key key_ltb scores entries in
        (
          subst Distinct (sym (keys-fuse result_sets limit)) (
              Distinct-take limit (keys ranked)
                (Distinct-sort_ranked entries (Distinct-add_sets result_sets [] tt))),
          omega (arith, length-take limit ranked),
        )
