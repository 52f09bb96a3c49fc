-- ===== src/Retrieval/Fused.antt =====
-- Rank fusion against its description: every found key once, with the sum of the reciprocals of its
-- ranks, in the order of the sums, and of that the first rows.
use mini_nblm_proto.Prelude.{
  ℕ, ◌+◌, ◌≡◌, refl, ap, ◌∙◌, inl, inr, Bool, true, false, List, [], ◌∷◌, arith, Bool-cases,
  if◌then◌else◌, take, All, Any, All-imp, Eq, ◌==◌, contains, Distinct, ℕ-Eq, list-Eq, pair-Eq,
  option-Eq,
}
use mini_nblm_proto.Retrieval.{Scores, Row, rank_score}
use mini_nblm_proto.Retrieval.Fusion.{add_row, add_rows, add_sets, sort_ranked, fuse}
use mini_nblm_proto.Retrieval.Ranked.{
  Distinct-add_sets, Distinct-sort_ranked, found_in, keys, keys-add_sets, keys-sort_ranked,
}
use mini_nblm_proto.Retrieval.Ordered.{All-sort_ranked, IsOrdered, IsOrdered-sort_ranked}

module _ {K C S : Type 0} ⦃e : Eq K⦄ (key : C → K) (key_ltb : K → K → Bool)
    (scores : Scores S) where
  -- The sum for a key: a term for each of its places, the ranks of each search counted from 1.
  abbrev pub sum_ranks : K → S → ℕ → List (Row C S) → S
  sum_ranks k sum rank [] = sum
  sum_ranks k sum rank (row ∷ rows) =
      sum_ranks k (if key row.0 == k then scores.add sum (rank_score scores rank) else sum)
        (rank + 1) rows

  abbrev pub sum_searches : K → S → List (List (Row C S)) → S
  sum_searches k sum [] = sum
  sum_searches k sum (rows ∷ result_sets) = sum_searches k (sum_ranks k sum 1 rows) result_sets

  -- The score of a key among entries.
  abbrev score_of : K → List (Row C S) → S
  score_of k [] = scores.zero_score
  score_of k ((c, s, t) ∷ entries) = if key c == k then s else score_of k entries

  score_of-add_row :
      (rank : ℕ) (row : Row C S) (entries : List (Row C S)) (k : K)
      → score_of k (add_row key key_ltb scores rank row entries) ≡ (
          if key row.0 == k
          then scores.add (score_of k entries) (rank_score scores rank)
          else score_of k entries)
  unfolding add_row
  score_of-add_row rank (c, s, t) [] k = refl
  score_of-add_row rank (c, s, t) ((d, s', t') ∷ entries) k = ground (
    arith,
    score_of-add_row rank (c, s, t) entries k,
    e.eqb_iff (key d) (key c),
    e.eqb_iff (key d) k,
    e.eqb_iff (key c) k,
  )

  score_of-add_rows :
      (rank : ℕ) (rows entries : List (Row C S)) (k : K)
      → score_of k (add_rows key key_ltb scores rank rows entries)
        ≡ sum_ranks k (score_of k entries) rank rows
  unfolding add_rows
  score_of-add_rows rank [] entries k = refl
  score_of-add_rows rank (row ∷ rows) entries k =
      score_of-add_rows (rank + 1) rows (add_row key key_ltb scores rank row entries) k
      ∙ ap (λ s. sum_ranks k s (rank + 1) rows) (score_of-add_row rank row entries k)

  score_of-add_sets :
      (result_sets : List (List (Row C S))) (entries : List (Row C S)) (k : K)
      → score_of k (add_sets key key_ltb scores result_sets entries)
        ≡ sum_searches k (score_of k entries) result_sets
  unfolding add_sets
  score_of-add_sets [] entries k = refl
  score_of-add_sets (rows ∷ result_sets) entries k =
      score_of-add_sets result_sets (add_rows key key_ltb scores 1 rows entries) k
      ∙ ap (λ s. sum_searches k s result_sets) (score_of-add_rows 1 rows entries k)

  abbrev Own : List (Row C S) → Row C S → Type 0
  Own entries row = row.1 ≡ score_of (key row.0) entries

  Own-later :
      (first : Row C S) (entries rows : List (Row C S))
      → contains (keys key rows) (key first.0) ≡ false
      → All (Own entries) rows
      → All (Own (first ∷ entries)) rows
  Own-later (c, s, t) entries [] n h = tt
  Own-later (c, s, t) entries (row ∷ rows) n h = (
    ground (arith, n, h.0, e.eqb_iff (key row.0) (key c), e.eqb_iff (key c) (key row.0)),
    Own-later (c, s, t) entries rows (ground (arith, n)) h.1,
  )

  Own-self : (entries : List (Row C S)) → Distinct (keys key entries) → All (Own entries) entries
  Own-self [] d = tt
  Own-self ((c, s, t) ∷ entries) d = (
    ground (arith, e.eqb_iff (key c) (key c)),
    Own-later (c, s, t) entries entries d.0 (Own-self entries d.1),
  )

  -- The chunk and the title of a row, as some search found them.
  abbrev pub IsFound : List (List (Row C S)) → Row C S → Type 0
  IsFound result_sets row = Any (λ rows. Any (λ r. (r.0 ≡ row.0) × (r.2 ≡ row.2)) rows) result_sets

  self-IsFound : (rows : List (Row C S)) → All (λ row. IsFound (rows ∷ []) row) rows
  self-IsFound [] = tt
  self-IsFound (row ∷ rows) = (
    inl (inl (refl, refl)),
    All-imp (λ r. IsFound (rows ∷ []) r) (λ r. IsFound ((row ∷ rows) ∷ []) r) later rows
        (self-IsFound rows),
  )
    where
      later : (r : Row C S) → IsFound (rows ∷ []) r → IsFound ((row ∷ rows) ∷ []) r
      later r (inl h) = inl (inr h)
      later r (inr h) = elim h [ ]

  module _ (found : List (List (Row C S))) where
    found-add_row :
        (rank : ℕ) (row : Row C S) (entries : List (Row C S))
        → IsFound found row
        → All (IsFound found) entries
        → All (IsFound found) (add_row key key_ltb scores rank row entries)
    unfolding add_row
    found-add_row rank (c, s, t) [] r h = (r, tt)
    found-add_row rank (c, s, t) ((d, s', t') ∷ entries) r h = elim (Bool-cases (key d == key c)) [
      | inl q ↦ rw q (r, h.1)
      | inr q ↦ rw q (h.0, found-add_row rank (c, s, t) entries r h.1)
    ]

    found-add_rows :
        (rank : ℕ) (rows entries : List (Row C S))
        → All (IsFound found) rows
        → All (IsFound found) entries
        → All (IsFound found) (add_rows key key_ltb scores rank rows entries)
    unfolding add_rows
    found-add_rows rank [] entries r h = h
    found-add_rows rank (row ∷ rows) entries r h =
        found-add_rows (rank + 1) rows _ r.1 (found-add_row rank row entries r.0 h)

    found-add_sets :
        (result_sets : List (List (Row C S))) (entries : List (Row C S))
        → All (λ rows. All (IsFound found) rows) result_sets
        → All (IsFound found) entries
        → All (IsFound found) (add_sets key key_ltb scores result_sets entries)
    unfolding add_sets
    found-add_sets [] entries r h = h
    found-add_sets (rows ∷ result_sets) entries r h =
        found-add_sets result_sets _ r.1 (found-add_rows 1 rows entries r.0 h)

  All-IsFound :
      (result_sets : List (List (Row C S)))
      → All (λ rows. All (IsFound result_sets) rows) result_sets
  All-IsFound [] = tt
  All-IsFound (rows ∷ result_sets) = (
    All-imp (IsFound (rows ∷ [])) (IsFound (rows ∷ result_sets)) first rows (self-IsFound rows),
    All-imp (λ rs. All (IsFound result_sets) rs) (λ rs. All (IsFound (rows ∷ result_sets)) rs)
        (λ rs h. All-imp (IsFound result_sets) (IsFound (rows ∷ result_sets)) (λ r f. inr f) rs h)
        result_sets (All-IsFound result_sets),
  )
    where
      first : (r : Row C S) → IsFound (rows ∷ []) r → IsFound (rows ∷ result_sets) r
      first r (inl h) = inl h
      first r (inr h) = elim h [ ]

  pub record IsRanking (result_sets : List (List (Row C S))) (ranked : List (Row C S))
      : Type 0 where
    pub once : Distinct (keys key ranked)
    pub complete : (k : K) → contains (keys key ranked) k ≡ found_in key result_sets k
    pub summed : All (λ row. row.1 ≡ sum_searches (key row.0) scores.zero_score result_sets) ranked
    pub found : All (IsFound result_sets) ranked
    pub ordered : IsOrdered key key_ltb scores ranked

  entries_summed :
      (result_sets : List (List (Row C S)))
      → All
          (λ row. row.1 ≡ sum_searches (key row.0) scores.zero_score result_sets)
          (add_sets key key_ltb scores result_sets [])
  entries_summed result_sets =
      let entries = add_sets key key_ltb scores result_sets [] in
      All-imp (Own entries) _ (λ row own. own ∙ score_of-add_sets result_sets [] (key row.0))
        entries (Own-self entries (Distinct-add_sets key key_ltb scores result_sets [] tt))

  -- Rank fusion gives the first `limit` rows of a ranking of all that was found. In it every key that
  -- some search found, and no other, stands once. Its score is the sum of `1 / (60 + rank)` over the
  -- places where the searches have it, in their order, the ranks of each search counted from 1. Its
  -- chunk and title stand in one row that a search found. Of two neighbours, the later one has no larger
  -- score, nor a smaller key with a score that is not smaller. The comparisons of scores and of keys are
  -- taken to be asymmetric.
  pub fuse-IsRanking :
      ((a b : S) → scores.gt a b ≡ true → scores.gt b a ≡ false)
      → ((a b : K) → key_ltb a b ≡ true → key_ltb b a ≡ false)
      → (result_sets : List (List (Row C S))) (limit : ℕ)
      → (ranked : List (Row C S)) × (fuse key key_ltb scores result_sets limit ≡ take limit ranked)
        × IsRanking result_sets ranked
  unfolding fuse
  fuse-IsRanking gt_asym ltb_asym result_sets limit =
      let entries = add_sets key key_ltb scores result_sets [] in
      (
        sort_ranked key key_ltb scores entries,
        refl,
        record {
          once =
              Distinct-sort_ranked key key_ltb scores entries
                (Distinct-add_sets key key_ltb scores result_sets [] tt);
          complete = λ k.
              keys-sort_ranked key key_ltb scores entries k
              ∙ keys-add_sets key key_ltb scores result_sets [] k;
          summed = All-sort_ranked key key_ltb scores _ entries (entries_summed result_sets);
          found =
              All-sort_ranked key key_ltb scores (IsFound result_sets) entries
                (found-add_sets result_sets result_sets [] (All-IsFound result_sets) tt);
          ordered = IsOrdered-sort_ranked key key_ltb scores gt_asym ltb_asym entries;
        },
      )
