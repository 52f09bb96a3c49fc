-- ===== src/Retrieval/Merged.antt =====
-- Merging keeps every row once, within the limit, and never loses the best row of a query.
use mini_nblm_proto.Prelude.{
  ℕ, zero, suc, ◌+◌, ◌≤◌, ◌<◌, ◌≡◌, refl, sym, ap, ◌∙◌, true, false, List, [], ◌∷◌, ◌++◌, map,
  arith, length, take, All, length-take, contains, Distinct, contains-append, Distinct-take, ℕ-Eq,
  list-Eq, pair-Eq, option-Eq,
}
use mathlib.Core.Path.{subst}
use mini_nblm_proto.Prelude.Dedup.{keep_new, keep_new-Distinct, keep_new_complete}
use mini_nblm_proto.Retrieval.{ChunkRow, PageRow, Row}
use mini_nblm_proto.Retrieval.Anchors.{
  row_id, first_rows, query_anchors, fill_rows, merge_query_anchors, row_page, leading_pages,
  collect_pages, merge_page_anchors,
}

Distinct-append :
    (xs ys : List ℕ)
    → Distinct xs
    → Distinct ys
    → ((k : ℕ) → contains xs k ≡ true → contains ys k ≡ false)
    → Distinct (xs ++ ys)
Distinct-append [] ys hx hy apart = hy
Distinct-append (x ∷ xs) ys hx hy apart = (
  ground (arith, contains-append xs ys x, apart x, ℕ-Eq.eqb_iff x x),
  Distinct-append xs ys hx.1 hy (λ k h. ground (arith, apart k)),
)

take-append_le :
    (n : ℕ) (xs ys : List ℕ) (k : ℕ)
    → length xs ≤ n
    → contains xs k ≡ true
    → contains (take n (xs ++ ys)) k ≡ true
take-append_le zero [] ys k h c = cc
take-append_le zero (x ∷ xs) ys k h c = absurd (omega arith)
take-append_le (suc n) [] ys k h c = cc
take-append_le (suc n) (x ∷ xs) ys k h c = ground (arith, take-append_le n xs ys k)

module _ {S : Type 0} where
  abbrev pub ids : List (Row ChunkRow S) → List ℕ
  ids rows = map row_id rows

  abbrev pub pages_of : List (Row PageRow S) → List (ℕ × ℕ)
  pages_of rows = map row_page rows

  ids-append : (xs ys : List (Row ChunkRow S)) → ids (xs ++ ys) ≡ ids xs ++ ids ys
  ids-append [] ys = refl
  ids-append (x ∷ xs) ys = ap (λ k. row_id x ∷ k) (ids-append xs ys)

  ids-take : (n : ℕ) (xs : List (Row ChunkRow S)) → ids (take n xs) ≡ take n (ids xs)
  ids-take zero xs = refl
  ids-take (suc n) [] = refl
  ids-take (suc n) (x ∷ xs) = ap (λ k. row_id x ∷ k) (ids-take n xs)

  length-ids : (xs : List (Row ChunkRow S)) → length (ids xs) ≡ length xs
  length-ids [] = refl
  length-ids (x ∷ xs) = ap suc (length-ids xs)

  -- Rows filled in are new and distinct.
  fill_rows-unseen :
      (limit count : ℕ) (seen : List ℕ) (rows : List (Row ChunkRow S)) (k : ℕ)
      → contains seen k ≡ true
      → contains (ids (fill_rows limit count seen rows)) k ≡ false
  unfolding fill_rows
  fill_rows-unseen limit count seen [] k h = refl
  fill_rows-unseen limit count seen (row ∷ rows) k h = ground (
    arith,
    fill_rows-unseen limit count seen rows k,
    fill_rows-unseen limit (count + 1) (row_id row ∷ seen) rows k,
    ℕ-Eq.eqb_iff (row_id row) k,
  )

  fill_rows-Distinct :
      (limit count : ℕ) (seen : List ℕ) (rows : List (Row ChunkRow S))
      → Distinct (ids (fill_rows limit count seen rows))
  unfolding fill_rows
  fill_rows-Distinct limit count seen [] = tt
  fill_rows-Distinct limit count seen (row ∷ rows) = ground (
    arith,
    fill_rows-Distinct limit count seen rows,
    fill_rows-Distinct limit (count + 1) (row_id row ∷ seen) rows,
    fill_rows-unseen limit (count + 1) (row_id row ∷ seen) rows (row_id row),
    ℕ-Eq.eqb_iff (row_id row) (row_id row),
  )

  first_rows-length :
      (result_sets : List (List (Row ChunkRow S)))
      → length (first_rows result_sets) ≤ length result_sets
  first_rows-length [] = omega arith
  first_rows-length ([] ∷ result_sets) = omega (arith, first_rows-length result_sets)
  first_rows-length ((anchor ∷ rows) ∷ result_sets) = omega (arith, first_rows-length result_sets)

  keep_new-length :
      (seen : List ℕ) (rows : List (Row ChunkRow S))
      → length (keep_new row_id (λ row. true) seen rows) ≤ length rows
  unfolding keep_new
  keep_new-length seen [] = omega arith
  keep_new-length seen (row ∷ rows) =
      ground (arith, keep_new-length seen rows, keep_new-length (row_id row ∷ seen) rows)

  every_wanted : (rows : List (Row ChunkRow S)) → All (λ row. true ≡ true) rows
  every_wanted [] = tt
  every_wanted (row ∷ rows) = (refl, every_wanted rows)

  ids-merged :
      (result_sets : List (List (Row ChunkRow S))) (fused_rows : List (Row ChunkRow S)) (limit : ℕ)
      → (let anchors = query_anchors result_sets in
          ids (merge_query_anchors result_sets fused_rows limit)
          ≡ take limit
              (ids anchors ++ ids (fill_rows limit (length anchors) (ids anchors) fused_rows)))
  unfolding merge_query_anchors
  ids-merged result_sets fused_rows limit =
      let anchors = query_anchors result_sets in
      let filled = fill_rows limit (length anchors) (ids anchors) fused_rows in
      ids-take limit (anchors ++ filled) ∙ ap (take limit) (ids-append anchors filled)

  -- The merged rows are at most `limit`, with no chunk twice.
  pub merge_query_anchors-Distinct :
      (result_sets : List (List (Row ChunkRow S))) (fused_rows : List (Row ChunkRow S)) (limit : ℕ)
      → Distinct (ids (merge_query_anchors result_sets fused_rows limit))
        × (length (merge_query_anchors result_sets fused_rows limit) ≤ limit)
  unfolding merge_query_anchors query_anchors
  merge_query_anchors-Distinct result_sets fused_rows limit =
      let anchors = query_anchors result_sets in
      let filled = fill_rows limit (length anchors) (ids anchors) fused_rows in
      (
        subst Distinct (sym (ids-merged result_sets fused_rows limit)) (
            Distinct-take limit (ids anchors ++ ids filled) (
              Distinct-append (ids anchors) (ids filled)
                (keep_new-Distinct row_id (λ row. true) [] (first_rows result_sets))
                (fill_rows-Distinct limit (length anchors) (ids anchors) fused_rows)
                (fill_rows-unseen limit (length anchors) (ids anchors) fused_rows))),
        omega (arith, length-take limit (anchors ++ filled)),
      )

  -- If the limit is at least the number of queries, the chunk that a query ranks first is among the
  -- merged rows, whatever the fused ranking is.
  pub merge_query_anchors_first :
      (result_sets : List (List (Row ChunkRow S))) (fused_rows : List (Row ChunkRow S))
      (limit k : ℕ)
      → length result_sets ≤ limit
      → contains (ids (first_rows result_sets)) k ≡ true
      → contains (ids (merge_query_anchors result_sets fused_rows limit)) k ≡ true
  unfolding query_anchors
  merge_query_anchors_first result_sets fused_rows limit k enough first =
      let firsts = first_rows result_sets in
      let anchors = query_anchors result_sets in
      let filled = fill_rows limit (length anchors) (ids anchors) fused_rows in
      ap (λ ks. contains ks k) (ids-merged result_sets fused_rows limit)
      ∙ take-append_le limit (ids anchors) (ids filled) k
          (omega
            (arith, keep_new-length [] firsts, first_rows-length result_sets, length-ids anchors))
          (keep_new_complete row_id (λ row. true) [] firsts k first (every_wanted firsts) refl)

  collect_pages-unseen :
      (limit count : ℕ) (seen : List (ℕ × ℕ)) (rows : List (Row PageRow S)) (k : ℕ × ℕ)
      → contains seen k ≡ true
      → contains (pages_of (collect_pages limit count seen rows)) k ≡ false
  unfolding collect_pages
  collect_pages-unseen limit count seen [] k h = refl
  collect_pages-unseen limit count seen (row ∷ rows) k h = ground (
    arith,
    collect_pages-unseen limit count seen rows k,
    collect_pages-unseen limit (count + 1) (row_page row ∷ seen) rows k,
    pair-Eq.eqb_iff (row_page row) k,
  )

  collect_pages-Distinct :
      (limit count : ℕ) (seen : List (ℕ × ℕ)) (rows : List (Row PageRow S))
      → Distinct (pages_of (collect_pages limit count seen rows))
  unfolding collect_pages
  collect_pages-Distinct limit count seen [] = tt
  collect_pages-Distinct limit count seen (row ∷ rows) = ground (
    arith,
    collect_pages-Distinct limit count seen rows,
    collect_pages-Distinct limit (count + 1) (row_page row ∷ seen) rows,
    collect_pages-unseen limit (count + 1) (row_page row ∷ seen) rows (row_page row),
    pair-Eq.eqb_iff (row_page row) (row_page row),
  )

  length-collect_pages :
      (limit count : ℕ) (seen : List (ℕ × ℕ)) (rows : List (Row PageRow S))
      → count < limit
      → count + length (collect_pages limit count seen rows) ≤ limit
  unfolding collect_pages
  length-collect_pages limit count seen [] h = omega arith
  length-collect_pages limit count seen (row ∷ rows) h = ground (
    arith,
    length-collect_pages limit count seen rows,
    length-collect_pages limit (count + 1) (row_page row ∷ seen) rows,
  )

  -- For a positive limit, the merged pages are at most `limit`, and no page stands twice.
  pub merge_page_anchors-Distinct :
      (per_query_results : List (List (Row PageRow S))) (fused_results : List (Row PageRow S))
      (limit : ℕ)
      → 0 < limit
      → Distinct (pages_of (merge_page_anchors per_query_results fused_results limit))
        × (length (merge_page_anchors per_query_results fused_results limit) ≤ limit)
  unfolding merge_page_anchors
  merge_page_anchors-Distinct per_query_results fused_results limit h =
      let rows = leading_pages per_query_results ++ fused_results in
      (
        collect_pages-Distinct limit 0 [] rows,
        omega (arith, length-collect_pages limit 0 [] rows h),
      )
