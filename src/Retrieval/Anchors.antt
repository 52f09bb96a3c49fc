-- ===== src/Retrieval/Anchors.antt =====
-- `_merge_query_anchors` and `_merge_page_anchors`: the first rows of each query come before the fused
-- ranking.
use mini_nblm_proto.Prelude.{
  ℕ, ◌+◌, true, List, [], ◌∷◌, ◌++◌, map, nat_eq, if◌then◌else◌, length, take, contains, ℕ-Eq,
  list-Eq, pair-Eq, option-Eq,
}
use mini_nblm_proto.Prelude.Dedup.{keep_new}
use mini_nblm_proto.Retrieval.{ChunkRow, PageRow, Row}
use mini_nblm_proto.Retrieval.Fusion.{chunk_key, page_key}

abbrev pub page_anchors_per_query : ℕ
page_anchors_per_query = 2

module _ {S : Type 0} where
  -- `chunk.id` of a row
  abbrev pub row_id : Row ChunkRow S → ℕ
  row_id row = chunk_key row.0

  -- The first row of each set that has one.
  abbrev pub first_rows : List (List (Row ChunkRow S)) → List (Row ChunkRow S)
  first_rows [] = []
  first_rows ([] ∷ result_sets) = first_rows result_sets
  first_rows ((anchor ∷ rows) ∷ result_sets) = anchor ∷ first_rows result_sets

  unfoldable pub query_anchors : List (List (Row ChunkRow S)) → List (Row ChunkRow S)
  unfolding keep_new
  query_anchors result_sets = keep_new row_id (λ row. true) [] (first_rows result_sets)

  -- The loop over the fused rows, with `len(merged_rows)` and `seen_ids` so far.
  unfoldable pub fill_rows : ℕ → ℕ → List ℕ → List (Row ChunkRow S) → List (Row ChunkRow S)
  fill_rows limit count seen [] = []
  fill_rows limit count seen (row ∷ rows) =
      let skipped = fill_rows limit count seen rows in
      let added = row ∷ fill_rows limit (count + 1) (row_id row ∷ seen) rows in
      if nat_eq count limit then [] else if contains seen (row_id row) then skipped else added

  unfoldable pub merge_query_anchors :
      List (List (Row ChunkRow S)) → List (Row ChunkRow S) → ℕ → List (Row ChunkRow S)
  unfolding query_anchors fill_rows
  merge_query_anchors result_sets fused_rows limit =
      let anchors = query_anchors result_sets in
      take limit (anchors ++ fill_rows limit (length anchors) (map row_id anchors) fused_rows)

  abbrev pub row_page : Row PageRow S → ℕ × ℕ
  row_page row = page_key row.0

  abbrev pub leading_pages : List (List (Row PageRow S)) → List (Row PageRow S)
  leading_pages [] = []
  leading_pages (rows ∷ per_query_results) =
      take page_anchors_per_query rows ++ leading_pages per_query_results

  -- The body that both loops share: a row whose page is new is appended, and the loop ends at the
  -- limit.
  unfoldable pub collect_pages : ℕ → ℕ → List (ℕ × ℕ) → List (Row PageRow S) → List (Row PageRow S)
  collect_pages limit count seen [] = []
  collect_pages limit count seen (row ∷ rows) =
      let skipped = collect_pages limit count seen rows in
      let more = collect_pages limit (count + 1) (row_page row ∷ seen) rows in
      if contains seen (row_page row)
      then skipped
      else row ∷ (if nat_eq (count + 1) limit then [] else more)

  -- The second loop goes on where the first one ends, unless the limit is reached.
  unfoldable pub merge_page_anchors :
      List (List (Row PageRow S)) → List (Row PageRow S) → ℕ → List (Row PageRow S)
  unfolding collect_pages
  merge_page_anchors per_query_results fused_results limit =
      collect_pages limit 0 [] (leading_pages per_query_results ++ fused_results)
