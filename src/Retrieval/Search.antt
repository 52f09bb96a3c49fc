-- ===== src/Retrieval/Search.antt =====
-- `_search` of one query, the hierarchical retriever's page search and its chunk scores. The SQL
-- queries, which PostgreSQL runs, and the embedding service are parameters.
use mini_nblm_proto.Prelude.{
  ℕ, ◌+◌, ◌*◌, min, ◌&&◌, Option, none, some, List, [], ◌∷◌, map, leb, nat_eq, if◌then◌else◌,
  or_else, ℕ-Eq, list-Eq, pair-Eq, option-Eq,
}
use mini_nblm_proto.Text.{Text}
use mini_nblm_proto.Retrieval.{ChunkRow, PageRow, Scores, Row, rank_score}
use mini_nblm_proto.Retrieval.Fusion.{reciprocal_rank_fusion, fuse_page_results}
use mini_nblm_proto.Retrieval.Anchors.{merge_query_anchors, merge_page_anchors}
use mini_nblm_proto.Retrieval.Queries.{normalize_queries}

pub data SearchAlgorithmKey : Type 0 where
  dense keyword substring hybrid : SearchAlgorithmKey

-- The searches of one owner's documents, each for a query and a limit.
pub record Searches (S : Type 0) : Type 0 where
  -- `_dense_search`: the embedding of the query, then the nearest chunks
  pub dense_search : Text → ℕ → List (Row ChunkRow S)
  pub search_chunks_by_keyword : Text → ℕ → List (Row ChunkRow S)
  pub search_chunks_by_substring : Text → ℕ → List (Row ChunkRow S)
  pub search_pages_by_keyword : Text → ℕ → List (Row PageRow S)
  pub search_pages_by_substring : Text → ℕ → List (Row PageRow S)

module _ {S : Type 0} (scores : Scores S) (searches : Searches S) where
  -- The hybrid branch asks each search for three times as many rows.
  unfoldable pub hybrid_sets : Text → ℕ → List (List (Row ChunkRow S))
  hybrid_sets question top_k =
      searches.dense_search question (top_k * 3)
      ∷ searches.search_chunks_by_keyword question (top_k * 3)
      ∷ searches.search_chunks_by_substring question (top_k * 3)
      ∷ []

  unfoldable pub search : SearchAlgorithmKey → Text → ℕ → List (Row ChunkRow S)
  search dense question top_k = searches.dense_search question top_k
  search keyword question top_k = searches.search_chunks_by_keyword question top_k
  search substring question top_k = searches.search_chunks_by_substring question top_k
  search hybrid question top_k =
      let result_sets = hybrid_sets question top_k in
      merge_query_anchors result_sets (reciprocal_rank_fusion scores result_sets top_k) top_k

  -- `MAX_PAGE_RESULTS_PER_QUERY` and `MAX_PAGE_CANDIDATES`
  abbrev pub query_pages : Text → List (Row PageRow S)
  query_pages query =
      fuse_page_results scores
        (searches.search_pages_by_keyword query 12
          ∷ searches.search_pages_by_substring query 12
          ∷ [])
        12

  -- The pages that `retrieve_hierarchical_chunks` looks at.
  unfoldable pub hierarchical_pages : (Text → Text) → Text → List Text → List (Row PageRow S)
  hierarchical_pages casefold question queries =
      let per_query_results = map query_pages (normalize_queries casefold question queries) in
      merge_page_anchors per_query_results (fuse_page_results scores per_query_results 12) 12

-- `page_rank`: the pages with their ranks from `rank` on.
unfoldable pub page_ranks : {S : Type 0} → ℕ → List (Row PageRow S) → List ((ℕ × ℕ) × ℕ)
page_ranks rank [] = []
page_ranks rank ((page, s, t) ∷ pages) =
    ((page.document_id, page.page_number), rank) ∷ page_ranks (rank + 1) pages

-- `min(ranks)` over the pages of the chunk, if there are any.
unfoldable pub best_rank : ℕ → ℕ → ℕ → List ((ℕ × ℕ) × ℕ) → Option ℕ
best_rank document start end [] = none
best_rank document start end (((d, page), rank) ∷ page_rank) =
    let rest = best_rank document start end page_rank in
    if nat_eq d document && (leb start page && leb page end)
    then some (elim rest [ none ↦ rank | some other ↦ min rank other ])
    else rest

unfoldable pub best_page_score : {S : Type 0} → Scores S → ChunkRow → List ((ℕ × ℕ) × ℕ) → S
unfolding best_rank
best_page_score scores chunk page_rank = elim chunk.page_start [
  | none ↦ scores.zero_score
  | some start ↦ elim (best_rank chunk.document_id start (or_else chunk.page_end start) page_rank) [
    | none ↦ scores.zero_score
    | some rank ↦ rank_score scores rank
  ]
]
