-- ===== src/Tests/Found.antt =====
-- Retrieval and prompts on concrete rows.
use mini_nblm_proto.Prelude.{
  ℕ, ◌+◌, ◌/◌, ◌≤◌, ◌<◌, ◌≡◌, refl, true, false, none, some, List, [], ◌∷◌, ◌++◌, map, arith, ltb,
  leb→le, length, take, drop, sum_by, contains, Distinct, ℕ-Eq, list-Eq, pair-Eq, option-Eq, ok,
}
use mini_nblm_proto.Text.{Text, codes, join, str_nat, digits}
use mini_nblm_proto.Json.{Json, end}
use mini_nblm_proto.Evidence.{RetrievedChunk}
use mini_nblm_proto.Prompt.{
  select_generation_chunks, build_retrieval_context, prioritized, evidence_chunk_ids, cited_chunks,
  split_pages, sections_from,
}
use mini_nblm_proto.Prompt.Sections.{
  format_chunk_section, section_lines, format_page, format_evidence_quality, metadata_quality,
}
use mini_nblm_proto.Prompt.Budget.{build_retrieval_context_bound, select_generation_chunks_all}
use mini_nblm_proto.Prompt.Priority.{sum_by-prioritized}
use mini_nblm_proto.Retrieval.{ChunkRow, PageRow, Scores, Row}
use mini_nblm_proto.Retrieval.Fusion.{fuse, chunk_key}
use mini_nblm_proto.Retrieval.Ranked.{keys, fuse-Distinct}
use mini_nblm_proto.Retrieval.Fused.{IsRanking, fuse-IsRanking}
use mini_nblm_proto.Retrieval.Merged.{ids, pages_of}
use mini_nblm_proto.Retrieval.Adjacent.{expand_with_adjacent_chunks}
use mini_nblm_proto.Retrieval.Expanded.{row_ids, IsExpansion, expand-IsExpansion, expand-unseen}
use mini_nblm_proto.Retrieval.Queries.{
  EvidenceGoal, normalize_goal_query_groups, normalize_search_queries, normalize_queries,
  normalize_search_queries-Distinct, normalize_queries-Distinct,
}
use mini_nblm_proto.Retrieval.Goals.{goal_ids, group_ids, normalize_goal_query_groups-Distinct}
use mini_nblm_proto.Retrieval.Search.{
  hybrid, Searches, hybrid_sets, search, hierarchical_pages, best_page_score,
}
use mini_nblm_proto.Retrieval.Found.{
  search-Distinct, search_first, hierarchical_pages-Distinct, IsPageScore,
  best_page_score-IsPageScore,
}

abbrev no_text : Json → Text
no_text j = []

abbrev same_case : Text → Text
same_case t = t

-- Scores in thousandths.
abbrev thousandths : Scores ℕ
thousandths = record {
  zero_score = 0;
  one_over = λ n. 1000 / n;
  add = λ a b. a + b;
  gt = λ a b. ltb b a;
}

abbrev chunk_row : ℕ → ℕ → ChunkRow
chunk_row id index = record {
  id = id;
  document_id = 1;
  content = codes "text";
  page_start = some 1;
  page_end = none;
  chunk_index = index;
  content_type = codes "text";
  source_refs = end;
}

abbrev row : ℕ → ℕ → Row ChunkRow ℕ
row id index = (chunk_row id index, 5, codes "manual")

abbrev page : ℕ → Row PageRow ℕ
page n = (record { document_id = 1; page_number = n }, 5, codes "manual")

abbrev searches : Searches ℕ
searches = record {
  dense_search = λ query limit. row 4 0 ∷ row 5 1 ∷ [];
  search_chunks_by_keyword = λ query limit. row 5 1 ∷ row 6 2 ∷ [];
  search_chunks_by_substring = λ query limit. row 6 2 ∷ [];
  search_pages_by_keyword = λ query limit. page 1 ∷ page 2 ∷ [];
  search_pages_by_substring = λ query limit. page 2 ∷ [];
}

abbrev two_sets : List (List (Row ChunkRow ℕ))
two_sets = (row 4 0 ∷ row 5 1 ∷ []) ∷ (row 5 1 ∷ row 6 2 ∷ []) ∷ []

fuse-Distinct_example :
    Distinct (keys chunk_key (fuse chunk_key ltb thousandths two_sets 2))
    × (length (fuse chunk_key ltb thousandths two_sets 2) ≤ 2)
fuse-Distinct_example = fuse-Distinct chunk_key ltb thousandths two_sets 2

gt_asym : (a b : ℕ) → ltb b a ≡ true → ltb a b ≡ false
gt_asym a b h = ground (arith, h)

ltb_asym : (a b : ℕ) → ltb a b ≡ true → ltb b a ≡ false
ltb_asym a b h = ground (arith, h)

fuse-IsRanking_example :
    (ranked : List (Row ChunkRow ℕ)) × (fuse chunk_key ltb thousandths two_sets 2 ≡ take 2 ranked)
    × IsRanking chunk_key ltb thousandths two_sets ranked
fuse-IsRanking_example = fuse-IsRanking chunk_key ltb thousandths gt_asym ltb_asym two_sets 2

search-Distinct_example :
    Distinct (ids (search thousandths searches hybrid (codes "q") 3))
    × (length (search thousandths searches hybrid (codes "q") 3) ≤ 3)
search-Distinct_example = search-Distinct thousandths searches (codes "q") 3

search_first_example : contains (ids (search thousandths searches hybrid (codes "q") 3)) 6 ≡ true
unfolding hybrid_sets
search_first_example = search_first thousandths searches (codes "q") 3 6 (omega arith) refl

hierarchical_pages-Distinct_example :
    Distinct (pages_of (hierarchical_pages thousandths searches same_case (codes "q") []))
    × (length (hierarchical_pages thousandths searches same_case (codes "q") []) ≤ 12)
hierarchical_pages-Distinct_example =
    hierarchical_pages-Distinct thousandths searches same_case (codes "q") []

abbrev beside : List (ℕ × ℕ) → List (ChunkRow × Text)
beside locations = (chunk_row 5 1, codes "manual") ∷ (chunk_row 7 3, codes "manual") ∷ []

expand-IsExpansion_example :
    (added : List (Row ChunkRow ℕ)) × (expand_with_adjacent_chunks beside (row 6 2 ∷ [])
      ≡ (row 6 2 ∷ []) ++ added)
    × IsExpansion added
expand-IsExpansion_example = expand-IsExpansion beside (row 6 2 ∷ [])

expand-unseen_example :
    contains (row_ids (drop 1 (expand_with_adjacent_chunks beside (row 6 2 ∷ [])))) 6 ≡ false
expand-unseen_example = expand-unseen beside (row 6 2 ∷ []) 6 refl

abbrev two_pages : List ((ℕ × ℕ) × ℕ)
two_pages = ((1, 2), 1) ∷ ((1, 1), 2) ∷ []

best_page_score-IsPageScore_example :
    IsPageScore thousandths 1 two_pages
      (some 1)
      none
      (best_page_score thousandths (chunk_row 5 1) two_pages)
best_page_score-IsPageScore_example =
    best_page_score-IsPageScore thousandths (chunk_row 5 1) two_pages

normalize_search_queries-Distinct_example :
    Distinct (map same_case (normalize_search_queries same_case (codes " q ") none))
    × (0 < length (normalize_search_queries same_case (codes " q ") none))
normalize_search_queries-Distinct_example =
    normalize_search_queries-Distinct same_case (codes " q ") none

normalize_queries-Distinct_example :
    Distinct (map same_case (normalize_queries same_case (codes "q") (codes " q" ∷ [])))
    × (length (normalize_queries same_case (codes "q") (codes " q" ∷ [])) ≤ 4)
normalize_queries-Distinct_example =
    normalize_queries-Distinct same_case (codes "q") (codes " q" ∷ [])

abbrev retrieved : RetrievedChunk ℕ
retrieved = record {
  chunk_id = 4;
  document_id = 1;
  document_title = codes "manual";
  content = codes "text";
  page_start = some 1;
  page_end = none;
  score = 5;
  source_refs = end;
  content_type = codes "text";
}

build_retrieval_context_bound_example :
    length
      (build_retrieval_context no_text (select_generation_chunks no_text (retrieved ∷ []) none 600))
    ≤ 600
build_retrieval_context_bound_example =
    build_retrieval_context_bound no_text (retrieved ∷ []) none 600

small_context :
    length
      (build_retrieval_context no_text (prioritized (evidence_chunk_ids none) (retrieved ∷ [])))
    ≤ 600
unfolding build_retrieval_context prioritized evidence_chunk_ids cited_chunks split_pages
    sections_from format_chunk_section section_lines format_page format_evidence_quality
    metadata_quality join str_nat digits
small_context = leb→le _ 600 refl

select_generation_chunks_all_example :
    select_generation_chunks no_text (retrieved ∷ []) none 600
    ≡ prioritized (evidence_chunk_ids none) (retrieved ∷ [])
select_generation_chunks_all_example =
    select_generation_chunks_all no_text (retrieved ∷ []) none 600 small_context

sum_by-prioritized_example :
    sum_by (λ c. c.chunk_id) (prioritized (4 ∷ []) (retrieved ∷ retrieved ∷ []))
    ≡ sum_by (λ (c : RetrievedChunk ℕ). c.chunk_id) (retrieved ∷ retrieved ∷ [])
sum_by-prioritized_example =
    sum_by-prioritized (λ (c : RetrievedChunk ℕ). c.chunk_id) (4 ∷ []) (retrieved ∷ retrieved ∷ [])

abbrev goal : Text → EvidenceGoal
goal id = record { goal_id = id; description = codes "what"; queries = codes "q" ∷ codes " q" ∷ [] }

abbrev two_groups : List (Text × List Text)
two_groups = (codes "g1", codes "q" ∷ []) ∷ (codes "g2", codes "q" ∷ []) ∷ []

two_groups_accepted :
    normalize_goal_query_groups same_case (some (goal (codes "g1") ∷ goal (codes "g2") ∷ []))
    ≡ ok two_groups
unfolding normalize_goal_query_groups
two_groups_accepted = refl

normalize_goal_query_groups-Distinct_example :
    (group_ids two_groups ≡ goal_ids (goal (codes "g1") ∷ goal (codes "g2") ∷ []))
    × Distinct (group_ids two_groups)
normalize_goal_query_groups-Distinct_example =
    normalize_goal_query_groups-Distinct same_case (goal (codes "g1") ∷ goal (codes "g2") ∷ [])
      two_groups two_groups_accepted
