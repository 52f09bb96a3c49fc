-- ===== src/Prompt/Priority.antt =====
-- The order of priority only rearranges the chunks.
use mini_nblm_proto.Prelude.{
  ℕ, ◌+◌, ◌≡◌, refl, Option, List, [], ◌∷◌, ◌++◌, map, arith, sum_by, sum_by-append, ℕ-Eq, list-Eq,
  pair-Eq, option-Eq,
}
use mini_nblm_proto.Evidence.{RetrievedChunk}
use mini_nblm_proto.Prompt.{cited_chunks, split_pages, prioritized, location}

module _ {S : Type 0} (weight : RetrievedChunk S → ℕ) (ids : List ℕ) where
  sum_by-split_pages :
      (covered : List (ℕ × (Option ℕ × Option ℕ))) (chunks : List (RetrievedChunk S))
      → sum_by weight (cited_chunks ids chunks)
          + sum_by weight (split_pages ids covered chunks).0
          + sum_by weight (split_pages ids covered chunks).1
        ≡ sum_by weight chunks
  unfolding cited_chunks split_pages
  sum_by-split_pages covered [] = refl
  sum_by-split_pages covered (chunk ∷ chunks) = ground (
    arith,
    sum_by-split_pages covered chunks,
    sum_by-split_pages (location chunk ∷ covered) chunks,
  )

  -- Putting the chunks in order of priority loses none and repeats none: whatever each chunk is counted
  -- for, the counts of all chunks add up to the same before and after.
  pub sum_by-prioritized :
      (chunks : List (RetrievedChunk S))
      → sum_by weight (prioritized ids chunks) ≡ sum_by weight chunks
  unfolding prioritized
  sum_by-prioritized chunks =
      let cited = cited_chunks ids chunks in
      let split = split_pages ids (map location cited) chunks in
      omega (
        arith,
        sum_by-append weight cited (split.0 ++ split.1),
        sum_by-append weight (cited ++ split.0) split.1,
        sum_by-append weight cited split.0,
        sum_by-append weight split.0 split.1,
        sum_by-split_pages (map location cited) chunks,
      )
