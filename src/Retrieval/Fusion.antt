-- ===== src/Retrieval/Fusion.antt =====
-- Reciprocal rank fusion: `_reciprocal_rank_fusion` for chunks and `_fuse_page_results` for pages, which
-- differ in the key only.
use mini_nblm_proto.Prelude.{
  ℕ, ◌+◌, Bool, ◌&&◌, ◌||◌, not, List, [], ◌∷◌, ltb, nat_eq, if◌then◌else◌, take, Eq, ◌==◌, ℕ-Eq,
  list-Eq, pair-Eq, option-Eq,
}
use mini_nblm_proto.Retrieval.{ChunkRow, PageRow, Scores, Row, rank_score}

module _ {K C S : Type 0} ⦃e : Eq K⦄ (key : C → K) (key_ltb : K → K → Bool)
    (scores : Scores S) where
  -- A dict entry: the last row and title of the key, at the key's first place, with the sum so far.
  unfoldable pub add_row : ℕ → Row C S → List (Row C S) → List (Row C S)
  add_row rank (c, score, title) [] =
      (c, scores.add scores.zero_score (rank_score scores rank), title) ∷ []
  add_row rank (c, score, title) ((d, sum, d_title) ∷ entries) =
      if key d == key c
      then (c, scores.add sum (rank_score scores rank), title) ∷ entries
      else (d, sum, d_title) ∷ add_row rank (c, score, title) entries

  -- `for rank, row in enumerate(rows, start=rank)`
  unfoldable pub add_rows : ℕ → List (Row C S) → List (Row C S) → List (Row C S)
  unfolding add_row
  add_rows rank [] entries = entries
  add_rows rank (row ∷ rows) entries = add_rows (rank + 1) rows (add_row rank row entries)

  unfoldable pub add_sets : List (List (Row C S)) → List (Row C S) → List (Row C S)
  unfolding add_rows
  add_sets [] entries = entries
  add_sets (rows ∷ result_sets) entries = add_sets result_sets (add_rows 1 rows entries)

  -- The order of the sort key `(-score, key)`.
  abbrev pub ranks_before : Row C S → Row C S → Bool
  ranks_before (c, s, t) (d, s', t') =
      scores.gt s s' || (not (scores.gt s' s) && key_ltb (key c) (key d))

  unfoldable pub insert_ranked : Row C S → List (Row C S) → List (Row C S)
  insert_ranked row [] = row ∷ []
  insert_ranked row (r ∷ rows) =
      if ranks_before row r then row ∷ r ∷ rows else r ∷ insert_ranked row rows

  unfoldable pub sort_ranked : List (Row C S) → List (Row C S)
  unfolding insert_ranked
  sort_ranked [] = []
  sort_ranked (row ∷ rows) = insert_ranked row (sort_ranked rows)

  unfoldable pub fuse : List (List (Row C S)) → ℕ → List (Row C S)
  unfolding add_sets sort_ranked
  fuse result_sets limit = take limit (sort_ranked (add_sets result_sets []))

-- `chunk.id`
abbrev pub chunk_key : ChunkRow → ℕ
chunk_key chunk = chunk.id

-- `(page.document_id, page.page_number)`
abbrev pub page_key : PageRow → ℕ × ℕ
page_key page = (page.document_id, page.page_number)

-- The order of tuples.
abbrev pub page_key_ltb : ℕ × ℕ → ℕ × ℕ → Bool
page_key_ltb (d, p) (d', p') = ltb d d' || (nat_eq d d' && ltb p p')

unfoldable pub reciprocal_rank_fusion :
    {S : Type 0} → Scores S → List (List (Row ChunkRow S)) → ℕ → List (Row ChunkRow S)
unfolding fuse
reciprocal_rank_fusion scores result_sets top_k = fuse chunk_key ltb scores result_sets top_k

unfoldable pub fuse_page_results :
    {S : Type 0} → Scores S → List (List (Row PageRow S)) → ℕ → List (Row PageRow S)
unfolding fuse
fuse_page_results scores result_sets limit = fuse page_key page_key_ltb scores result_sets limit
