-- ===== src/Retrieval/Adjacent.antt =====
-- `_expand_with_adjacent_chunks`: the chunks beside the ranked ones, within a budget.
use mini_nblm_proto.Prelude.{
  ℕ, ◌+◌, ◌-◌, true, Option, none, some, List, [], ◌∷◌, ◌++◌, map, ltb, leb, nat_eq, if◌then◌else◌,
  length, ◌==◌, contains, ℕ-Eq, list-Eq, pair-Eq, option-Eq,
}
use mini_nblm_proto.Prelude.Dedup.{keep_new}
use mini_nblm_proto.Text.{Text}
use mini_nblm_proto.Retrieval.{ChunkRow, Row}

abbrev pub max_adjacent_chunks : ℕ
max_adjacent_chunks = 8

abbrev pub max_adjacent_context_chars : ℕ
max_adjacent_context_chars = 8000

-- `{(chunk.document_id, chunk.chunk_index): (chunk, title) ...}`: the last chunk at a location wins.
unfoldable pub adjacent_at : List (ChunkRow × Text) → ℕ × ℕ → Option (ChunkRow × Text)
adjacent_at [] location = none
adjacent_at ((chunk, title) ∷ found) location =
    let here =
      if (chunk.document_id, chunk.chunk_index) == location then some (chunk, title) else none in
    elim (adjacent_at found location) [ some adjacent ↦ some adjacent | none ↦ here ]

module _ {S : Type 0} where
  -- The places one step before and behind a chunk, with its score. `ADJACENT_CHUNK_WINDOW` is 1.
  unfoldable pub neighbours : Row ChunkRow S → List ((ℕ × ℕ) × S)
  neighbours (chunk, score, title) =
      let behind = ((chunk.document_id, chunk.chunk_index + 1), score) ∷ [] in
      if nat_eq chunk.chunk_index 0
      then behind
      else ((chunk.document_id, chunk.chunk_index - 1), score) ∷ behind

  unfoldable pub all_neighbours : List (Row ChunkRow S) → List ((ℕ × ℕ) × S)
  unfolding neighbours
  all_neighbours [] = []
  all_neighbours (row ∷ rows) = neighbours row ++ all_neighbours rows

  -- The places in the order of the ranking, each once.
  unfoldable pub requested_locations : List (Row ChunkRow S) → List ((ℕ × ℕ) × S)
  unfolding keep_new all_neighbours
  requested_locations rows = keep_new (λ r. r.0) (λ r. true) [] (all_neighbours rows)

  -- One round of the loop over the places, with the ids taken so far, the number of chunks added and
  -- their characters; `next` is the rest of the loop.
  unfoldable pub take_adjacent :
      List ℕ
      → ℕ
      → ℕ
      → S
      → (List ℕ → ℕ → ℕ → List (Row ChunkRow S))
      → Option (ChunkRow × Text)
      → List (Row ChunkRow S)
  take_adjacent taken count chars seed_score next none = next taken count chars
  take_adjacent taken count chars seed_score next (some (chunk, title)) =
      let chars' = chars + length chunk.content in
      if contains taken chunk.id
      then next taken count chars
      else if leb max_adjacent_chunks count
      then []
      else if ltb max_adjacent_context_chars chars'
      then next taken count chars
      else (chunk, seed_score, title) ∷ next (chunk.id ∷ taken) (count + 1) chars'

  unfoldable pub add_adjacent :
      List (ChunkRow × Text) → List ℕ → ℕ → ℕ → List ((ℕ × ℕ) × S) → List (Row ChunkRow S)
  add_adjacent found taken count chars [] = []
  add_adjacent found taken count chars ((location, seed_score) ∷ requested) =
      take_adjacent taken count chars seed_score (λ t n c. add_adjacent found t n c requested)
        (adjacent_at found location)

  -- `chunks_at` is the database's answer to `get_chunks_by_document_indexes`.
  unfoldable pub expand_with_adjacent_chunks :
      (List (ℕ × ℕ) → List (ChunkRow × Text)) → List (Row ChunkRow S) → List (Row ChunkRow S)
  unfolding requested_locations
  expand_with_adjacent_chunks chunks_at [] = []
  expand_with_adjacent_chunks chunks_at (row ∷ rows) =
      let seeds = row ∷ rows in
      let requested = requested_locations seeds in
      let found = chunks_at (map (λ r. r.0) requested) in
      seeds ++ add_adjacent found (map (λ s. (s.0).id) seeds) 0 0 requested
