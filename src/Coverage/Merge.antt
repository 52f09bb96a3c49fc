-- ===== src/Coverage/Merge.antt =====
-- `_merge_retry_chunks`: what was found first stays, within two limits.
use mini_nblm_proto.Prelude.{
  ℕ, ◌+◌, ◌≤◌, ◌<◌, ◌≡◌, refl, true, false, ◌&&◌, not, List, [], ◌∷◌, ◌++◌, map, arith, ltb, leb,
  nat_eq, if◌then◌else◌, length, sum_by, All, contains, Distinct, ℕ-Eq, list-Eq, pair-Eq, option-Eq,
}
use mini_nblm_proto.Evidence.{RetrievedChunk}

abbrev pub max_retry_context_chunks : ℕ
max_retry_context_chunks = 16

abbrev pub max_retry_context_chars : ℕ
max_retry_context_chars = 24000

module _ {S : Type 0} where
  -- The loop, with the ids, the number and the characters of `merged` so far.
  unfoldable pub merge_from : List ℕ → ℕ → ℕ → List (RetrievedChunk S) → List (RetrievedChunk S)
  merge_from seen count used [] = []
  merge_from seen count used (chunk ∷ chunks) =
      let skipped = merge_from seen count used chunks in
      let used' = used + length chunk.content in
      let added = chunk ∷ merge_from (chunk.chunk_id ∷ seen) (count + 1) used' chunks in
      if contains seen chunk.chunk_id
      then skipped
      else if leb max_retry_context_chunks count
      then []
      else if not (nat_eq count 0) && ltb max_retry_context_chars used'
      then skipped
      else added

  unfoldable pub merge_retry_chunks :
      List (RetrievedChunk S) → List (RetrievedChunk S) → List (RetrievedChunk S)
  unfolding merge_from
  merge_retry_chunks original supplemental = merge_from [] 0 0 (original ++ supplemental)

  abbrev pub chunk_ids : List (RetrievedChunk S) → List ℕ
  chunk_ids chunks = map (λ chunk. chunk.chunk_id) chunks

  abbrev pub content_chars : List (RetrievedChunk S) → ℕ
  content_chars chunks = sum_by (λ chunk. length chunk.content) chunks

  -- Chunks within the limits of a merge.
  pub record IsBounded (chunks : List (RetrievedChunk S)) : Type 0 where
    pub once : Distinct (chunk_ids chunks)
    pub count : length chunks ≤ 16
    pub chars : content_chars chunks ≤ 24000

  merge_from-unseen :
      (seen : List ℕ) (count used : ℕ) (chunks : List (RetrievedChunk S)) (k : ℕ)
      → contains seen k ≡ true
      → contains (chunk_ids (merge_from seen count used chunks)) k ≡ false
  unfolding merge_from
  merge_from-unseen seen count used [] k h = refl
  merge_from-unseen seen count used (chunk ∷ chunks) k h = ground (
    arith,
    merge_from-unseen seen count used chunks k,
    merge_from-unseen (chunk.chunk_id ∷ seen) (count + 1) (used + length chunk.content) chunks k,
    ℕ-Eq.eqb_iff chunk.chunk_id k,
  )

  merge_from-Distinct :
      (seen : List ℕ) (count used : ℕ) (chunks : List (RetrievedChunk S))
      → Distinct (chunk_ids (merge_from seen count used chunks))
  unfolding merge_from
  merge_from-Distinct seen count used [] = tt
  merge_from-Distinct seen count used (chunk ∷ chunks) =
      let used' = used + length chunk.content in
      ground (
        arith,
        merge_from-Distinct seen count used chunks,
        merge_from-Distinct (chunk.chunk_id ∷ seen) (count + 1) used' chunks,
        merge_from-unseen (chunk.chunk_id ∷ seen) (count + 1) used' chunks chunk.chunk_id,
        ℕ-Eq.eqb_iff chunk.chunk_id chunk.chunk_id,
      )

  -- Behind the first chunk both limits hold.
  merge_from_bounds :
      (seen : List ℕ) (count used : ℕ) (chunks : List (RetrievedChunk S))
      → 0 < count
      → count ≤ 16
      → used ≤ 24000
      → (count + length (merge_from seen count used chunks) ≤ 16)
        × (used + content_chars (merge_from seen count used chunks) ≤ 24000)
  unfolding merge_from
  merge_from_bounds seen count used [] p h k = (omega arith, omega arith)
  merge_from_bounds seen count used (chunk ∷ chunks) p h k = ground (
    arith,
    merge_from_bounds seen count used chunks p h k,
    merge_from_bounds (chunk.chunk_id ∷ seen) (count + 1) (used + length chunk.content) chunks,
  )

  -- The later chunks stay new when a chunk with another id is seen.
  unseen_later :
      (seen : List ℕ) (k : ℕ) (chunks : List (RetrievedChunk S))
      → contains (chunk_ids chunks) k ≡ false
      → All (λ chunk. contains seen chunk.chunk_id ≡ false) chunks
      → All (λ chunk. contains (k ∷ seen) chunk.chunk_id ≡ false) chunks
  unseen_later seen k [] h n = tt
  unseen_later seen k (chunk ∷ chunks) h n = ground (
    arith,
    unseen_later seen k chunks,
    ℕ-Eq.eqb_iff chunk.chunk_id k,
    ℕ-Eq.eqb_iff k chunk.chunk_id,
  )

  -- Chunks that are new and fit are all kept.
  merge_from-All :
      (seen : List ℕ) (count used : ℕ) (chunks more : List (RetrievedChunk S))
      → Distinct (chunk_ids chunks)
      → All (λ chunk. contains seen chunk.chunk_id ≡ false) chunks
      → count + length chunks ≤ 16
      → used + content_chars chunks ≤ 24000
      → (added : List (RetrievedChunk S)) × (merge_from seen count used (chunks ++ more)
          ≡ chunks ++ added)
  unfolding merge_from
  merge_from-All seen count used [] more d n h k = (merge_from seen count used more, refl)
  merge_from-All seen count used (chunk ∷ chunks) more d n h k =
      let used' = used + length chunk.content in
      ground (
        arith,
        merge_from-All (chunk.chunk_id ∷ seen) (count + 1) used' chunks more,
        unseen_later seen chunk.chunk_id chunks,
      )

  nothing_seen :
      (chunks : List (RetrievedChunk S)) → All (λ chunk. contains [] chunk.chunk_id ≡ false) chunks
  nothing_seen [] = tt
  nothing_seen (chunk ∷ chunks) = (refl, nothing_seen chunks)

  merge_retry_chunks_bounds :
      (chunk : RetrievedChunk S) (chunks supplemental : List (RetrievedChunk S))
      → length chunk.content ≤ 24000
      → (length (merge_retry_chunks (chunk ∷ chunks) supplemental) ≤ 16)
        × (content_chars (merge_retry_chunks (chunk ∷ chunks) supplemental) ≤ 24000)
  unfolding merge_retry_chunks merge_from
  merge_retry_chunks_bounds chunk chunks supplemental h = ground (
    arith,
    merge_from_bounds (chunk.chunk_id ∷ []) 1 (length chunk.content) (chunks ++ supplemental),
  )

  -- Merging into chunks within the limits keeps them all in front, adds none of them a second time, and
  -- the result is again within the limits.
  pub merge_retry_chunks-IsBounded :
      (chunk : RetrievedChunk S) (chunks supplemental : List (RetrievedChunk S))
      → IsBounded (chunk ∷ chunks)
      → ((added : List (RetrievedChunk S)) × (merge_retry_chunks (chunk ∷ chunks) supplemental
            ≡ (chunk ∷ chunks) ++ added))
        × IsBounded (merge_retry_chunks (chunk ∷ chunks) supplemental)
  unfolding merge_retry_chunks
  merge_retry_chunks-IsBounded chunk chunks supplemental h =
      let original = chunk ∷ chunks in
      let limits = merge_retry_chunks_bounds chunk chunks supplemental (omega (arith, h.chars)) in
      (
        merge_from-All [] 0 0 original supplemental h.once (nothing_seen original)
            (omega (arith, h.count)) (omega (arith, h.chars)),
        record {
          once = merge_from-Distinct [] 0 0 (original ++ supplemental);
          count = limits.0;
          chars = limits.1;
        },
      )
