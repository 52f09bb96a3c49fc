-- ===== src/Prompt/Budget.antt =====
-- The context built from the selected chunks keeps within the budget.
use mini_nblm_proto.Prelude.{
  ℕ, ◌+◌, ◌≤◌, ◌≡◌, refl, inl, inr, false, Option, some, List, [], ◌∷◌, ◌++◌, arith, nat_eq,
  if◌then◌else◌, Option-cases, length, take, length-append, length-take, ℕ-Eq, list-Eq, pair-Eq,
  option-Eq,
}
use mini_nblm_proto.Prelude.Int.{ℤ, ◌-ℤ◌, ◌≤ℤ◌, pos, pos_part}
use mini_nblm_proto.Text.{Text, rstrip, join}
use mini_nblm_proto.Text.Laws.{length-rstrip-le}
use mini_nblm_proto.Json.{Json}
use mini_nblm_proto.Evidence.{RetrievedChunk, EvidenceMatrix}
use mini_nblm_proto.Prompt.Sections.{
  format_chunk_section, newline, section_lines, format_page, format_evidence_quality,
}
use mini_nblm_proto.Prompt.{
  truncated_chunk_marker, fit_chunk_to_section_budget, select_within, select_generation_chunks,
  sections_from, build_retrieval_context, prioritized, evidence_chunk_ids,
}

length-join_last :
    (sep : Text) (ts : List Text) (t : Text)
    → length (join sep (ts ++ t ∷ [])) ≡ length (join sep (ts ++ [] ∷ [])) + length t
unfolding join
length-join_last sep [] t = ground arith
length-join_last sep (u ∷ []) t =
    ground (arith, length-append (u ++ sep) t, length-append (u ++ sep) [])
length-join_last sep (u ∷ v ∷ ts) t = ground (
  arith,
  length-join_last sep (v ∷ ts) t,
  length-append (u ++ sep) (join sep (v ∷ ts ++ t ∷ [])),
  length-append (u ++ sep) (join sep (v ∷ ts ++ [] ∷ [])),
)

length-take-le : (n : ℕ) (t : Text) → length (take n t) ≤ n
length-take-le n t = omega (arith, length-take n t)

later : (k : ℕ) → nat_eq (k + 1) 0 ≡ false
later k = ground arith

module _ {S : Type 0} (str_of : Json → Text) where
  abbrev emptied : RetrievedChunk S → RetrievedChunk S
  emptied chunk = record chunk { content = [] }

  -- A section is its metadata followed by the content.
  length-format :
      (index : ℕ) (chunk : RetrievedChunk S) (t : Text)
      → length (format_chunk_section str_of index (record chunk { content = t }))
        ≡ length (format_chunk_section str_of index (emptied chunk)) + length t
  unfolding format_chunk_section section_lines format_page format_evidence_quality
  length-format index chunk t = length-join_last newline (section_lines str_of index chunk) t

  fit-length-le :
      (index : ℕ) (chunk : RetrievedChunk S) (budget : ℤ) (fitted : RetrievedChunk S)
      → fit_chunk_to_section_budget str_of index chunk budget ≡ some fitted
      → pos (length (format_chunk_section str_of index fitted)) ≤ℤ budget
  unfolding fit_chunk_to_section_budget
  fit-length-le index chunk budget fitted h =
      let available =
        budget
        -ℤ length (format_chunk_section str_of index (emptied chunk))
        -ℤ length truncated_chunk_marker in
      let kept = rstrip (take (pos_part available) chunk.content) in
      ground (
        arith,
        length-format index chunk (kept ++ truncated_chunk_marker),
        length-append kept truncated_chunk_marker,
        length-rstrip-le (take (pos_part available) chunk.content),
        length-take-le (pos_part available) chunk.content,
      )

  -- The characters of the sections from number `count + 1` on, each with the separator before it.
  unfoldable cost : ℕ → List (RetrievedChunk S) → ℕ
  cost count [] = 0
  cost count (chunk ∷ chunks) =
      (if nat_eq count 0 then 0 else 2)
      + length (format_chunk_section str_of (count + 1) chunk)
      + cost (count + 1) chunks

  cost-select_within-le :
      (n count used : ℕ) (chunks : List (RetrievedChunk S))
      → used ≤ n
      → cost count (select_within str_of n count used chunks) + used ≤ n
  unfolding select_within cost
  cost-select_within-le n count used [] h = omega arith
  cost-select_within-le n count used (chunk ∷ chunks) h =
      let separator = if nat_eq count 0 then 0 else 2 in
      let budget = pos n -ℤ used -ℤ separator in
      elim (Option-cases (fit_chunk_to_section_budget str_of (count + 1) chunk budget)) [
        | inl e ↦ rw e (ground (arith, cost-select_within-le n count used chunks))
        | inr (fitted, e) ↦ rw e (
            ground (
              arith,
              cost-select_within-le n count used chunks,
              fit-length-le (count + 1) chunk budget fitted e,
              cost-select_within-le n (count + 1)
                  (used + (separator + length (format_chunk_section str_of (count + 1) fitted)))
                  chunks,
            ))
      ]

  length-join_from :
      (k : ℕ) (t : Text) (chunks : List (RetrievedChunk S))
      → nat_eq k 0 ≡ false
      → length (join (newline ++ newline) (t ∷ sections_from str_of (k + 1) chunks))
        ≡ length t + cost k chunks
  unfolding join sections_from cost
  length-join_from k t [] h = omega arith
  length-join_from k t (chunk ∷ chunks) h =
      let section = format_chunk_section str_of (k + 1) chunk in
      let rest = join (newline ++ newline) (section ∷ sections_from str_of (k + 1 + 1) chunks) in
      rw h (
        ground (
          arith,
          length-append (t ++ (newline ++ newline)) rest,
          length-append t (newline ++ newline),
          length-join_from (k + 1) section chunks (later k),
        ))

  length-build_retrieval_context :
      (chunks : List (RetrievedChunk S))
      → length (build_retrieval_context str_of chunks) ≡ cost 0 chunks
  unfolding build_retrieval_context sections_from cost join
  length-build_retrieval_context [] = refl
  length-build_retrieval_context (chunk ∷ chunks) =
      ground (arith, length-join_from 1 (format_chunk_section str_of 1 chunk) chunks refl)

  -- The context built from the selected chunks has at most `max_context_chars` characters, whatever
  -- the chunks, the evidence matrix and the budget are.
  pub build_retrieval_context_bound :
      (chunks : List (RetrievedChunk S)) (evidence_matrix : Option EvidenceMatrix)
      (max_context_chars : ℕ)
      → length (
          build_retrieval_context str_of
            (select_generation_chunks str_of chunks evidence_matrix max_context_chars))
        ≤ max_context_chars
  unfolding select_generation_chunks
  build_retrieval_context_bound chunks evidence_matrix max_context_chars =
      let wanted = prioritized (evidence_chunk_ids evidence_matrix) chunks in
      omega (
        arith,
        length-build_retrieval_context
            (select_generation_chunks str_of chunks evidence_matrix max_context_chars),
        cost-select_within-le max_context_chars 0 0 wanted (omega arith),
      )

  -- With room for the sections of all chunks, every chunk is kept whole, in order of priority.
  fit-whole :
      (index : ℕ) (chunk : RetrievedChunk S) (budget : ℤ)
      → pos (length (format_chunk_section str_of index chunk)) ≤ℤ budget
      → fit_chunk_to_section_budget str_of index chunk budget ≡ some chunk
  unfolding fit_chunk_to_section_budget
  fit-whole index chunk budget h = ground arith

  select_within_all :
      (n count used : ℕ) (chunks : List (RetrievedChunk S))
      → cost count chunks + used ≤ n
      → select_within str_of n count used chunks ≡ chunks
  unfolding select_within cost
  select_within_all n count used [] h = refl
  select_within_all n count used (chunk ∷ chunks) h =
      let separator = if nat_eq count 0 then 0 else 2 in
      let budget = pos n -ℤ used -ℤ separator in
      let chars = length (format_chunk_section str_of (count + 1) chunk) in
      let fits : pos chars ≤ℤ budget = ground arith in
      rw (fit-whole (count + 1) chunk budget fits)
        (ground (arith, select_within_all n (count + 1) (used + (separator + chars)) chunks))

  -- When the context of all chunks in order of priority is within the budget, all of them are selected,
  -- whole and in that order.
  pub select_generation_chunks_all :
      (chunks : List (RetrievedChunk S)) (evidence_matrix : Option EvidenceMatrix)
      (max_context_chars : ℕ)
      → length
          (build_retrieval_context str_of (prioritized (evidence_chunk_ids evidence_matrix) chunks))
        ≤ max_context_chars
      → select_generation_chunks str_of chunks evidence_matrix max_context_chars
        ≡ prioritized (evidence_chunk_ids evidence_matrix) chunks
  unfolding select_generation_chunks
  select_generation_chunks_all chunks evidence_matrix max_context_chars h =
      let wanted = prioritized (evidence_chunk_ids evidence_matrix) chunks in
      select_within_all max_context_chars 0 0 wanted
        (omega (arith, length-build_retrieval_context wanted))
