-- ===== src/Prompt.antt =====
-- app/services/prompt_builder.py: the chunks that fit the context budget, and the prompt's parts.
pub mod Sections
pub mod Budget
pub mod Priority
pub mod Messages
use mini_nblm_proto.Prelude.{
  ℕ, ◌+◌, ◌&&◌, not, Option, none, some, List, [], ◌∷◌, ◌++◌, map, nat_eq, if◌then◌else◌, length,
  take, contains, ℕ-Eq, list-Eq, pair-Eq, option-Eq,
}
use mini_nblm_proto.Prelude.Int.{ℤ, sub_ℕ, ◌-ℤ◌, ltb_ℤ, leb_ℤ, pos, pos_part}
use mini_nblm_proto.Text.{Text, codes, rstrip, join}
use mini_nblm_proto.Json.{Json}
use mini_nblm_proto.Evidence.{RetrievedChunk, EvidenceReference, EvidenceMatrixGoal, EvidenceMatrix}
use mini_nblm_proto.Prompt.Sections.{format_chunk_section, newline}

abbrev pub truncated_chunk_marker : Text
truncated_chunk_marker = 10 ∷ codes "[… 입력 길이 제한으로 후반부 생략 …]"

abbrev pub min_truncated_chunk_content_chars : ℕ
min_truncated_chunk_content_chars = 256

abbrev pub max_generation_context_chars : ℕ
max_generation_context_chars = 14000

-- The ids that the matrix cites.
unfoldable pub goal_chunk_ids : List EvidenceMatrixGoal → List ℕ
goal_chunk_ids [] = []
goal_chunk_ids (goal ∷ goals) =
    map (λ (r : EvidenceReference). r.chunk_id) goal.evidence ++ goal_chunk_ids goals

unfoldable pub evidence_chunk_ids : Option EvidenceMatrix → List ℕ
unfolding goal_chunk_ids
evidence_chunk_ids none = []
evidence_chunk_ids (some evidence_matrix) = goal_chunk_ids evidence_matrix.goals

module _ {S : Type 0} where
  -- `(chunk.document_id, chunk.page_start, chunk.page_end)`
  abbrev pub location : RetrievedChunk S → ℕ × (Option ℕ × Option ℕ)
  location chunk = (chunk.document_id, (chunk.page_start, chunk.page_end))

  -- The chunks that the matrix cites, in order.
  unfoldable pub cited_chunks : List ℕ → List (RetrievedChunk S) → List (RetrievedChunk S)
  cited_chunks ids [] = []
  cited_chunks ids (chunk ∷ chunks) =
      if contains ids chunk.chunk_id
      then chunk ∷ cited_chunks ids chunks
      else cited_chunks ids chunks

  -- The loop over the other chunks: those on a page that is not covered yet, and the rest.
  unfoldable pub split_pages :
      List ℕ
      → List (ℕ × (Option ℕ × Option ℕ))
      → List (RetrievedChunk S)
      → List (RetrievedChunk S) × List (RetrievedChunk S)
  split_pages ids covered [] = ([], [])
  split_pages ids covered (chunk ∷ chunks) =
      let (distinct, repeated) = split_pages ids covered chunks in
      let (distinct', repeated') = split_pages ids (location chunk ∷ covered) chunks in
      if contains ids chunk.chunk_id
      then (distinct, repeated)
      else if not (contains covered (location chunk))
      then (chunk ∷ distinct', repeated')
      else (distinct, chunk ∷ repeated)

  -- `prioritized`: cited chunks, then one chunk of each further page, then the rest.
  unfoldable pub prioritized : List ℕ → List (RetrievedChunk S) → List (RetrievedChunk S)
  prioritized ids chunks =
      let evidence_chunks = cited_chunks ids chunks in
      let (distinct, repeated) = split_pages ids (map location evidence_chunks) chunks in
      evidence_chunks ++ distinct ++ repeated

  module _ (str_of : Json → Text) where
    -- The chunk with its content cut so that its section has at most `section_budget` characters,
    -- or nothing when less than 256 characters of content would be left.
    unfoldable pub fit_chunk_to_section_budget :
        ℕ → RetrievedChunk S → ℤ → Option (RetrievedChunk S)
    fit_chunk_to_section_budget index chunk section_budget =
        let empty_chunk : RetrievedChunk S = record chunk { content = [] } in
        let metadata_chars = length (format_chunk_section str_of index empty_chunk) in
        let available = section_budget -ℤ metadata_chars -ℤ length truncated_chunk_marker in
        let fitted : RetrievedChunk S = record chunk {
          content = rstrip (take (pos_part available) chunk.content) ++ truncated_chunk_marker;
        } in
        if leb_ℤ (pos (length (format_chunk_section str_of index chunk))) section_budget
        then some chunk
        else if ltb_ℤ available (pos min_truncated_chunk_content_chars)
        then none
        else some fitted

    -- The selection loop, with `len(selected)` and `used_chars` so far.
    unfoldable pub select_within : ℕ → ℕ → ℕ → List (RetrievedChunk S) → List (RetrievedChunk S)
    select_within max_context_chars count used_chars [] = []
    select_within max_context_chars count used_chars (chunk ∷ chunks) =
        let separator_chars = if nat_eq count 0 then 0 else 2 in
        let section_budget = pos max_context_chars -ℤ used_chars -ℤ separator_chars in
        let skipped = select_within max_context_chars count used_chars chunks in
        let section = format_chunk_section str_of (count + 1) chunk in
        if not (nat_eq count 0) && ltb_ℤ section_budget (pos (length section))
        then skipped
        else elim (fit_chunk_to_section_budget (count + 1) chunk section_budget) [
          | none ↦ skipped
          | some fitted ↦
              fitted
              ∷ select_within max_context_chars (count + 1)
                  (used_chars
                    + (separator_chars + length (format_chunk_section str_of (count + 1) fitted)))
                  chunks
        ]

    unfoldable pub select_generation_chunks :
        List (RetrievedChunk S) → Option EvidenceMatrix → ℕ → List (RetrievedChunk S)
    select_generation_chunks chunks evidence_matrix max_context_chars =
        select_within max_context_chars 0 0
          (prioritized (evidence_chunk_ids evidence_matrix) chunks)

    -- `_format_chunk_section(index, chunk) for index, chunk in enumerate(chunks, start)`
    unfoldable pub sections_from : ℕ → List (RetrievedChunk S) → List Text
    sections_from index [] = []
    sections_from index (chunk ∷ chunks) =
        format_chunk_section str_of index chunk ∷ sections_from (index + 1) chunks

    unfoldable pub build_retrieval_context : List (RetrievedChunk S) → Text
    build_retrieval_context chunks = join (newline ++ newline) (sections_from 1 chunks)
