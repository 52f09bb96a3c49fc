-- ===== src/Generation/Sources.antt =====
-- The sources of an answer, and the answer of excerpts that is given when no prompt fits the model.
use mini_nblm_proto.Prelude.{
  ℕ, ◌+◌, ◌/◌, Bool, true, Option, none, some, List, [], ◌∷◌, ◌++◌, map, ltb, leb, nat_eq,
  if◌then◌else◌, is_some, or_else, length, get_elem?, take, contains, ℕ-Eq, list-Eq, pair-Eq,
  option-Eq,
}
use mini_nblm_proto.Prelude.Dedup.{keep_new}
use mini_nblm_proto.Text.{Text, codes, join, normalize_space, rstrip, str_nat}
use mini_nblm_proto.Json.{Json}
use mini_nblm_proto.Evidence.{RetrievedChunk, EvidenceMatrix}
use mini_nblm_proto.Prompt.{select_generation_chunks}
use mini_nblm_proto.Prompt.Sections.{newline}
use mini_nblm_proto.Citations.Matches.{Patterns, valid_cited_source_indexes}

abbrev pub max_extractive_sources : ℕ
max_extractive_sources = 3

abbrev pub max_extractive_content_chars : ℕ
max_extractive_content_chars = 700

abbrev pub minimal_generation_context_chars : ℕ
minimal_generation_context_chars = 4000

abbrev pub empty_context_answer : Text
empty_context_answer =
    codes "업로드된 자료에서 관련 내용을 찾지 못했습니다. " ++ codes "질문을 조금 더 구체적으로 바꾸거나, 해당 내용이 포함된 자료를 업로드해 주세요."

-- `SourceRef`
pub record SourceRef : Type 0 where
  pub document_id : ℕ
  pub document_title : Text
  pub page : Option ℕ
  pub chunk_id : ℕ
  pub available : Bool

pub record GeneratedAnswer : Type 0 where
  pub answer : Text
  pub sources : List SourceRef

-- `text.rfind(marker, 0, end)` for one of several characters: the last position before `end`.
unfoldable pub last_marker : List ℕ → ℕ → ℕ → Text → Option ℕ
last_marker markers position end_of [] = none
last_marker markers position end_of (c ∷ t) =
    let later = last_marker markers (position + 1) end_of t in
    if leb end_of position
    then none
    else if is_some later
    then later
    else if contains markers c
    then some position
    else none

abbrev sentence_marks : List ℕ
sentence_marks = codes ".!?。！？"

unfoldable pub bounded_evidence_excerpt : Text → Text
unfolding normalize_space last_marker rstrip
bounded_evidence_excerpt content =
    let normalized = normalize_space content in
    let found = last_marker sentence_marks 0 max_extractive_content_chars normalized in
    let boundary : ℕ = elim found [
      | none ↦ max_extractive_content_chars
      | some position ↦
          if ltb position (max_extractive_content_chars / 2)
          then max_extractive_content_chars
          else position + 1
    ] in
    if leb (length normalized) max_extractive_content_chars
    then normalized
    else rstrip (take boundary normalized) ++ codes "…"

module _ {S : Type 0} where
  abbrev pub source_ref : RetrievedChunk S → SourceRef
  source_ref chunk = record {
    document_id = chunk.document_id;
    document_title = chunk.document_title;
    page = chunk.page_start;
    chunk_id = chunk.chunk_id;
    available = true;
  }

  abbrev pub source_location : RetrievedChunk S → ℕ × Option ℕ
  source_location chunk = (chunk.document_id, chunk.page_start)

  unfoldable pub fallback_citation : ℕ → RetrievedChunk S → Text
  unfolding str_nat
  fallback_citation index chunk =
      let head = codes "[Source " ++ str_nat index in
      elim chunk.page_start [
        | none ↦ head ++ codes "]"
        | some first ↦
            let last_page = or_else chunk.page_end first in
            let page =
              if nat_eq last_page first
              then str_nat first
              else str_nat first ++ codes "-" ++ str_nat last_page in
            head ++ codes ", Page " ++ page ++ codes "]"
      ]

  -- `- {excerpt} {citation}` for each chunk.
  abbrev pub excerpt_lines : ℕ → List (RetrievedChunk S) → List Text
  excerpt_lines index [] = []
  excerpt_lines index (chunk ∷ chunks) =
      (codes "- "
        ++ bounded_evidence_excerpt chunk.content
        ++ codes " "
        ++ fallback_citation index chunk)
      ∷ excerpt_lines (index + 1) chunks

  abbrev pub extract : List (RetrievedChunk S) → GeneratedAnswer
  extract [] = record { answer = empty_context_answer; sources = [] }
  extract (chunk ∷ chunks) = record {
    answer = join newline (
        codes "입력 길이 제한으로 생성형 요약 대신 검색된 핵심 근거를 제공합니다." ∷ [] ∷ excerpt_lines 1 (chunk ∷ chunks)
        ++ [] ∷ codes "위 근거 범위까지만 확인할 수 있습니다. 질문을 나누면 더 구체적인 답변을 받을 수 있습니다." ∷ []);
    sources = map source_ref (chunk ∷ chunks);
  }

  -- The loop that keeps one chunk of each page, and stops at three.
  unfoldable pub extractive_chunks :
      (Json → Text) → List (RetrievedChunk S) → Option EvidenceMatrix → List (RetrievedChunk S)
  unfolding keep_new
  extractive_chunks str_of chunks evidence_matrix = take max_extractive_sources (
      keep_new source_location (λ chunk. true) []
        (select_generation_chunks str_of chunks evidence_matrix minimal_generation_context_chars))

  unfoldable pub extractive_context_fallback :
      (Json → Text) → List (RetrievedChunk S) → Option EvidenceMatrix → GeneratedAnswer
  unfolding extractive_chunks join
  extractive_context_fallback str_of chunks evidence_matrix =
      extract (extractive_chunks str_of chunks evidence_matrix)

  -- The chunks at the cited positions.
  abbrev pub chunks_at : List (RetrievedChunk S) → List ℕ → List (RetrievedChunk S)
  chunks_at chunks [] = []
  chunks_at chunks (index ∷ indexes) =
      let rest = chunks_at chunks indexes in
      elim (get_elem? chunks index) [ none ↦ rest | some chunk ↦ chunk ∷ rest ]

  unfoldable pub sources_for_citations : Patterns → Text → List (RetrievedChunk S) → List SourceRef
  unfolding keep_new
  sources_for_citations x answer chunks = map source_ref (
      keep_new source_location (λ chunk. true) []
        (chunks_at chunks (valid_cited_source_indexes x chunks answer)))
