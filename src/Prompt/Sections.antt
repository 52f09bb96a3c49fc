-- ===== src/Prompt/Sections.antt =====
-- app/services/prompt_builder.py: how one chunk is written into the context.
use mini_nblm_proto.Prelude.{
  ℕ, none, some, List, [], ◌∷◌, ◌++◌, nat_eq, if◌then◌else◌, ◌==◌, ℕ-Eq, list-Eq, pair-Eq,
  option-Eq,
}
use mini_nblm_proto.Text.{Text, codes, join, str_nat}
use mini_nblm_proto.Json.{Json, null, str, obj, Fields, end, get, get_or, is_truthy, show_json}
use mini_nblm_proto.Evidence.{RetrievedChunk}

-- `"\n"`
abbrev pub newline : Text
newline = 10 ∷ []

module _ (str_of : Json → Text) where
  -- `vision.get("confidence") if isinstance(vision, dict) else None`, written out.
  unfoldable pub format_confidence : Json → Text
  unfolding get
  format_confidence (obj vision) = elim (get (codes "confidence") vision) [
    | none ↦ codes "unknown"
    | some null ↦ codes "unknown"
    | some v ↦ show_json str_of v
  ]
  format_confidence v = codes "unknown"

  -- The quality of a chunk whose page metadata is a dict.
  unfoldable pub metadata_quality : Text → Fields → Text
  unfolding get_or format_confidence
  metadata_quality content_type metadata =
      let risk = get_or (codes "visual_evidence_risk") (str (codes "unknown")) metadata in
      if content_type == codes "vision_caption"
      then codes "vision caption; confidence="
        ++ format_confidence (get_or (codes "vision_caption") (obj end) metadata)
      else if is_truthy (get_or (codes "text_only_incomplete") null metadata)
      then show_json str_of risk ++ codes "; visual content may be absent from extracted text"
      else show_json str_of risk

module _ {S : Type 0} where
  unfoldable pub format_page : RetrievedChunk S → Text
  unfolding str_nat
  format_page chunk = elim chunk.page_start [
    | none ↦ codes "unknown"
    | some start ↦ elim chunk.page_end [
      | none ↦ str_nat start
      | some last_page ↦
          if nat_eq last_page start
          then str_nat start
          else str_nat start ++ codes "-" ++ str_nat last_page
    ]
  ]

  module _ (str_of : Json → Text) where
    unfoldable pub format_evidence_quality : RetrievedChunk S → Text
    unfolding get_or metadata_quality
    format_evidence_quality chunk =
        elim (get_or (codes "page_metadata") (obj end) chunk.source_refs) [
          | obj metadata ↦ metadata_quality str_of chunk.content_type metadata
          | v ↦ codes "unknown"
        ]

    -- The lines above the content.
    unfoldable pub section_lines : ℕ → RetrievedChunk S → List Text
    section_lines index chunk =
        (codes "[Source " ++ str_nat index ++ codes "]")
        ∷ (codes "Document: " ++ chunk.document_title)
        ∷ (codes "Document ID: " ++ str_nat chunk.document_id)
        ∷ (codes "Page: " ++ format_page chunk)
        ∷ (codes "Chunk ID: " ++ str_nat chunk.chunk_id)
        ∷ (codes "Evidence Modality: " ++ chunk.content_type)
        ∷ (codes "Text Evidence Quality: " ++ format_evidence_quality chunk)
        ∷ codes "Content:"
        ∷ []

    unfoldable pub format_chunk_section : ℕ → RetrievedChunk S → Text
    format_chunk_section index chunk =
        join newline (section_lines index chunk ++ chunk.content ∷ [])
