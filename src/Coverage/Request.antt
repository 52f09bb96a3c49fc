-- ===== src/Coverage/Request.antt =====
-- `_coverage_request` and `assess_evidence_coverage`: one judgement of the model on the chunks.
use mini_nblm_proto.Prelude.{
  ℕ, ◌+◌, Bool, true, false, ◌&&◌, ◌||◌, Option, none, some, List, [], ◌∷◌, ◌++◌, map, ltb,
  if◌then◌else◌, length, is_empty, ℕ-Eq, list-Eq, pair-Eq, option-Eq, ok, err,
}
use mini_nblm_proto.Text.{Text, codes, join, strip, str_nat, show_page}
use mini_nblm_proto.Evidence.{RetrievedChunk}
use mini_nblm_proto.Retrieval.Queries.{EvidenceGoal}
use mini_nblm_proto.Coverage.Response.{Assessment, Reading, parse_coverage_response}
use mini_nblm_proto.Prompt.Sections.{newline}

abbrev pub max_coverage_context_chars : ℕ
max_coverage_context_chars = 18000

-- The model's answer to a prompt; `none` is an exception.
abbrev pub Chat : Type 0
Chat = Text → Option Text

module _ {S : Type 0} where
  unfoldable pub evidence_block : RetrievedChunk S → Text
  unfolding strip show_page str_nat
  evidence_block chunk =
      codes "[Chunk id="
      ++ str_nat chunk.chunk_id
      ++ codes " document=\""
      ++ chunk.document_title
      ++ codes "\" pages="
      ++ show_page chunk.page_start
      ++ codes "-"
      ++ show_page chunk.page_end
      ++ codes "]"
      ++ newline
      ++ strip chunk.content

  -- The blocks that fit; the first one always does. `used` is 0 while there is none.
  unfoldable pub context_parts : Bool → ℕ → List (RetrievedChunk S) → List Text
  unfolding evidence_block
  context_parts started used [] = []
  context_parts started used (chunk ∷ chunks) =
      let block = evidence_block chunk in
      let rest = context_parts true (used + length block) chunks in
      if started && ltb max_coverage_context_chars (used + length block) then [] else block ∷ rest

  unfoldable pub coverage_request : List EvidenceGoal → List (RetrievedChunk S) → Text
  unfolding context_parts join
  coverage_request goals chunks =
      codes "Evidence goals:"
      ++ newline
      ++ join newline (
          map (λ goal. codes "- goal_id=\"" ++ goal.goal_id ++ codes "\": " ++ goal.description)
            goals)
      ++ newline
      ++ newline
      ++ codes "Retrieved evidence:"
      ++ newline
      ++ join (newline ++ newline) (context_parts false 0 chunks)

  -- The second try, which asks the model to repair its own answer.
  unfoldable pub repair_assessment :
      Reading → Chat → Text → Text → List EvidenceGoal → List (RetrievedChunk S) → Option Assessment
  repair_assessment x chat prompt response goals chunks =
      elim (chat
        (prompt ++ newline ++ newline ++ codes "Invalid response:" ++ newline ++ response)) [
          | none ↦ none
          | some repaired ↦ elim (parse_coverage_response x goals chunks repaired) [
            | err e ↦ none
            | ok assessment ↦ some assessment
          ]
        ]

  unfoldable pub assess_evidence_coverage :
      Reading → Chat → List EvidenceGoal → List (RetrievedChunk S) → Option Assessment
  assess_evidence_coverage x chat goals chunks =
      let prompt = coverage_request goals chunks in
      if is_empty goals || is_empty chunks then none else elim (chat prompt) [
        | none ↦ none
        | some response ↦ elim (parse_coverage_response x goals chunks response) [
          | err e ↦ repair_assessment x chat prompt response goals chunks
          | ok assessment ↦ some assessment
        ]
      ]
