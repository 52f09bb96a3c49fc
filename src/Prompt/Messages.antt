-- ===== src/Prompt/Messages.antt =====
-- app/services/prompt_builder.py: the messages given to the model. The two regular expressions and the
-- system prompt's file are parameters.
use mini_nblm_proto.Prelude.{
  Bool, true, false, not, Option, none, some, List, [], ◌∷◌, ◌++◌, map, if◌then◌else◌, is_empty,
  ℕ-Eq, list-Eq, pair-Eq, option-Eq,
}
use mini_nblm_proto.Prelude.Dedup.{keep_new}
use mini_nblm_proto.Text.{Text, codes, join, str_nat, show_page}
use mini_nblm_proto.Json.{Json}
use mini_nblm_proto.Evidence.{
  RetrievedChunk, EvidenceReference, EvidenceMatrixGoal, EvidenceMatrix, MatrixStatus,
}
use mini_nblm_proto.Prompt.Sections.{newline}
use mini_nblm_proto.Prompt.{build_retrieval_context}

pub record PromptInputs : Type 0 where
  pub system_prompt : Text
  -- `BACKTICK_LITERAL_PATTERN.findall`
  pub literals_of : Text → List Text
  -- `EXCLUDED_STATE_PATTERN.search`, as a test
  pub names_excluded_state : Text → Bool
  -- `str.upper`
  pub upper : Text → Text

-- `matrix.status.upper()`
abbrev matrix_status_upper : MatrixStatus → Text
matrix_status_upper MatrixStatus.complete = codes "COMPLETE"
matrix_status_upper MatrixStatus.partial = codes "PARTIAL"
matrix_status_upper MatrixStatus.insufficient = codes "INSUFFICIENT"
matrix_status_upper MatrixStatus.unchecked = codes "UNCHECKED"

abbrev is_unchecked : MatrixStatus → Bool
is_unchecked MatrixStatus.unchecked = true
is_unchecked _ = false

-- `dict.fromkeys(findall(question))`: the literals without repetitions, in order.
unfoldable pub distinct_literals : (Text → List Text) → Text → List Text
unfolding keep_new
distinct_literals literals_of question = keep_new (λ t. t) (λ t. true) [] (literals_of question)

unfoldable pub format_literal_constraints : (Text → List Text) → Text → Text
unfolding join distinct_literals
format_literal_constraints literals_of question =
    let literals = distinct_literals literals_of question in
    let rendered = join (codes ", ") (map (λ t. codes "`" ++ t ++ codes "`") literals) in
    if is_empty literals
    then []
    else codes "[Literal Fidelity]"
      ++ newline
      ++ codes "PRESERVE EXACTLY: "
      ++ rendered
      ++ newline
      ++ codes "If a literal is interpreted by character or field position, copy each character "
      ++ codes "from left to right before mapping its meaning. Never substitute a Context example."
      ++ newline
      ++ newline

unfoldable pub format_reference : EvidenceReference → Text
unfolding str_nat show_page
format_reference evidence =
    codes "document="
    ++ evidence.document_title
    ++ codes "; pages="
    ++ show_page evidence.page_start
    ++ codes "-"
    ++ show_page evidence.page_end
    ++ codes "; chunk="
    ++ str_nat evidence.chunk_id

unfoldable pub format_goal : (Text → Text) → EvidenceMatrixGoal → Text
unfolding join format_reference
format_goal upper goal =
    let references = join (codes ", ") (map format_reference goal.evidence) in
    let suffix = if is_empty references then [] else codes " | evidence: " ++ references in
    codes "GOAL "
    ++ goal.goal_id
    ++ codes " ["
    ++ upper goal.status
    ++ codes "]: "
    ++ goal.description
    ++ suffix

unfoldable pub format_evidence_matrix : (Text → Text) → Option EvidenceMatrix → Text
unfolding join format_goal
format_evidence_matrix upper none = []
format_evidence_matrix upper (some matrix) =
    let lines =
      (codes "Coverage: " ++ matrix_status_upper matrix.status)
      ∷ map (format_goal upper) matrix.goals in
    if is_unchecked matrix.status
    then []
    else codes "[Evidence Matrix]" ++ newline ++ join newline lines ++ newline ++ newline

unfoldable pub format_workflow_constraints : (Text → Bool) → Text → Text
format_workflow_constraints names_excluded_state question =
    if not (names_excluded_state question)
    then []
    else codes "[Workflow Preconditions]"
      ++ newline
      ++ codes "The question starts with an ignored or excluded item. Before any command that "
      ++ codes "requires inclusion, tracking, or processing, state how that exclusion is removed. "
      ++ codes "Then list later state transitions and commands in execution order."
      ++ newline
      ++ newline

-- A message of the model's API, its role as text.
pub record PromptMessage : Type 0 where
  pub role : Text
  pub content : Text

module _ {S : Type 0} (str_of : Json → Text) (inputs : PromptInputs) where
  unfoldable pub build_user_message :
      Text → List (RetrievedChunk S) → Option EvidenceMatrix → PromptMessage
  build_user_message question chunks evidence_matrix = record {
    role = codes "user";
    content =
        codes "[Context]"
        ++ newline
        ++ build_retrieval_context str_of chunks
        ++ newline
        ++ newline
        ++ format_evidence_matrix inputs.upper evidence_matrix
        ++ format_literal_constraints inputs.literals_of question
        ++ format_workflow_constraints inputs.names_excluded_state question
        ++ codes "[Question]"
        ++ newline
        ++ question
        ++ newline
        ++ newline
        ++ codes "[Answer]";
  }

  unfoldable pub build_rag_messages :
      Text
      → List (RetrievedChunk S)
      → List PromptMessage
      → Option EvidenceMatrix
      → List PromptMessage
  unfolding build_user_message
  build_rag_messages question chunks history evidence_matrix =
      record { role = codes "system"; content = inputs.system_prompt } ∷ history
      ++ build_user_message question chunks evidence_matrix ∷ []
