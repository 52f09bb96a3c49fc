-- ===== src/Generation/Attempts.antt =====
-- The attempts with less and less context, and what is done with an answer afterwards.
use mini_nblm_proto.Prelude.{
  ℕ, Bool, true, false, ◌&&◌, ◌||◌, not, Option, none, some, List, [], ◌∷◌, ◌++◌, map,
  if◌then◌else◌, is_some, or_else, take, any, ℕ-Eq, list-Eq, pair-Eq, option-Eq,
}
use mini_nblm_proto.Text.{Text, codes, normalize_space, occurs_in, rstrip}
use mini_nblm_proto.Json.{Json}
use mini_nblm_proto.Evidence.{RetrievedChunk, EvidenceMatrix, MatrixStatus, insufficient}
use mini_nblm_proto.Conversation.{Message, limit_conversation_context}
use mini_nblm_proto.Planning.{role_name}
use mini_nblm_proto.Prompt.{build_retrieval_context, select_generation_chunks}
use mini_nblm_proto.Prompt.Sections.{newline}
use mini_nblm_proto.Prompt.Messages.{PromptInputs, PromptMessage, build_rag_messages}
use mini_nblm_proto.Citations.Matches.{Patterns}
use mini_nblm_proto.Generation.Stream.{Marks, normalize_source_decision}
use mini_nblm_proto.Generation.Literals.{LiteralPatterns}
use mini_nblm_proto.Generation.Repairs.{
  normalize_positional_channel_answer, repair_literal_fidelity, restore_question_literal_fidelity,
}
use mini_nblm_proto.Generation.Guard.{Figures}
use mini_nblm_proto.Generation.Sources.{GeneratedAnswer, sources_for_citations}

-- What the generator is given: the patterns of the parts it calls, and its own.
pub record Generator (S : Type 0) : Type 0 where
  pub patterns : Patterns
  pub marks : Marks
  pub figures : Figures
  pub inputs : PromptInputs
  pub str_of : Json → Text
  pub casefold : Text → Text
  -- `EXCLUSION_RELEASE_PATTERN.search`
  pub names_release : Text → Bool
  -- the start of a match of `DEGENERATE_REPETITION_PATTERN`
  pub degenerate_start : Text → Option ℕ
  pub literals : LiteralPatterns
  -- the model's answers to the prompts that repair literals
  pub repair : ℕ → Text → Option Text

-- `_GenerationAttempt`, and `GENERATION_ATTEMPTS`
pub record GenerationAttempt : Type 0 where
  pub context_chars : ℕ
  pub history_chars : ℕ

abbrev pub generation_attempts : List GenerationAttempt
generation_attempts =
    record { context_chars = 14000; history_chars = 8000 }
    ∷ record { context_chars = 8000; history_chars = 2000 }
    ∷ record { context_chars = 4000; history_chars = 0 }
    ∷ []

abbrev is_insufficient : MatrixStatus → Bool
is_insufficient insufficient = true
is_insufficient _ = false

abbrev pub names_one : List Text → Text → Bool
names_one terms t = any (λ term. occurs_in term t) terms

-- The message of the history for the model's API.
abbrev pub prompt_message : Message → PromptMessage
prompt_message message = record { role = role_name message.role; content = message.content }

module _ {S : Type 0} (x : Generator S) where
  -- The chunks and the messages of one attempt.
  abbrev pub Inputs : Type 0
  Inputs = List (RetrievedChunk S) × List PromptMessage

  unfoldable pub generation_input :
      Text
      → List (RetrievedChunk S)
      → List Message
      → Option EvidenceMatrix
      → GenerationAttempt
      → Inputs
  generation_input question chunks history evidence_matrix attempt =
      let selected =
        select_generation_chunks x.str_of chunks evidence_matrix attempt.context_chars in
      let bounded = limit_conversation_context history attempt.history_chars in
      (
        selected,
        build_rag_messages x.str_of x.inputs question selected (map prompt_message bounded)
            evidence_matrix,
      )

  unfoldable pub generation_inputs :
      Text → List (RetrievedChunk S) → List Message → Option EvidenceMatrix → List Inputs
  generation_inputs question chunks history evidence_matrix =
      map (generation_input question chunks history evidence_matrix) generation_attempts

  unfoldable pub requires_clarification : Text → Option EvidenceMatrix → Bool
  unfolding normalize_space occurs_in
  requires_clarification question none = false
  requires_clarification question (some matrix) =
      let normalized = x.casefold (normalize_space question) in
      let requests_qualified_answer =
        names_one (codes "자료" ∷ codes "문서" ∷ codes "context" ∷ []) normalized
        && names_one (codes "구분" ∷ codes "나누" ∷ codes "separate" ∷ codes "distinguish" ∷ [])
            normalized
        && names_one
            (codes "확정할 수 없"
              ∷ codes "확인할 수 없"
              ∷ codes "뒷받침"
              ∷ codes "근거"
              ∷ codes "unsupported"
              ∷ [])
            normalized in
      is_insufficient matrix.status && not requests_qualified_answer

  unfoldable pub ensure_exclusion_precondition : Text → Text → Text
  ensure_exclusion_precondition question answer =
      if not (x.inputs.names_excluded_state question) || x.names_release answer
      then answer
      else codes "먼저 질문에 명시된 제외·무시 상태를 해제해야 합니다. "
        ++ codes "그 후 포함·추적에 필요한 다음 단계를 순서대로 진행합니다."
        ++ newline
        ++ newline
        ++ answer

  -- The messages of a second try: the system prompt gets one more rule.
  abbrev pub retry_messages : List PromptMessage → List PromptMessage
  retry_messages [] = []
  retry_messages (message ∷ messages) =
      record {
        role = message.role;
        content = message.content ++ newline ++ codes "15. 같은 문자, 단어 또는 구절을 반복하지 말고 800토큰 이내로 답한다.";
      }
      ∷ messages

  -- An answer that repeats itself is asked for again, and cut where it still does.
  unfoldable pub retry_degenerate_answer :
      (List PromptMessage → Option Text) → List PromptMessage → Text → Text
  unfolding rstrip
  retry_degenerate_answer chat messages fallback_answer =
      let retry = or_else (chat (retry_messages messages)) fallback_answer in
      elim (x.degenerate_start retry) [ none ↦ retry | some start ↦ rstrip (take start retry) ]

  abbrev pub without_repetition :
      (List PromptMessage → Option Text) → List PromptMessage → Text → Text
  without_repetition chat messages answer =
      let retried = retry_degenerate_answer chat messages answer in
      if is_some (x.degenerate_start answer) then retried else answer

  -- The literals of the question, put right one way after the other.
  unfoldable pub restore_literals : Text → Text → List (RetrievedChunk S) → Text
  unfolding repair_literal_fidelity normalize_positional_channel_answer
      restore_question_literal_fidelity
  restore_literals question answer chunks =
      let context = build_retrieval_context x.str_of chunks in
      let repaired = repair_literal_fidelity x.literals x.repair question answer context in
      let normalized = normalize_positional_channel_answer x.literals question repaired context in
      restore_question_literal_fidelity x.literals question normalized

  -- The end of both ways of answering, from the literals on.
  unfoldable pub settle_answer : Text → List (RetrievedChunk S) → Text → GeneratedAnswer
  unfolding sources_for_citations ensure_exclusion_precondition
  settle_answer question chunks answer =
      let (restored, has_grounded_source) =
        normalize_source_decision x.marks (restore_literals question answer chunks) in
      let settled = ensure_exclusion_precondition question restored in
      record {
        answer = settled;
        sources =
            if has_grounded_source then sources_for_citations x.patterns settled chunks else [];
      }
