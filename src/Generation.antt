-- ===== src/Generation.antt =====
-- app/services/generator.py: the answer of the model, streamed or whole, with its sources.
pub mod Stream
pub mod Streamed
pub mod Guard
pub mod Sources
pub mod Literals
pub mod Repairs
pub mod Attempts
pub mod Final
use mini_nblm_proto.Prelude.{
  ℕ, ◌+◌, Bool, true, false, not, Option, none, some, List, [], ◌∷◌, ◌++◌, if◌then◌else◌, or_else,
  is_empty, ◌==◌, ℕ-Eq, list-Eq, pair-Eq, option-Eq, Result, ok, err, ◌>>=◌,
}
use mini_nblm_proto.Text.{Text, codes}
use mini_nblm_proto.Evidence.{RetrievedChunk, EvidenceMatrix}
use mini_nblm_proto.Conversation.{Message}
use mini_nblm_proto.Prompt.Messages.{PromptMessage}
use mini_nblm_proto.Citations.{validate_answer_citations}
use mini_nblm_proto.Generation.Stream.{
  Normalizer, concat, normalize_source_decision, pushed_from, stream,
}
use mini_nblm_proto.Generation.Guard.{is_answerable}
use mini_nblm_proto.Generation.Sources.{
  GeneratedAnswer, SourceRef, empty_context_answer, extractive_context_fallback,
}
use mini_nblm_proto.Generation.Attempts.{
  Generator, Inputs, generation_inputs, requires_clarification, settle_answer, without_repetition,
}

abbrev pub visual_evidence_limit_answer : Text
visual_evidence_limit_answer =
    codes "업로드된 자료에서 확인되지 않습니다. 해당 페이지의 핵심 근거가 이미지, "
    ++ codes "화면 또는 다이어그램에 포함되어 있으나 이 질문에 필요한 시각 근거가 검색되지 않았습니다."

abbrev pub insufficient_evidence_answer : Text
insufficient_evidence_answer =
    codes "업로드된 자료만으로는 현재 질문의 구체적인 상황에 맞는 답변을 확정하기 어렵습니다. "
    ++ codes "수행하려던 작업과 사용한 명령, 발생한 오류, 현재 상태, 되돌릴 대상을 구체적으로 알려주세요."

-- A call of the model: a text, a `ContextLengthExceededError`, or another exception.
pub data Reply : Type 0 where
  answered : Text → Reply
  too_long : Reply
  failed : Text → Reply

-- A stream of the model: its deltas, and how it ends.
pub data Ending : Type 0 where
  completed overflowed : Ending
  broken : Text → Ending

pub record Delivery : Type 0 where
  pub deltas : List Text
  pub ending : Ending

-- What the reader of a stream has at the end.
pub record StreamedAnswer : Type 0 where
  pub visible_parts : List Text
  pub revision : Option Text
  pub generated : GeneratedAnswer

-- The text that is shown: the revision if there is one, and else what was streamed.
abbrev pub shown_text : StreamedAnswer → Text
shown_text s = or_else s.revision (concat s.visible_parts)

-- `answer if answer != visible_answer else None`
abbrev pub revised : Text → Text → Option Text
revised answer visible = if answer == visible then none else some answer

abbrev pub fixed_answer : Text → GeneratedAnswer
fixed_answer answer = record { answer = answer; sources = [] }

abbrev pub at_once : Text → StreamedAnswer
at_once answer = record {
  visible_parts = answer ∷ [];
  revision = none;
  generated = fixed_answer answer;
}

module _ {S : Type 0} (x : Generator S) (ask : List PromptMessage → Option Text)
    (validate : Text → Option Text) where
  -- The answers that need no model.
  abbrev pub early_answer : Text → List (RetrievedChunk S) → Option EvidenceMatrix → Option Text
  early_answer question chunks evidence_matrix =
      if is_empty chunks
      then some empty_context_answer
      else if not (is_answerable x.figures question chunks)
      then some visual_evidence_limit_answer
      else if requires_clarification x question evidence_matrix
      then some insufficient_evidence_answer
      else none

  -- The loop over the attempts, with the number of the attempt.
  unfoldable pub try_attempts :
      (ℕ → List PromptMessage → Reply)
      → ℕ
      → List (Inputs x)
      → Result Text (Option (Text × Inputs x))
  try_attempts chat n [] = ok none
  try_attempts chat n (inputs ∷ rest) = elim (chat n inputs.1) [
    | answered answer ↦ ok (some (answer, inputs))
    | too_long ↦ try_attempts chat (n + 1) rest
    | failed message ↦ err message
  ]

  abbrev pub validated : Text → Text → List (RetrievedChunk S) → Text
  validated question answer chunks =
      validate_answer_citations x.patterns x.str_of chunks validate question answer

  -- What is made of the model's answer.
  unfoldable pub answer_from : Text → Text × Inputs x → GeneratedAnswer
  unfolding settle_answer
  answer_from question (raw_answer, inputs) =
      let (answer, has_grounded_source) =
        normalize_source_decision x.marks (without_repetition x ask inputs.1 raw_answer) in
      let checked = (normalize_source_decision x.marks (validated question answer inputs.0)).0 in
      settle_answer x question inputs.0 (if has_grounded_source then checked else answer)

  unfoldable pub generate_answer :
      (ℕ → List PromptMessage → Reply)
      → Text
      → List (RetrievedChunk S)
      → List Message
      → Option EvidenceMatrix
      → Result Text GeneratedAnswer
  unfolding try_attempts answer_from
  generate_answer chat question chunks history evidence_matrix =
      elim (early_answer question chunks evidence_matrix) [
        | some answer ↦ ok (fixed_answer answer)
        | none ↦
            try_attempts chat 0 (generation_inputs x question chunks history evidence_matrix)
            >>= λ attempt. elim attempt [
              | none ↦ ok (extractive_context_fallback x.str_of chunks evidence_matrix)
              | some found ↦ ok (answer_from question found)
            ]
      ]

  -- The deltas of an attempt that the reader is sent: none once an earlier attempt was visible.
  abbrev pub made_visible : List Text → List Text → List Text
  made_visible visible emitted = if is_empty visible then emitted else visible

  -- The loop over the attempts of a stream, with what is visible so far.
  unfoldable pub stream_attempts :
      (ℕ → List PromptMessage → Delivery)
      → ℕ
      → List Text
      → List (Inputs x)
      → Result Text (List Text × Option (Normalizer × Inputs x))
  unfolding stream pushed_from
  stream_attempts deliver n visible [] = ok (visible, none)
  stream_attempts deliver n visible (inputs ∷ rest) =
      let delivery = deliver n inputs.1 in
      let whole = stream x.marks delivery.deltas in
      let start : Normalizer = record { pending = []; parts = []; has_grounded_source = none } in
      let partial = pushed_from x.marks start delivery.deltas in
      elim delivery.ending [
        | completed ↦ ok (made_visible visible whole.1, some (whole.0, inputs))
        | overflowed ↦ stream_attempts deliver (n + 1) (made_visible visible partial.1) rest
        | broken message ↦ err message
      ]

  abbrev pub is_grounded_stream : Option Bool → Bool
  is_grounded_stream (some true) = true
  is_grounded_stream _ = false

  -- The answer behind a finished stream.
  unfoldable pub streamed_answer_from : Text → List Text → Normalizer × Inputs x → StreamedAnswer
  unfolding settle_answer
  streamed_answer_from question visible (normalizer, inputs) =
      let raw_answer = without_repetition x ask inputs.1 (concat normalizer.parts) in
      let answer =
        if is_grounded_stream normalizer.has_grounded_source
        then validated question raw_answer inputs.0
        else raw_answer in
      let generated =
        settle_answer x question inputs.0 (normalize_source_decision x.marks answer).0 in
      record {
        visible_parts = visible;
        revision = revised generated.answer (concat visible);
        generated = generated;
      }

  -- The excerpts, sent as a part where nothing was visible and as a revision otherwise.
  abbrev pub streamed_fallback : List Text → GeneratedAnswer → StreamedAnswer
  streamed_fallback [] fallback = record {
    visible_parts = fallback.answer ∷ [];
    revision = none;
    generated = fallback;
  }
  streamed_fallback (part ∷ parts) fallback = record {
    visible_parts = part ∷ parts;
    revision = some fallback.answer;
    generated = fallback;
  }

  -- `StreamingAnswer.__iter__`
  unfoldable pub streaming_answer :
      (ℕ → List PromptMessage → Delivery)
      → Text
      → List (RetrievedChunk S)
      → List Message
      → Option EvidenceMatrix
      → Result Text StreamedAnswer
  unfolding stream_attempts streamed_answer_from
  streaming_answer deliver question chunks history evidence_matrix =
      elim (early_answer question chunks evidence_matrix) [
        | some answer ↦ ok (at_once answer)
        | none ↦
            stream_attempts deliver 0 []
              (generation_inputs x question chunks history evidence_matrix)
            >>= λ result. elim result.1 [
              | none ↦ ok (
                  streamed_fallback result.0
                    (extractive_context_fallback x.str_of chunks evidence_matrix))
              | some found ↦ ok (streamed_answer_from question result.0 found)
            ]
      ]
