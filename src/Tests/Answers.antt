-- ===== src/Tests/Answers.antt =====
-- Citations, streams and answers on concrete texts.
use mini_nblm_proto.Prelude.{
  ℕ, ◌-◌, ◌<◌, ◌≡◌, refl, ◌⊎◌, Bool, true, false, ◌||◌, not, none, some, List, [], ◌∷◌, ◌++◌,
  if◌then◌else◌, is_empty, All, Any, contains, Distinct, ℕ-Eq, list-Eq, pair-Eq, option-Eq, ok,
}
use mini_nblm_proto.Text.{Text, codes, is_space, lstrip, starts_with}
use mini_nblm_proto.Json.{Json, end}
use mini_nblm_proto.Evidence.{RetrievedChunk}
use mini_nblm_proto.Prompt.Messages.{PromptMessage}
use mini_nblm_proto.Citations.{
  answer_needs_citation_repair, claim_segments, grounded_claim_fallback, grounded_claims,
  is_substantive_claim_line, judge_repair, limitation_en, normalize_repaired_answer,
  strip_answer_heading, validate_answer_citations,
}
use mini_nblm_proto.Citations.Matches.{
  Patterns, citation_item_matches, is_valid_item, normalize_structural_citations,
  valid_cited_source_indexes, has_invalid_citation, is_invalid_group, indexes_from, page_matches,
}
use mini_nblm_proto.Citations.Cited.{Cites, valid_cited_source_indexes-AreCited}
use mini_nblm_proto.Citations.Validated.{Outcome, validate_answer_citations-Outcome}
use mini_nblm_proto.Generation.{
  Delivery, StreamedAnswer, completed, stream_attempts, streamed_answer_from, streaming_answer,
}
use mini_nblm_proto.Generation.Stream.{
  Marks, concat, detect_stream_source_decision, finish_stream, prefix_decision, push, stream,
  stream_from,
}
use mini_nblm_proto.Generation.Streamed.{stream-IsEnd}
use mini_nblm_proto.Generation.Guard.{is_answerable}
use mini_nblm_proto.Generation.Attempts.{
  Generator, generation_input, generation_inputs, requires_clarification,
}
use mini_nblm_proto.Generation.Final.{IsFinal, streaming_answer-IsFinal}

abbrev cited_chunk : RetrievedChunk ℕ
cited_chunk = record {
  chunk_id = 8;
  document_id = 1;
  document_title = codes "manual";
  content = codes "text";
  page_start = some 3;
  page_end = none;
  score = 5;
  source_refs = end;
  content_type = codes "text";
}

abbrev one_chunk : List (RetrievedChunk ℕ)
one_chunk = cited_chunk ∷ []

-- Every text is one group with the item "Source 1, Page 3".
abbrev patterns : Patterns
patterns = record {
  groups = λ t. t ∷ [];
  without_groups = λ t. [];
  items = λ t.
      record { matched = codes "Source 1, Page 3"; source = 1; start = 3; end_page = none } ∷ [];
  without_items = λ t. [];
  replace_items = λ f t. t;
  replace_bare = λ f t. t;
  has_source_token = λ t. false;
  without_separators = λ t. t;
  without_chunk_suffix = λ t. t;
  without_markdown_prefix = λ t. t;
  without_brackets = λ t. t;
  word_count = λ t. 0;
  segments = λ t. t ∷ [];
  is_no_source = λ t. false;
  has_hangul = λ t. false;
  strip_fence = λ t. t;
  strip_heading = λ t. t;
  casefold = λ t. t;
  splitlines = λ t. t ∷ [];
}

abbrev no_text : Json → Text
no_text j = []

valid_cited_source_indexes-AreCited_example :
    Distinct (valid_cited_source_indexes patterns one_chunk (codes "[Source 1, Page 3]"))
    × All
        (λ index. index < 1)
        (valid_cited_source_indexes patterns one_chunk (codes "[Source 1, Page 3]"))
    × All
        (λ index.
          Any
            (Cites one_chunk index)
            (citation_item_matches patterns one_chunk (codes "[Source 1, Page 3]" ∷ [])))
        (valid_cited_source_indexes patterns one_chunk (codes "[Source 1, Page 3]"))
    × All
        (λ item.
          (not (is_valid_item one_chunk item)
            || contains
                (valid_cited_source_indexes patterns one_chunk (codes "[Source 1, Page 3]"))
                (item.source - 1))
          ≡ true)
        (citation_item_matches patterns one_chunk (codes "[Source 1, Page 3]" ∷ []))
valid_cited_source_indexes-AreCited_example =
    valid_cited_source_indexes-AreCited one_chunk patterns (codes "[Source 1, Page 3]")

-- Here a citation is what has a bracket, and a refusal is a text with "N".
abbrev bracketed : Patterns
bracketed = record patterns {
  groups = λ t. if contains t 91 then t ∷ [] else [];
  without_groups = λ t. t;
  word_count = λ t. 20;
  is_no_source = λ t. contains t 78;
  splitlines = λ t. if contains t 10 then codes "A [1]" ∷ codes "b" ∷ [] else t ∷ [];
}

-- The model refuses, and the one claim of the draft that has a citation is kept.
abbrev kept_claim : Text
kept_claim = codes "A [1]" ++ 10 ∷ 10 ∷ limitation_en

kept_claim_is :
    validate_answer_citations bracketed no_text one_chunk
      (λ t. some (codes "N"))
      (codes "q")
      (codes "A [1]" ++ 10 ∷ codes "b")
    ≡ kept_claim
unfolding validate_answer_citations judge_repair grounded_claim_fallback grounded_claims
    claim_segments normalize_repaired_answer answer_needs_citation_repair is_substantive_claim_line
    has_invalid_citation is_invalid_group valid_cited_source_indexes indexes_from is_valid_item
    page_matches normalize_structural_citations strip_answer_heading
kept_claim_is = refl

validate_answer_citations-Outcome_example :
    Outcome bracketed no_text one_chunk
      (codes "q")
      (normalize_structural_citations bracketed one_chunk
        (strip_answer_heading bracketed (codes "A [1]" ++ 10 ∷ codes "b")))
      (validate_answer_citations bracketed no_text one_chunk
        (λ t. some (codes "N"))
        (codes "q")
        (codes "A [1]" ++ 10 ∷ codes "b"))
validate_answer_citations-Outcome_example =
    validate_answer_citations-Outcome bracketed no_text one_chunk (λ t. some (codes "N"))
      (codes "q") (codes "A [1]" ++ 10 ∷ codes "b")

abbrev marks : Marks
marks = record { marker_end = λ t. none; upper = λ t. t }

abbrev two_deltas : List Text
two_deltas = codes "The " ∷ codes "answer" ∷ []

stream-IsEnd_example :
    (decision : Bool) × ((stream marks two_deltas).0.has_grounded_source ≡ some decision)
    × (concat (stream marks two_deltas).0.parts ≡ concat (stream marks two_deltas).1)
    × ((decision ≡ false) ⊎ (concat (stream marks two_deltas).1 ≡ concat two_deltas))
    × ((decision ≡ true) ⊎ (is_empty (concat (stream marks two_deltas).1) ≡ false))
stream-IsEnd_example = stream-IsEnd marks two_deltas

abbrev generator : Generator ℕ
generator = record {
  patterns = patterns;
  marks = marks;
  figures = record {
    names_visual = λ t. false;
    asks_exact = λ t. false;
    page_numbers = λ t. [];
    str_of = no_text;
  };
  inputs = record {
    system_prompt = [];
    literals_of = λ t. [];
    names_excluded_state = λ t. false;
    upper = λ t. t;
  };
  str_of = no_text;
  casefold = λ t. t;
  names_release = λ t. false;
  degenerate_start = λ t. none;
  literals = record {
    literals_of = λ t. [];
    is_digit = λ c. false;
    is_alpha = λ c. false;
    upper = λ t. t;
    channel_range = λ t. none;
    has_source_citation = λ t. false;
    source_citation = λ t. none;
    channel_meaning = λ n t. none;
    has_section = λ t. false;
    replace_section = λ s t. t;
    replace_channel_line = λ n s t. t;
    replace_fields = λ f t. t;
    fix_channel_word = λ t. t;
    malformed_fields = λ t. [];
    channel_character = λ n o t. none;
    is_plain = λ t. false;
    replace_like = λ l f t. t;
    squeeze = λ t. t;
  };
  repair = λ n prompt. none;
}

-- The model sends two pieces.
abbrev delivered : ℕ → List PromptMessage → Delivery
delivered n messages = record { deltas = two_deltas; ending = completed }

-- The answer made from the stream and the inputs of the first attempt.
abbrev the_answer : StreamedAnswer
the_answer =
    streamed_answer_from generator (λ messages. none) (λ t. none) (codes "q") two_deltas
      (
        record { pending = []; parts = two_deltas; has_grounded_source = some true },
        generation_input generator (codes "q") one_chunk [] none
            (record { context_chars = 14000; history_chars = 8000 }),
      )

the_answer_is :
    streaming_answer generator
      (λ messages. none)
      (λ t. none)
      delivered
      (codes "q")
      one_chunk
      []
      none
    ≡ ok the_answer
unfolding streaming_answer is_answerable requires_clarification generation_inputs stream_attempts
    stream stream_from push detect_stream_source_decision prefix_decision starts_with lstrip
    is_space finish_stream
the_answer_is = refl

streaming_answer-IsFinal_example : IsFinal generator (λ messages. none) (λ t. none) the_answer
streaming_answer-IsFinal_example =
    streaming_answer-IsFinal generator (λ messages. none) (λ t. none) delivered (codes "q")
      one_chunk [] none the_answer the_answer_is
