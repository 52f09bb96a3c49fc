-- ===== src/Citations.antt =====
-- app/services/citation_validator.py: the sources that an answer cites, and the repair of its citations.
pub mod Matches
pub mod Cited
pub mod Validated
use mini_nblm_proto.Prelude.{
  ℕ, Bool, ◌&&◌, ◌||◌, not, Option, none, some, List, [], ◌∷◌, ◌++◌, map, reverse, leb, nat_eq,
  if◌then◌else◌, or_else, get_elem?, take, is_empty, any, ℕ-Eq, list-Eq, pair-Eq, option-Eq,
}
use mini_nblm_proto.Prelude.Dedup.{keep_new}
use mini_nblm_proto.Text.{Text, codes, join, strip, starts_with}
use mini_nblm_proto.Evidence.{RetrievedChunk}
use mini_nblm_proto.Json.{Json}
use mini_nblm_proto.Prompt.{build_retrieval_context}
use mini_nblm_proto.Prompt.Sections.{newline}
use mini_nblm_proto.Citations.Matches.{
  Patterns, has_invalid_citation, valid_cited_source_indexes, normalize_structural_citations,
}

abbrev pub max_validation_context_chars : ℕ
max_validation_context_chars = 18000

abbrev pub limitation_ko : Text
limitation_ko = codes "업로드된 자료에서는 위 내용까지만 확인됩니다. 나머지 부분을 판단하려면 질문의 구체적인 상황을 추가로 알려주세요."

abbrev pub limitation_en : Text
limitation_en =
    codes
      "The uploaded material supports only the statements above. Please provide more details about the specific situation for the remaining parts."

-- `t.endswith(":")`
abbrev ends_with_colon : Text → Bool
ends_with_colon t = nat_eq (or_else (get_elem? (reverse t) 0) 0) 58

module _ (x : Patterns) where
  unfoldable pub strip_answer_heading : Text → Text
  unfolding strip
  strip_answer_heading answer = strip (x.strip_heading answer)

  unfoldable pub normalize_repaired_answer : Text → Text
  unfolding strip starts_with strip_answer_heading
  normalize_repaired_answer response =
      let normalized = strip response in
      strip_answer_heading
        (if starts_with (codes "```") normalized then x.strip_fence normalized else normalized)

  abbrev stripped : List Text → List Text
  stripped [] = []
  stripped (t ∷ ts) =
      let rest = stripped ts in let text = strip t in if is_empty text then rest else text ∷ rest

  unfoldable pub claim_segments : Text → List Text
  unfolding strip
  claim_segments line =
      let normalized = strip line in
      if is_empty normalized then [] else stripped (x.segments normalized)

  -- The claims of an answer, line after line.
  abbrev pub claims_of : List Text → List Text
  claims_of [] = []
  claims_of (line ∷ lines) = claim_segments line ++ claims_of lines

  unfoldable pub is_substantive_claim_line : Text → Bool
  unfolding strip starts_with
  is_substantive_claim_line line =
      let without_prefix = strip (x.without_markdown_prefix line) in
      let without_citations = strip (x.without_brackets (x.without_groups without_prefix)) in
      not (is_empty line || starts_with (codes "```") line || starts_with (codes "#") line)
      && not (is_empty without_citations || ends_with_colon without_citations)
      && leb 12 (x.word_count without_citations)

  module _ {S : Type 0} (str_of : Json → Text) (chunks : List (RetrievedChunk S)) where
    abbrev pub cites : Text → Bool
    cites t = not (is_empty (valid_cited_source_indexes x chunks t))

    unfoldable pub answer_needs_citation_repair : Text → Bool
    unfolding claim_segments is_substantive_claim_line
    answer_needs_citation_repair answer =
        has_invalid_citation x chunks answer
        || not (cites answer)
        || any (λ claim. is_substantive_claim_line claim && not (cites claim))
            (claims_of (x.splitlines answer))

    -- A claim with citations, all of them valid.
    abbrev pub is_grounded : Text → Bool
    is_grounded claim = not (has_invalid_citation x chunks claim) && cites claim

    unfoldable pub grounded_claims : Text → List Text
    unfolding keep_new claim_segments
    grounded_claims answer =
        keep_new (λ claim. x.casefold (strip claim)) is_grounded []
          (claims_of (x.splitlines answer))

    unfoldable pub grounded_claim_fallback : Text → Text → Option Text
    unfolding grounded_claims strip join
    grounded_claim_fallback question answer =
        let claims = map strip (grounded_claims answer) in
        let limitation = if x.has_hangul question then limitation_ko else limitation_en in
        if is_empty claims then none else some (join newline (claims ++ [] ∷ limitation ∷ []))

    unfoldable pub build_validation_request : Text → Text → Text
    unfolding build_retrieval_context
    build_validation_request question answer =
        codes "[Question]"
        ++ newline
        ++ question
        ++ newline
        ++ newline
        ++ codes "[Context]"
        ++ newline
        ++ take max_validation_context_chars (build_retrieval_context str_of chunks)
        ++ newline
        ++ newline
        ++ codes "[Draft answer]"
        ++ newline
        ++ answer
        ++ newline
        ++ newline
        ++ codes "[Revised answer]"

    -- What is made of the model's repair.
    unfoldable pub judge_repair : Text → Text → Text → Text
    unfolding grounded_claim_fallback
    judge_repair question answer repaired =
        let fallback = or_else (grounded_claim_fallback question answer) repaired in
        if is_empty repaired
        then answer
        else if x.is_no_source repaired
        then fallback
        else if has_invalid_citation x chunks repaired || not (cites repaired)
        then answer
        else repaired

    -- The model gets the request; `none` is an exception.
    unfoldable pub validate_answer_citations : (Text → Option Text) → Text → Text → Text
    validate_answer_citations chat question raw_answer =
        let answer = normalize_structural_citations x chunks (strip_answer_heading raw_answer) in
        let judged : Text = elim (chat (build_validation_request question answer)) [
          | none ↦ answer
          | some response ↦ judge_repair question answer (normalize_repaired_answer response)
        ] in
        if is_empty chunks || x.is_no_source answer || not (answer_needs_citation_repair answer)
        then answer
        else judged
