-- ===== src/Generation/Repairs.antt =====
-- `_repair_literal_fidelity`, `_normalize_positional_channel_answer` and
-- `_restore_question_literal_fidelity`.
use mini_nblm_proto.Prelude.{
  ℕ, zero, suc, ◌+◌, Bool, false, ◌&&◌, ◌||◌, not, Option, none, some, List, [], ◌∷◌, ◌++◌, nat_eq,
  if◌then◌else◌, length, is_empty, ◌==◌, contains, ℕ-Eq, list-Eq, pair-Eq, option-Eq,
}
use mini_nblm_proto.Text.{Text, codes, join, str_nat}
use mini_nblm_proto.Prompt.Sections.{newline}
use mini_nblm_proto.Prompt.Messages.{distinct_literals}
use mini_nblm_proto.Generation.Literals.{
  LiteralPatterns, expected_field, field_maps, has_digit_and_letter, literal_confusion_pairs,
  literal_position_errors, uses_only,
}

abbrev no_citations_error : Text
no_citations_error = codes "The revised answer removed all required Source citations."

abbrev mixed_literals : (Text → Bool) → List Text → List Text
mixed_literals is_mixed [] = []
mixed_literals is_mixed (literal ∷ literals) =
    let rest = mixed_literals is_mixed literals in if is_mixed literal then literal ∷ rest else rest

-- The pairs of characters, in upper case, in which two texts differ.
abbrev pub differences : (Text → Text) → Text → Text → List (Text × Text)
differences upper [] expected = []
differences upper (c ∷ candidate) [] = []
differences upper (c ∷ candidate) (d ∷ expected) =
    let rest = differences upper candidate expected in
    if upper (c ∷ []) == upper (d ∷ []) then rest else (upper (c ∷ []), upper (d ∷ [])) ∷ rest

-- One difference, between characters that are easily confused.
abbrev pub is_confusion : List (Text × Text) → Bool
is_confusion ((a, b) ∷ []) =
    contains literal_confusion_pairs (a, b) || contains literal_confusion_pairs (b, a)
is_confusion _ = false

module _ (x : LiteralPatterns) where
  -- The prompt of a repair, with the errors of the one before.
  unfoldable pub fidelity_request : List Text → List Text → (context question answer : Text) → Text
  unfolding field_maps join
  fidelity_request literals detected_errors context question answer =
      codes "[Exact literal field maps]"
      ++ newline
      ++ join newline (field_maps x literals)
      ++ (if is_empty detected_errors
          then []
          else newline
            ++ newline
            ++ codes "[Detected errors]"
            ++ newline
            ++ join newline detected_errors)
      ++ newline
      ++ newline
      ++ codes "[Context]"
      ++ newline
      ++ context
      ++ newline
      ++ newline
      ++ codes "[Question]"
      ++ newline
      ++ question
      ++ newline
      ++ newline
      ++ codes "[Draft]"
      ++ newline
      ++ answer
      ++ newline
      ++ newline
      ++ codes "[Revised answer]"

  -- The errors of a revised answer.
  abbrev errors_of : Bool → Text → Text → List Text
  errors_of had_citations question revised =
      literal_position_errors x question revised
      ++ (if had_citations && not (x.has_source_citation revised)
          then no_citations_error ∷ []
          else [])

  -- At most `rounds` repairs; `request` makes the prompt from the errors so far, `errors` finds those of
  -- a revised answer; an exception ends the loop with the draft.
  unfoldable pub repair_rounds :
      (ℕ → Text → Option Text)
      → (List Text → Text)
      → (Text → List Text)
      → Text
      → ℕ
      → List Text
      → Text
  repair_rounds chat request errors answer zero detected = answer
  repair_rounds chat request errors answer (suc rounds) detected =
      elim (chat rounds (request detected)) [
        | none ↦ answer
        | some revised ↦
            let again = repair_rounds chat request errors answer rounds (errors revised) in
            if is_empty (errors revised) then revised else again
      ]

  unfoldable pub repair_literal_fidelity :
      (ℕ → Text → Option Text) → (question answer context : Text) → Text
  unfolding repair_rounds fidelity_request literal_position_errors distinct_literals
  repair_literal_fidelity chat question answer context =
      let literals =
        mixed_literals (has_digit_and_letter x) (distinct_literals x.literals_of question) in
      let repaired =
        repair_rounds chat (λ detected. fidelity_request literals detected context question answer)
          (errors_of (x.has_source_citation answer) question) answer 4 [] in
      if is_empty literals then answer else repaired

  -- A match is put right when it differs in one character that is easily confused. What is matched has
  -- the length of the literal, since the pattern has one class for each character.
  abbrev pub restore_candidate : Text → Text → Text
  restore_candidate literal matched =
      let candidate = x.squeeze matched in
      let expected = x.squeeze literal in
      if nat_eq (length candidate) (length expected)
        && is_confusion (differences x.upper candidate expected)
      then literal
      else matched

  abbrev restore_each : List Text → Text → Text
  restore_each [] restored = restored
  restore_each (literal ∷ literals) restored = restore_each literals (
      if has_digit_and_letter x literal && x.is_plain literal
      then x.replace_like literal (restore_candidate literal) restored
      else restored)

  unfoldable pub restore_question_literal_fidelity : Text → Text → Text
  unfolding distinct_literals
  restore_question_literal_fidelity question answer =
      restore_each (distinct_literals x.literals_of question) answer

  -- The meanings of the channels from a position on; none where one is missing.
  abbrev meanings_from : ℕ → ℕ → Text → Option (List (Text × Text))
  meanings_from zero position context = some []
  meanings_from (suc count) position context = elim (x.channel_meaning position context) [
    | none ↦ none
    | some meaning ↦ elim (meanings_from count (position + 1) context) [
      | none ↦ none
      | some meanings ↦ some (meaning ∷ meanings)
    ]
  ]

  -- The lines of the channels: the character of the field and what it means.
  abbrev channel_lines : ℕ → Text → Text → List (Text × Text) → List Text
  channel_lines position citation expected [] = []
  channel_lines position citation [] (meaning ∷ meanings) = []
  channel_lines position citation (c ∷ expected) ((korean, english) ∷ meanings) =
      (codes "* **채널 "
        ++ str_nat position
        ++ codes "**: "
        ++ c ∷ codes " ("
        ++ korean
        ++ codes " / "
        ++ english
        ++ codes ")"
        ++ citation)
      ∷ channel_lines (position + 1) citation expected meanings

  abbrev replace_lines : ℕ → List Text → Text → Text
  replace_lines position [] answer = answer
  replace_lines position (line ∷ lines) answer =
      replace_lines (position + 1) lines (x.replace_channel_line position line answer)

  -- The answer with the section of the channels, or each channel's line, rewritten.
  unfoldable pub positional_answer : Text → Text → List (Text × Text) → Text
  unfolding str_nat join
  positional_answer answer expected meanings =
      let citation : Text = elim (x.source_citation answer) [ none ↦ [] | some c ↦ 32 ∷ c ] in
      let lines = channel_lines 1 citation expected meanings in
      let heading =
        codes "**1. 채널별 상태 해석**"
        ∷ (codes "`" ++ expected ++ codes "`의 각 위치는 다음 상태를 의미합니다." ++ citation)
        ∷ [] in
      let normalized =
        if x.has_section answer
        then x.replace_section (join newline (heading ++ lines) ++ newline) answer
        else replace_lines 1 lines answer in
      x.fix_channel_word (
        x.replace_fields (λ candidate. if uses_only candidate expected then expected else candidate)
          normalized)

  unfoldable pub normalize_positional_channel_answer : (question answer context : Text) → Text
  unfolding positional_answer expected_field
  normalize_positional_channel_answer question answer context = elim (expected_field x question) [
    | none ↦ answer
    | some (n, expected) ↦ elim (meanings_from n 1 context) [
      | none ↦ answer
      | some meanings ↦ positional_answer answer expected meanings
    ]
  ]
