-- ===== src/Generation/Literals.antt =====
-- The literals of a question, such as `FP3C 01`, which an answer must spell as the question does: three
-- repairs of app/services/generator.py. Regular expressions and the Unicode tables are parameters.
use mini_nblm_proto.Prelude.{
  ℕ, ◌+◌, ◌-◌, Bool, ◌&&◌, not, Option, none, some, List, [], ◌∷◌, ◌++◌, nat_eq, if◌then◌else◌,
  or_else, length, get_elem?, is_empty, any, all, ◌==◌, contains, ℕ-Eq, list-Eq, pair-Eq, option-Eq,
}
use mini_nblm_proto.Text.{Text, codes, join, str_nat, words_from}

pub record LiteralPatterns : Type 0 where
  -- `BACKTICK_LITERAL_PATTERN.findall`
  pub literals_of : Text → List Text
  pub is_digit : ℕ → Bool
  pub is_alpha : ℕ → Bool
  pub upper : Text → Text
  -- the number in a match of `CHANNEL_RANGE_PATTERN`
  pub channel_range : Text → Option ℕ
  -- `SOURCE_CITATION_PATTERN.search`, and a match of a citation in brackets
  pub has_source_citation : Text → Bool
  pub source_citation : Text → Option Text
  -- the meaning of a channel in the context: the Korean and the English words, stripped
  pub channel_meaning : ℕ → Text → Option (Text × Text)
  -- the section of the channels in an answer, and its substitution
  pub has_section : Text → Bool
  pub replace_section : Text → Text → Text
  -- the first line about a channel, replaced
  pub replace_channel_line : ℕ → Text → Text → Text
  pub replace_fields : (Text → Text) → Text → Text
  pub fix_channel_word : Text → Text
  -- the candidates of `malformed_fields`, and the character that an answer gives a channel
  pub malformed_fields : Text → List Text
  pub channel_character : ℕ → Text → Text → Option Text
  -- `re.fullmatch` of a plain literal, the substitution of what looks like it, and the one of white space
  pub is_plain : Text → Bool
  pub replace_like : Text → (Text → Text) → Text → Text
  pub squeeze : Text → Text

-- `set(a) <= set(b)`
abbrev pub uses_only : Text → Text → Bool
uses_only a b = all (contains b) a

abbrev quoted : Text → Text
quoted t = codes "`" ++ t ++ codes "`"

-- `LITERAL_CONFUSION_PAIRS`, each pair in one order
abbrev pub literal_confusion_pairs : List (Text × Text)
literal_confusion_pairs =
    (codes "I", codes "L")
    ∷ (codes "I", codes "1")
    ∷ (codes "L", codes "1")
    ∷ (codes "O", codes "0")
    ∷ (codes "B", codes "8")
    ∷ (codes "S", codes "5")
    ∷ (codes "Z", codes "2")
    ∷ []

abbrev pub korean_ordinals : List Text
korean_ordinals = codes "첫" ∷ codes "두" ∷ codes "세" ∷ codes "네" ∷ codes "다섯" ∷ []

module _ (x : LiteralPatterns) where
  abbrev pub has_digit_and_letter : Text → Bool
  has_digit_and_letter literal = any x.is_digit literal && any x.is_alpha literal

  -- The fields of the literals with this many letters and nothing else.
  abbrev channel_fields : ℕ → List Text → List Text
  channel_fields n [] = []
  channel_fields n (field ∷ fields) =
      let rest = channel_fields n fields in
      if nat_eq (length field) n && not (is_empty field) && all x.is_alpha field
      then field ∷ rest
      else rest

  abbrev all_words : List Text → List Text
  all_words [] = []
  all_words (literal ∷ literals) = words_from [] literal ++ all_words literals

  -- The single field with one letter for each channel, in upper case.
  abbrev only_field : List Text → Option Text
  only_field (field ∷ []) = some (x.upper field)
  only_field _ = none

  unfoldable pub expected_field : Text → Option (ℕ × Text)
  unfolding words_from
  expected_field question = elim (x.channel_range question) [
    | none ↦ none
    | some n ↦ elim (only_field (channel_fields n (all_words (x.literals_of question)))) [
      | none ↦ none
      | some field ↦ some (n, field)
    ]
  ]

  abbrev field_errors : Text → List Text → List Text
  field_errors expected [] = []
  field_errors expected (candidate ∷ candidates) =
      let rest = field_errors expected candidates in
      if not (candidate == expected) && uses_only candidate expected
      then (codes "Positional field "
          ++ quoted candidate
          ++ codes " must be "
          ++ quoted expected
          ++ codes ".")
        ∷ rest
      else rest

  -- The loop over the characters of the field, from a position on.
  abbrev channel_errors : ℕ → Text → Text → List Text
  channel_errors position [] answer = []
  channel_errors position (c ∷ expected) answer =
      let rest = channel_errors (position + 1) expected answer in
      let ordinal = or_else (get_elem? korean_ordinals (position - 1)) [] in
      elim (x.channel_character position ordinal answer) [
        | none ↦ rest
        | some found ↦
            let actual = x.upper found in
            if actual == c ∷ []
            then rest
            else (codes "Channel "
                ++ str_nat position
                ++ codes " must start with "
                ++ quoted (c ∷ [])
                ++ codes ", not "
                ++ quoted actual
                ++ codes ".")
              ∷ rest
      ]

  unfoldable pub literal_position_errors : Text → Text → List Text
  unfolding expected_field str_nat
  literal_position_errors question answer = elim (expected_field question) [
    | none ↦ []
    | some (n, expected) ↦
        field_errors expected (x.malformed_fields answer) ++ channel_errors 1 expected answer
  ]

  -- `position {position}=`{character}`` for each character.
  abbrev positions_from : ℕ → Text → List Text
  positions_from position [] = []
  positions_from position (c ∷ field) =
      (codes "position " ++ str_nat position ++ codes "=" ++ quoted (c ∷ []))
      ∷ positions_from (position + 1) field

  abbrev field_maps_from : ℕ → Text → List Text → List Text
  field_maps_from index literal [] = []
  field_maps_from index literal (field ∷ fields) =
      (codes "- "
        ++ quoted literal
        ++ codes " field "
        ++ str_nat index
        ++ codes ": "
        ++ join (codes ", ") (positions_from 1 field))
      ∷ field_maps_from (index + 1) literal fields

  unfoldable pub field_maps : List Text → List Text
  unfolding str_nat join words_from
  field_maps [] = []
  field_maps (literal ∷ literals) =
      field_maps_from 1 literal (words_from [] literal) ++ field_maps literals
