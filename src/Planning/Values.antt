-- ===== src/Planning/Values.antt =====
-- The values of a planned goal, recovered from a model's JSON. Regular expressions, the decoder and the
-- Unicode tables are parameters.
use mini_nblm_proto.Prelude.{
  ℕ, Bool, false, ◌&&◌, ◌||◌, not, Option, none, some, List, [], ◌∷◌, reverse, leb, nat_eq,
  if◌then◌else◌, is_some, or_else, length, take, is_empty, any, all, ℕ-Eq, list-Eq, pair-Eq,
  option-Eq,
}
use mini_nblm_proto.Prelude.Dedup.{keep_new}
use mini_nblm_proto.Text.{Text, codes, strip, rstrip, normalize_space, starts_with, str_nat}
use mini_nblm_proto.Json.{
  Json, null, str, Fields, get_null, entries, is_truthy, show_json, as_text, as_list, as_object,
}

abbrev pub max_retrieval_query_chars : ℕ
max_retrieval_query_chars = 500

abbrev pub max_queries_per_goal : ℕ
max_queries_per_goal = 3

pub record Decoding : Type 0 where
  -- the two substitutions that take a code fence away
  pub strip_fence : Text → Text
  -- `JSONDecoder.raw_decode` at the start of a text; `none` is a `JSONDecodeError`
  pub raw_decode : Text → Option Json
  pub casefold : Text → Text
  pub splitlines : Text → List Text
  -- `str` of a value that is no string
  pub str_of : Json → Text
  -- `STRUCTURED_FRAGMENT_PATTERN.match`
  pub is_fragment : Text → Bool
  -- `QUERY_LABEL_PATTERN.match`, and its substitution by nothing
  pub has_label : Text → Bool
  pub strip_label : Text → Text

abbrev is_quote : ℕ → Bool
is_quote c = nat_eq c 34 || nat_eq c 39

unfoldable pub lstrip_quotes : Text → Text
lstrip_quotes [] = []
lstrip_quotes (c ∷ t) = if is_quote c then lstrip_quotes t else c ∷ t

-- `t.strip('"\'')`
unfoldable pub strip_quotes : Text → Text
unfolding lstrip_quotes
strip_quotes t = reverse (lstrip_quotes (reverse (lstrip_quotes t)))

-- The first value of an entry that a test accepts.
abbrev pub first_value : (Text → Json → Bool) → List (Text × Json) → Option Json
first_value p [] = none
first_value p ((key, v) ∷ fields) = if p key v then some v else first_value p fields

-- `GOAL_ID_PATTERN.fullmatch`: a letter, then at most 31 of letters, digits, `_` and `-`.
abbrev pub is_lower : ℕ → Bool
is_lower c = leb 97 c && leb c 122

abbrev pub is_id_char : ℕ → Bool
is_id_char c = is_lower c || (leb 48 c && leb c 57) || nat_eq c 95 || nat_eq c 45

unfoldable pub is_goal_id : Text → Bool
is_goal_id [] = false
is_goal_id (c ∷ t) = is_lower c && all is_id_char t && leb (length t) 31

module _ (x : Decoding) where
  unfoldable pub normalize_query_value : Json → Text
  unfolding normalize_space strip strip_quotes rstrip
  normalize_query_value (str value) =
      let normalized = strip_quotes (strip (normalize_space value)) in
      if is_empty normalized || x.is_fragment normalized
      then []
      else rstrip (take max_retrieval_query_chars normalized)
  normalize_query_value _ = []

  unfoldable pub deduplicate_queries : List Text → List Text
  unfolding keep_new
  deduplicate_queries queries = keep_new x.casefold (λ query. not (is_empty query)) [] queries

  abbrev is_object : Json → Bool
  is_object v = is_some (as_object v)

  abbrev key_starts : Text → Text → Bool
  key_starts part key = starts_with part (x.casefold key)

  -- The objects under a key that starts with "goal".
  abbrev nested_goals : List (Text × Json) → List Fields
  nested_goals [] = []
  nested_goals ((key, v) ∷ fields) =
      let rest = nested_goals fields in
      elim (as_object v) [
        | none ↦ rest
        | some d ↦ if key_starts (codes "goal") key then d ∷ rest else rest
      ]

  abbrev only_one : Fields → List Fields → Fields
  only_one raw_goal (d ∷ []) = d
  only_one raw_goal _ = raw_goal

  unfoldable pub goal_object : Fields → Fields
  unfolding starts_with
  goal_object raw_goal =
      let has_goal_fields =
        any
          (λ (f : Text × Json).
            (key_starts (codes "goal") f.0
              || key_starts (codes "description") f.0
              || key_starts (codes "quer") f.0)
            && not (is_object f.1))
          (entries raw_goal) in
      if has_goal_fields then raw_goal else only_one raw_goal (nested_goals (entries raw_goal))

  unfoldable pub goal_field : Fields → Text → Json
  unfolding starts_with
  goal_field raw_goal name = elim (get_null name raw_goal) [
    | null ↦
        or_else
          (first_value (λ key v. starts_with (x.casefold name) (x.casefold key)) (entries raw_goal))
          null
    | value ↦ value
  ]

  -- The value that an id is made from.
  abbrev id_source : Fields → Json → Json
  id_source raw_goal null =
      or_else
        (first_value (λ key v. key_starts (codes "goal") key && is_some (as_text v))
          (entries raw_goal))
        null
  id_source raw_goal value = value

  unfoldable pub goal_id : Fields → ℕ → Text
  unfolding goal_field strip is_goal_id str_nat
  goal_id raw_goal position =
      let value = id_source raw_goal (goal_field raw_goal (codes "goal_id")) in
      let shown = if is_truthy value then show_json x.str_of value else [] in
      let id = x.casefold (strip shown) in if is_goal_id id then id else 103 ∷ str_nat position

  -- The candidates: the values of a list, or the one value, without `None`.
  abbrev pub raw_queries : Json → List Json
  raw_queries value = or_else (as_list value) (value ∷ [])

  abbrev pub query_texts : List Json → List Text
  query_texts [] = []
  query_texts (null ∷ values) = query_texts values
  query_texts (value ∷ values) = normalize_query_value value ∷ query_texts values

  unfoldable pub goal_queries : Fields → List Text
  unfolding goal_field normalize_query_value deduplicate_queries
  goal_queries raw_goal =
      take max_queries_per_goal
        (deduplicate_queries (query_texts (raw_queries (goal_field raw_goal (codes "queries")))))
