-- ===== src/Coverage/Response.antt =====
-- `_parse_coverage_response`: the model's judgement, tied to the planned goals and the chunks of
-- the search. Regular expressions, `json.loads` and the Unicode tables are parameters.
use mini_nblm_proto.Prelude.{
  ℕ, ◌+◌, Bool, true, false, ◌||◌, not, Option, none, some, List, [], ◌∷◌, ◌++◌, map, nat_eq,
  if◌then◌else◌, length, take, is_empty, any, ◌==◌, contains, ℕ-Eq, list-Eq, pair-Eq, option-Eq,
  Result, ok, err, ◌>>=◌, ◌>>◌, guard,
}
use mini_nblm_proto.Prelude.Int.{pos, negsuc}
use mini_nblm_proto.Text.{Text, codes, strip, normalize_space, replace_char, starts_with}
use mini_nblm_proto.Json.{Json, int, str, arr, obj, nil, Fields, get_or, get_null, items}
use mini_nblm_proto.Evidence.{RetrievedChunk, EvidenceReference, GoalStatus}
use mini_nblm_proto.Retrieval.Queries.{EvidenceGoal}

pub record Reading : Type 0 where
  -- the two substitutions that take a code fence away
  pub strip_fence : Text → Text
  -- `json.loads`; `none` is a `JSONDecodeError`
  pub loads : Text → Option Json
  pub casefold : Text → Text
  -- `str.isdecimal`, and `int` of such a text
  pub is_decimal : Text → Bool
  pub int_of : Text → ℕ

pub record GoalCoverage : Type 0 where
  pub goal_id : Text
  pub description : Text
  pub status : GoalStatus
  pub evidence : List EvidenceReference
  pub retry_queries : List Text

-- `EvidenceCoverageAssessment`
abbrev pub Assessment : Type 0
Assessment = List GoalCoverage

-- The reasons for a `ValueError`.
pub data CoverageError : Type 0 where
  not_json_object wrong_goal_count not_an_object unknown_goal_id : CoverageError
  ids_not_array not_an_integer unknown_chunk_id invalid_status : CoverageError
  no_evidence_cited missing_cites_evidence invalid_retry_queries goal_not_returned : CoverageError

abbrev pub is_supported : GoalStatus → Bool
is_supported GoalStatus.supported = true
is_supported _ = false

abbrev pub is_missing : GoalStatus → Bool
is_missing GoalStatus.missing = true
is_missing _ = false

-- A lookup in a dict made from a list: the last entry of a key wins.
unfoldable pub find_last : {A : Type 0} → (A → Bool) → List A → Option A
find_last p [] = none
find_last p (x ∷ xs) =
    let here = if p x then some x else none in
    elim (find_last p xs) [ none ↦ here | some y ↦ some y ]

-- The words that are read as each status.
abbrev status_of : Text → Result CoverageError GoalStatus
status_of t =
    if contains (map codes ("supported" ∷ "complete" ∷ "fully_supported" ∷ "sufficient" ∷ [])) t
    then ok GoalStatus.supported
    else if contains (map codes ("partial" ∷ "partially_supported" ∷ "insufficient" ∷ [])) t
    then ok GoalStatus.partial
    else if contains (map codes ("missing" ∷ "unsupported" ∷ "not_found" ∷ [])) t
    then ok GoalStatus.missing
    else if t == codes "contradicted"
    then ok GoalStatus.contradicted
    else err invalid_status

module _ (x : Reading) where
  unfoldable pub parse_json_object : Text → Result CoverageError Fields
  unfolding strip starts_with
  parse_json_object response =
      let candidate = strip response in
      let unfenced =
        if starts_with (codes "```") candidate then x.strip_fence candidate else candidate in
      elim (x.loads unfenced) [ some (obj payload) ↦ ok payload | _ ↦ err not_json_object ]

  unfoldable pub parse_status : Json → Result CoverageError GoalStatus
  unfolding strip
  parse_status (str t) = status_of (replace_char 45 95 (replace_char 32 95 (x.casefold (strip t))))
  parse_status _ = err invalid_status

  -- The loop over the retry queries, with the number and the keys of those kept.
  unfoldable pub retry_queries_from : ℕ → List Text → List Json → Result CoverageError (List Text)
  unfolding normalize_space
  retry_queries_from count seen [] = ok []
  retry_queries_from count seen (str value ∷ values) =
      let query = normalize_space value in
      let key = x.casefold query in
      let skipped = retry_queries_from count seen values in
      let more = retry_queries_from (count + 1) (key ∷ seen) values in
      if is_empty query || contains seen key
      then skipped
      else if nat_eq (count + 1) 3
      then ok (take 500 query ∷ [])
      else more >>= λ queries. ok (take 500 query ∷ queries)
  retry_queries_from count seen (_ ∷ values) = err invalid_retry_queries

  unfoldable pub normalize_retry_queries : Json → Result CoverageError (List Text)
  unfolding retry_queries_from
  normalize_retry_queries (arr values) = retry_queries_from 0 [] (items values)
  normalize_retry_queries _ = err invalid_retry_queries

  module _ {S : Type 0} (goals : List EvidenceGoal) (chunks : List (RetrievedChunk S)) where
    abbrev pub chunk_with : ℕ → Option (RetrievedChunk S)
    chunk_with n = find_last (λ (c : RetrievedChunk S). nat_eq c.chunk_id n) chunks

    -- The value of one cited id, before the chunk is looked up.
    abbrev pub id_value : Json → Result CoverageError ℕ
    id_value (str t) = if x.is_decimal t then ok (x.int_of t) else err not_an_integer
    id_value (int (pos n)) = ok n
    id_value (int (negsuc n)) = err unknown_chunk_id
    id_value _ = err not_an_integer

    -- A cited chunk: skipped where it is cited already.
    abbrev pub cite :
        Bool
        → ℕ
        → RetrievedChunk S
        → (skipped more : Result CoverageError (List EvidenceReference))
        → Result CoverageError (List EvidenceReference)
    cite true n chunk skipped more = skipped
    cite false n chunk skipped more = more >>= λ references. ok (
        record {
          chunk_id = n;
          document_title = chunk.document_title;
          page_start = chunk.page_start;
          page_end = chunk.page_end;
        }
        ∷ references)

    -- The loop over the cited ids: each chunk once, in order, with the ids cited so far.
    unfoldable pub references_from :
        List ℕ → List Json → Result CoverageError (List EvidenceReference)
    unfolding find_last
    references_from cited [] = ok []
    references_from cited (raw ∷ raws) = id_value raw >>= λ n. elim (chunk_with n) [
      | none ↦ err unknown_chunk_id
      | some chunk ↦
          cite (contains cited n) n chunk (references_from cited raws)
            (references_from (n ∷ cited) raws)
    ]

    abbrev pub parse_references : Json → Result CoverageError (List EvidenceReference)
    parse_references (arr values) = references_from [] (items values)
    parse_references _ = err ids_not_array

    abbrev pub goal_id_of : Json → Text
    goal_id_of (str t) = x.casefold (strip t)
    goal_id_of _ = []

    -- One result, with the goals parsed before it.
    unfoldable pub parse_goal : List GoalCoverage → Json → Result CoverageError GoalCoverage
    parse_goal parsed (obj raw) = do
      let goal_id = goal_id_of (get_null (codes "goal_id") raw)
      guard (not (any (λ (c : GoalCoverage). c.goal_id == goal_id) parsed)) unknown_goal_id
      description ← elim (find_last (λ (g : EvidenceGoal). g.goal_id == goal_id) goals) [
        | none ↦ err unknown_goal_id
        | some goal ↦ ok goal.description
      ]
      evidence ← parse_references (get_or (codes "evidence_chunk_ids") (arr nil) raw)
      status ← parse_status (get_null (codes "status") raw)
      guard (is_missing status || not (is_empty evidence)) no_evidence_cited
      guard (not (is_missing status) || is_empty evidence) missing_cites_evidence
      retry_queries ← normalize_retry_queries (get_or (codes "retry_queries") (arr nil) raw)
      ok (record {
        goal_id = goal_id;
        description = description;
        status = status;
        evidence = evidence;
        retry_queries = retry_queries;
      })
    parse_goal parsed _ = err not_an_object

    unfoldable pub parse_results :
        List GoalCoverage → List Json → Result CoverageError (List GoalCoverage)
    parse_results parsed [] = ok parsed
    parse_results parsed (raw ∷ raws) =
        parse_goal parsed raw >>= λ c. parse_results (parsed ++ c ∷ []) raws

    -- The results in the order of the goals: each goal must be among them.
    unfoldable pub in_order :
        List GoalCoverage → List EvidenceGoal → Result CoverageError Assessment
    in_order parsed [] = ok []
    in_order parsed (goal ∷ rest) =
        elim (find_last (λ (c : GoalCoverage). c.goal_id == goal.goal_id) parsed) [
          | none ↦ err goal_not_returned
          | some c ↦ in_order parsed rest >>= λ assessment. ok (c ∷ assessment)
        ]

    unfoldable pub parse_payload : Json → Result CoverageError Assessment
    parse_payload (arr raws) = do
      guard (nat_eq (length (items raws)) (length goals)) wrong_goal_count
      parsed ← parse_results [] (items raws)
      in_order parsed goals
    parse_payload _ = err wrong_goal_count

    unfoldable pub parse_coverage_response : Text → Result CoverageError Assessment
    parse_coverage_response response =
        parse_json_object response >>= λ payload. parse_payload (get_null (codes "goals") payload)
