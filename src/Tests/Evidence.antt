-- ===== src/Tests/Evidence.antt =====
-- Planning and evidence coverage on concrete answers of a model.
use mini_nblm_proto.Prelude.{
  ℕ, ◌≤◌, min, ◌≡◌, refl, ◌↔◌, Bool, true, false, Option, none, some, List, [], ◌∷◌, map, leb→le,
  length, All, Distinct, ℕ-Eq, list-Eq, pair-Eq, option-Eq, Result, ok, err,
}
use mini_nblm_proto.Text.{Text, codes, lstrip, rstrip, strip, is_space, starts_with}
use mini_nblm_proto.Json.{Json, Fields, arr, cons, dict, end, get, get_or, nil, obj, text, nat}
use mini_nblm_proto.Evidence.{RetrievedChunk, EvidenceMatrix, GoalStatus, complete}
use mini_nblm_proto.Retrieval.Queries.{EvidenceGoal}
use mini_nblm_proto.Coverage.{
  Completion, CoverageEvent, complete_evidence_coverage, missing_argument, record_assessment,
  retry_goals, retry_loop, retry_round, sufficient,
}
use mini_nblm_proto.Coverage.Response.{
  Assessment, Reading, find_last, in_order, normalize_retry_queries, parse_coverage_response,
  parse_goal, parse_json_object, parse_payload, parse_results, parse_status, references_from,
  retry_queries_from,
}
use mini_nblm_proto.Coverage.Request.{assess_evidence_coverage, coverage_request}
use mini_nblm_proto.Coverage.Merge.{merge_from, merge_retry_chunks}
use mini_nblm_proto.Coverage.Completed.{IsCompleted, complete_evidence_coverage-IsCompleted}
use mini_nblm_proto.Coverage.Parsed.{AreJudged, parse_coverage_response-AreJudged}
use mini_nblm_proto.Coverage.Returns.{complete_evidence_coverage-err}
use mini_nblm_proto.Coverage.Matrix.{Conversions, build_evidence_matrix}
use mini_nblm_proto.Coverage.Recorded.{rows, build_evidence_matrix-record_assessment}
use mini_nblm_proto.Planning.Values.{Decoding, goal_id, goal_object, goal_queries}
use mini_nblm_proto.Planning.Allocation.{ParsedGoal, allocate}
use mini_nblm_proto.Planning.Shared.{TookFirst, goals_of, taken_count}
use mini_nblm_proto.Planning.Allocated.{all_queries, allocate-min}
use mini_nblm_proto.Planning.Payload
use mini_nblm_proto.Planning.Payload.{
  best_payload, parse_goals, payloads, RetrievalQueryPlan, normalize_query_plan, plan_queries,
}
use mini_nblm_proto.Planning.Planned.{IsPlan, IsSearchPlan, normalize_query_plan-IsSearchPlan}
use mini_nblm_proto.Planning.{plan_retrieval_queries}
use mini_nblm_proto.Planning.Always.{plan_retrieval_queries-IsPlan}

abbrev chunk : ℕ → RetrievedChunk ℕ
chunk i = record {
  chunk_id = i;
  document_id = 1;
  document_title = codes "manual";
  content = codes "text";
  page_start = some 3;
  page_end = some 4;
  score = 5;
  source_refs = end;
  content_type = codes "text";
}

abbrev goal : EvidenceGoal
goal = record { goal_id = codes "g1"; description = codes "speed"; queries = codes "speed" ∷ [] }

-- `{"goals": [{"goal_id": "g1", "evidence_chunk_ids": [2], "status": "complete"}]}`
abbrev judgement : Json
judgement = obj (
    dict (
      (
        codes "goals",
        arr (
            cons
              (obj (
                dict (
                  (codes "goal_id", text "g1")
                  ∷ (codes "evidence_chunk_ids", arr (cons (nat 2) nil))
                  ∷ (codes "status", text "complete")
                  ∷ [])))
              nil),
      )
      ∷ []))

abbrev reading : Reading
reading = record {
  strip_fence = λ t. t;
  loads = λ t. some judgement;
  casefold = λ t. t;
  is_decimal = λ t. false;
  int_of = λ t. 0;
}

abbrev two_chunks : List (RetrievedChunk ℕ)
two_chunks = chunk 1 ∷ chunk 2 ∷ []

abbrev accepted : Assessment
accepted =
    record {
      goal_id = codes "g1";
      description = codes "speed";
      status = GoalStatus.supported;
      evidence =
          record {
            chunk_id = 2;
            document_title = codes "manual";
            page_start = some 3;
            page_end = some 4;
          }
          ∷ [];
      retry_queries = [];
    }
    ∷ []

accepted_is : parse_coverage_response reading (goal ∷ []) two_chunks (codes "{}") ≡ ok accepted
unfolding parse_coverage_response parse_json_object parse_payload parse_results parse_goal
    parse_status references_from retry_queries_from normalize_retry_queries in_order find_last strip
    lstrip rstrip is_space starts_with get_or get
accepted_is = refl

parse_coverage_response-AreJudged_example :
    AreJudged reading (goal ∷ []) two_chunks (goal ∷ []) accepted
parse_coverage_response-AreJudged_example =
    parse_coverage_response-AreJudged reading (goal ∷ []) two_chunks (codes "{}") accepted
      accepted_is

abbrev conversions : Conversions
conversions = record { str_of = λ j. []; int_of = λ j. none }

build_evidence_matrix-record_assessment_example :
    (matrix : EvidenceMatrix) × (build_evidence_matrix conversions
        (goal ∷ [])
        (record_assessment [] 0 (goal ∷ []) (some accepted))
      ≡ ok matrix)
    × (matrix.goals ≡ rows (goal ∷ []) accepted)
    × ((matrix.status ≡ complete) ↔ (sufficient accepted ≡ true))
build_evidence_matrix-record_assessment_example =
    build_evidence_matrix-record_assessment conversions reading (goal ∷ []) two_chunks [] 0
      (goal ∷ []) accepted refl
      (parse_coverage_response-AreJudged reading (goal ∷ []) two_chunks (codes "{}") accepted
        accepted_is)
      (refl, tt) refl

-- A model that does not answer, and a search that finds nothing.
abbrev silent : ℕ → Text → Option Text
silent n prompt = none

abbrev nothing_found : ℕ → List EvidenceGoal → Result Text (List (RetrievedChunk ℕ))
nothing_found n goals = ok []

-- `{"goals": [{"goal_id": "g1", "status": "missing"}]}`
abbrev missing_judgement : Json
missing_judgement = obj (
    dict (
      (
        codes "goals",
        arr (
            cons (obj (dict ((codes "goal_id", text "g1") ∷ (codes "status", text "missing") ∷ [])))
              nil),
      )
      ∷ []))

abbrev missing_reading : Reading
missing_reading = record {
  strip_fence = λ t. t;
  loads = λ t. some missing_judgement;
  casefold = λ t. t;
  is_decimal = λ t. false;
  int_of = λ t. 0;
}

abbrev answering : ℕ → Text → Option Text
answering n prompt = some (codes "{}")

-- Every search finds the second chunk.
abbrev second_found : ℕ → List EvidenceGoal → Result Text (List (RetrievedChunk ℕ))
second_found n goals = ok (chunk 2 ∷ [])

abbrev missing_result : Fields
missing_result = dict (
    (codes "goal_id", text "g1")
    ∷ (codes "description", text "speed")
    ∷ (codes "status", text "missing")
    ∷ (codes "evidence", arr nil)
    ∷ (codes "retry_queries", arr nil)
    ∷ [])

abbrev missing_event : ℕ → CoverageEvent
missing_event n = dict (
    (codes "attempt", nat n)
    ∷ (codes "status", text "insufficient")
    ∷ (codes "goals", arr (cons (obj missing_result) nil))
    ∷ [])

abbrev searched_twice : Completion ℕ
searched_twice = record {
  chunks = two_chunks;
  actions = 2;
  events = missing_event 0 ∷ missing_event 1 ∷ missing_event 2 ∷ [];
}

twice :
    complete_evidence_coverage missing_reading answering second_found (goal ∷ []) (chunk 1 ∷ [])
    ≡ ok searched_twice
unfolding complete_evidence_coverage assess_evidence_coverage parse_coverage_response
    parse_json_object parse_payload get_or parse_results parse_goal find_last references_from
    parse_status normalize_retry_queries in_order sufficient retry_loop retry_goals retry_round
    merge_retry_chunks merge_from coverage_request retry_queries_from record_assessment get is_space
    lstrip rstrip starts_with strip
twice = refl

complete_evidence_coverage-IsCompleted_example : IsCompleted (chunk 1 ∷ []) 2 searched_twice
complete_evidence_coverage-IsCompleted_example =
    complete_evidence_coverage-IsCompleted missing_reading answering second_found (goal ∷ [])
      (chunk 1 ∷ []) searched_twice
      (record { once = (refl, tt); count = leb→le _ 16 refl; chars = leb→le _ 24000 refl }) twice

complete_evidence_coverage-err_example :
    (complete_evidence_coverage reading silent nothing_found (goal ∷ []) []
      ≡ err (missing_argument (codes "question")))
    ↔ ((◌≡◌ {A = Bool} false false)
        × (◌≡◌ {A = Bool} true true)
        × (missing_argument (codes "question") ≡ missing_argument (codes "question")))
complete_evidence_coverage-err_example =
    complete_evidence_coverage-err reading (goal ∷ []) silent nothing_found (λ n wanted. tt) []
      (missing_argument (codes "question"))

abbrev parsed : Text → List Text → ParsedGoal
parsed id queries = record { goal_id = id; description = codes "speed"; queries = queries }

abbrev three_goals : List ParsedGoal
three_goals =
    parsed (codes "a") (codes "p" ∷ codes "q" ∷ codes "r" ∷ [])
    ∷ parsed (codes "b") (codes "s" ∷ codes "t" ∷ [])
    ∷ parsed (codes "c") (codes "u" ∷ codes "v" ∷ [])
    ∷ []

allocate-min_example :
    (goals_of (allocate three_goals) ≡ three_goals)
    × All TookFirst (allocate three_goals)
    × (taken_count (allocate three_goals) ≡ min 5 (all_queries three_goals))
allocate-min_example =
    allocate-min three_goals (leb→le 1 3 refl, (leb→le 1 2 refl, (leb→le 1 2 refl, tt)))
      (leb→le 3 5 refl)

abbrev silent_decoding : Decoding
silent_decoding = record {
  strip_fence = λ t. t;
  raw_decode = λ t. none;
  casefold = λ t. t;
  splitlines = λ t. t ∷ [];
  str_of = λ j. [];
  is_fragment = λ t. false;
  has_label = λ t. false;
  strip_label = λ t. t;
}

-- `{"standalone_query": "speed", "evidence_goals": [{"goal_id": "g1", "queries": ["speed"]}]}`
abbrev plan_json : Json
plan_json = obj (
    dict (
      (codes "standalone_query", text "speed")
      ∷ (
        codes "evidence_goals",
        arr (
            cons
              (obj (
                dict (
                  (codes "goal_id", text "g1")
                  ∷ (codes "queries", arr (cons (text "speed") nil))
                  ∷ [])))
              nil),
      )
      ∷ []))

abbrev decoding : Decoding
decoding = record silent_decoding { raw_decode = λ t. some plan_json }

abbrev planned_speed : RetrievalQueryPlan
planned_speed = record {
  standalone_query = codes "speed";
  goals =
      record { goal_id = codes "g1"; description = codes "speed"; queries = codes "speed" ∷ [] }
      ∷ [];
}

planned_is : normalize_query_plan decoding (codes "{}") (codes "x") ≡ ok planned_speed
unfolding normalize_query_plan Payload.parse_json_object payloads starts_with strip get_or
    best_payload parse_goals Payload.parse_goal goal_queries goal_object allocate goal_id
planned_is = refl

normalize_query_plan-IsSearchPlan_example : IsSearchPlan planned_speed
normalize_query_plan-IsSearchPlan_example =
    normalize_query_plan-IsSearchPlan decoding (codes "{}") (codes "x") planned_speed planned_is

plan_retrieval_queries-IsPlan_example :
    IsPlan (plan_retrieval_queries silent_decoding (λ h t. none) (λ t. none) (codes "speed") [])
    × Distinct (
        map
          (λ t. t)
          (plan_queries silent_decoding
            (plan_retrieval_queries silent_decoding (λ h t. none) (λ t. none) (codes "speed") [])))
    × (length (
          plan_queries silent_decoding
            (plan_retrieval_queries silent_decoding (λ h t. none) (λ t. none) (codes "speed") []))
        ≤ 6)
plan_retrieval_queries-IsPlan_example =
    plan_retrieval_queries-IsPlan silent_decoding (λ h t. none) (λ t. none) (codes "speed") []
