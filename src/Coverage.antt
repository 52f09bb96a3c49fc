-- ===== src/Coverage.antt =====
-- app/services/evidence_coverage.py: the model judges whether the chunks answer each goal, and missing
-- evidence is searched again within a budget of two actions.
pub mod Response
pub mod Request
pub mod Lookup
pub mod Cited
pub mod Merge
pub mod Parsed
pub mod Completed
pub mod Planned
pub mod Returns
pub mod Matrix
pub mod Dicts
pub mod Recorded
use mini_nblm_proto.Prelude.{
  ℕ, zero, suc, ◌+◌, Bool, ◌&&◌, not, Option, none, some, List, [], ◌∷◌, ◌++◌, map, if◌then◌else◌,
  is_empty, all, ◌==◌, ℕ-Eq, list-Eq, pair-Eq, option-Eq, Result, ok, err, ◌>>=◌,
}
use mini_nblm_proto.Text.{Text, codes}
use mini_nblm_proto.Json.{Json, null, str, arr, obj, Fields, dict, nat, from_list}
use mini_nblm_proto.Evidence.{RetrievedChunk, EvidenceReference, GoalStatus}
use mini_nblm_proto.Retrieval.Queries.{EvidenceGoal}
use mini_nblm_proto.Coverage.Response.{GoalCoverage, Assessment, Reading, find_last, is_supported}
use mini_nblm_proto.Coverage.Request.{Chat, assess_evidence_coverage}
use mini_nblm_proto.Coverage.Merge.{merge_retry_chunks}

abbrev pub max_retrieval_actions : ℕ
max_retrieval_actions = 2

unfoldable pub sufficient : Assessment → Bool
sufficient assessment =
    not (is_empty assessment) && all (λ goal. is_supported goal.status) assessment

-- An event of the trace is a dict.
abbrev pub CoverageEvent : Type 0
CoverageEvent = Fields

abbrev pub status_text : GoalStatus → Text
status_text GoalStatus.supported = codes "supported"
status_text GoalStatus.partial = codes "partial"
status_text GoalStatus.missing = codes "missing"
status_text GoalStatus.contradicted = codes "contradicted"
status_text GoalStatus.unchecked = codes "unchecked"

-- A page number, or `None`.
abbrev page_json : Option ℕ → Json
page_json none = null
page_json (some page) = nat page

-- `asdict(evidence)`
abbrev pub reference_dict : ℕ → Text → Option ℕ → Option ℕ → Fields
reference_dict chunk_id document_title page_start page_end = dict (
    (codes "chunk_id", nat chunk_id)
    ∷ (codes "document_title", str document_title)
    ∷ (codes "page_start", page_json page_start)
    ∷ (codes "page_end", page_json page_end)
    ∷ [])

abbrev pub reference_json : EvidenceReference → Json
reference_json r = obj (reference_dict r.chunk_id r.document_title r.page_start r.page_end)

abbrev pub result_dict : GoalCoverage → Fields
result_dict result = dict (
    (codes "goal_id", str result.goal_id)
    ∷ (codes "description", str result.description)
    ∷ (codes "status", str (status_text result.status))
    ∷ (codes "evidence", arr (from_list (map reference_json result.evidence)))
    ∷ (codes "retry_queries", arr (from_list (map str result.retry_queries)))
    ∷ [])

-- `trace.record_coverage`
abbrev pub record_coverage : List CoverageEvent → ℕ → Text → List Fields → List CoverageEvent
record_coverage events attempt status goal_results =
    events
    ++ dict (
        (codes "attempt", nat attempt)
        ∷ (codes "status", str status)
        ∷ (codes "goals", arr (from_list (map obj goal_results)))
        ∷ [])
      ∷ []

abbrev unchecked_goal : EvidenceGoal → GoalCoverage
unchecked_goal goal = record {
  goal_id = goal.goal_id;
  description = goal.description;
  status = GoalStatus.unchecked;
  evidence = [];
  retry_queries = [];
}

unfoldable pub record_assessment :
    List CoverageEvent → ℕ → List EvidenceGoal → Option Assessment → List CoverageEvent
unfolding sufficient
record_assessment events attempt goals none =
    record_coverage events attempt (codes "unchecked")
      (map (λ goal. result_dict (unchecked_goal goal)) goals)
record_assessment events attempt goals (some assessment) =
    record_coverage events attempt
      (if sufficient assessment then codes "sufficient" else codes "insufficient")
      (map result_dict assessment)

-- A `KeyError`, the exception of a search, or the call that lacks an argument.
pub data CompletionError : Type 0 where
  unknown_goal : Text → CompletionError
  search_failed : Text → CompletionError
  missing_argument : Text → CompletionError

-- A goal to search again, with the model's queries if it gave any.
abbrev pub retry_goal :
    GoalCoverage
    → Option EvidenceGoal
    → Result CompletionError (List EvidenceGoal)
    → Result CompletionError (List EvidenceGoal)
retry_goal result none rest = err (unknown_goal result.goal_id)
retry_goal result (some goal) rest = rest >>= λ goals. ok (
    record {
      goal_id = goal.goal_id;
      description = goal.description;
      queries = if is_empty result.retry_queries then goal.queries else result.retry_queries;
    }
    ∷ goals)

-- The goals that are not supported.
unfoldable pub retry_goals :
    List EvidenceGoal → Assessment → Result CompletionError (List EvidenceGoal)
unfolding find_last
retry_goals planned [] = ok []
retry_goals planned (result ∷ results) =
    let rest = retry_goals planned results in
    if is_supported result.status
    then rest
    else retry_goal result (find_last (λ (g : EvidenceGoal). g.goal_id == result.goal_id) planned)
        rest

-- What the request ends with: the chunks, the number of searches and the trace.
pub record Completion (S : Type 0) : Type 0 where
  pub chunks : List (RetrievedChunk S)
  pub actions : ℕ
  pub events : List CoverageEvent

module _ {S : Type 0} where
  abbrev pub done :
      List (RetrievedChunk S) → ℕ → List CoverageEvent → Result CompletionError (Completion S)
  done chunks actions events = ok (record { chunks = chunks; actions = actions; events = events })

  -- The end of a round: `more` goes on when the goals are assessed and not yet sufficient.
  abbrev pub judged :
      (Assessment → Result CompletionError (Completion S))
      → List (RetrievedChunk S)
      → ℕ
      → List CoverageEvent
      → Option Assessment
      → Result CompletionError (Completion S)
  judged more chunks actions events none = done chunks actions events
  judged more chunks actions events (some assessment) =
      let rest = more assessment in
      if sufficient assessment then done chunks actions events else rest

  -- The model and the searches may answer differently each time: both are numbered by `actions`.
  module _ (x : Reading) (chat : ℕ → Chat)
      (search : ℕ → List EvidenceGoal → Result Text (List (RetrievedChunk S)))
      (goals : List EvidenceGoal) where
    abbrev searched : ℕ → List EvidenceGoal → Result CompletionError (List (RetrievedChunk S))
    searched actions wanted = elim (search actions wanted) [
      | ok chunks ↦ ok chunks
      | err message ↦ err (search_failed message)
    ]

    -- One round with the goals to search again; none ends the loop.
    unfoldable pub retry_round :
        (Assessment
          → List (RetrievedChunk S)
          → List CoverageEvent
          → Result CompletionError (Completion S))
        → ℕ
        → List (RetrievedChunk S)
        → List CoverageEvent
        → List EvidenceGoal
        → Result CompletionError (Completion S)
    retry_round more actions chunks events [] = done chunks actions events
    retry_round more actions chunks events (goal ∷ wanted) =
        searched (actions + 1) (goal ∷ wanted) >>= λ supplemental.
        let merged = merge_retry_chunks chunks supplemental in
        let assessment = assess_evidence_coverage x (chat (actions + 1)) goals merged in
        let events' = record_assessment events (actions + 1) goals assessment in
        judged (λ a. more a merged events') merged (actions + 1) events' assessment

    -- `while actions < MAX_RETRIEVAL_ACTIONS`: `budget` is the number of actions left.
    unfoldable pub retry_loop :
        ℕ
        → ℕ
        → Assessment
        → List (RetrievedChunk S)
        → List CoverageEvent
        → Result CompletionError (Completion S)
    retry_loop zero actions assessment chunks events = done chunks actions events
    retry_loop (suc budget) actions assessment chunks events =
        retry_goals goals assessment
        >>= retry_round (λ a. retry_loop budget (actions + 1) a) actions chunks events

    -- Without chunks the code calls `retrieve_hierarchical_chunks` and leaves out its parameter
    -- `question`, which is a `TypeError`.
    unfoldable pub complete_evidence_coverage :
        List (RetrievedChunk S) → Result CompletionError (Completion S)
    complete_evidence_coverage chunks =
        let assessment = assess_evidence_coverage x (chat 0) goals chunks in
        let events = record_assessment [] 0 goals assessment in
        let first =
          judged (λ a. retry_loop max_retrieval_actions 0 a chunks events) chunks 0 events
            assessment in
        if is_empty goals
        then done chunks 0 []
        else if is_empty chunks
        then err (missing_argument (codes "question"))
        else first
