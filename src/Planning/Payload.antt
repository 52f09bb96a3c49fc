-- ===== src/Planning/Payload.antt =====
-- `_parse_json_object` and `_normalize_query_plan`: the model's answer as a plan.
use mini_nblm_proto.Prelude.{
  ℕ, ◌+◌, Bool, ◌&&◌, ◌||◌, not, none, some, List, [], ◌∷◌, ◌++◌, map, ltb, nat_eq, if◌then◌else◌,
  or_else, length, get_elem?, take, is_empty, sum_by, contains, ℕ-Eq, list-Eq, pair-Eq, option-Eq,
  Result, ok, err, ◌>>=◌, ◌>>◌, guard,
}
use mini_nblm_proto.Text.{Text, codes, strip, starts_with}
use mini_nblm_proto.Json.{Json, arr, obj, Fields, get_null, items, as_list, as_object}
use mini_nblm_proto.Retrieval.Queries.{EvidenceGoal}
use mini_nblm_proto.Planning.Values.{
  Decoding, deduplicate_queries, goal_field, goal_id, goal_object, goal_queries,
  normalize_query_value,
}
use mini_nblm_proto.Planning.Allocation.{Allocation, ParsedGoal, allocate, max_retrieval_queries}

abbrev pub max_evidence_goals : ℕ
max_evidence_goals = 4

pub record RetrievalQueryPlan : Type 0 where
  pub standalone_query : Text
  pub goals : List EvidenceGoal

-- The reasons for a `ValueError`.
pub data PlanError : Type 0 where
  no_json_object no_goals goal_not_object duplicate_id no_search_query : PlanError

abbrev list_length : Json → ℕ
list_length (arr vs) = length (items vs)
list_length _ = 0

abbrev goal_query_count : Json → ℕ
goal_query_count (obj goal) = list_length (get_null (codes "queries") goal)
goal_query_count _ = 0

unfoldable pub query_plan_payload_score : Fields → ℕ × ℕ
query_plan_payload_score payload = elim (as_list (get_null (codes "evidence_goals") payload)) [
  | none ↦ (0, 0)
  | some goals ↦ (length goals, sum_by goal_query_count goals)
]

-- `a < b` for scores
abbrev score_less : ℕ × ℕ → ℕ × ℕ → Bool
score_less (a, b) (c, d) = ltb a c || (nat_eq a c && ltb b d)

-- `max`: the first of the best payloads.
unfoldable pub best_payload : Fields → List Fields → Fields
unfolding query_plan_payload_score
best_payload best [] = best
best_payload best (payload ∷ payloads) =
    let better = score_less (query_plan_payload_score best) (query_plan_payload_score payload) in
    best_payload (if better then payload else best) payloads

abbrev pub evidence_goal : Allocation → EvidenceGoal
evidence_goal a = record {
  goal_id = a.goal.goal_id;
  description = a.goal.description;
  queries = a.taken;
}

abbrev pub goal_values : Json → Result PlanError (List Json)
goal_values (arr vs) = guard (not (is_empty (items vs))) no_goals >> ok (items vs)
goal_values _ = err no_goals

-- `(query for goal in goals for query in goal.queries)`
abbrev pub goal_texts : List EvidenceGoal → List Text
goal_texts [] = []
goal_texts (goal ∷ goals) = goal.queries ++ goal_texts goals

module _ (x : Decoding) where
  -- The objects that start at a brace.
  unfoldable pub payloads : Text → List Fields
  payloads [] = []
  payloads (c ∷ t) =
      let rest = payloads t in
      if not (nat_eq c 123) then rest else elim (x.raw_decode (c ∷ t)) [
        | none ↦ rest
        | some value ↦ elim (as_object value) [ none ↦ rest | some payload ↦ payload ∷ rest ]
      ]

  unfoldable pub parse_json_object : Text → Result PlanError Fields
  parse_json_object response =
      let candidate = strip response in
      let unfenced =
        if starts_with (codes "```") candidate then x.strip_fence candidate else candidate in
      elim (payloads unfenced) [
        | [] ↦ err no_json_object
        | payload ∷ rest ↦ ok (best_payload payload rest)
      ]

  -- One goal, with the ids seen before it.
  unfoldable pub parse_goal : List Text → ℕ → Json → Result PlanError ParsedGoal
  parse_goal seen position (obj raw_goal) = do
    let goal = goal_object x raw_goal
    let id = goal_id x goal position
    guard (not (contains seen id)) duplicate_id
    let queries = goal_queries x goal
    guard (not (is_empty queries)) no_search_query
    let description = normalize_query_value x (goal_field x goal (codes "description"))
    ok (record {
      goal_id = id;
      description = if is_empty description then or_else (get_elem? queries 0) [] else description;
      queries = queries;
    })
  parse_goal seen position _ = err goal_not_object

  -- The loop over the goals.
  unfoldable pub parse_goals : List Text → ℕ → List Json → Result PlanError (List ParsedGoal)
  parse_goals seen position [] = ok []
  parse_goals seen position (raw ∷ raws) = parse_goal seen position raw >>= λ goal.
      parse_goals (goal.goal_id ∷ seen) (position + 1) raws >>= λ goals. ok (goal ∷ goals)

  unfoldable pub normalize_query_plan : Text → Text → Result PlanError RetrievalQueryPlan
  normalize_query_plan response fallback = do
    payload ← parse_json_object response
    raw_goals ← goal_values (get_null (codes "evidence_goals") payload)
    goals ← parse_goals [] 1 (take max_evidence_goals raw_goals)
    let query = normalize_query_value x (get_null (codes "standalone_query") payload)
    ok (record {
      standalone_query = if is_empty query then fallback else query;
      goals = map evidence_goal (allocate goals);
    })

  -- The property `queries`.
  unfoldable pub plan_queries : RetrievalQueryPlan → List Text
  unfolding deduplicate_queries
  plan_queries plan =
      take max_retrieval_queries
        (deduplicate_queries x (plan.standalone_query ∷ goal_texts plan.goals))
