-- ===== src/Planning/Planned.antt =====
-- What every plan is that reaches the retrieval.
use mini_nblm_proto.Prelude.{
  ℕ, suc, ◌+◌, ◌≤◌, ◌<◌, ◌≡◌, refl, sym, ap, ◌∙◌, true, not, List, [], ◌∷◌, map, arith, length,
  take, is_empty, sum_by, All, length-take, All-take, All-imp, Distinct, ℕ-Eq, list-Eq, pair-Eq,
  option-Eq, ok,
}
use mathlib.Core.Path.{subst}
use mini_nblm_proto.Prelude.Holds.{Holds, Holds-bind, Holds-guard, Holds-eq}
use mini_nblm_proto.Text.{Text, codes}
use mini_nblm_proto.Json.{Json, null, bool, int, real, str, arr, obj, items, get_null}
use mini_nblm_proto.Retrieval.Queries.{EvidenceGoal}
use mini_nblm_proto.Retrieval.Goals.{goal_ids}
use mini_nblm_proto.Planning.Values.{Decoding}
use mini_nblm_proto.Planning.Allocation.{Allocation, ParsedGoal, allocate}
use mini_nblm_proto.Planning.Shared.{TookFirst, goals_of, taken_count}
use mini_nblm_proto.Planning.Allocated.{Asks, allocate-min}
use mini_nblm_proto.Planning.Searchable.{
  AreNewGoals, IsAsking, IsSearchable, parse_goals-AreNewGoals,
}
use mini_nblm_proto.Planning.Payload.{
  RetrievalQueryPlan, evidence_goal, goal_values, no_goals, normalize_query_plan, parse_goals,
  parse_json_object,
}

abbrev pub planned_queries : List EvidenceGoal → ℕ
planned_queries goals = sum_by (λ goal. length goal.queries) goals

-- One to four goals with different ids, one to three queries for each, and at most five queries in all.
pub record IsPlan (plan : RetrievalQueryPlan) : Type 0 where
  pub some_goals : 0 < length plan.goals
  pub few_goals : length plan.goals ≤ 4
  pub once : Distinct (goal_ids plan.goals)
  pub each : All (λ goal. (0 < length goal.queries) × (length goal.queries ≤ 3)) plan.goals
  pub total : planned_queries plan.goals ≤ 5

-- A plan whose queries have some text and at most 500 characters.
pub record IsSearchPlan (plan : RetrievalQueryPlan) : Type 0 where
  pub shape : IsPlan plan
  pub searchable : All (λ goal. All IsSearchable goal.queries) plan.goals

IsAsking-took :
    (a : Allocation) → TookFirst a → IsAsking a.goal.queries → IsAsking (evidence_goal a).queries
IsAsking-took a (n, e) asking = record {
  searchable =
      subst (All IsSearchable) (sym e)
        (All-take IsSearchable (suc n) a.goal.queries asking.searchable);
  asks = omega (arith, asking.asks, ap length e, length-take (suc n) a.goal.queries);
  few = omega (arith, asking.few, ap length e, length-take (suc n) a.goal.queries);
}

IsAsking-rows :
    (rows : List Allocation)
    → All TookFirst rows
    → All (λ goal. IsAsking goal.queries) (goals_of rows)
    → All (λ goal. IsAsking goal.queries) (map evidence_goal rows)
IsAsking-rows [] t h = tt
IsAsking-rows (a ∷ rows) t h = (IsAsking-took a t.0 h.0, IsAsking-rows rows t.1 h.1)

row_ids :
    (rows : List Allocation)
    → goal_ids (map evidence_goal rows) ≡ map (λ (goal : ParsedGoal). goal.goal_id) (goals_of rows)
row_ids [] = refl
row_ids (a ∷ rows) = ap (λ ids. a.goal.goal_id ∷ ids) (row_ids rows)

length-rows : (rows : List Allocation) → length (map evidence_goal rows) ≡ length (goals_of rows)
length-rows [] = refl
length-rows (a ∷ rows) = ap suc (length-rows rows)

taken_rows : (rows : List Allocation) → planned_queries (map evidence_goal rows) ≡ taken_count rows
taken_rows [] = refl
taken_rows (a ∷ rows) = ap (λ n. length a.taken + n) (taken_rows rows)

IsSearchPlan-allocate :
    (query : Text) (goals : List ParsedGoal)
    → 0 < length goals
    → length goals ≤ 4
    → AreNewGoals [] goals
    → IsSearchPlan (record { standalone_query = query; goals = map evidence_goal (allocate goals) })
IsSearchPlan-allocate query goals s f new =
    let rows = allocate goals in
    let asks = All-imp (λ goal. IsAsking goal.queries) Asks (λ goal h. h.asks) goals new.each in
    let (same, took, total) = allocate-min goals asks (omega (arith, f)) in
    let count = length-rows rows ∙ ap length same in
    let ids = row_ids rows ∙ ap (λ gs. map (λ (goal : ParsedGoal). goal.goal_id) gs) same in
    let each =
      IsAsking-rows rows took (subst (All (λ goal. IsAsking goal.queries)) (sym same) new.each) in
    record {
      shape = record {
        some_goals = omega (arith, s, count);
        few_goals = omega (arith, f, count);
        once = subst Distinct (sym ids) new.once;
        each = All-imp (λ goal. IsAsking goal.queries) _ (λ goal h. (h.asks, h.few)) _ each;
        total = omega (arith, taken_rows rows, total);
      };
      searchable = All-imp (λ goal. IsAsking goal.queries) _ (λ goal h. h.searchable) _ each;
    }

goal_values-some : (raw : Json) → Holds (λ raws. not (is_empty raws) ≡ true) (goal_values raw)
goal_values-some (arr vs) =
    Holds-guard (λ raws. not (is_empty raws) ≡ true) (not (is_empty (items vs))) no_goals _ (λ h. h)
goal_values-some null = tt
goal_values-some (bool b) = tt
goal_values-some (int n) = tt
goal_values-some (real t) = tt
goal_values-some (str t) = tt
goal_values-some (obj d) = tt

few_of :
    (raws : List Json)
    → not (is_empty raws) ≡ true
    → (0 < length (take 4 raws)) × (length (take 4 raws) ≤ 4)
few_of [] h = ground (arith, h)
few_of (raw ∷ raws) h = (omega arith, omega (arith, length-take 4 (raw ∷ raws)))

module _ (x : Decoding) where
  -- Whatever the model answers: if the answer is accepted, the plan has one to four goals with different
  -- ids, one to three queries for each goal and at most five in all, and every query has some text and
  -- at most 500 characters.
  pub normalize_query_plan-IsSearchPlan :
      (response fallback : Text) (plan : RetrievalQueryPlan)
      → normalize_query_plan x response fallback ≡ ok plan
      → IsSearchPlan plan
  unfolding normalize_query_plan
  normalize_query_plan-IsSearchPlan response fallback plan h =
      Holds-eq IsSearchPlan _ plan
        (Holds-bind IsSearchPlan (parse_json_object x response) _ (λ payload p.
          let raw = get_null (codes "evidence_goals") payload in
          Holds-bind IsSearchPlan (goal_values raw) _ (λ raws r.
            let few = few_of raws (Holds-eq _ _ raws (goal_values-some raw) r) in
            Holds-bind IsSearchPlan (parse_goals x [] 1 (take 4 raws)) _ (λ goals g.
              let (new, count) =
                Holds-eq _ _ goals (parse_goals-AreNewGoals x [] 1 (take 4 raws)) g in
              IsSearchPlan-allocate _ goals (omega (arith, few.0, count))
                (omega (arith, few.1, count)) new))))
        h
