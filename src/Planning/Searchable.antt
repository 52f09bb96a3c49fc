-- ===== src/Planning/Searchable.antt =====
-- The queries that are read from a model's answer.
use mini_nblm_proto.Prelude.{
  ℕ, suc, ◌+◌, ◌≤◌, ◌<◌, ◌≡◌, refl, ap, Bool, true, false, ◌||◌, not, List, [], ◌∷◌, map, arith,
  length, take, is_empty, All, length-take, All-take, contains, Distinct, contains_head, ℕ-Eq,
  list-Eq, pair-Eq, option-Eq, branches,
}
use mini_nblm_proto.Prelude.Dedup.{keep_new, All-keep_new, keep_new-wanted}
use mini_nblm_proto.Prelude.Holds.{Holds, Holds-bind, Holds-guard, Holds-eq}
use mini_nblm_proto.Text.{Text, codes, strip, normalize_space}
use mini_nblm_proto.Text.Laws.{length-rstrip-le}
use mini_nblm_proto.Json.{Json, null, bool, int, real, str, arr, obj, Fields}
use mini_nblm_proto.Planning.Values.{
  Decoding, deduplicate_queries, goal_field, goal_id, goal_object, goal_queries,
  normalize_query_value, query_texts, raw_queries, strip_quotes,
}
use mini_nblm_proto.Planning.Allocation.{ParsedGoal}
use mini_nblm_proto.Planning.Payload.{parse_goal, parse_goals, duplicate_id, no_search_query}

-- A query that can be searched: some text, of at most 500 characters.
abbrev pub IsSearchable : Text → Type 0
IsSearchable query = (not (is_empty query) ≡ true) × (length query ≤ 500)

abbrev IsShort : Text → Type 0
IsShort query = length query ≤ 500

-- One to three queries that can be searched.
pub record IsAsking (queries : List Text) : Type 0 where
  pub searchable : All IsSearchable queries
  pub asks : 0 < length queries
  pub few : length queries ≤ 3

-- Goals with different ids, none of which was seen before.
pub record AreNewGoals (seen : List Text) (goals : List ParsedGoal) : Type 0 where
  pub once : Distinct (map (λ goal. goal.goal_id) goals)
  pub fresh :
      (k : Text) → contains seen k ≡ true → contains (map (λ goal. goal.goal_id) goals) k ≡ false
  pub each : All (λ goal. IsAsking goal.queries) goals

both-All :
    (P Q : Text → Type 0) (queries : List Text)
    → All P queries
    → All Q queries
    → All (λ q. P q × Q q) queries
both-All P Q [] h k = tt
both-All P Q (q ∷ qs) h k = ((h.0, k.0), both-All P Q qs h.1 k.1)

some_queries : (queries : List Text) → not (is_empty queries) ≡ true → 0 < length queries
some_queries [] h = ground (arith, h)
some_queries (q ∷ qs) h = omega arith

-- A parsed goal is new and asks.
abbrev pub IsNewGoal : List Text → ParsedGoal → Type 0
IsNewGoal seen goal = (contains seen goal.goal_id ≡ false) × IsAsking goal.queries

joined :
    (seen : List Text) (goal : ParsedGoal) (goals : List ParsedGoal) {n : ℕ}
    → IsNewGoal seen goal
    → AreNewGoals (goal.goal_id ∷ seen) goals × (length goals ≡ n)
    → AreNewGoals seen (goal ∷ goals) × (length (goal ∷ goals) ≡ suc n)
joined seen goal goals here later = (
  record {
    once = (later.0.fresh goal.goal_id (contains_head goal.goal_id seen), later.0.once);
    fresh =
        λ k h. ground (arith, h, here.0, later.0.fresh k, (list-Eq {A = ℕ}).eqb_iff goal.goal_id k);
    each = (here.1, later.0.each);
  },
  ap suc later.1,
)

module _ (x : Decoding) where
  normalize_query_value-IsShort : (value : Json) → IsShort (normalize_query_value x value)
  unfolding normalize_query_value
  normalize_query_value-IsShort (str value) =
      let normalized = strip_quotes (strip (normalize_space value)) in
      branches IsShort (is_empty normalized || x.is_fragment normalized) (λ e. omega arith)
        (λ e. omega (arith, length-rstrip-le (take 500 normalized), length-take 500 normalized))
  normalize_query_value-IsShort null = omega arith
  normalize_query_value-IsShort (bool b) = omega arith
  normalize_query_value-IsShort (int n) = omega arith
  normalize_query_value-IsShort (real t) = omega arith
  normalize_query_value-IsShort (arr vs) = omega arith
  normalize_query_value-IsShort (obj d) = omega arith

  query_texts-IsShort : (values : List Json) → All IsShort (query_texts x values)
  query_texts-IsShort [] = tt
  query_texts-IsShort (null ∷ values) = query_texts-IsShort values
  query_texts-IsShort (str t ∷ values) =
      (normalize_query_value-IsShort (str t), query_texts-IsShort values)
  query_texts-IsShort (bool t ∷ values) =
      (normalize_query_value-IsShort (bool t), query_texts-IsShort values)
  query_texts-IsShort (int t ∷ values) =
      (normalize_query_value-IsShort (int t), query_texts-IsShort values)
  query_texts-IsShort (real t ∷ values) =
      (normalize_query_value-IsShort (real t), query_texts-IsShort values)
  query_texts-IsShort (arr t ∷ values) =
      (normalize_query_value-IsShort (arr t), query_texts-IsShort values)
  query_texts-IsShort (obj t ∷ values) =
      (normalize_query_value-IsShort (obj t), query_texts-IsShort values)

  goal_queries-IsSearchable :
      (goal : Fields) → All IsSearchable (goal_queries x goal) × (length (goal_queries x goal) ≤ 3)
  unfolding goal_queries deduplicate_queries
  goal_queries-IsSearchable goal =
      let texts = query_texts x (raw_queries x (goal_field x goal (codes "queries"))) in
      let wanted : Text → Bool = λ query. not (is_empty query) in
      let kept = keep_new x.casefold wanted [] texts in
      (
        All-take IsSearchable 3 kept (
            both-All (λ q. wanted q ≡ true) IsShort kept
              (keep_new-wanted x.casefold wanted [] texts)
              (All-keep_new x.casefold wanted IsShort [] texts
                (query_texts-IsShort (raw_queries x (goal_field x goal (codes "queries")))))),
        omega (arith, length-take 3 kept),
      )

  pub parse_goal-IsNewGoal :
      (seen : List Text) (position : ℕ) (raw : Json)
      → Holds (IsNewGoal seen) (parse_goal x seen position raw)
  unfolding parse_goal
  parse_goal-IsNewGoal seen position (obj raw) =
      let goal = goal_object x raw in
      let id = goal_id x goal position in
      Holds-guard (IsNewGoal seen) (not (contains seen id)) duplicate_id _ (λ new.
        Holds-guard (IsNewGoal seen) (not (is_empty (goal_queries x goal))) no_search_query _
          (λ asks.
            let searchable = goal_queries-IsSearchable goal in
            (
              ground (arith, new),
              record {
                searchable = searchable.0;
                asks = some_queries (goal_queries x goal) asks;
                few = searchable.1;
              },
            )))
  parse_goal-IsNewGoal seen position null = tt
  parse_goal-IsNewGoal seen position (bool b) = tt
  parse_goal-IsNewGoal seen position (int n) = tt
  parse_goal-IsNewGoal seen position (real t) = tt
  parse_goal-IsNewGoal seen position (str t) = tt
  parse_goal-IsNewGoal seen position (arr vs) = tt

  pub parse_goals-AreNewGoals :
      (seen : List Text) (position : ℕ) (raws : List Json)
      → Holds
          (λ goals. AreNewGoals seen goals × (length goals ≡ length raws))
          (parse_goals x seen position raws)
  unfolding parse_goals
  parse_goals-AreNewGoals seen position [] =
      (record { once = tt; fresh = λ k h. refl; each = tt }, refl)
  parse_goals-AreNewGoals seen position (raw ∷ raws) =
      let Q : List ParsedGoal → Type 0 =
        λ goals. AreNewGoals seen goals × (length goals ≡ suc (length raws)) in
      Holds-bind Q (parse_goal x seen position raw) _ (λ goal e.
        let here = Holds-eq (IsNewGoal seen) _ goal (parse_goal-IsNewGoal seen position raw) e in
        Holds-bind Q (parse_goals x (goal.goal_id ∷ seen) (position + 1) raws) _ (λ goals h.
          joined seen goal goals here (
            Holds-eq (λ gs. AreNewGoals (goal.goal_id ∷ seen) gs × (length gs ≡ length raws)) _
              goals (parse_goals-AreNewGoals (goal.goal_id ∷ seen) (position + 1) raws) h)))
