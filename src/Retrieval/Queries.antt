-- ===== src/Retrieval/Queries.antt =====
-- The query lists: `_normalize_search_queries`, `_normalize_goal_query_groups` and the hierarchical
-- retriever's `_normalize_queries`. `casefold` is a parameter.
use mini_nblm_proto.Prelude.{
  ℕ, zero, suc, ◌≤◌, ◌<◌, ◌≡◌, refl, sym, ap, not, Option, some, List, [], ◌∷◌, ◌++◌, map, arith,
  if◌then◌else◌, or_else, length, take, is_empty, length-take, contains, Distinct, Distinct-take,
  ℕ-Eq, list-Eq, pair-Eq, option-Eq, Result, ok, ◌>>=◌, ◌>>◌, guard,
}
use mathlib.Core.Path.{subst}
use mini_nblm_proto.Prelude.Dedup.{keep_new-Distinct, keep_new}
use mini_nblm_proto.Text.{Text, strip}

-- `EvidenceGoal`
pub record EvidenceGoal : Type 0 where
  pub goal_id : Text
  pub description : Text
  pub queries : List Text

pub data GoalError : Type 0 where
  duplicate_goal_id no_search_query : Text → GoalError

module _ (casefold : Text → Text) where
  -- The loop: stripped, not empty, and new up to case.
  unfoldable pub distinct_queries : List Text → List Text
  unfolding keep_new strip
  distinct_queries candidates =
      keep_new casefold (λ query. not (is_empty query)) [] (map strip candidates)

  unfoldable pub normalize_search_queries : Text → Option (List Text) → List Text
  unfolding distinct_queries strip
  normalize_search_queries question queries =
      let normalized = distinct_queries (or_else queries (question ∷ [])) in
      if is_empty normalized then strip question ∷ [] else normalized

  -- The loop over the goals, with the ids seen so far.
  unfoldable pub goal_groups :
      List Text → List EvidenceGoal → Result GoalError (List (Text × List Text))
  unfolding normalize_search_queries
  goal_groups seen [] = ok []
  goal_groups seen (goal ∷ goals) = do
    guard (not (contains seen goal.goal_id)) (duplicate_goal_id goal.goal_id)
    let queries = normalize_search_queries goal.description (some goal.queries)
    guard (not (is_empty queries)) (no_search_query goal.goal_id)
    groups ← goal_groups (goal.goal_id ∷ seen) goals
    ok ((goal.goal_id, queries) ∷ groups)

  unfoldable pub normalize_goal_query_groups :
      Option (List EvidenceGoal) → Result GoalError (List (Text × List Text))
  unfolding goal_groups
  normalize_goal_query_groups goals = goal_groups [] (or_else goals [])

  -- The hierarchical retriever asks at most four queries.
  unfoldable pub normalize_queries : Text → List Text → List Text
  unfolding distinct_queries
  normalize_queries question queries = take 4 (distinct_queries (queries ++ question ∷ []))

  pub map-take : (n : ℕ) (xs : List Text) → map casefold (take n xs) ≡ take n (map casefold xs)
  map-take zero xs = refl
  map-take (suc n) [] = refl
  map-take (suc n) (x ∷ xs) = ap (λ ks. casefold x ∷ ks) (map-take n xs)

  -- A search is always asked at least one query, and no two that are the same up to case.
  pub normalize_search_queries-Distinct :
      (question : Text) (queries : Option (List Text))
      → Distinct (map casefold (normalize_search_queries question queries))
        × (0 < length (normalize_search_queries question queries))
  unfolding normalize_search_queries distinct_queries
  normalize_search_queries-Distinct question queries =
      let candidates = map strip (or_else queries (question ∷ [])) in
      let once = keep_new-Distinct casefold (λ query. not (is_empty query)) [] candidates in
      ground (arith, once)

  -- The hierarchical retriever asks at most four queries, no two of them the same up to case.
  pub normalize_queries-Distinct :
      (question : Text) (queries : List Text)
      → Distinct (map casefold (normalize_queries question queries))
        × (length (normalize_queries question queries) ≤ 4)
  unfolding normalize_queries distinct_queries
  normalize_queries-Distinct question queries =
      let asked = distinct_queries (queries ++ question ∷ []) in
      (
        subst Distinct (sym (map-take 4 asked)) (
            Distinct-take 4 (map casefold asked) (
              keep_new-Distinct casefold (λ query. not (is_empty query)) []
                (map strip (queries ++ question ∷ [])))),
        omega (arith, length-take 4 asked),
      )
