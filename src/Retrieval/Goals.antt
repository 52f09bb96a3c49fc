-- ===== src/Retrieval/Goals.antt =====
-- The groups of queries of the evidence goals.
use mini_nblm_proto.Prelude.{
  ℕ, ◌≡◌, refl, sym, ap, ◌∙◌, Bool, true, false, not, some, List, [], ◌∷◌, map, arith, is_empty,
  contains, Distinct, contains_head, ℕ-Eq, list-Eq, pair-Eq, option-Eq, Result, ok, guard,
  >>=-eq-ok,
}
use mathlib.Core.Path.{subst}
use mini_nblm_proto.Text.{Text}
use mini_nblm_proto.Retrieval.Queries.{
  EvidenceGoal, GoalError, duplicate_goal_id, no_search_query, normalize_search_queries,
  goal_groups, normalize_goal_query_groups,
}

-- `goal.goal_id` of each goal
abbrev pub goal_ids : List EvidenceGoal → List Text
goal_ids goals = map (λ goal. goal.goal_id) goals

abbrev pub group_ids : List (Text × List Text) → List Text
group_ids groups = map (λ group. group.0) groups

guarded : {E : Type 0} (b : Bool) (e : E) {done : Unit {0}} → guard b e ≡ ok done → b ≡ true
guarded true e h = refl
guarded false e h = cc

ok_groups :
    {group : Text × List Text} {rest groups : List (Text × List Text)}
    → ◌≡◌ {A = Result GoalError (List (Text × List Text))} (ok (group ∷ rest)) (ok groups)
    → groups ≡ group ∷ rest
ok_groups h = cc

module _ (casefold : Text → Text) where
  -- What the loop's groups are, with the ids seen before it.
  pub record IsGrouped (seen : List Text) (goals : List EvidenceGoal)
      (groups : List (Text × List Text)) : Type 0 where
    pub same_ids : group_ids groups ≡ goal_ids goals
    pub once : Distinct (goal_ids goals)
    pub fresh : (k : Text) → contains seen k ≡ true → contains (goal_ids goals) k ≡ false

  goal_groups-IsGrouped :
      (seen : List Text) (goals : List EvidenceGoal) (groups : List (Text × List Text))
      → goal_groups casefold seen goals ≡ ok groups
      → IsGrouped seen goals groups
  unfolding goal_groups
  goal_groups-IsGrouped seen [] groups h = record { same_ids = cc; once = tt; fresh = λ k c. refl }
  goal_groups-IsGrouped seen (goal ∷ goals) groups h =
      let (a, ha, h1) =
        >>=-eq-ok (guard (not (contains seen goal.goal_id)) (duplicate_goal_id goal.goal_id)) _ h in
      let queries = normalize_search_queries casefold goal.description (some goal.queries) in
      let (b, hb, h2) =
        >>=-eq-ok (guard (not (is_empty queries)) (no_search_query goal.goal_id)) _ h1 in
      let (rest, hr, h3) = >>=-eq-ok (goal_groups casefold (goal.goal_id ∷ seen) goals) _ h2 in
      let later = goal_groups-IsGrouped (goal.goal_id ∷ seen) goals rest hr in
      let new = guarded (not (contains seen goal.goal_id)) _ ha in
      record {
        same_ids = ap group_ids (ok_groups h3) ∙ ap (λ ks. goal.goal_id ∷ ks) later.same_ids;
        once = (later.fresh goal.goal_id (contains_head goal.goal_id seen), later.once);
        fresh = λ k c. ground (arith, new, later.fresh k, (list-Eq {A = ℕ}).eqb_iff goal.goal_id k);
      }

  -- When the goals are accepted, there is one group for each goal, in the order of the goals, and no two
  -- goals share an id.
  pub normalize_goal_query_groups-Distinct :
      (goals : List EvidenceGoal) (groups : List (Text × List Text))
      → normalize_goal_query_groups casefold (some goals) ≡ ok groups
      → (group_ids groups ≡ goal_ids goals) × Distinct (group_ids groups)
  unfolding normalize_goal_query_groups
  normalize_goal_query_groups-Distinct goals groups h =
      let grouped = goal_groups-IsGrouped [] goals groups h in
      (grouped.same_ids, subst Distinct (sym grouped.same_ids) grouped.once)
