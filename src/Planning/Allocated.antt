-- ===== src/Planning/Allocated.antt =====
-- The result of sharing out the queries, measured.
use mini_nblm_proto.Prelude.{
  ℕ, suc, ◌+◌, ◌-◌, ◌≤◌, ◌<◌, min, ◌≡◌, refl, ap, ◌∙◌, inl, inr, List, [], ◌∷◌, map, arith, length,
  sum_by, All, length-take, ℕ-Eq, list-Eq, pair-Eq, option-Eq,
}
use mini_nblm_proto.Planning.Allocation.{Allocation, ParsedGoal, allocate, first_allocation}
use mini_nblm_proto.Planning.Shared.{
  Took, TookFirst, allocate_loop-IsShared, goals_of, query_count, taken_count,
}

-- Every goal has a query.
abbrev pub Asks : ParsedGoal → Type 0
Asks goal = 0 < length goal.queries

abbrev pub all_queries : List ParsedGoal → ℕ
all_queries goals = sum_by (λ goal. length goal.queries) goals

query_count-goals_of : (rows : List Allocation) → query_count rows ≡ all_queries (goals_of rows)
query_count-goals_of [] = refl
query_count-goals_of (a ∷ rows) = ap (λ n. length a.goal.queries + n) (query_count-goals_of rows)

goals_of-first : (goals : List ParsedGoal) → goals_of (map first_allocation goals) ≡ goals
goals_of-first [] = refl
goals_of-first (goal ∷ goals) = ap (λ gs. goal ∷ gs) (goals_of-first goals)

taken_count-first :
    (goals : List ParsedGoal)
    → All Asks goals
    → taken_count (map first_allocation goals) ≡ length goals
taken_count-first [] h = refl
taken_count-first (goal ∷ goals) h =
    omega (arith, h.0, length-take 1 goal.queries, taken_count-first goals h.1)

Took-one : (goals : List ParsedGoal) → All (Took 1) (map first_allocation goals)
Took-one [] = tt
Took-one (goal ∷ goals) = (refl, Took-one goals)

taken_count-le : (rows : List Allocation) → All TookFirst rows → taken_count rows ≤ query_count rows
taken_count-le [] h = omega arith
taken_count-le (a ∷ rows) h =
    let shorter = ap length h.0.1 ∙ length-take (suc h.0.0) a.goal.queries in
    omega (arith, shorter, taken_count-le rows h.1)

taken_count_complete :
    (rows : List Allocation)
    → All (λ a. a.taken ≡ a.goal.queries) rows
    → taken_count rows ≡ query_count rows
taken_count_complete [] h = refl
taken_count_complete (a ∷ rows) h = omega (arith, ap length h.0, taken_count_complete rows h.1)

-- With at most five goals that all have a query, every goal keeps its first query and takes the next ones in
-- order, and together the goals take five queries, or all they have where that is less.
pub allocate-min :
    (goals : List ParsedGoal)
    → All Asks goals
    → length goals ≤ 5
    → (goals_of (allocate goals) ≡ goals)
      × All TookFirst (allocate goals)
      × (taken_count (allocate goals) ≡ min 5 (all_queries goals))
unfolding allocate
allocate-min goals h l =
    let start = map first_allocation goals in
    let slots = 5 - length goals in
    let shared = allocate_loop-IsShared slots 0 slots start (omega arith) (Took-one goals) in
    let same = shared.same_goals ∙ goals_of-first goals in
    let all = query_count-goals_of (allocate goals) ∙ ap all_queries same in
    (
      same,
      shared.took,
      elim shared.used [
        | inl e ↦ omega (
          arith,
          l,
          e,
          all,
          taken_count-first goals h,
          taken_count-le (allocate goals) shared.took,
        )
        | inr c ↦ omega (
          arith,
          l,
          shared.limit,
          all,
          taken_count-first goals h,
          taken_count_complete (allocate goals) c,
        )
      ],
    )
