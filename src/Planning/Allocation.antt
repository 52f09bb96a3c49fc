-- ===== src/Planning/Allocation.antt =====
-- The loop of `_normalize_query_plan` that shares six queries out among the goals.
use mini_nblm_proto.Prelude.{
  ℕ, zero, suc, ◌-◌, none, some, List, [], ◌∷◌, ◌++◌, map, nat_eq, if◌then◌else◌, length, get_elem?,
  take, ℕ-Eq, list-Eq, pair-Eq, option-Eq,
}
use mini_nblm_proto.Text.{Text}

abbrev pub max_retrieval_queries : ℕ
max_retrieval_queries = 6

-- An entry of `parsed_goals`.
pub record ParsedGoal : Type 0 where
  pub goal_id : Text
  pub description : Text
  pub queries : List Text

-- A goal with its part of `allocated`.
pub record Allocation : Type 0 where
  pub goal : ParsedGoal
  pub taken : List Text

abbrev pub first_allocation : ParsedGoal → Allocation
first_allocation goal = record { goal = goal; taken = take 1 goal.queries }

abbrev pub append_query : Allocation → Text → Allocation
append_query a query = record { goal = a.goal; taken = a.taken ++ query ∷ [] }

-- The slots that are left and the allocations after a round.
abbrev pub Round : Type 0
Round = ℕ × List Allocation

abbrev pub behind : Allocation → Round → Round
behind a (slots, rest) = (slots, a ∷ rest)

-- The `for` loop of a round: it stops when no slot is left.
unfoldable pub allocate_round : ℕ → ℕ → List Allocation → Round
allocate_round offset zero rest = (0, rest)
allocate_round offset (suc slots) [] = (suc slots, [])
allocate_round offset (suc slots) (a ∷ rest) =
    let passed = allocate_round offset (suc slots) rest in
    let taken = allocate_round offset slots rest in
    elim (get_elem? a.goal.queries offset) [
      | none ↦ behind a passed
      | some query ↦ behind (append_query a query) taken
    ]

-- The `while` loop. Every round but the last takes a slot, so rest many rounds rest slots are enough.
unfoldable pub allocate_loop : ℕ → ℕ → ℕ → List Allocation → List Allocation
unfolding allocate_round
allocate_loop zero offset slots rest = rest
allocate_loop (suc fuel) offset slots rest =
    let round = allocate_round offset slots rest in
    let later = allocate_loop fuel (suc offset) round.0 round.1 in
    if nat_eq slots 0 then rest else if nat_eq round.0 slots then round.1 else later

unfoldable pub allocate : List ParsedGoal → List Allocation
unfolding allocate_loop
allocate goals =
    let slots = max_retrieval_queries - 1 - length goals in
    allocate_loop slots 1 slots (map first_allocation goals)
