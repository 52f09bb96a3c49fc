-- ===== src/Planning/Shared.antt =====
-- How the queries of a plan are shared out: every goal takes its first queries, and all six slots are
-- used where there are enough queries.
use mini_nblm_proto.Prelude.{
  ℕ, zero, suc, ◌+◌, ◌≤◌, ◌≡◌, refl, sym, ap, ◌∙◌, ◌⊎◌, inl, inr, false, Option, none, some, List,
  [], ◌∷◌, ◌++◌, map, arith, nat_eq, nat_eq_iff, length, get_elem?, take, sum_by, All,
  length-append, All-imp, ℕ-Eq, list-Eq, pair-Eq, option-Eq, branches,
}
use mathlib.Core.Path.{subst}
use mini_nblm_proto.Text.{Text}
use mini_nblm_proto.Planning.Allocation.{
  Allocation, ParsedGoal, Round, allocate_loop, allocate_round, append_query, behind,
}

abbrev pub taken_count : List Allocation → ℕ
taken_count rest = sum_by (λ a. length a.taken) rest

abbrev pub query_count : List Allocation → ℕ
query_count rest = sum_by (λ a. length a.goal.queries) rest

abbrev pub goals_of : List Allocation → List ParsedGoal
goals_of rest = map (λ a. a.goal) rest

-- The first `n` queries of its goal.
abbrev pub Took : ℕ → Allocation → Type 0
Took n a = a.taken ≡ take n a.goal.queries

same : {A : Type 0} {x y : A} → ◌≡◌ {A = Option A} (some x) (some y) → y ≡ x
same h = cc

take_next :
    {A : Type 0} (n : ℕ) (xs : List A) {x : A}
    → get_elem? xs n ≡ some x
    → take n xs ++ x ∷ [] ≡ take (suc n) xs
take_next zero [] e = cc
take_next zero (y ∷ xs) e = ap (λ z. z ∷ []) (same e)
take_next (suc n) [] e = cc
take_next (suc n) (y ∷ xs) e = ap (λ ys. y ∷ ys) (take_next n xs e)

take_all :
    {A : Type 0} (n : ℕ) (xs : List A)
    → get_elem? xs n ≡ none
    → (take n xs ≡ xs) × (take (suc n) xs ≡ xs)
take_all zero [] e = (refl, refl)
take_all zero (y ∷ xs) e = cc
take_all (suc n) [] e = (refl, refl)
take_all (suc n) (y ∷ xs) e =
    let rest = take_all n xs e in (ap (λ ys. y ∷ ys) rest.0, ap (λ ys. y ∷ ys) rest.1)

-- What a round does to allocations that have taken `offset` queries each.
record IsRound (offset slots : ℕ) (rest : List Allocation) (round : Round) : Type 0 where
  same_goals : goals_of round.1 ≡ goals_of rest
  shared : taken_count round.1 + round.0 ≡ taken_count rest + slots
  took : All (λ a. Took offset a ⊎ Took (suc offset) a) round.1
  full : (round.0 ≡ 0) ⊎ All (Took (suc offset)) round.1
  idle : (round.0 ≡ slots) → (slots ≡ 0) ⊎ All (λ a. a.taken ≡ a.goal.queries) round.1
  fewer : round.0 ≤ slots

behind-IsRound :
    (offset slots : ℕ) (a : Allocation) (rest : List Allocation) (query : Text) (round : Round)
    → get_elem? a.goal.queries offset ≡ some query
    → Took offset a
    → IsRound offset slots rest round
    → IsRound offset (suc slots) (a ∷ rest) (behind (append_query a query) round)
behind-IsRound offset slots a rest query (left, after) e t r =
    let next = ap (λ q. q ++ query ∷ []) t ∙ take_next offset a.goal.queries e in
    record {
      same_goals = ap (λ gs. a.goal ∷ gs) r.same_goals;
      shared = omega (arith, r.shared, length-append a.taken (query ∷ []));
      took = (inr next, r.took);
      full = ground (arith, r.full, next);
      idle = λ h. omega (arith, h, r.fewer);
      fewer = omega (arith, r.fewer);
    }

passed-IsRound :
    (offset slots : ℕ) (a : Allocation) (rest : List Allocation) (round : Round)
    → get_elem? a.goal.queries offset ≡ none
    → Took offset a
    → IsRound offset (suc slots) rest round
    → IsRound offset (suc slots) (a ∷ rest) (behind a round)
passed-IsRound offset slots a rest (left, after) e t r =
    let both = take_all offset a.goal.queries e in
    record {
      same_goals = ap (λ gs. a.goal ∷ gs) r.same_goals;
      shared = omega (arith, r.shared);
      took = (inl t, r.took);
      full = ground (arith, r.full, t ∙ both.0 ∙ sym both.1);
      idle = λ h. ground (arith, r.idle h, t ∙ both.0);
      fewer = r.fewer;
    }

found-IsRound :
    (offset slots : ℕ) (a : Allocation) (rest : List Allocation) (found : Option Text)
    (passed taken : Round)
    → get_elem? a.goal.queries offset ≡ found
    → Took offset a
    → IsRound offset (suc slots) rest passed
    → IsRound offset slots rest taken
    → IsRound offset
        (suc slots)
        (a ∷ rest)
        (elim found [ none ↦ behind a passed | some query ↦ behind (append_query a query) taken ])
found-IsRound offset slots a rest none passed taken e t p r =
    passed-IsRound offset slots a rest passed e t p
found-IsRound offset slots a rest (some query) passed taken e t p r =
    behind-IsRound offset slots a rest query taken e t r

allocate_round-IsRound :
    (offset slots : ℕ) (rest : List Allocation)
    → All (Took offset) rest
    → IsRound offset slots rest (allocate_round offset slots rest)
unfolding allocate_round
allocate_round-IsRound offset zero rest t = record {
  same_goals = refl;
  shared = refl;
  took = All-imp (Took offset) (λ a. Took offset a ⊎ Took (suc offset) a) (λ a h. inl h) rest t;
  full = inl refl;
  idle = λ h. inl refl;
  fewer = omega arith;
}
allocate_round-IsRound offset (suc slots) [] t = record {
  same_goals = refl;
  shared = refl;
  took = tt;
  full = inr tt;
  idle = λ h. inr tt;
  fewer = omega arith;
}
allocate_round-IsRound offset (suc slots) (a ∷ rest) t =
    found-IsRound offset slots a rest (get_elem? a.goal.queries offset) _ _ refl t.0
      (allocate_round-IsRound offset (suc slots) rest t.1)
      (allocate_round-IsRound offset slots rest t.1)

-- At least the first query of its goal, and the next ones in order.
abbrev pub TookFirst : Allocation → Type 0
TookFirst a = (n : ℕ) × (a.taken ≡ take (suc n) a.goal.queries)

-- What the loop does with `slots` slots.
pub record IsShared (slots : ℕ) (start result : List Allocation) : Type 0 where
  pub same_goals : goals_of result ≡ goals_of start
  pub took : All TookFirst result
  pub used :
      (taken_count result ≡ taken_count start + slots) ⊎ All (λ a. a.taken ≡ a.goal.queries) result
  pub limit : taken_count result ≤ taken_count start + slots

allocate_loop_full : (fuel n : ℕ) (rest : List Allocation) → allocate_loop fuel n 0 rest ≡ rest
unfolding allocate_loop
allocate_loop_full zero n rest = refl
allocate_loop_full (suc fuel) n rest = refl

took_first :
    (n : ℕ) (rest : List Allocation)
    → All (λ a. Took (suc n) a ⊎ Took (suc (suc n)) a) rest
    → All TookFirst rest
took_first n rest h =
    All-imp _ TookFirst (λ a t. elim t [ inl e ↦ (n, e) | inr e ↦ (suc n, e) ]) rest h

-- A round after which the loop ends.
IsShared-round :
    (n slots : ℕ) (start : List Allocation) (round : Round)
    → IsRound (suc n) slots start round
    → (round.0 ≡ 0) ⊎ All (λ a. a.taken ≡ a.goal.queries) round.1
    → IsShared slots start round.1
IsShared-round n slots start round r e = record {
  same_goals = r.same_goals;
  took = took_first n round.1 r.took;
  used = elim e [ inl z ↦ inl (omega (arith, z, r.shared)) | inr c ↦ inr c ];
  limit = omega (arith, r.shared);
}

-- A round and the rest of the loop.
IsShared-later :
    (n slots : ℕ) (start result : List Allocation) (round : Round)
    → IsRound (suc n) slots start round
    → IsShared round.0 round.1 result
    → IsShared slots start result
IsShared-later n slots start result round r s = record {
  same_goals = s.same_goals ∙ r.same_goals;
  took = s.took;
  used = elim s.used [ inl e ↦ inl (omega (arith, e, r.shared)) | inr c ↦ inr c ];
  limit = omega (arith, s.limit, r.shared);
}

-- A round and the loop behind it, which goes on only where every goal took a query.
after_round :
    (fuel n slots : ℕ) (start : List Allocation) (round : Round)
    → IsRound (suc n) slots start round
    → (All (Took (suc (suc n))) round.1
        → IsShared round.0 round.1 (allocate_loop fuel (suc (suc n)) round.0 round.1))
    → IsShared slots start (allocate_loop fuel (suc (suc n)) round.0 round.1)
after_round fuel n slots start round r later = elim r.full [
  | inl z ↦
      subst (IsShared slots start)
        (sym (
          ap (λ k. allocate_loop fuel (suc (suc n)) k round.1) z
          ∙ allocate_loop_full fuel (suc (suc n)) round.1))
        (IsShared-round n slots start round r (inl z))
  | inr t ↦ IsShared-later n slots start _ round r (later t)
]

IsShared-start :
    (n slots : ℕ) (start : List Allocation)
    → slots ≡ 0
    → All (Took (suc n)) start
    → IsShared slots start start
IsShared-start n slots start z t = record {
  same_goals = refl;
  took = All-imp (Took (suc n)) TookFirst (λ a e. (n, e)) start t;
  used = inl (omega (arith, z));
  limit = omega (arith, z);
}

smaller : (m n k : ℕ) → nat_eq m n ≡ false → m ≤ n → n ≤ suc k → m ≤ k
smaller m n k e l h = ground (arith, nat_eq_iff m n, e, l, h)

pub allocate_loop-IsShared :
    (fuel n slots : ℕ) (start : List Allocation)
    → slots ≤ fuel
    → All (Took (suc n)) start
    → IsShared slots start (allocate_loop fuel (suc n) slots start)
unfolding allocate_loop
allocate_loop-IsShared zero n slots start l t = IsShared-start n slots start (omega (arith, l)) t
allocate_loop-IsShared (suc fuel) n slots start l t =
    let round = allocate_round (suc n) slots start in
    let r = allocate_round-IsRound (suc n) slots start t in
    branches (IsShared slots start) (nat_eq slots 0)
      (λ e. IsShared-start n slots start ((nat_eq_iff slots 0).0 e) t)
      (λ e.
        branches (IsShared slots start) (nat_eq round.0 slots)
          (λ same.
            IsShared-round n slots start round r
              (elim (r.idle ((nat_eq_iff round.0 slots).0 same)) [
                | inl z ↦ inl (omega (arith, z, r.fewer))
                | inr c ↦ inr c
              ]))
          (λ fewer. after_round fuel n slots start round r (λ t'.
            allocate_loop-IsShared fuel (suc n) round.0 round.1
              (smaller round.0 slots fuel fewer r.fewer l) t')))
