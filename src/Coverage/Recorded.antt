-- ===== src/Coverage/Recorded.antt =====
-- The way of a judgement through the trace into the matrix.
use mini_nblm_proto.Prelude.{
  ℕ, ◌≡◌, refl, sym, ap, ◌∙◌, ◌↔◌, Bool, true, false, none, some, List, [], ◌∷◌, ◌++◌, map,
  append_assoc, arith, is_empty, all, ◌==◌, contains, Distinct, ℕ-Eq, list-Eq, pair-Eq, option-Eq,
  ok,
}
use mathlib.Core.Path.{subst}
use mathlib.Core.Option
use mini_nblm_proto.Text.{Text, codes}
use mini_nblm_proto.Json.{obj}
use mini_nblm_proto.Evidence.{
  RetrievedChunk, EvidenceMatrix, EvidenceMatrixGoal, GoalStatus, complete,
}
use mini_nblm_proto.Retrieval.Queries.{EvidenceGoal}
use mini_nblm_proto.Retrieval.Goals.{goal_ids}
use mini_nblm_proto.Coverage.{
  CoverageEvent, record_assessment, result_dict, status_text, sufficient,
}
use mini_nblm_proto.Coverage.Response.{GoalCoverage, Assessment, Reading, find_last, is_supported}
use mini_nblm_proto.Coverage.Parsed.{AreJudged}
use mini_nblm_proto.Coverage.Matrix.{
  Conversions, build_evidence_matrix, dicts, latest_results, matrix_goals, matrix_status,
  result_dicts,
}
use mini_nblm_proto.Coverage.Dicts.{
  ands, dicts-obj, find_last-dict, has_pages, items-from_list, latest_results-recorded,
  matrix_goal-same,
}

-- The rows of the judged goals: the plan's text, with the status and the evidence of the judgement.
abbrev pub rows : List EvidenceGoal → Assessment → List EvidenceMatrixGoal
rows [] a = []
rows (goal ∷ goals) [] = []
rows (goal ∷ goals) (c ∷ a) =
    record {
      goal_id = goal.goal_id;
      description = goal.description;
      status = status_text c.status;
      evidence = c.evidence;
    }
    ∷ rows goals a

find_last-append_some :
    {A : Type 0} (p : A → Bool) (xs ys : List A) {y : A}
    → find_last p ys ≡ some y
    → find_last p (xs ++ ys) ≡ some y
unfolding find_last
find_last-append_some p [] ys e = e
find_last-append_some p (x ∷ xs) ys e = rw (find_last-append_some p xs ys e) refl

find_last-fresh :
    (id : Text) (cs : List GoalCoverage)
    → contains (map (λ (c : GoalCoverage). c.goal_id) cs) id ≡ false
    → find_last (λ (c : GoalCoverage). c.goal_id == id) cs ≡ none
unfolding find_last
find_last-fresh id [] h = refl
find_last-fresh id (c ∷ cs) h = ground (arith, find_last-fresh id cs, h)

found_here :
    {A : Type 0} (p : A → Bool) (x : A) (xs : List A)
    → find_last p xs ≡ none
    → p x ≡ true
    → find_last p (x ∷ xs) ≡ some x
unfolding find_last
found_here p x xs e h = rw (e, h) refl

module _ {S : Type 0} (k : Conversions) (x : Reading) (planned : List EvidenceGoal)
    (chunks : List (RetrievedChunk S)) where
  judged_ids :
      (goals : List EvidenceGoal) (a : Assessment)
      → AreJudged x planned chunks goals a
      → map (λ (c : GoalCoverage). c.goal_id) a ≡ goal_ids goals
  judged_ids [] [] j = refl
  judged_ids [] (c ∷ a) j = elim j [ ]
  judged_ids (goal ∷ goals) [] j = elim j [ ]
  judged_ids (goal ∷ goals) (c ∷ a) j =
      let (e, is, rest) = j in rw (e, judged_ids goals a rest) refl

  own_result :
      (before : Assessment) (goal : EvidenceGoal) (goals : List EvidenceGoal) (c : GoalCoverage)
      (a : Assessment)
      → AreJudged x planned chunks (goal ∷ goals) (c ∷ a)
      → contains (goal_ids goals) goal.goal_id ≡ false
      → find_last (λ (r : GoalCoverage). r.goal_id == goal.goal_id) (before ++ c ∷ a) ≡ some c
  own_result before goal goals c a j n =
      let (e, is, rest) = j in
      let new =
        subst (λ ids. contains ids goal.goal_id ≡ false) (sym (judged_ids goals a rest)) n in
      find_last-append_some _ before (c ∷ a) (
        found_here _ c a (find_last-fresh goal.goal_id a new)
          (((list-Eq {A = ℕ}).eqb_iff c.goal_id goal.goal_id).1 e))

  -- Each goal finds its own result among all results, when no two goals share an id.
  matrix_goals-same :
      (before : Assessment) (goals : List EvidenceGoal) (a : Assessment)
      → AreJudged x planned chunks goals a
      → Distinct (goal_ids goals)
      → all (λ (c : GoalCoverage). all has_pages c.evidence) a ≡ true
      → matrix_goals k (map result_dict (before ++ a)) goals ≡ ok (rows goals a)
  unfolding matrix_goals
  matrix_goals-same before [] [] j d h = refl
  matrix_goals-same before [] (c ∷ a) j d h = elim j [ ]
  matrix_goals-same before (goal ∷ goals) [] j d h = elim j [ ]
  matrix_goals-same before (goal ∷ goals) (c ∷ a) j d h =
      let (e, is, rest) = j in
      let both = ands (all has_pages c.evidence) _ h in
      let later =
        subst (λ rs. matrix_goals k (map result_dict rs) goals ≡ ok (rows goals a))
          (append_assoc before (c ∷ []) a)
          (matrix_goals-same (before ++ c ∷ []) goals a rest d.1 both.1) in
      let found =
        find_last-dict k goal.goal_id (before ++ c ∷ a)
        ∙ ap (Option.map result_dict) (own_result before goal goals c a j d.0) in
      rw (found, matrix_goal-same k goal c both.0, later) refl

  supported_text : (s : GoalStatus) → (status_text s == codes "supported") ≡ is_supported s
  supported_text GoalStatus.supported = refl
  supported_text GoalStatus.partial = refl
  supported_text GoalStatus.missing = refl
  supported_text GoalStatus.contradicted = refl
  supported_text GoalStatus.unchecked = refl

  supported_rows :
      (goals : List EvidenceGoal) (a : Assessment)
      → AreJudged x planned chunks goals a
      → all (λ (goal : EvidenceMatrixGoal). goal.status == codes "supported") (rows goals a)
        ≡ all (λ (c : GoalCoverage). is_supported c.status) a
  supported_rows [] [] j = refl
  supported_rows [] (c ∷ a) j = elim j [ ]
  supported_rows (goal ∷ goals) [] j = elim j [ ]
  supported_rows (goal ∷ goals) (c ∷ a) j =
      let (e, is, rest) = j in rw (supported_text c.status, supported_rows goals a rest) refl

  judged_some :
      (goals : List EvidenceGoal) (a : Assessment)
      → AreJudged x planned chunks goals a
      → is_empty a ≡ is_empty goals
  judged_some [] [] j = refl
  judged_some [] (c ∷ a) j = elim j [ ]
  judged_some (goal ∷ goals) [] j = elim j [ ]
  judged_some (goal ∷ goals) (c ∷ a) j = refl

  matrix_status-complete :
      (goals : List EvidenceGoal) (a : Assessment)
      → is_empty goals ≡ false
      → AreJudged x planned chunks goals a
      → (matrix_status k (rows goals a) ≡ complete) ↔ (sufficient a ≡ true)
  unfolding matrix_status sufficient
  matrix_status-complete goals a n j =
      ground (arith, supported_rows goals a j, judged_some goals a j, n)

  recorded :
      (events : List CoverageEvent) (attempt : ℕ) (goals : List EvidenceGoal) (a : Assessment)
      → is_empty a ≡ false
      → result_dicts (latest_results (record_assessment events attempt goals (some a)))
        ≡ ok (map result_dict a)
  unfolding record_assessment
  recorded events attempt goals [] h = cc
  recorded events attempt goals (c ∷ a) h =
      let rs = map result_dict (c ∷ a) in
      ap result_dicts (latest_results-recorded events attempt _ (result_dict c) (map result_dict a))
      ∙ ap (λ vs. ok (dicts vs)) (items-from_list (map obj rs))
      ∙ ap (λ ds. ok ds) (dicts-obj rs)

  -- A judgement of planned goals with different ids, whose cited chunks all have pages, comes back from
  -- the dicts of the trace: after it is recorded, whatever was recorded before, the matrix can be read
  -- and has exactly its statuses (as text) and its evidence, goal by goal in the order of the plan, and
  -- is complete exactly when the judgement is sufficient.
  pub build_evidence_matrix-record_assessment :
      (events : List CoverageEvent) (attempt : ℕ) (goals : List EvidenceGoal) (a : Assessment)
      → is_empty goals ≡ false
      → AreJudged x planned chunks goals a
      → Distinct (goal_ids goals)
      → all (λ (c : GoalCoverage). all has_pages c.evidence) a ≡ true
      → (matrix : EvidenceMatrix) × (build_evidence_matrix k goals
            (record_assessment events attempt goals (some a))
          ≡ ok matrix)
        × (matrix.goals ≡ rows goals a)
        × ((matrix.status ≡ complete) ↔ (sufficient a ≡ true))
  unfolding build_evidence_matrix
  build_evidence_matrix-record_assessment events attempt goals a n j d h =
      let latest = recorded events attempt goals a (judged_some goals a j ∙ n) in
      (
        record { status = matrix_status k (rows goals a); goals = rows goals a },
        rw (n, latest, matrix_goals-same [] goals a j d h) refl,
        refl,
        matrix_status-complete goals a n j,
      )
