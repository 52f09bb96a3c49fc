-- ===== src/Coverage/Parsed.antt =====
-- What an accepted judgement of the model is: one result for each planned goal, tied to the chunks.
use mini_nblm_proto.Prelude.{
  ℕ, ◌≤◌, ◌≡◌, refl, Bool, ◌||◌, not, Option, none, some, List, [], ◌∷◌, ◌++◌, map, arith, nat_eq,
  length, is_empty, any, All, Any, All-append, ◌==◌, Distinct, ℕ-Eq, list-Eq, pair-Eq, option-Eq,
  Result, ok, err, ◌>>=◌,
}
use mini_nblm_proto.Text.{Text, codes}
use mini_nblm_proto.Prelude.Holds.{Holds, Holds-bind, Holds-guard, Holds-found, Holds-eq}
use mini_nblm_proto.Json.{Json, null, bool, real, int, str, arr, obj, nil, items, get_or, get_null}
use mini_nblm_proto.Evidence.{RetrievedChunk, EvidenceReference, GoalStatus}
use mini_nblm_proto.Retrieval.Queries.{EvidenceGoal}
use mini_nblm_proto.Coverage.Response.{
  GoalCoverage, Assessment, CoverageError, Reading, find_last, is_missing, parse_coverage_response,
  parse_goal, parse_references, goal_id_of, parse_results, in_order, parse_payload,
  parse_json_object, normalize_retry_queries, parse_status, unknown_goal_id, no_evidence_cited,
  missing_cites_evidence, wrong_goal_count, goal_not_returned,
}
use mini_nblm_proto.Coverage.Lookup.{find_last-All, find_last-keyed, find_last-Any}
use mini_nblm_proto.Coverage.Cited.{
  IsCitationOf, AreCitations, parse_references-AreCitations, normalize_retry_queries_bound,
}

described : {g d : Text} → ◌≡◌ {A = Result CoverageError Text} (ok g) (ok d) → g ≡ d
described h = cc

module _ {S : Type 0} where
  -- One result of the model: it speaks of a planned goal, cites chunks of the list, each
  -- once, cites none exactly when its goal is missing, and asks for at most three searches.
  pub record IsJudgement (goals : List EvidenceGoal) (chunks : List (RetrievedChunk S))
      (c : GoalCoverage) : Type 0 where
    pub planned :
        Any (λ goal. (goal.goal_id ≡ c.goal_id) × (goal.description ≡ c.description)) goals
    pub cited : All (IsCitationOf chunks) c.evidence
    pub once : Distinct (map (λ reference. reference.chunk_id) c.evidence)
    pub uncited : is_missing c.status ≡ is_empty c.evidence
    pub queries : length c.retry_queries ≤ 3

  module _ (x : Reading) (goals : List EvidenceGoal) (chunks : List (RetrievedChunk S)) where
    planned_goal :
        (id : Text) (description : Text) (found : Option EvidenceGoal)
        → find_last (λ (g : EvidenceGoal). g.goal_id == id) goals ≡ found
        → elim found [ none ↦ err unknown_goal_id | some goal ↦ ok goal.description ]
          ≡ ok description
        → Any (λ goal. (goal.goal_id ≡ id) × (goal.description ≡ description)) goals
    planned_goal id description none e h = ground (arith, h)
    planned_goal id description (some goal) e h =
        let has_id : EvidenceGoal → Bool = λ g. g.goal_id == id in
        find_last-Any _ has_id goals e (
          ((list-Eq {A = ℕ}).eqb_iff goal.goal_id id).0 (find_last-keyed has_id goals e),
          described h,
        )

    -- The end of a goal, from the retry queries on.
    judgement :
        (id description : Text) (status : GoalStatus) (evidence : List EvidenceReference)
        (raw : Json)
        → Any (λ goal. (goal.goal_id ≡ id) × (goal.description ≡ description)) goals
        → AreCitations chunks [] evidence
        → is_missing status ≡ is_empty evidence
        → Holds (IsJudgement goals chunks) (
            normalize_retry_queries x raw >>= λ queries. ok (record {
              goal_id = id;
              description = description;
              status = status;
              evidence = evidence;
              retry_queries = queries;
            }))
    judgement id description status evidence raw p citations u =
        Holds-bind (IsJudgement goals chunks) (normalize_retry_queries x raw)
          (λ queries. ok (record {
            goal_id = id;
            description = description;
            status = status;
            evidence = evidence;
            retry_queries = queries;
          }))
          (λ queries q. record {
            planned = p;
            cited = citations.known;
            once = citations.once;
            uncited = u;
            queries =
                Holds-eq (λ qs. length qs ≤ 3) _ queries
                  (normalize_retry_queries_bound x goals chunks raw) q;
          })

    parse_goal-IsJudgement :
        (parsed : List GoalCoverage) (raw : Json)
        → Holds (IsJudgement goals chunks) (parse_goal x goals chunks parsed raw)
    unfolding parse_goal
    parse_goal-IsJudgement parsed (obj raw) =
        let id = goal_id_of x goals chunks (get_null (codes "goal_id") raw) in
        let raw_ids = get_or (codes "evidence_chunk_ids") (arr nil) raw in
        let raw_queries = get_or (codes "retry_queries") (arr nil) raw in
        let P = IsJudgement goals chunks in
        Holds-guard P (not (any (λ (c : GoalCoverage). c.goal_id == id) parsed)) unknown_goal_id _
          (λ new. Holds-bind P _ _ (λ description d.
            Holds-bind P (parse_references x goals chunks raw_ids) _ (λ evidence r.
              Holds-bind P (parse_status x (get_null (codes "status") raw)) _ (λ status s.
                Holds-guard P (is_missing status || not (is_empty evidence)) no_evidence_cited _
                  (λ cites.
                    Holds-guard P (not (is_missing status) || is_empty evidence)
                      missing_cites_evidence _
                      (λ cites_none.
                        judgement id description status evidence raw_queries
                          (planned_goal id description _ refl d)
                          (Holds-eq (AreCitations chunks []) _ evidence
                            (parse_references-AreCitations x goals chunks raw_ids) r)
                          (ground (arith, cites, cites_none))))))))
    parse_goal-IsJudgement parsed null = tt
    parse_goal-IsJudgement parsed (bool b) = tt
    parse_goal-IsJudgement parsed (int n) = tt
    parse_goal-IsJudgement parsed (real t) = tt
    parse_goal-IsJudgement parsed (str t) = tt
    parse_goal-IsJudgement parsed (arr vs) = tt

    parse_results-IsJudgement :
        (parsed : List GoalCoverage) (raws : List Json)
        → All (IsJudgement goals chunks) parsed
        → Holds (All (IsJudgement goals chunks)) (parse_results x goals chunks parsed raws)
    unfolding parse_results
    parse_results-IsJudgement parsed [] h = h
    parse_results-IsJudgement parsed (raw ∷ raws) h =
        Holds-bind _ (parse_goal x goals chunks parsed raw) _ (λ c e.
          let judgement =
            Holds-eq (IsJudgement goals chunks) _ c (parse_goal-IsJudgement parsed raw) e in
          parse_results-IsJudgement (parsed ++ c ∷ []) raws
            (All-append (IsJudgement goals chunks) parsed (c ∷ []) h (judgement, tt)))

    -- The results of the goals, one for each, in their order.
    abbrev pub AreJudged : List EvidenceGoal → Assessment → Type 0
    AreJudged [] [] = Unit
    AreJudged [] (c ∷ assessment) = ⊥
    AreJudged (goal ∷ rest) [] = ⊥
    AreJudged (goal ∷ rest) (c ∷ assessment) =
        (c.goal_id ≡ goal.goal_id) × IsJudgement goals chunks c × AreJudged rest assessment

    in_order-AreJudged :
        (parsed : List GoalCoverage) (rest : List EvidenceGoal)
        → All (IsJudgement goals chunks) parsed
        → Holds (AreJudged rest) (in_order x goals chunks parsed rest)
    unfolding in_order
    in_order-AreJudged parsed [] h = tt
    in_order-AreJudged parsed (goal ∷ rest) h =
        let has_id : GoalCoverage → Bool = λ c. c.goal_id == goal.goal_id in
        Holds-found (AreJudged (goal ∷ rest)) (find_last has_id parsed) goal_not_returned _
          (λ c found.
            let both = find_last-All (IsJudgement goals chunks) has_id parsed h found in
            Holds-bind (AreJudged (goal ∷ rest)) (in_order x goals chunks parsed rest) _
              (λ assessment e. (
                ((list-Eq {A = ℕ}).eqb_iff c.goal_id goal.goal_id).0 both.1,
                both.0,
                Holds-eq (AreJudged rest) _ assessment (in_order-AreJudged parsed rest h) e,
              )))

    parse_payload-AreJudged :
        (raw : Json) → Holds (AreJudged goals) (parse_payload x goals chunks raw)
    unfolding parse_payload
    parse_payload-AreJudged (arr raws) =
        Holds-guard (AreJudged goals) (nat_eq (length (items raws)) (length goals)) wrong_goal_count
          _
          (λ counted.
            Holds-bind (AreJudged goals) (parse_results x goals chunks [] (items raws)) _
              (λ parsed e. in_order-AreJudged parsed goals (
                Holds-eq (All (IsJudgement goals chunks)) _ parsed
                  (parse_results-IsJudgement [] (items raws) tt) e)))
    parse_payload-AreJudged null = tt
    parse_payload-AreJudged (bool b) = tt
    parse_payload-AreJudged (int n) = tt
    parse_payload-AreJudged (real t) = tt
    parse_payload-AreJudged (str t) = tt
    parse_payload-AreJudged (obj d) = tt

    -- Whatever the model answers: if the answer is accepted, it has one result for each planned goal, in
    -- the order of the plan and under the goal's id; each result describes its goal as planned, cites only
    -- chunks of the list that it was given, with their own titles and pages, and each once, cites none exactly when the goal is missing, and
    -- asks for at most three searches.
    pub parse_coverage_response-AreJudged :
        (response : Text) (assessment : Assessment)
        → parse_coverage_response x goals chunks response ≡ ok assessment
        → AreJudged goals assessment
    unfolding parse_coverage_response
    parse_coverage_response-AreJudged response assessment h =
        Holds-eq (AreJudged goals) _ assessment
          (Holds-bind (AreJudged goals) (parse_json_object x response) _
            (λ payload e. parse_payload-AreJudged (get_null (codes "goals") payload)))
          h
