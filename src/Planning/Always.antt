-- ===== src/Planning/Always.antt =====
-- Planning always ends with a plan.
use mini_nblm_proto.Prelude.{
  ◌≤◌, ◌≡◌, refl, sym, Bool, not, Option, none, some, List, [], ◌∷◌, map, arith, or_else, length,
  is_empty, length-take, Distinct, Distinct-take, ℕ-Eq, list-Eq, pair-Eq, option-Eq, Result, ok,
  err, branches,
}
use mathlib.Core.Path.{subst}
use mini_nblm_proto.Prelude.Dedup.{keep_new, keep_new-Distinct}
use mini_nblm_proto.Text.{Text, strip}
use mini_nblm_proto.Conversation.{Message}
use mini_nblm_proto.Retrieval.Queries.{map-take}
use mini_nblm_proto.Planning.{
  plan_retrieval_queries, unplanned, fallback_plan, normalize_rewritten_query, planned,
}
use mini_nblm_proto.Planning.Values.{Decoding, deduplicate_queries}
use mini_nblm_proto.Planning.Planned.{IsPlan, normalize_query_plan-IsSearchPlan}
use mini_nblm_proto.Planning.Payload.{
  PlanError, RetrievalQueryPlan, goal_texts, normalize_query_plan, plan_queries,
}

module _ (x : Decoding) where
  fallback_plan-IsPlan : (question : Text) → IsPlan (fallback_plan question)
  unfolding fallback_plan
  fallback_plan-IsPlan question = record {
    some_goals = omega arith;
    few_goals = omega arith;
    once = (refl, tt);
    each = ((omega arith, omega arith), tt);
    total = omega arith;
  }

  unplanned-IsPlan : (rewritten question : Text) → IsPlan (unplanned x rewritten question)
  unfolding unplanned
  unplanned-IsPlan rewritten question =
      let normalized = normalize_rewritten_query x rewritten question in
      branches IsPlan _ (λ e. fallback_plan-IsPlan normalized) (λ e. fallback_plan-IsPlan question)

  -- A plan of the model where there is one, and else a plan that is always there.
  planned-IsPlan :
      (question : Text) (answer : Option Text) (other : RetrievalQueryPlan)
      → IsPlan other
      → IsPlan (or_else (planned x question answer) other)
  planned-IsPlan question none other h = h
  planned-IsPlan question (some response) other h =
      accepted (normalize_query_plan x response question) refl
    where
      accepted :
          (r : Result PlanError RetrievalQueryPlan)
          → normalize_query_plan x response question ≡ r
          → IsPlan (or_else (elim r [ err e ↦ none | ok plan ↦ some plan ]) other)
      accepted (err e) k = h
      accepted (ok plan) k = (normalize_query_plan-IsSearchPlan x response question plan k).shape

  within_six :
      (plan : RetrievalQueryPlan)
      → Distinct (map x.casefold (plan_queries x plan)) × (length (plan_queries x plan) ≤ 6)
  unfolding plan_queries deduplicate_queries
  within_six plan =
      let candidates = plan.standalone_query ∷ goal_texts plan.goals in
      let wanted : Text → Bool = λ query. not (is_empty query) in
      let kept = keep_new x.casefold wanted [] candidates in
      (
        subst Distinct (sym (map-take x.casefold 6 kept)) (
            Distinct-take 6 (map x.casefold kept)
              (keep_new-Distinct x.casefold wanted [] candidates)),
        omega (arith, length-take 6 kept),
      )

  always-IsPlan :
      (rewrite : List Message → Text → Option Text) (repair : Text → Option Text) (question : Text)
      (history : List Message)
      → IsPlan (plan_retrieval_queries x rewrite repair question history)
  unfolding plan_retrieval_queries
  always-IsPlan rewrite repair question history =
      planned-IsPlan (strip question) _ _
        (planned-IsPlan (strip question) _ _ (unplanned-IsPlan _ (strip question)))

  -- Whatever the model answers, or if it does not answer: planning ends with a plan of one to four goals
  -- with different ids, one to three queries for each goal and at most five in all, and with at most six
  -- queries to search for, no two of them the same up to case.
  pub plan_retrieval_queries-IsPlan :
      (rewrite : List Message → Text → Option Text) (repair : Text → Option Text) (question : Text)
      (history : List Message)
      → IsPlan (plan_retrieval_queries x rewrite repair question history)
        × Distinct (
            map x.casefold
              (plan_queries x (plan_retrieval_queries x rewrite repair question history)))
        × (length (plan_queries x (plan_retrieval_queries x rewrite repair question history)) ≤ 6)
  plan_retrieval_queries-IsPlan rewrite repair question history =
      let (once, few) = within_six (plan_retrieval_queries x rewrite repair question history) in
      (always-IsPlan rewrite repair question history, once, few)
