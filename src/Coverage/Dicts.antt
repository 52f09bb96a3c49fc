-- ===== src/Coverage/Dicts.antt =====
-- The dicts of the trace, read back by `build_evidence_matrix`.
use mini_nblm_proto.Prelude.{
  ℕ, ◌≡◌, refl, ap, Bool, true, false, ◌&&◌, Option, none, some, List, [], ◌∷◌, map, arith, is_some,
  all, ◌==◌, if◌then◌else◌, ℕ-Eq, list-Eq, pair-Eq, option-Eq, ok,
}
use mathlib.Core.Option
use mini_nblm_proto.Text.{Text}
use mini_nblm_proto.Json.{Json, arr, obj, Fields, get, get_or, items, from_list}
use mini_nblm_proto.Evidence.{EvidenceReference}
use mini_nblm_proto.Retrieval.Queries.{EvidenceGoal}
use mini_nblm_proto.Coverage.{
  CoverageEvent, record_coverage, reference_dict, reference_json, result_dict, status_text,
}
use mini_nblm_proto.Coverage.Response.{GoalCoverage, find_last}
use mini_nblm_proto.Coverage.Matrix.{
  Conversions, dicts, is_result_of, item_at, latest_results, matrix_goal, matrix_reference,
  matrix_references,
}

-- All cited chunks have pages.
abbrev pub has_pages : EvidenceReference → Bool
has_pages r = is_some r.page_start && is_some r.page_end

-- The last event with goals is the one recorded last.
pub latest_results-recorded :
    (events : List CoverageEvent) (attempt : ℕ) (status : Text) (r : Fields) (rs : List Fields)
    → latest_results (record_coverage events attempt status (r ∷ rs))
      ≡ arr (from_list (map obj (r ∷ rs)))
unfolding latest_results get_or get
latest_results-recorded [] attempt status r rs = refl
latest_results-recorded (event ∷ events) attempt status r rs =
    rw (latest_results-recorded events attempt status r rs) refl

pub items-from_list : (vs : List Json) → items (from_list vs) ≡ vs
items-from_list [] = refl
items-from_list (v ∷ vs) = ap (λ ws. v ∷ ws) (items-from_list vs)

pub dicts-obj : (rs : List Fields) → dicts (map obj rs) ≡ rs
dicts-obj [] = refl
dicts-obj (r ∷ rs) = ap (λ ws. r ∷ ws) (dicts-obj rs)

pub ands : (b c : Bool) → (b && c) ≡ true → (b ≡ true) × (c ≡ true)
ands b c h = ground (arith, h)

module _ (k : Conversions) where
  matrix_reference-dict :
      (id : ℕ) (title : Text) (first last : Option ℕ)
      → (is_some first && is_some last) ≡ true
      → matrix_reference k (reference_dict id title first last)
        ≡ ok (record { chunk_id = id; document_title = title; page_start = first; page_end = last })
  unfolding matrix_reference item_at get
  matrix_reference-dict id title (some a) (some b) h = refl
  matrix_reference-dict id title (some a) none h = ground (arith, h)
  matrix_reference-dict id title none b h = ground (arith, h)

  matrix_references-same :
      (rs : List EvidenceReference)
      → all has_pages rs ≡ true
      → matrix_references k (map reference_json rs) ≡ ok rs
  unfolding matrix_references
  matrix_references-same [] h = refl
  matrix_references-same (r ∷ rs) h =
      let both = ands (has_pages r) (all has_pages rs) h in
      rw
        (
          matrix_reference-dict r.chunk_id r.document_title r.page_start r.page_end both.0,
          matrix_references-same rs both.1,
        )
        refl

  pub matrix_goal-same :
      (goal : EvidenceGoal) (c : GoalCoverage)
      → all has_pages c.evidence ≡ true
      → matrix_goal k goal (some (result_dict c))
        ≡ ok (record {
          goal_id = goal.goal_id;
          description = goal.description;
          status = status_text c.status;
          evidence = c.evidence;
        })
  unfolding matrix_goal item_at get_or get
  matrix_goal-same goal c h =
      rw (items-from_list (map reference_json c.evidence), matrix_references-same c.evidence h) refl

  -- Looking for a result's dict is looking for the result.
  pub find_last-dict :
      (id : Text) (cs : List GoalCoverage)
      → find_last (is_result_of k id) (map result_dict cs)
        ≡ Option.map result_dict (find_last (λ (c : GoalCoverage). c.goal_id == id) cs)
  unfolding find_last get_or get
  find_last-dict id [] = refl
  find_last-dict id (c ∷ cs) =
      rw (find_last-dict id cs)
        (chosen (c.goal_id == id) (find_last (λ (r : GoalCoverage). r.goal_id == id) cs))
    where
      chosen :
          (b : Bool) (found : Option GoalCoverage)
          → elim (Option.map result_dict found) [
            | none ↦ if b then some (result_dict c) else none
            | some y ↦ some y
          ]
            ≡ Option.map result_dict
                (elim found [ none ↦ if b then some c else none | some y ↦ some y ])
      chosen true none = refl
      chosen false none = refl
      chosen b (some y) = refl
