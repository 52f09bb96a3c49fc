-- ===== src/Coverage/Matrix.antt =====
-- `build_evidence_matrix`: the latest judgement in the trace, as a table for the prompt. The trace holds
-- dicts, which are read key by key and converted again.
use mini_nblm_proto.Prelude.{
  ℕ, Bool, true, false, ◌||◌, Option, none, some, List, [], ◌∷◌, if◌then◌else◌, is_empty, any, all,
  ◌==◌, ℕ-Eq, list-Eq, pair-Eq, option-Eq, Result, ok, err, ◌>>=◌,
}
use mini_nblm_proto.Prelude.Int.{pos}
use mini_nblm_proto.Text.{Text, codes}
use mini_nblm_proto.Json.{
  Json, null, bool, int, str, arr, obj, nil, end, Fields, get, get_or, get_null, is_truthy, items,
  show_json,
}
use mini_nblm_proto.Evidence.{
  EvidenceReference, EvidenceMatrix, EvidenceMatrixGoal, MatrixStatus, complete, insufficient,
}
use mini_nblm_proto.Retrieval.Queries.{EvidenceGoal}
use mini_nblm_proto.Coverage.{CoverageEvent}
use mini_nblm_proto.Coverage.Response.{find_last}

-- `str` of a value that is no text, and `int` of a text, a float or a negative number, if it gives one.
pub record Conversions : Type 0 where
  pub str_of : Json → Text
  pub int_of : Json → Option ℕ

-- A `KeyError`, and the calls that raise a `TypeError` or a `ValueError`.
pub data MatrixError : Type 0 where
  key_missing : Text → MatrixError
  not_iterable not_a_dict not_a_number : MatrixError

-- `event.get("goals", [])` of the last event whose goals are not empty.
unfoldable pub latest_results : List CoverageEvent → Json
unfolding get_or
latest_results [] = arr nil
latest_results (event ∷ events) =
    let later = latest_results events in
    let here = get_null (codes "goals") event in
    if is_truthy later then later else if is_truthy here then here else arr nil

abbrev pub dicts : List Json → List Fields
dicts [] = []
dicts (obj d ∷ vs) = d ∷ dicts vs
dicts (_ ∷ vs) = dicts vs

-- The dicts among the results. The characters of a text and the keys of a dict are none.
abbrev pub result_dicts : Json → Result MatrixError (List Fields)
result_dicts (arr vs) = ok (dicts (items vs))
result_dicts (str t) = ok []
result_dicts (obj d) = ok []
result_dicts _ = err not_iterable

-- `d[key]`
unfoldable pub item_at : Text → Fields → Result MatrixError Json
unfolding get
item_at key d = elim (get key d) [ none ↦ err (key_missing key) | some v ↦ ok v ]

module _ (x : Conversions) where
  abbrev converted : Json → Result MatrixError ℕ
  converted v = elim (x.int_of v) [ none ↦ err not_a_number | some n ↦ ok n ]

  -- `int(v)`
  abbrev pub to_int : Json → Result MatrixError ℕ
  to_int (int (pos n)) = ok n
  to_int (bool true) = ok 1
  to_int (bool false) = ok 0
  to_int null = err not_a_number
  to_int (arr vs) = err not_a_number
  to_int (obj d) = err not_a_number
  to_int v = converted v

  unfoldable pub matrix_reference : Fields → Result MatrixError EvidenceReference
  unfolding item_at
  matrix_reference item = (item_at (codes "chunk_id") item >>= to_int) >>= λ chunk_id.
      item_at (codes "document_title") item >>= λ document_title.
      (item_at (codes "page_start") item >>= to_int) >>= λ page_start.
      (item_at (codes "page_end") item >>= to_int) >>= λ page_end. ok (record {
        chunk_id = chunk_id;
        document_title = show_json x.str_of document_title;
        page_start = some page_start;
        page_end = some page_end;
      })

  unfoldable pub matrix_references : List Json → Result MatrixError (List EvidenceReference)
  unfolding matrix_reference
  matrix_references [] = ok []
  matrix_references (obj item ∷ vs) = matrix_reference item >>= λ reference.
      matrix_references vs >>= λ references. ok (reference ∷ references)
  matrix_references (_ ∷ vs) = err not_a_dict

  -- `for item in result.get("evidence", [])`
  abbrev pub evidence_of : Json → Result MatrixError (List EvidenceReference)
  evidence_of (arr vs) = matrix_references (items vs)
  evidence_of (str []) = ok []
  evidence_of (str (c ∷ t)) = err not_a_dict
  evidence_of (obj end) = ok []
  evidence_of (obj d) = err not_a_dict
  evidence_of _ = err not_iterable

  unfoldable pub matrix_goal : EvidenceGoal → Option Fields → Result MatrixError EvidenceMatrixGoal
  unfolding matrix_references get_or item_at
  matrix_goal goal none = ok (record {
    goal_id = goal.goal_id;
    description = goal.description;
    status = codes "unchecked";
    evidence = [];
  })
  matrix_goal goal (some result) =
      evidence_of (get_or (codes "evidence") (arr nil) result) >>= λ evidence.
      item_at (codes "status") result >>= λ status. ok (record {
        goal_id = goal.goal_id;
        description = goal.description;
        status = show_json x.str_of status;
        evidence = evidence;
      })

  abbrev pub is_result_of : Text → Fields → Bool
  is_result_of id result = show_json x.str_of (get_null (codes "goal_id") result) == id

  -- The loop over the goals.
  unfoldable pub matrix_goals :
      List Fields → List EvidenceGoal → Result MatrixError (List EvidenceMatrixGoal)
  unfolding matrix_goal find_last get_or
  matrix_goals results [] = ok []
  matrix_goals results (goal ∷ goals) =
      matrix_goal goal (find_last (is_result_of goal.goal_id) results) >>= λ g.
      matrix_goals results goals >>= λ gs. ok (g ∷ gs)

  abbrev has_status : Text → EvidenceMatrixGoal → Bool
  has_status status goal = goal.status == status

  unfoldable pub matrix_status : List EvidenceMatrixGoal → MatrixStatus
  matrix_status goals =
      if all (has_status (codes "supported")) goals
      then complete
      else if any (has_status (codes "supported")) goals || any (has_status (codes "partial")) goals
      then MatrixStatus.partial
      else if all (has_status (codes "unchecked")) goals
      then MatrixStatus.unchecked
      else insufficient

  unfoldable pub build_evidence_matrix :
      List EvidenceGoal → List CoverageEvent → Result MatrixError EvidenceMatrix
  unfolding latest_results matrix_goals matrix_status
  build_evidence_matrix goals events =
      let matrix = result_dicts (latest_results events) >>= λ results.
      matrix_goals results goals >>= λ gs. ok (record { status = matrix_status gs; goals = gs }) in
      if is_empty goals then ok (record { status = MatrixStatus.unchecked; goals = [] }) else matrix
