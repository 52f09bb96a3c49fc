-- ===== src/Evidence.antt =====
-- The data of app/services/retriever.py and app/services/evidence_coverage.py that retrieval, coverage
-- and prompts share. A score is a float, whose type `S` is a parameter.
use mini_nblm_proto.Prelude.{ℕ, Option, List, ℕ-Eq, list-Eq, pair-Eq, option-Eq}
use mini_nblm_proto.Text.{Text}
use mini_nblm_proto.Json.{Fields}

pub record RetrievedChunk (S : Type 0) : Type 0 where
  pub chunk_id : ℕ
  pub document_id : ℕ
  pub document_title : Text
  pub content : Text
  pub page_start : Option ℕ
  pub page_end : Option ℕ
  pub score : S
  pub source_refs : Fields
  pub content_type : Text

pub record EvidenceReference : Type 0 where
  pub chunk_id : ℕ
  pub document_title : Text
  pub page_start : Option ℕ
  pub page_end : Option ℕ

-- `GOAL_STATUSES`, and the status of a goal that was not assessed.
pub data GoalStatus : Type 0 where
  supported partial missing contradicted unchecked : GoalStatus

pub record EvidenceMatrixGoal : Type 0 where
  pub goal_id : Text
  pub description : Text
  pub status : Text
  pub evidence : List EvidenceReference

pub data MatrixStatus : Type 0 where
  complete partial insufficient unchecked : MatrixStatus

pub record EvidenceMatrix : Type 0 where
  pub status : MatrixStatus
  pub goals : List EvidenceMatrixGoal
