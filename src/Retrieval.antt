-- ===== src/Retrieval.antt =====
-- app/services/retriever.py and app/services/hierarchical_retriever.py: from the rows that the database
-- finds to the chunks of the prompt. Scores are floats, a parameter with the operations used.
pub mod Fusion
pub mod Ranked
pub mod Ordered
pub mod Fused
pub mod Anchors
pub mod Merged
pub mod Adjacent
pub mod Expanded
pub mod Queries
pub mod Goals
pub mod Search
pub mod Found
use mini_nblm_proto.Prelude.{ℕ, ◌+◌, Bool, Option}
use mini_nblm_proto.Text.{Text}
use mini_nblm_proto.Json.{Fields}

-- The columns of a chunk that retrieval reads.
pub record ChunkRow : Type 0 where
  pub id : ℕ
  pub document_id : ℕ
  pub content : Text
  pub page_start : Option ℕ
  pub page_end : Option ℕ
  pub chunk_index : ℕ
  pub content_type : Text
  pub source_refs : Fields

-- The columns of a page that retrieval reads.
pub record PageRow : Type 0 where
  pub document_id : ℕ
  pub page_number : ℕ

-- The float operations of rank fusion.
pub record Scores (S : Type 0) : Type 0 where
  pub zero_score : S
  -- `1.0 / n`
  pub one_over : ℕ → S
  pub add : S → S → S
  -- `a > b`
  pub gt : S → S → Bool

-- `1.0 / (60 + rank)`
abbrev pub rank_score : {S : Type 0} → Scores S → ℕ → S
rank_score scores rank = scores.one_over (60 + rank)

-- `(chunk, score, document_title)`
abbrev pub Row : Type 0 → Type 0 → Type 0
Row C S = C × S × Text
