-- ===== src/Database.antt =====
-- The rows that the services read and write (app/models), as tables in the order of their ids, and
-- the table operations behind app/repositories. Time stamps are not modelled.
pub mod Tables
use mini_nblm_proto.Prelude.{ℕ, Bool, Option, List}
use mini_nblm_proto.Text.{Text}
use mini_nblm_proto.Json.{Json, Fields}
use mini_nblm_proto.Chunker.{ParsedPage, TextChunk}
use mini_nblm_proto.Presets.{RetrievalPreset}

pub data DocumentStatus : Type 0 where
  uploaded processing indexed failed : DocumentStatus

pub record Document : Type 0 where
  pub id : ℕ
  pub owner_id : ℕ
  pub title : Text
  pub file_path : Text
  pub mime_type : Option Text
  pub status : DocumentStatus
  pub error_message : Option Text
  pub indexed_preset_key : Option Text
  pub index_version : Option ℕ
  pub deleted : Bool

-- A vector of floats, each kept by its text: it is only stored.
abbrev pub Embedding : Type 0
Embedding = List Text

pub record Chunk : Type 0 where
  pub document_id : ℕ
  pub chunk : TextChunk
  pub embedding : Embedding

pub record DocumentPage : Type 0 where
  pub document_id : ℕ
  pub page : ParsedPage

pub record ChatSession : Type 0 where
  pub id : ℕ
  pub owner_id : ℕ
  pub document_id : Option ℕ

pub record ChatMessage : Type 0 where
  pub id : ℕ
  pub session_id : ℕ
  pub content : Text

pub data UserRole : Type 0 where
  plain admin : UserRole

pub record User : Type 0 where
  pub id : ℕ
  pub username : Text
  pub password_hash : Text
  pub role : UserRole
  pub is_active : Bool
  pub must_change_password : Bool

pub record AuthSession : Type 0 where
  pub user_id : ℕ
  pub token_hash : Text
  pub expires_at : ℕ

-- The singleton row of `retrieval_configuration`.
pub record RetrievalConfiguration : Type 0 where
  pub active_preset_key : Text
  pub pending_preset_key : Option Text
  pub index_version : ℕ
  pub maintenance_mode : Bool

pub data JobStatus : Type 0 where
  pending running completed completed_with_errors failed : JobStatus

pub record ReindexJob : Type 0 where
  pub id : ℕ
  pub requested_by : Option ℕ
  pub source_preset_key : Text
  pub target_preset_key : Text
  pub target_index_version : ℕ
  pub status : JobStatus
  pub reindex_documents : Bool
  pub rebuild_vector_index : Bool
  pub runtime_settings_changed : Bool
  pub total_documents : ℕ
  pub completed_documents : ℕ
  pub failed_documents : ℕ
  pub error_message : Option Text

pub record Db : Type 0 where
  pub users : List User
  pub auth_sessions : List AuthSession
  pub documents : List Document
  pub pages : List DocumentPage
  pub chunks : List Chunk
  pub chat_sessions : List ChatSession
  pub messages : List ChatMessage
  pub presets : List RetrievalPreset
  pub configuration : RetrievalConfiguration
  pub jobs : List ReindexJob
  -- The next values of the id sequences.
  pub next_user_id : ℕ
  pub next_document_id : ℕ
  pub next_job_id : ℕ
