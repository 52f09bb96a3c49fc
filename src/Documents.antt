-- ===== src/Documents.antt =====
-- app/repositories/document_repository.py and the parts of the chunk, page and chat repositories that
-- documents own.
pub mod Processing
pub mod Service
pub mod Settled
pub mod Isolation
pub mod Settings
use mini_nblm_proto.Prelude.{
  ℕ, Bool, true, false, ◌&&◌, not, Option, none, some, List, [], ◌∷◌, map, nat_eq, is_some, ◌==◌,
  contains, ℕ-Eq, list-Eq, pair-Eq, option-Eq,
}
use mini_nblm_proto.Text.{Text, codes}
use mini_nblm_proto.Json.{Json}
use mini_nblm_proto.Chunker.{ParsedPage, TextChunk, chunk_pages}
use mini_nblm_proto.Presets.{RetrievalPreset}
use mini_nblm_proto.Database.{
  Db, Document, DocumentStatus, uploaded, processing, indexed, failed, Chunk, DocumentPage,
  Embedding, ChatSession, User,
}
use mini_nblm_proto.Database.Tables.{find, where_rows, delete_rows, update_rows}
use mathlib.Core.Option

-- `Document.id == i, Document.deleted_at.is_(None)`
abbrev pub is_document : ℕ → Document → Bool
is_document i d = nat_eq d.id i && not d.deleted

abbrev pub owned_by : ℕ → ℕ → Document → Bool
owned_by owner_id i d = nat_eq d.id i && nat_eq d.owner_id owner_id && not d.deleted

-- `status in {"uploaded", "processing"}`
abbrev pub is_active_status : DocumentStatus → Bool
is_active_status uploaded = true
is_active_status processing = true
is_active_status indexed = false
is_active_status failed = false

unfoldable pub get_document_by_id : Db → ℕ → Option Document
get_document_by_id db i = find (is_document i) db.documents

unfoldable pub get_document : Db → ℕ → ℕ → Option Document
get_document db i owner_id = find (owned_by owner_id i) db.documents

unfoldable pub list_all_documents : Db → List Document
list_all_documents db = where_rows (λ d. not d.deleted) db.documents

unfoldable pub list_interrupted_documents : Db → List Document
list_interrupted_documents db =
    where_rows (λ d. not d.deleted && is_active_status d.status) db.documents

unfoldable pub has_active_documents : Db → Bool
has_active_documents db =
    is_some (find (λ d. not d.deleted && is_active_status d.status) db.documents)

abbrev pub set_status : DocumentStatus → Option Text → Document → Document
set_status status error_message d = record d { status = status; error_message = error_message }

unfoldable pub update_status : Db → ℕ → DocumentStatus → Option Text → Db
update_status db i status error_message = record db {
  documents = update_rows (is_document i) (set_status status error_message) db.documents;
}

abbrev pub set_index : Text → ℕ → Document → Document
set_index key version d = record d { indexed_preset_key = some key; index_version = some version }

unfoldable pub update_index_metadata : Db → ℕ → Text → ℕ → Db
update_index_metadata db i preset_key index_version = record db {
  documents = update_rows (is_document i) (set_index preset_key index_version) db.documents;
}

unfoldable pub get_preset : Db → Text → Option RetrievalPreset
get_preset db key = find (λ p. p.key == key) db.presets

-- `chat_repository.delete_sessions_for_document`; the messages go with their session.
abbrev pub session_of : ℕ → ChatSession → Bool
session_of i s = s.document_id == some i

unfoldable pub delete_sessions_for_document : Db → ℕ → Db
delete_sessions_for_document db i =
    let gone = map (λ s. s.id) (where_rows (session_of i) db.chat_sessions) in
    record db {
      chat_sessions = delete_rows (session_of i) db.chat_sessions;
      messages = delete_rows (λ m. contains gone m.session_id) db.messages;
    }

abbrev pub chunk_of : ℕ → Chunk → Bool
chunk_of i c = nat_eq c.document_id i

abbrev pub page_of : ℕ → DocumentPage → Bool
page_of i p = nat_eq p.document_id i

-- `chunk_repository.delete_chunks` and `page_repository.delete_pages`
unfoldable pub delete_derived : Db → ℕ → Db
delete_derived db i =
    let db' = delete_sessions_for_document db i in
    record db' {
      chunks = delete_rows (chunk_of i) db'.chunks;
      pages = delete_rows (page_of i) db'.pages;
    }

abbrev pub page_rows : ℕ → List ParsedPage → List DocumentPage
page_rows i = map (λ p. record { document_id = i; page = p })

-- `zip(chunks, embeddings, strict=True)`: lengths that differ raise.
abbrev pub chunk_rows : ℕ → List TextChunk → List Embedding → Option (List Chunk)
chunk_rows i [] [] = some []
chunk_rows i [] (e ∷ es) = none
chunk_rows i (c ∷ cs) [] = none
chunk_rows i (c ∷ cs) (e ∷ es) =
    Option.map (λ rows. record { document_id = i; chunk = c; embedding = e } ∷ rows)
      (chunk_rows i cs es)
