-- ===== src/Documents/Service.antt =====
-- app/services/document_service.py (deletion) and app/services/document_recovery_service.py.
use mini_nblm_proto.Prelude.{
  ℕ, Bool, ◌||◌, not, none, some, List, [], ◌∷◌, nat_eq, if◌then◌else◌, is_empty, ℕ-Eq, list-Eq,
  pair-Eq, option-Eq, Result, ok, err,
}
use mini_nblm_proto.Text.{Text, codes}
use mini_nblm_proto.Database.{Db, Document, uploaded, failed}
use mini_nblm_proto.Database.Tables.{delete_rows}
use mini_nblm_proto.Documents.{
  is_active_status, get_document, list_interrupted_documents, update_status, delete_derived,
}

pub data DocumentError : Type 0 where
  not_found delete_conflict : DocumentError

-- `db.delete(document)`: its chat sessions, pages and chunks go with it.
unfoldable pub delete_document_row : Db → ℕ → Db
delete_document_row db i =
    let db' = delete_derived db i in
    record db' { documents = delete_rows (λ d. nat_eq d.id i) db'.documents }

-- The files on disk are not modelled: a failure to remove them is only logged.
unfoldable pub delete_document : Db → ℕ → ℕ → Result DocumentError Db
delete_document db i owner_id = elim (get_document db i owner_id) [
  | none ↦ err not_found
  | some document ↦
      if is_active_status document.status
      then err delete_conflict
      else ok (delete_document_row db i)
]

-- The loop of `prepare_interrupted_documents`; `is_file` asks the file system.
unfoldable pub recover_documents : (Text → Bool) → List Document → Db → List ℕ × Db
recover_documents is_file [] db = ([], db)
recover_documents is_file (document ∷ documents) db =
    let lost = recover_documents is_file documents (
      update_status db document.id failed
        (some (codes "Original PDF is unavailable after an interrupted upload"))) in
    let (ids, db') =
      recover_documents is_file documents (update_status db document.id uploaded none) in
    if is_empty document.file_path || not (is_file document.file_path)
    then lost
    else (document.id ∷ ids, db')

-- The ids to process again, and the committed state.
unfoldable pub prepare_interrupted_documents : (Text → Bool) → Db → List ℕ × Db
prepare_interrupted_documents is_file db =
    if db.configuration.maintenance_mode
    then ([], db)
    else recover_documents is_file (list_interrupted_documents db) db
