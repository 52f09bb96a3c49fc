-- ===== src/Documents/Settings.antt =====
-- Documents never change the retrieval settings: the configuration, the presets and the jobs.
use mini_nblm_proto.Prelude.{
  ℕ, ◌≡◌, refl, ◌∙◌, inl, inr, Bool, true, false, ◌||◌, not, Option, none, some, List, [], ◌∷◌,
  arith, if◌then◌else◌, Bool-cases, Option-cases, is_empty, ℕ-Eq, list-Eq, pair-Eq, option-Eq,
  Result, ok, err,
}
use mini_nblm_proto.Text.{Text}
use mini_nblm_proto.Presets.{RetrievalPreset}
use mini_nblm_proto.Database.{Db, Document, DocumentStatus}
use mini_nblm_proto.Documents.{
  get_document_by_id, update_status, update_index_metadata, delete_derived,
  list_interrupted_documents, delete_sessions_for_document,
}
use mini_nblm_proto.Documents.Processing.{
  Indexing, index_document, publish, fail_document, begin_processing, finish, process_found,
  process_document,
}
use mini_nblm_proto.Documents.Service.{
  delete_document, delete_document_row, recover_documents, prepare_interrupted_documents,
}
use mini_nblm_proto.Documents.Settled.{index_document-inv}

pub record SameSettings (a b : Db) : Type 0 where
  pub configuration : a.configuration ≡ b.configuration
  pub presets : a.presets ≡ b.presets
  pub jobs : a.jobs ≡ b.jobs

SameSettings-refl : (a : Db) → SameSettings a a
SameSettings-refl a = record { configuration = refl; presets = refl; jobs = refl }

SameSettings-status :
    (db : Db) (i : ℕ) (status : DocumentStatus) (message : Option Text) (later : Db)
    → SameSettings later (update_status db i status message)
    → SameSettings later db
unfolding update_status
SameSettings-status db i status message later h = record {
  configuration = h.configuration;
  presets = h.presets;
  jobs = h.jobs;
}

begin_processing-SameSettings :
    (db : Db) (i : ℕ) (reset : Bool) → SameSettings (begin_processing db i reset) db
unfolding begin_processing update_status delete_derived delete_sessions_for_document
begin_processing-SameSettings db i true = record {
  configuration = refl;
  presets = refl;
  jobs = refl;
}
begin_processing-SameSettings db i false = record {
  configuration = refl;
  presets = refl;
  jobs = refl;
}

fail_document-SameSettings :
    (db : Db) (i : ℕ) (message : Text) → SameSettings (fail_document db i message).1 db
unfolding fail_document update_status
fail_document-SameSettings db i message = elim (Option-cases (get_document_by_id db i)) [
  | inl e ↦ rw (e, fail_document) (SameSettings-refl db)
  | inr (d, e) ↦
      rw (e, fail_document) (record { configuration = refl; presets = refl; jobs = refl })
]

finish-SameSettings :
    (x : Indexing) (db : Db) (i : ℕ) (document : Document) (preset : RetrievalPreset) (key : Text)
    (version : ℕ) (result : Result Text Db)
    → index_document x db document preset key version ≡ result
    → SameSettings (finish db i result).1 db
unfolding finish
finish-SameSettings x db i document preset key version (err message) h =
    fail_document-SameSettings db i message
finish-SameSettings x db i document preset key version (ok db') h =
    let (pages, rows, p, q, e) = index_document-inv x db document preset key version db' h in
    rw e (
      unfold publish update_status update_index_metadata in
      record { configuration = refl; presets = refl; jobs = refl })

process_found-SameSettings :
    (x : Indexing) (db : Db) (document : Document) (key : Text) (version : ℕ) (reset : Bool)
    (preset : Option RetrievalPreset)
    → SameSettings (process_found x db document key version reset preset).1 db
unfolding process_found
process_found-SameSettings x db document key version reset none =
    fail_document-SameSettings db document.id _
process_found-SameSettings x db document key version reset (some preset) =
    let first = begin_processing-SameSettings db document.id reset in
    let later =
      finish-SameSettings x (begin_processing db document.id reset) document.id document preset key
        version _ refl in
    record {
      configuration = later.configuration ∙ first.configuration;
      presets = later.presets ∙ first.presets;
      jobs = later.jobs ∙ first.jobs;
    }

pub process_document-SameSettings :
    (x : Indexing) (db : Db) (i : ℕ) (preset_key : Option Text) (index_version : Option ℕ)
    (reset : Bool)
    → SameSettings (process_document x db i preset_key index_version reset).1 db
unfolding process_document
process_document-SameSettings x db i preset_key index_version reset =
    elim (Option-cases (get_document_by_id db i)) [
      | inl e ↦ rw (e, process_document) (SameSettings-refl db)
      | inr (d, e) ↦ rw (e, process_document) (process_found-SameSettings x db d _ _ reset _)
    ]

pub delete_document-SameSettings :
    (db : Db) (i owner : ℕ) (db' : Db) → delete_document db i owner ≡ ok db' → SameSettings db' db
unfolding delete_document delete_document_row delete_derived delete_sessions_for_document
delete_document-SameSettings db i owner db' h = record {
  configuration = ground arith;
  presets = ground arith;
  jobs = ground arith;
}

recover_documents-SameSettings :
    (is_file : Text → Bool) (documents : List Document) (db : Db)
    → SameSettings (recover_documents is_file documents db).1 db
unfolding recover_documents
recover_documents-SameSettings is_file [] db = SameSettings-refl db
recover_documents-SameSettings is_file (d ∷ documents) db =
    elim (Bool-cases (is_empty d.file_path || not (is_file d.file_path))) [
      | inl e ↦
          rw e
            (SameSettings-status db d.id _ _ _ (recover_documents-SameSettings is_file documents _))
      | inr e ↦
          rw e
            (SameSettings-status db d.id _ _ _ (recover_documents-SameSettings is_file documents _))
    ]

unless-SameSettings :
    (skipped : Bool) (db : Db) (work : List ℕ × Db)
    → SameSettings work.1 db
    → SameSettings (if skipped then ([], db) else work).1 db
unless-SameSettings true db work h = SameSettings-refl db
unless-SameSettings false db work h = h

pub prepare_interrupted-SameSettings :
    (is_file : Text → Bool) (db : Db) → SameSettings (prepare_interrupted_documents is_file db).1 db
unfolding prepare_interrupted_documents
prepare_interrupted-SameSettings is_file db =
    unless-SameSettings db.configuration.maintenance_mode db _
      (recover_documents-SameSettings is_file (list_interrupted_documents db) db)
