-- ===== src/Reindex/Job.antt =====
-- app/services/reindex_service.py: `run_reindex_job`, the worker's loop over all documents.
use mini_nblm_proto.Prelude.{
  ℕ, ◌+◌, Bool, true, false, Option, none, some, List, [], ◌∷◌, map, nat_eq, if◌then◌else◌, length,
  ℕ-Eq, list-Eq, pair-Eq, option-Eq,
}
use mini_nblm_proto.Text.{Text}
use mini_nblm_proto.Database.{
  Db, Document, ReindexJob, pending, running, completed, completed_with_errors, failed,
}
use mini_nblm_proto.Documents.{list_all_documents}
use mini_nblm_proto.Documents.Processing.{Indexing, process_document}
use mini_nblm_proto.Reindex.{get_reindex_job, update_job}

-- How the `for` loop of `run_reindex_job` ends: an exception keeps what was committed.
pub data Progress : Type 0 where
  done : Db → Progress
  raised : Text → Db → Progress

abbrev pub count_result : Bool → ReindexJob → ReindexJob
count_result true job = record job { completed_documents = job.completed_documents + 1 }
count_result false job = record job { failed_documents = job.failed_documents + 1 }

module _ (x : Indexing) (interrupt : ℕ → Option Text) (job : ReindexJob) where
  -- The loop over the documents. `interrupt n` is the exception, if any, that the database raises
  -- when the result of document number `n` is to be committed, or behind the last one;
  -- `process_document` itself raises none.
  unfoldable pub run_documents : ℕ → List ℕ → Db → Progress
  run_documents n [] db = elim (interrupt n) [ none ↦ done db | some message ↦ raised message db ]
  run_documents n (i ∷ ids) db =
      let (succeeded, db') =
        process_document x db i (some job.target_preset_key) (some job.target_index_version)
          job.reindex_documents in
      let rest = run_documents (n + 1) ids (update_job db' job.id (count_result succeeded)) in
      elim (interrupt n) [ none ↦ rest | some message ↦ raised message db' ]

  -- The `except` branch: maintenance ends whatever happened.
  unfoldable pub abort_job : Text → Db → Db
  abort_job message db =
      let c = db.configuration in
      record (update_job db job.id
        (λ j. record j { status = failed; error_message = some message })) {
          configuration = record c { pending_preset_key = none; maintenance_mode = false };
        }

  -- The commit behind the loop.
  unfoldable pub complete_job : Db → Db
  complete_job db =
      let c = db.configuration in
      record (update_job db job.id (λ j. record j {
        status = if nat_eq j.failed_documents 0 then completed else completed_with_errors;
      })) {
        configuration = record c {
          active_preset_key = job.target_preset_key;
          pending_preset_key = none;
          index_version = job.target_index_version;
          maintenance_mode = false;
        };
      }

  unfoldable pub settle : Progress → Db
  settle (done db) = complete_job db
  settle (raised message db) = abort_job message db

  abbrev pub document_ids : Db → List ℕ
  document_ids db =
      if job.reindex_documents then map (λ (d : Document). d.id) (list_all_documents db) else []

  -- The first commit: the job runs.
  unfoldable pub begin_job : Db → Db
  begin_job db =
      update_job db job.id
        (λ j. record j { status = running; total_documents = length (document_ids db) })

abbrev pub is_pending : ReindexJob → Bool
is_pending job = elim job.status [ pending ↦ true | _ ↦ false ]

unfoldable pub run_job : Indexing → (ℕ → Option Text) → Db → ReindexJob → Db
run_job x interrupt db job = settle x interrupt job (
    run_documents x interrupt job 0 (document_ids x interrupt job db)
      (begin_job x interrupt job db))

unfoldable pub run_reindex_job : Indexing → (ℕ → Option Text) → Db → ℕ → Db
run_reindex_job x interrupt db i = elim (get_reindex_job db i) [
  | none ↦ db
  | some job ↦ if is_pending job then run_job x interrupt db job else db
]
