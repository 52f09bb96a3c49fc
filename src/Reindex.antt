-- ===== src/Reindex.antt =====
-- app/services/reindex_service.py with app/repositories/retrieval_config_repository.py: changing the
-- preset, and the job that indexes all documents again.
pub mod Job
pub mod Consistent
pub mod Run
pub mod Reach
use mini_nblm_proto.Prelude.{
  ℕ, ◌+◌, Bool, true, false, ◌||◌, not, Option, none, some, List, [], ◌∷◌, ◌++◌, nat_eq,
  if◌then◌else◌, is_some, any, ◌==◌, ℕ-Eq, list-Eq, pair-Eq, option-Eq, Result, ok, err, ◌>>=◌,
  ◌>>◌, guard,
}
use mini_nblm_proto.Text.{Text, codes}
use mini_nblm_proto.Presets.{RetrievalPreset, plan_preset_change}
use mini_nblm_proto.Database.{
  Db, Document, ReindexJob, JobStatus, pending, running, completed, completed_with_errors, failed,
}
use mini_nblm_proto.Database.Tables.{find, update_rows}
use mini_nblm_proto.Documents.{get_preset, has_active_documents, list_all_documents}
use mini_nblm_proto.Documents.Processing.{Indexing, process_document}

-- `PresetChangeConflictError` with its two messages, the other exceptions, and the `RuntimeError` on
-- a missing active preset.
pub data ReindexError : Type 0 where
  maintenance_running documents_active preset_not_found source_missing already_active : ReindexError
  job_not_found not_retryable : ReindexError

-- `status in ("pending", "running")`
abbrev pub is_unfinished : ReindexJob → Bool
is_unfinished job = elim job.status [ pending ↦ true | running ↦ true | _ ↦ false ]

abbrev pub is_job : ℕ → ReindexJob → Bool
is_job i job = nat_eq job.id i

unfoldable pub get_reindex_job : Db → ℕ → Option ReindexJob
get_reindex_job db i = find (is_job i) db.jobs

unfoldable pub update_job : Db → ℕ → (ReindexJob → ReindexJob) → Db
update_job db i f = record db { jobs = update_rows (is_job i) f db.jobs }

-- The arguments of `create_reindex_job` as the row that it adds.
abbrev pub new_job : ℕ → ℕ → Text → Text → ℕ → Bool → Bool → Bool → ReindexJob
new_job id requested_by source target version reindex rebuild runtime = record {
  id = id;
  requested_by = some requested_by;
  source_preset_key = source;
  target_preset_key = target;
  target_index_version = version;
  status = pending;
  reindex_documents = reindex;
  rebuild_vector_index = rebuild;
  runtime_settings_changed = runtime;
  total_documents = 0;
  completed_documents = 0;
  failed_documents = 0;
  error_message = none;
}

unfoldable pub create_reindex_job : Db → ReindexJob → Db
create_reindex_job db job = record db {
  jobs = db.jobs ++ job ∷ [];
  next_job_id = db.next_job_id + 1;
}

-- The job row with its final status, in one transaction with its creation.
abbrev with_status : JobStatus → ReindexJob → ReindexJob
with_status status job = record job { status = status }

-- The end of `start_preset_change`, once both presets are there and differ.
unfoldable pub change_preset : Db → ℕ → RetrievalPreset → RetrievalPreset → ReindexJob × Bool × Db
change_preset db requested_by source target =
    let plan = plan_preset_change source target in
    let version = db.configuration.index_version + (if plan.reindex_documents then 1 else 0) in
    let job =
      new_job db.next_job_id requested_by source.key target.key version plan.reindex_documents false
        plan.runtime_settings_changed in
    let c = db.configuration in
    if plan.reindex_documents
    then (
      job,
      true,
      record (create_reindex_job db job) {
        configuration = record c { pending_preset_key = some target.key; maintenance_mode = true };
      },
    )
    else (
      with_status completed job,
      false,
      record (create_reindex_job db (with_status completed job)) {
        configuration = record c { active_preset_key = target.key };
      },
    )

abbrev or_raise {ℓ} : {A : Type ℓ} → Option A → ReindexError → Result ReindexError A
or_raise none e = err e
or_raise (some a) e = ok a

-- `start_preset_change`: the job, whether a worker is needed, and the committed state.
unfoldable pub start_preset_change : Db → ℕ → Text → Result ReindexError (ReindexJob × Bool × Db)
start_preset_change db requested_by target_key = do
  guard (not db.configuration.maintenance_mode) maintenance_running
  guard (not (has_active_documents db)) documents_active
  target ← or_raise (get_preset db target_key) preset_not_found
  source ← or_raise (get_preset db db.configuration.active_preset_key) source_missing
  guard (not (source.key == target.key)) already_active
  ok (change_preset db requested_by source target)

-- `status in {"failed", "completed_with_errors"}`
abbrev is_retryable : ReindexJob → Bool
is_retryable job = elim job.status [ failed ↦ true | completed_with_errors ↦ true | _ ↦ false ]

unfoldable pub retry_with : Db → ℕ → ReindexJob → ReindexJob × Db
retry_with db requested_by failed_job =
    let c = db.configuration in
    let job =
      new_job db.next_job_id requested_by c.active_preset_key failed_job.target_preset_key
        (c.index_version + 1) true failed_job.rebuild_vector_index
        failed_job.runtime_settings_changed in
    (
      job,
      record (create_reindex_job db job) {
        configuration = record c {
          pending_preset_key = some failed_job.target_preset_key;
          maintenance_mode = true;
        };
      },
    )

unfoldable pub retry_reindex_job : Db → ℕ → ℕ → Result ReindexError (ReindexJob × Db)
retry_reindex_job db requested_by failed_job_id = do
  guard (not db.configuration.maintenance_mode) maintenance_running
  guard (not (has_active_documents db)) documents_active
  failed_job ← or_raise (get_reindex_job db failed_job_id) job_not_found
  guard (is_retryable failed_job) not_retryable
  target ← or_raise (get_preset db failed_job.target_preset_key) preset_not_found
  ok (retry_with db requested_by failed_job)

-- `job.status = "pending"` with its progress cleared.
abbrev pub restart_job : ReindexJob → ReindexJob
restart_job job = record job {
  status = pending;
  total_documents = 0;
  completed_documents = 0;
  failed_documents = 0;
  error_message = none;
}

abbrev supersede_job : ReindexJob → ReindexJob
supersede_job job = record job {
  status = failed;
  error_message = some (codes "Superseded while recovering an interrupted reindex job");
}

-- The rows after recovery: of the unfinished ones, in the table's order, the last starts again and
-- the others have failed.
unfoldable pub recover_rows : List ReindexJob → List ReindexJob
recover_rows [] = []
recover_rows (job ∷ jobs) =
    (if is_unfinished job
      then (if any is_unfinished jobs then supersede_job job else restart_job job)
      else job)
    ∷ recover_rows jobs

-- `unfinished_jobs[-1]`
unfoldable pub last_unfinished : List ReindexJob → Option ReindexJob
last_unfinished [] = none
last_unfinished (job ∷ jobs) = elim (last_unfinished jobs) [
  | some later ↦ some later
  | none ↦ if is_unfinished job then some job else none
]

-- The ids of the jobs to resume, and the committed state.
unfoldable pub recover_interrupted_reindex_jobs : Db → List ℕ × Db
recover_interrupted_reindex_jobs db =
    let c = db.configuration in
    elim (last_unfinished db.jobs) [
      | none ↦
          if c.maintenance_mode || is_some c.pending_preset_key
          then (
            [],
            record db {
              configuration = record c { maintenance_mode = false; pending_preset_key = none };
            },
          )
          else ([], db)
      | some job ↦ (
        job.id ∷ [],
        record db {
          jobs = recover_rows db.jobs;
          configuration = record c {
            pending_preset_key = some job.target_preset_key;
            maintenance_mode = true;
          };
        },
      )
    ]
