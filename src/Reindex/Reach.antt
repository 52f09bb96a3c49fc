-- ===== src/Reindex/Reach.antt =====
-- Every sequence of operations on the retrieval settings, in any order, keeps them consistent.
use mini_nblm_proto.Prelude.{ℕ, ◌≡◌, Bool, Option, ok}
use mini_nblm_proto.Text.{Text}
use mini_nblm_proto.Database.{Db, ReindexJob}
use mini_nblm_proto.Documents.Processing.{Indexing, process_document}
use mini_nblm_proto.Documents.Service.{delete_document, prepare_interrupted_documents}
use mini_nblm_proto.Documents.Settings.{
  SameSettings, process_document-SameSettings, delete_document-SameSettings,
  prepare_interrupted-SameSettings,
}
use mini_nblm_proto.Reindex.{
  start_preset_change, retry_reindex_job, recover_interrupted_reindex_jobs,
}
use mini_nblm_proto.Reindex.Job.{run_reindex_job}
use mini_nblm_proto.Reindex.Consistent.{
  IsConsistent, start_preset_change-IsConsistent, retry_reindex_job-IsConsistent,
  recover_interrupted-IsConsistent,
}
use mini_nblm_proto.Reindex.Run.{run_reindex_job-IsConsistent}

-- One committed operation of an administrator, a worker or a restart.
pub data Step (a b : Db) : Type 0 where
  change :
      (admin : ℕ) (key : Text) (job : ReindexJob) (background : Bool)
      → start_preset_change a admin key ≡ ok (job, background, b)
      → Step a b
  retry : (admin i : ℕ) (job : ReindexJob) → retry_reindex_job a admin i ≡ ok (job, b) → Step a b
  run :
      (x : Indexing) (interrupt : ℕ → Option Text) (i : ℕ)
      → b ≡ run_reindex_job x interrupt a i
      → Step a b
  recover : b ≡ (recover_interrupted_reindex_jobs a).1 → Step a b
  resume : (is_file : Text → Bool) → b ≡ (prepare_interrupted_documents is_file a).1 → Step a b
  process :
      (x : Indexing) (i : ℕ) (key : Option Text) (version : Option ℕ) (reset : Bool)
      → b ≡ (process_document x a i key version reset).1
      → Step a b
  delete : (i owner : ℕ) → delete_document a i owner ≡ ok b → Step a b

pub data Reach (s : Db) : Db → Type 0 where
  here : Reach s s
  next : {a b : Db} → Reach s a → Step a b → Reach s b

SameSettings-IsConsistent : (a b : Db) → SameSettings a b → IsConsistent b → IsConsistent a
SameSettings-IsConsistent a b s c = record {
  pending_key = rw s.configuration c.pending_key;
  owner = rw (s.configuration, s.jobs) c.owner;
  target = rw (s.configuration, s.jobs) c.target;
}

Step-IsConsistent : (a b : Db) → Step a b → IsConsistent a → IsConsistent b
Step-IsConsistent a b (change admin key job background h) c =
    start_preset_change-IsConsistent a admin key job background b c h
Step-IsConsistent a b (retry admin i job h) c = retry_reindex_job-IsConsistent a admin i job b c h
Step-IsConsistent a b (run x interrupt i e) c =
    rw e (run_reindex_job-IsConsistent x interrupt a i c)
Step-IsConsistent a b (recover e) c = rw e (recover_interrupted-IsConsistent a)
Step-IsConsistent a b (resume is_file e) c =
    rw e (SameSettings-IsConsistent _ a (prepare_interrupted-SameSettings is_file a) c)
Step-IsConsistent a b (process x i key version reset e) c =
    rw e (SameSettings-IsConsistent _ a (process_document-SameSettings x a i key version reset) c)
Step-IsConsistent a b (delete i owner h) c =
    SameSettings-IsConsistent b a (delete_document-SameSettings a i owner b h) c

-- From consistent settings, any sequence of preset changes, retries, job runs, restarts, document
-- runs and deletions that succeeds or fails in any way keeps them consistent: maintenance is on
-- exactly while one job is unfinished, and its target is the pending preset.
pub Reach-IsConsistent : {a b : Db} → IsConsistent a → Reach a b → IsConsistent b
Reach-IsConsistent c here = c
Reach-IsConsistent c (next {a} {b} r step) = Step-IsConsistent a b step (Reach-IsConsistent c r)
