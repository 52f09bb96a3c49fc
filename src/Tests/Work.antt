-- ===== src/Tests/Work.antt =====
-- Documents and reindex jobs on the small database.
use mini_nblm_proto.Prelude.{ℕ, ◌≡◌, refl, ◌≢◌, Bool, true, false, none, some, arith, ok}
use mini_nblm_proto.Text.{codes}
use mini_nblm_proto.Presets.{RetrievalPreset, plan_preset_change}
use mini_nblm_proto.Database.{Db, ReindexJob}
use mini_nblm_proto.Database.Tables.{find}
use mini_nblm_proto.Documents.{get_document_by_id, get_preset, has_active_documents}
use mini_nblm_proto.Documents.Processing.{process_document}
use mini_nblm_proto.Documents.Settled.{Settles, process_document-Settles}
use mini_nblm_proto.Documents.Isolation.{SameDocument, process_document-other}
use mini_nblm_proto.Reindex.{
  start_preset_change, change_preset, create_reindex_job, get_reindex_job,
  recover_interrupted_reindex_jobs,
}
use mini_nblm_proto.Reindex.Job.{is_pending, run_reindex_job}
use mini_nblm_proto.Reindex.Consistent.{IsConsistent, recover_interrupted-IsConsistent}
use mini_nblm_proto.Reindex.Run.{IsIdle, run_reindex_job-IsIdle}
use mini_nblm_proto.Reindex.Reach.{Reach, Reach-IsConsistent, here, next, run, change}
use mini_nblm_proto.Tests.Data.{two_documents, first_document, services, uninterrupted}

process_document-Settles_example :
    Settles (codes "standard") 1 1 (process_document services two_documents 1 none none false)
unfolding get_document_by_id find
process_document-Settles_example =
    process_document-Settles services two_documents 1 none none false first_document refl

two_ne_one : ◌≢◌ {A = ℕ} 2 1
two_ne_one h = omega arith

process_document-other_example :
    SameDocument 2 (process_document services two_documents 1 none none true).1 two_documents
process_document-other_example =
    process_document-other services two_documents 1 2 none none true two_ne_one

two_documents-IsConsistent : IsConsistent two_documents
two_documents-IsConsistent = record { pending_key = refl; owner = refl; target = refl }

abbrev coarser : RetrievalPreset
coarser = record {
  key = codes "balanced";
  display_name = codes "Balanced";
  chunk_size_chars = 1000;
  chunk_overlap_chars = 150;
  top_k = 8;
}

abbrev standard : RetrievalPreset
standard = record {
  key = codes "standard";
  display_name = codes "Standard";
  chunk_size_chars = 500;
  chunk_overlap_chars = 75;
  top_k = 12;
}

-- The accepted change to the coarser preset.
abbrev changing : ReindexJob × Bool × Db
changing = change_preset two_documents 9 standard coarser

changing_accepted :
    start_preset_change two_documents 9 (codes "balanced") ≡ ok (changing.0, changing.1, changing.2)
unfolding start_preset_change get_preset find has_active_documents
changing_accepted = refl

changing-IsConsistent : IsConsistent changing.2
unfolding change_preset create_reindex_job plan_preset_change
changing-IsConsistent = record { pending_key = refl; owner = refl; target = refl }

changing_job : get_reindex_job changing.2 1 ≡ some changing.0
unfolding change_preset create_reindex_job plan_preset_change get_reindex_job find
changing_job = refl

changing_job_pending : is_pending changing.0 ≡ true
unfolding change_preset create_reindex_job plan_preset_change
changing_job_pending = refl

run_reindex_job-IsIdle_example : IsIdle (run_reindex_job services uninterrupted changing.2 1)
run_reindex_job-IsIdle_example =
    run_reindex_job-IsIdle services uninterrupted changing.2 1 changing.0 changing-IsConsistent
      changing_job changing_job_pending

recover_interrupted-IsConsistent_example :
    IsConsistent (recover_interrupted_reindex_jobs changing.2).1
recover_interrupted-IsConsistent_example = recover_interrupted-IsConsistent changing.2

two_steps : Reach two_documents (run_reindex_job services uninterrupted changing.2 1)
two_steps =
    next (next here (change 9 (codes "balanced") changing.0 changing.1 changing_accepted))
      (run services uninterrupted 1 refl)

Reach-IsConsistent_example : IsConsistent (run_reindex_job services uninterrupted changing.2 1)
Reach-IsConsistent_example = Reach-IsConsistent two_documents-IsConsistent two_steps
