-- ===== src/Reindex/Run.antt =====
-- The job that indexes all documents again always gives maintenance back.
use mini_nblm_proto.Prelude.{
  ℕ, ◌+◌, ◌≤◌, ◌≡◌, refl, ap, ◌∙◌, inl, inr, Bool, true, false, ◌&&◌, not, Option, none, some, List,
  [], ◌∷◌, arith, Bool-cases, Option-cases, sum_by,
}
use mini_nblm_proto.Text.{Text}
use mini_nblm_proto.Database.{Db, ReindexJob}
use mini_nblm_proto.Database.Tables.{find, update_rows, find-sat}
use mini_nblm_proto.Documents.Processing.{Indexing, process_document}
use mini_nblm_proto.Documents.Settings.{process_document-SameSettings}
use mini_nblm_proto.Reindex.{is_unfinished, is_job, get_reindex_job, update_job}
use mini_nblm_proto.Reindex.Job.{
  count_result, Progress, done, raised, run_documents, abort_job, complete_job, settle,
  document_ids, begin_job, is_pending, run_job, run_reindex_job,
}
use mini_nblm_proto.Reindex.Consistent.{IsConsistent, unfinished, all_target-none, one_if}

-- How many jobs other than `i` are unfinished.
abbrev others : ℕ → List ReindexJob → ℕ
others i = sum_by (λ j. one_if (not (is_job i j) && is_unfinished j))

others-update :
    (i : ℕ) (f : ReindexJob → ReindexJob) (jobs : List ReindexJob)
    → ((j : ReindexJob) → (f j).id ≡ j.id)
    → others i (update_rows (is_job i) f jobs) ≡ others i jobs
unfolding update_rows
others-update i f [] k = refl
others-update i f (j ∷ jobs) k = ground (arith, k j, others-update i f jobs k)

unfinished-update :
    (i : ℕ) (f : ReindexJob → ReindexJob) (jobs : List ReindexJob)
    → ((j : ReindexJob) → is_unfinished (f j) ≡ false)
    → unfinished (update_rows (is_job i) f jobs) ≡ others i jobs
unfolding update_rows
unfinished-update i f [] k = refl
unfinished-update i f (j ∷ jobs) k = ground (arith, k j, unfinished-update i f jobs k)

others-le : (i : ℕ) (jobs : List ReindexJob) → others i jobs ≤ unfinished jobs
others-le i [] = omega arith
others-le i (j ∷ jobs) = ground (arith, others-le i jobs)

others-lt :
    (i : ℕ) (jobs : List ReindexJob) (job : ReindexJob)
    → find (is_job i) jobs ≡ some job
    → is_unfinished job ≡ true
    → others i jobs + 1 ≤ unfinished jobs
unfolding find
others-lt i [] job h u = cc
others-lt i (j ∷ jobs) job h u = ground (arith, others-lt i jobs job, others-le i jobs)

module _ (x : Indexing) (interrupt : ℕ → Option Text) (job : ReindexJob) where
  -- The committed state in which the loop ends.
  abbrev reached : Progress → Db
  reached (done db) = db
  reached (raised message db) = db

  -- One round of the loop: the document is processed, and the result is counted.
  abbrev round : ℕ → Db → Bool × Db
  round i db =
      process_document x db i (some job.target_preset_key) (some job.target_index_version)
        job.reindex_documents

  abbrev counted : ℕ → Db → Db
  counted i db = update_job (round i db).1 job.id (count_result (round i db).0)

  count_result-id : (b : Bool) (j : ReindexJob) → (count_result b j).id ≡ j.id
  count_result-id true j = refl
  count_result-id false j = refl

  round-jobs : (i : ℕ) (db : Db) → (round i db).1.jobs ≡ db.jobs
  round-jobs i db =
      (process_document-SameSettings x db i (some job.target_preset_key)
        (some job.target_index_version) job.reindex_documents).jobs

  counted-others : (i : ℕ) (db : Db) → others job.id (counted i db).jobs ≡ others job.id db.jobs
  unfolding update_job
  counted-others i db =
      others-update job.id (count_result (round i db).0) (round i db).1.jobs
        (count_result-id (round i db).0)
      ∙ ap (others job.id) (round-jobs i db)

  run_documents-others :
      (n : ℕ) (ids : List ℕ) (db : Db)
      → others job.id (reached (run_documents x interrupt job n ids db)).jobs
        ≡ others job.id db.jobs
  unfolding run_documents
  run_documents-others n [] db = elim (Option-cases (interrupt n)) [
    | inl e ↦ rw (e, run_documents)
    | inr (message, e) ↦ rw (e, run_documents)
  ]
  run_documents-others n (i ∷ ids) db =
      let later = run_documents-others (n + 1) ids (counted i db) ∙ counted-others i db in
      elim (Option-cases (interrupt n)) [
        | inl e ↦ rw (e, run_documents) later
        | inr (message, e) ↦ rw (e, run_documents) (ap (others job.id) (round-jobs i db))
      ]

  settle-unfinished :
      (p : Progress) → unfinished (settle x interrupt job p).jobs ≡ others job.id (reached p).jobs
  unfolding settle abort_job complete_job update_job
  settle-unfinished (done db) = unfinished-update job.id _ db.jobs (λ j. ground arith)
  settle-unfinished (raised message db) = unfinished-update job.id _ db.jobs (λ j. refl)

  settle-idle :
      (p : Progress)
      → ((settle x interrupt job p).configuration.maintenance_mode ≡ false)
        × ((settle x interrupt job p).configuration.pending_preset_key ≡ none)
  unfolding settle abort_job complete_job
  settle-idle (done db) = (refl, refl)
  settle-idle (raised message db) = (refl, refl)

  begin_job-others :
      (db : Db) → others job.id (begin_job x interrupt job db).jobs ≡ others job.id db.jobs
  unfolding begin_job update_job
  begin_job-others db = others-update job.id _ db.jobs (λ j. refl)

-- What a finished run leaves behind.
pub record IsIdle (db : Db) : Type 0 where
  pub maintenance : db.configuration.maintenance_mode ≡ false
  pub pending_key : db.configuration.pending_preset_key ≡ none
  pub no_job : unfinished db.jobs ≡ 0

run_job-IsIdle :
    (x : Indexing) (interrupt : ℕ → Option Text) (db : Db) (job : ReindexJob)
    → others job.id db.jobs ≡ 0
    → IsIdle (run_job x interrupt db job)
unfolding run_job
run_job-IsIdle x interrupt db job h =
    let ids = document_ids x interrupt job db in
    let start = begin_job x interrupt job db in
    let p = run_documents x interrupt job 0 ids start in
    record {
      maintenance = (settle-idle x interrupt job p).0;
      pending_key = (settle-idle x interrupt job p).1;
      no_job =
          settle-unfinished x interrupt job p
          ∙ run_documents-others x interrupt job 0 ids start
          ∙ begin_job-others x interrupt job db
          ∙ h;
    }

job-id : (db : Db) (i : ℕ) (job : ReindexJob) → get_reindex_job db i ≡ some job → job.id ≡ i
unfolding get_reindex_job
job-id db i job found = let sat = find-sat (is_job i) db.jobs job found in ground arith

sole_owner :
    (db : Db) (i : ℕ) (job : ReindexJob)
    → IsConsistent db
    → get_reindex_job db i ≡ some job
    → is_pending job ≡ true
    → others i db.jobs ≡ 0
unfolding get_reindex_job
sole_owner db i job c found p =
    let u : is_unfinished job ≡ true = ground arith in
    ground (arith, others-lt i db.jobs job found u, c.owner)

-- In consistent settings a pending job that is run gives maintenance back and leaves no job
-- unfinished, whatever the documents do and wherever the database interrupts the loop.
pub run_reindex_job-IsIdle :
    (x : Indexing) (interrupt : ℕ → Option Text) (db : Db) (i : ℕ) (job : ReindexJob)
    → IsConsistent db
    → get_reindex_job db i ≡ some job
    → is_pending job ≡ true
    → IsIdle (run_reindex_job x interrupt db i)
unfolding run_reindex_job
run_reindex_job-IsIdle x interrupt db i job c found p =
    let same : job.id ≡ i = job-id db i job found in
    let alone : others i db.jobs ≡ 0 = sole_owner db i job c found p in
    rw (found, run_reindex_job, p) (run_job-IsIdle x interrupt db job (rw same alone))

IsIdle-IsConsistent : (db : Db) → IsIdle db → IsConsistent db
IsIdle-IsConsistent db h = record {
  pending_key = rw (h.maintenance, h.pending_key);
  owner = rw (h.maintenance, h.no_job);
  target = all_target-none db.configuration.pending_preset_key db.jobs h.no_job;
}

-- Running a job, whatever its state is, keeps the settings consistent.
pub run_reindex_job-IsConsistent :
    (x : Indexing) (interrupt : ℕ → Option Text) (db : Db) (i : ℕ)
    → IsConsistent db
    → IsConsistent (run_reindex_job x interrupt db i)
run_reindex_job-IsConsistent x interrupt db i c = elim (Option-cases (get_reindex_job db i)) [
  | inl e ↦ unfold run_reindex_job in rw (e, run_reindex_job) c
  | inr (job, e) ↦ elim (Bool-cases (is_pending job)) [
    | inl p ↦ IsIdle-IsConsistent _ (run_reindex_job-IsIdle x interrupt db i job c e p)
    | inr p ↦ unfold run_reindex_job in rw (e, run_reindex_job, p) c
  ]
]
