-- ===== src/Reindex/Consistent.antt =====
-- The invariant of the retrieval settings: maintenance is on exactly while one job is unfinished, and
-- that job's target is the pending preset.
use mini_nblm_proto.Prelude.{
  ℕ, ◌+◌, ◌≡◌, refl, ap, ◌∙◌, inl, inr, Bool, true, false, ◌||◌, not, Option, none, some, List, [],
  ◌∷◌, ◌++◌, arith, if◌then◌else◌, Bool-cases, Option-cases, is_some, any, all, sum_by,
  sum_by-append, ◌==◌, ℕ-Eq, list-Eq, pair-Eq, option-Eq, ok,
}
use mini_nblm_proto.Text.{Text}
use mini_nblm_proto.Presets.{RetrievalPreset, plan_preset_change}
use mini_nblm_proto.Database.{Db, ReindexJob}
use mini_nblm_proto.Documents.{get_preset}
use mini_nblm_proto.Reindex.{
  is_unfinished, get_reindex_job, create_reindex_job, change_preset, start_preset_change,
  retry_with, retry_reindex_job, recover_rows, last_unfinished, recover_interrupted_reindex_jobs,
}

abbrev pub one_if : Bool → ℕ
one_if b = if b then 1 else 0

-- How many jobs are pending or running.
abbrev pub unfinished : List ReindexJob → ℕ
unfinished = sum_by (λ j. one_if (is_unfinished j))

-- Every unfinished job has the target `key`.
abbrev pub all_target : Option Text → List ReindexJob → Bool
all_target key = all (λ j. not (is_unfinished j) || some j.target_preset_key == key)

pub record IsConsistent (db : Db) : Type 0 where
  pub pending_key : db.configuration.maintenance_mode ≡ is_some db.configuration.pending_preset_key
  pub owner : unfinished db.jobs ≡ one_if db.configuration.maintenance_mode
  pub target : all_target db.configuration.pending_preset_key db.jobs ≡ true

pub all_target-none :
    (key : Option Text) (jobs : List ReindexJob) → unfinished jobs ≡ 0 → all_target key jobs ≡ true
all_target-none key [] h = refl
all_target-none key (j ∷ jobs) h = ground (arith, all_target-none key jobs)

all_target-snoc :
    (key : Option Text) (jobs : List ReindexJob) (job : ReindexJob)
    → all_target key jobs ≡ true
    → some job.target_preset_key ≡ key
    → all_target key (jobs ++ job ∷ []) ≡ true
all_target-snoc key [] job h e =
    ground (arith, (option-Eq {A = Text}).eqb_iff (some job.target_preset_key) key)
all_target-snoc key (j ∷ jobs) job h e = ground (arith, all_target-snoc key jobs job)

unfinished-snoc :
    (jobs : List ReindexJob) (job : ReindexJob)
    → unfinished (jobs ++ job ∷ []) ≡ unfinished jobs + one_if (is_unfinished job)
unfinished-snoc jobs job =
    omega (arith, sum_by-append (λ j. one_if (is_unfinished j)) jobs (job ∷ []))

-- A job that takes over: the settings after it is added.
added-IsConsistent :
    (db db' : Db) (job : ReindexJob) (key : Text)
    → IsConsistent db
    → db.configuration.maintenance_mode ≡ false
    → is_unfinished job ≡ true
    → job.target_preset_key ≡ key
    → db'.jobs ≡ db.jobs ++ job ∷ []
    → db'.configuration.maintenance_mode ≡ true
    → db'.configuration.pending_preset_key ≡ some key
    → IsConsistent db'
added-IsConsistent db db' job key c idle u t jobs on p =
    let none_left : unfinished db.jobs ≡ 0 = ground (arith, c.owner) in
    record {
      pending_key = rw (on, p);
      owner = rw (jobs, on, unfinished-snoc db.jobs job, none_left, u);
      target =
          rw (jobs, p)
            (all_target-snoc (some key) db.jobs job (all_target-none (some key) db.jobs none_left)
              (ap some t));
    }

-- A finished job that is only recorded.
recorded-IsConsistent :
    (db db' : Db) (job : ReindexJob)
    → IsConsistent db
    → db.configuration.maintenance_mode ≡ false
    → is_unfinished job ≡ false
    → db'.jobs ≡ db.jobs ++ job ∷ []
    → db'.configuration.maintenance_mode ≡ db.configuration.maintenance_mode
    → db'.configuration.pending_preset_key ≡ db.configuration.pending_preset_key
    → IsConsistent db'
recorded-IsConsistent db db' job c idle u jobs m p =
    let none_left : unfinished db'.jobs ≡ 0 =
      rw (jobs, unfinished-snoc db.jobs job, u) (omega (arith, c.owner ∙ ap one_if idle)) in
    record {
      pending_key = m ∙ c.pending_key ∙ rw p;
      owner = none_left ∙ rw (m, idle);
      target = all_target-none db'.configuration.pending_preset_key db'.jobs none_left;
    }

change_preset-IsConsistent :
    (db : Db) (requested_by : ℕ) (source target : RetrievalPreset)
    → IsConsistent db
    → db.configuration.maintenance_mode ≡ false
    → IsConsistent (change_preset db requested_by source target).2
unfolding change_preset create_reindex_job
change_preset-IsConsistent db requested_by source target c idle =
    elim (Bool-cases (plan_preset_change source target).reindex_documents) [
      | inl e ↦ rw e (added-IsConsistent db _ _ target.key c idle refl refl refl refl refl)
      | inr e ↦ rw e (recorded-IsConsistent db _ _ c idle refl refl refl refl)
    ]

-- A preset change that is accepted keeps the settings consistent.
pub start_preset_change-IsConsistent :
    (db : Db) (requested_by : ℕ) (target_key : Text) (job : ReindexJob) (background : Bool)
    (db' : Db)
    → IsConsistent db
    → start_preset_change db requested_by target_key ≡ ok (job, background, db')
    → IsConsistent db'
unfolding start_preset_change
start_preset_change-IsConsistent db requested_by target_key job background db' c h =
    elim (Option-cases (get_preset db target_key)) [
      | inl missing ↦ ground arith
      | inr (target, et) ↦ elim (Option-cases (get_preset db db.configuration.active_preset_key)) [
        | inl missing ↦ ground arith
        | inr (source, es) ↦
            ground (arith, change_preset-IsConsistent db requested_by source target c)
      ]
    ]

retry_with-IsConsistent :
    (db : Db) (requested_by : ℕ) (failed_job : ReindexJob)
    → IsConsistent db
    → db.configuration.maintenance_mode ≡ false
    → IsConsistent (retry_with db requested_by failed_job).1
unfolding retry_with create_reindex_job
retry_with-IsConsistent db requested_by failed_job c idle =
    added-IsConsistent db _ _ failed_job.target_preset_key c idle refl refl refl refl refl

-- A retry that is accepted keeps the settings consistent.
pub retry_reindex_job-IsConsistent :
    (db : Db) (requested_by failed_job_id : ℕ) (job : ReindexJob) (db' : Db)
    → IsConsistent db
    → retry_reindex_job db requested_by failed_job_id ≡ ok (job, db')
    → IsConsistent db'
unfolding retry_reindex_job
retry_reindex_job-IsConsistent db requested_by failed_job_id job db' c h =
    elim (Option-cases (get_reindex_job db failed_job_id)) [
      | inl missing ↦ ground arith
      | inr (failed_job, e) ↦ ground (arith, retry_with-IsConsistent db requested_by failed_job c)
    ]

-- Recovery.
unfinished-recover_rows :
    (jobs : List ReindexJob) → unfinished (recover_rows jobs) ≡ one_if (any is_unfinished jobs)
unfolding recover_rows
unfinished-recover_rows [] = refl
unfinished-recover_rows (j ∷ jobs) = ground (arith, unfinished-recover_rows jobs)

last_unfinished-none :
    (jobs : List ReindexJob) → last_unfinished jobs ≡ none → any is_unfinished jobs ≡ false
unfolding last_unfinished
last_unfinished-none [] h = refl
last_unfinished-none (j ∷ jobs) h = ground (arith, last_unfinished-none jobs)

unfinished-any : (jobs : List ReindexJob) → any is_unfinished jobs ≡ false → unfinished jobs ≡ 0
unfinished-any [] h = refl
unfinished-any (j ∷ jobs) h = ground (arith, unfinished-any jobs)

last_unfinished-some :
    (jobs : List ReindexJob) (job : ReindexJob)
    → last_unfinished jobs ≡ some job
    → any is_unfinished jobs ≡ true
unfolding last_unfinished
last_unfinished-some [] job h = cc
last_unfinished-some (j ∷ jobs) job h = elim (Option-cases (last_unfinished jobs)) [
  | inl e ↦ ground arith
  | inr (k, e) ↦ ground (arith, last_unfinished-some jobs k e)
]

recover_rows-target :
    (jobs : List ReindexJob) (job : ReindexJob)
    → last_unfinished jobs ≡ some job
    → all_target (some job.target_preset_key) (recover_rows jobs) ≡ true
unfolding last_unfinished recover_rows
recover_rows-target [] job h = cc
recover_rows-target (j ∷ jobs) job h = elim (Option-cases (last_unfinished jobs)) [
  | inl e ↦
      let none_left = last_unfinished-none jobs e in
      ground (
        arith,
        none_left,
        all_target-none (some job.target_preset_key) (recover_rows jobs)
            (unfinished-recover_rows jobs ∙ rw none_left),
        (option-Eq {A = Text}).eqb_iff (some job.target_preset_key) (some job.target_preset_key),
      )
  | inr (later, e) ↦
      ground (arith, last_unfinished-some jobs later e, recover_rows-target jobs later e)
]

-- From any state at all, a restart leaves the settings consistent: at most one job is unfinished, its
-- target is the pending preset, and without one maintenance is off.
pub recover_interrupted-IsConsistent :
    (db : Db) → IsConsistent (recover_interrupted_reindex_jobs db).1
unfolding recover_interrupted_reindex_jobs
recover_interrupted-IsConsistent db = elim (Option-cases (last_unfinished db.jobs)) [
  | inl e ↦
      let none_left = unfinished-any db.jobs (last_unfinished-none db.jobs e) in
      let target = λ (key : Option Text). all_target-none key db.jobs none_left in
      elim (Bool-cases
        (db.configuration.maintenance_mode || is_some db.configuration.pending_preset_key)) [
          | inl stale ↦
              rw (e, recover_interrupted_reindex_jobs, stale)
                (record { pending_key = refl; owner = none_left; target = target none })
          | inr clean ↦
              rw (e, recover_interrupted_reindex_jobs, clean)
                (record {
                  pending_key = ground arith;
                  owner = ground (arith, none_left);
                  target = target db.configuration.pending_preset_key;
                })
        ]
  | inr (job, e) ↦
      rw (e, recover_interrupted_reindex_jobs)
        (record {
          pending_key = refl;
          owner = unfinished-recover_rows db.jobs ∙ rw (last_unfinished-some db.jobs job e);
          target = recover_rows-target db.jobs job e;
        })
]
