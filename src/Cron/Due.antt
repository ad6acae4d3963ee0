-- ===== src/Cron/Due.antt =====
-- What a tick of pkg/cron/service.go is to run, and what a series of runs is.
use operator_os.Base.{
  ℕ, ◌≤◌, ◌≡◌, refl, sym, true, false, ◌&&◌, leb, Option, some, List, [], ◌∷◌, ◌++◌, Text, inl, inr,
  Bool-cases, Option-cases, is_some, text_eq_sound, arith,
}
use operator_os.Cron.Service.{
  CronJob, Env, CronService, has_id, find_job, is_due, due_ids, finish_job, execute_job_by_id,
}

-- A job is enabled, and its next run is a time that has come.
abbrev pub IsDueAt : ℕ → CronJob → Type 0
IsDueAt now j = (j.enabled ≡ true) × ((t : ℕ) × (j.state.next_run_at_ms ≡ some t) × (t ≤ now))

-- The ids of exactly the jobs that are due, in their order.
pub data Selected (now : ℕ) : List CronJob → List Text → Type 0 where
  no_jobs : Selected now [] []
  due :
      {js : List CronJob} {ids : List Text} (j : CronJob)
      → IsDueAt now j
      → Selected now js ids
      → Selected now (j ∷ js) (j.id ∷ ids)
  not_due :
      {js : List CronJob} {ids : List Text} (j : CronJob)
      → ¬ IsDueAt now j
      → Selected now js ids
      → Selected now (j ∷ js) ids

is_due-IsDueAt : (now : ℕ) (j : CronJob) → is_due now j ≡ true → IsDueAt now j
is_due-IsDueAt now j h = elim (Option-cases j.state.next_run_at_ms) [
  | inl e ↦ absurd (ground (arith, h, e))
  | inr (t, e) ↦
      let k : (j.enabled && leb t now) ≡ true = rw e at h in
      (ground (arith, k), (t, e, ground (arith, k)))
]

not_due-IsDueAt : (now : ℕ) (j : CronJob) → is_due now j ≡ false → ¬ IsDueAt now j
not_due-IsDueAt now j h (on, (t, e, le)) =
    let k : (j.enabled && leb t now) ≡ false = rw e at h in absurd (ground (arith, k, on, le))

pub due_ids-Selected : (now : ℕ) (jobs : List CronJob) → Selected now jobs (due_ids now jobs)
due_ids-Selected now [] = no_jobs
due_ids-Selected now (j ∷ js) = elim (Bool-cases (is_due now j)) [
  | inl y ↦ rw y (due j (is_due-IsDueAt now j y) (due_ids-Selected now js))
  | inr n ↦ rw n (not_due j (not_due-IsDueAt now j n) (due_ids-Selected now js))
]

has_id-find_job :
    (id : Text) (jobs : List CronJob) (job : CronJob) → find_job id jobs ≡ some job → job.id ≡ id
has_id-find_job id [] job h = absurd (ground arith)
has_id-find_job id (j ∷ js) job h = elim (Bool-cases (has_id id j)) [
  | inl y ↦
      let k : some j ≡ some job = rw y at h in
      let same : j ≡ job = cc in rw (sym same) (text_eq_sound j.id id y)
  | inr n ↦ has_id-find_job id js job (rw n at h)
]

module _ (env : Env) where
  open env use {World, now, on_job}

  -- A series of runs: for each id in turn the handler gets the job with that id, once, in the world as
  -- it is then, and what it returns is booked before the next run.
  pub data Ran : List Text → CronService World → CronService World → Type 0 where
    all_ran : {st : CronService World} → Ran [] st st
    ran :
        {ids : List Text} {st end : CronService World} (id : Text) (job : CronJob)
        (err : Option Text) (jobs : List CronJob) (w : World)
        → find_job id st.jobs ≡ some job
        → job.id ≡ id
        → on_job job st.jobs st.world ≡ (err, jobs, w)
        → Ran ids
            (finish_job env id err
              (now st.world)
              (record st { jobs = jobs; world = w; executed = st.executed ++ id ∷ [] }))
            end
        → Ran (id ∷ ids) st end

  pub execute_one-Ran :
      (id : Text) (ids : List Text) (st end : CronService World)
      → is_some (find_job id st.jobs) ≡ true
      → Ran ids (execute_job_by_id env id st) end
      → Ran (id ∷ ids) st end
  unfolding execute_job_by_id
  execute_one-Ran id ids st end h r = elim (Option-cases (find_job id st.jobs)) [
    | inl e ↦ absurd (ground (arith, h, e))
    | inr (job, e) ↦
        ran id job _ _ _ e (has_id-find_job id st.jobs job e) refl (rw (e, execute_job_by_id) at r)
  ]
