-- ===== src/Cron/Runs.antt =====
-- What the runs of pkg/cron/service.go leave of a job.
use operator_os.Base.{
  ℕ, ◌<◌, ◌≡◌, refl, sym, ap, ◌∙◌, subst, true, false, Option, none, some, List, [], ◌∷◌, ◌++◌,
  Text, is_empty, text_eq, Bool-cases, Option-cases, inl, inr, ◌⊎◌, arith,
}
use mathlib.Core.Option
use operator_os.Cron.Service.{
  ScheduleKind, at, every, cron, other_kind, CronSchedule, CronJob, Env, CronService, has_id,
  find_job, update_first, without_id, compute_next_run, finish_job, execute_job_by_id, saved,
  rescheduled, marked_run, is_deleted,
}

pub kind_cases :
    (k : ScheduleKind) → (k ≡ at) ⊎ ((k ≡ every) ⊎ ((k ≡ cron) ⊎ ((t : Text) × (k ≡ other_kind t))))
kind_cases at = inl refl
kind_cases every = inr (inl refl)
kind_cases cron = inr (inr (inl refl))
kind_cases (other_kind t) = inr (inr (inr (t, refl)))

find_job-update_first :
    (id : Text) (f : CronJob → CronJob) (jobs : List CronJob) (job : CronJob)
    → find_job id jobs ≡ some job
    → ((j : CronJob) → (f j).id ≡ j.id)
    → find_job id (update_first id f jobs) ≡ some (f job)
find_job-update_first id f [] job h k = absurd (ground arith)
find_job-update_first id f (j ∷ js) job h k = elim (Bool-cases (has_id id j)) [
  | inl y ↦
      let e : has_id id (f j) ≡ true = ap (λ i. text_eq i id) (k j) ∙ y in
      let s : some j ≡ some job = rw y at h in
      rw (y, e) (ap (λ o. elim o [ none ↦ none | some i ↦ some (f i) ]) s)
  | inr n ↦ rw (n) (rw (n) (find_job-update_first id f js job (rw n at h) k))
]

find_job-without_id : (id : Text) (jobs : List CronJob) → find_job id (without_id id jobs) ≡ none
find_job-without_id id [] = refl
find_job-without_id id (j ∷ js) = elim (Bool-cases (has_id id j)) [
  | inl y ↦ rw y (find_job-without_id id js)
  | inr n ↦ rw n (rw n (find_job-without_id id js))
]

module _ (env : Env) where
  open env use {World, now, next_tick}

  -- A next run that is computed lies in the future, if that of a cron expression does.
  pub compute_next_run-later :
      (s : CronSchedule) (now_ms t : ℕ)
      → ((expr : Text) (from u : ℕ) → next_tick expr from ≡ some u → from < u)
      → compute_next_run env s now_ms ≡ some t
      → now_ms < t
  unfolding compute_next_run
  compute_next_run-later s now_ms t ticks h = elim (kind_cases s.kind) [
    | inl k ↦ elim (Option-cases s.at_ms) [
      | inl e ↦ absurd (ground arith)
      | inr (u, e) ↦ ground arith
    ]
    | inr (inl k) ↦ elim (Option-cases s.every_ms) [
      | inl e ↦ absurd (ground arith)
      | inr (u, e) ↦ ground arith
    ]
    | inr (inr (inl k)) ↦ elim (Bool-cases (is_empty s.expr)) [
      | inl y ↦ absurd (ground arith)
      | inr n ↦ ticks s.expr now_ms t (ground arith)
    ]
    | inr (inr (inr (o, k))) ↦ absurd (ground arith)
  ]

  pub rescheduled-id :
      (finish start : ℕ) (err : Option Text) (j : CronJob)
      → (rescheduled env finish (marked_run env err start finish j)).id ≡ j.id
  rescheduled-id finish start err j = elim (kind_cases j.schedule.kind) [
    | inl k ↦ rw k refl
    | inr (inl k) ↦ rw k refl
    | inr (inr (inl k)) ↦ rw k refl
    | inr (inr (inr (o, k))) ↦ rw k refl
  ]

  -- A job whose one run is over, or one that comes later than `finish` or never.
  abbrev pub IsSettled : ℕ → CronJob → Type 0
  IsSettled finish j =
      ((j.schedule.kind ≡ at) × (j.enabled ≡ false) × (j.state.next_run_at_ms ≡ none))
      ⊎ ((j.state.next_run_at_ms ≡ none)
          ⊎ ((u : ℕ) × (j.state.next_run_at_ms ≡ some u) × (finish < u)))

  rescheduled-IsSettled :
      (finish : ℕ) (j : CronJob)
      → ((expr : Text) (from u : ℕ) → next_tick expr from ≡ some u → from < u)
      → IsSettled finish (rescheduled env finish j)
  rescheduled-IsSettled finish j ticks = elim (kind_cases j.schedule.kind) [
    | inl k ↦ rw k (inl (refl, refl, refl))
    | inr (inl k) ↦ rw k (inr (later (record j.schedule { kind = every })))
    | inr (inr (inl k)) ↦ rw k (inr (later (record j.schedule { kind = cron })))
    | inr (inr (inr (o, k))) ↦ rw k (inr (later (record j.schedule { kind = other_kind o })))
  ]
    where
      later :
          (s : CronSchedule)
          → (compute_next_run env s finish ≡ none)
            ⊎ ((u : ℕ) × (compute_next_run env s finish ≡ some u) × (finish < u))
      later s = elim (Option-cases (compute_next_run env s finish)) [
        | inl e ↦ inl e
        | inr (u, e) ↦ inr (u, e, compute_next_run-later s finish u ticks e)
      ]

  pub finish_job_cases :
      (id : Text) (err : Option Text) (start : ℕ) (st : CronService World)
      → ((find_job id st.jobs ≡ none) × (finish_job env id err start st ≡ st))
        ⊎ (((job : CronJob) × (find_job id st.jobs ≡ some job)
              × (finish_job env id err start st
                  ≡ saved env (without_id id st.jobs) (saved env (without_id id st.jobs) st)))
            ⊎ ((job : CronJob) × (find_job id st.jobs ≡ some job)
                × (finish_job env id err start st
                    ≡ saved env
                        (update_first id
                          (λ j.
                            rescheduled env
                              (now st.world)
                              (marked_run env err start (now st.world) j))
                          st.jobs)
                        st)))
  unfolding finish_job
  finish_job_cases id err start st = elim (Option-cases (find_job id st.jobs)) [
    | inl e ↦ inl (e, rw (e, finish_job) refl)
    | inr (job, e) ↦ elim (Bool-cases (is_deleted env job)) [
      | inl d ↦ inr (inl (job, e, rw (e, finish_job) (rw d refl)))
      | inr d ↦ inr (inr (job, e, rw (e, finish_job) (rw d refl)))
    ]
  ]

  finish_job-IsSettled :
      (id : Text) (err : Option Text) (start : ℕ) (st : CronService World) (j : CronJob)
      → ((expr : Text) (from u : ℕ) → next_tick expr from ≡ some u → from < u)
      → find_job id (finish_job env id err start st).jobs ≡ some j
      → IsSettled (now st.world) j
  finish_job-IsSettled id err start st j ticks h = elim (finish_job_cases id err start st) [
    | inl (e, f) ↦ let g = sym (ap (λ s. find_job id s.jobs) f ∙ e) ∙ h in absurd (ground arith)
    | inr (inl (job, e, f)) ↦
        let g = sym (ap (λ s. find_job id s.jobs) f ∙ find_job-without_id id st.jobs) ∙ h in
        absurd (ground arith)
    | inr (inr (job, e, f)) ↦
        let ran = marked_run env err start (now st.world) job in
        let found =
          find_job-update_first id
            (λ i. rescheduled env (now st.world) (marked_run env err start (now st.world) i))
            st.jobs job e (rescheduled-id (now st.world) start err) in
        let g : some (rescheduled env (now st.world) ran) ≡ some j =
          sym (ap (λ s. find_job id s.jobs) f ∙ found) ∙ h in
        subst (IsSettled (now st.world))
          (Option.some-injective (rescheduled env (now st.world) ran) j g)
          (rescheduled-IsSettled (now st.world) ran ticks)
  ]

  -- If a cron expression's next tick comes after the time it is asked for, then a job that was run and is
  -- still there, whatever the handler did to the jobs meanwhile, is either a one-time job, disabled and
  -- without a next run, or its next run, if any, comes after the handler's end.
  pub execute_job_by_id-IsSettled :
      (id : Text) (st : CronService World) (job j : CronJob)
      → ((expr : Text) (from u : ℕ) → next_tick expr from ≡ some u → from < u)
      → find_job id st.jobs ≡ some job
      → find_job id (execute_job_by_id env id st).jobs ≡ some j
      → IsSettled (now (env.on_job job st.jobs st.world).2) j
  unfolding execute_job_by_id
  execute_job_by_id-IsSettled id st job j ticks f h =
      let (err, jobs, w) = env.on_job job st.jobs st.world in
      finish_job-IsSettled id err (now st.world)
        (record st { jobs = jobs; world = w; executed = st.executed ++ id ∷ [] }) j ticks
        (rw (f, execute_job_by_id) at h)
