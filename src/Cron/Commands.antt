-- ===== src/Cron/Commands.antt =====
-- pkg/cron/service.go: start, stop, and the changes of the jobs.
use operator_os.Base.{
  ℕ, Bool, true, false, Option, none, some, List, [], ◌∷◌, ◌++◌, Text, if◌then◌else◌, length, ltb,
  is_some,
}
use operator_os.Cron.Service.{
  ScheduleKind, at, every, cron, other_kind, CronSchedule, CronPayload, never_run, CronJob, Env,
  CronService, find_job, update_first, without_id, with_next_run, compute_next_run,
  recompute_next_runs, saved,
}

abbrev pub deletes_after_run : ScheduleKind → Bool
deletes_after_run at = true
deletes_after_run every = false
deletes_after_run cron = false
deletes_after_run (other_kind k) = false

module _ (env : Env) where
  open env use {World, now, save, load}

  abbrev pub new_job : Text → Text → CronSchedule → CronPayload → ℕ → CronJob
  new_job id name schedule payload now_ms = record {
    id = id;
    name = name;
    enabled = true;
    schedule = schedule;
    payload = payload;
    state = record {
      next_run_at_ms = compute_next_run env schedule now_ms;
      last_run_at_ms = none;
      last_status = never_run;
      last_error = [];
    };
    created_at_ms = now_ms;
    updated_at_ms = now_ms;
    delete_after_run = deletes_after_run schedule.kind;
  }

  -- With the id that was generated; the error of the save, or none.
  unfoldable pub add_job :
      Text → Text → CronSchedule → CronPayload → CronService World → Option Text × CronService World
  add_job id name schedule payload st =
      let jobs = st.jobs ++ new_job id name schedule payload (now st.world) ∷ [] in
      ((save jobs st.world).0, saved env jobs st)

  -- Whether the job was found, and the error of the save.
  unfoldable pub update_job : CronJob → CronService World → (Bool × Option Text) × CronService World
  update_job job st =
      let jobs = update_first job.id (λ j. record job { updated_at_ms = now st.world }) st.jobs in
      if is_some (find_job job.id st.jobs)
      then ((true, (save jobs st.world).0), saved env jobs st)
      else ((false, none), st)

  unfoldable pub remove_job : Text → CronService World → Bool × CronService World
  remove_job id st =
      let jobs = without_id id st.jobs in
      if ltb (length jobs) (length st.jobs)
      then (true, saved env jobs st)
      else (false, record st { jobs = jobs })

  abbrev pub switched : Bool → ℕ → CronJob → CronJob
  switched enabled now_ms job =
      with_next_run (if enabled then compute_next_run env job.schedule now_ms else none)
        (record job { enabled = enabled; updated_at_ms = now_ms })

  unfoldable pub enable_job : Text → Bool → CronService World → Option CronJob × CronService World
  enable_job id enabled st =
      let jobs = update_first id (switched enabled (now st.world)) st.jobs in
      elim (find_job id st.jobs) [
        | none ↦ (none, st)
        | some job ↦ (some (switched enabled (now st.world) job), saved env jobs st)
      ]

  -- The error, or none.
  unfoldable pub start : CronService World → Option Text × CronService World
  start st =
      let (err, loaded) = load st.world in
      let jobs = recompute_next_runs env (now st.world) loaded in
      if st.running then (none, st) else elim err [
        | some e ↦ (some e, record st { jobs = loaded })
        | none ↦ elim ((save jobs st.world).0) [
          | some e ↦ (some e, saved env jobs st)
          | none ↦ (none, record (saved env jobs st) { running = true })
        ]
      ]

  unfoldable pub stop : CronService World → CronService World
  stop st = record st { running = false }

abbrev pub list_jobs : Bool → List CronJob → List CronJob
list_jobs include_disabled [] = []
list_jobs include_disabled (j ∷ js) =
    if include_disabled
    then j ∷ list_jobs include_disabled js
    else if j.enabled
    then j ∷ list_jobs include_disabled js
    else list_jobs include_disabled js

abbrev pub earlier : Option ℕ → Option ℕ → Option ℕ
earlier none t = t
earlier (some w) none = some w
earlier (some w) (some t) = if ltb t w then some t else some w

-- The earliest next run so far.
abbrev pub next_wake_from : Option ℕ → List CronJob → Option ℕ
next_wake_from wake [] = wake
next_wake_from wake (j ∷ js) =
    next_wake_from (if j.enabled then earlier wake j.state.next_run_at_ms else wake) js

unfoldable pub get_next_wake_ms : List CronJob → Option ℕ
get_next_wake_ms jobs = next_wake_from none jobs
