-- ===== src/Cron/Service.antt =====
-- pkg/cron/service.go. Times are in milliseconds; an interval of zero stands for the negative ones too.
-- A handler runs outside the lock, so it may change the jobs. The clock is read off the world.
use operator_os.Base.{
  ℕ, ◌+◌, Bool, false, ◌&&◌, ◌||◌, not, Option, none, some, List, [], ◌∷◌, ◌++◌, Text, is_empty,
  text_eq, if◌then◌else◌, leb, ltb,
}

pub data ScheduleKind : Type 0 where
  at every cron : ScheduleKind
  other_kind : Text → ScheduleKind

pub record CronSchedule : Type 0 where
  pub kind : ScheduleKind
  pub at_ms : Option ℕ
  pub every_ms : Option ℕ
  pub expr : Text

pub record CronPayload : Type 0 where
  pub kind : Text
  pub message : Text
  pub deliver : Bool
  pub channel : Text
  pub to : Text

pub data Status : Type 0 where
  never_run ok_status error_status : Status

pub record CronJobState : Type 0 where
  pub next_run_at_ms : Option ℕ
  pub last_run_at_ms : Option ℕ
  pub last_status : Status
  pub last_error : Text

pub record CronJob : Type 0 where
  pub id : Text
  pub name : Text
  pub enabled : Bool
  pub schedule : CronSchedule
  pub payload : CronPayload
  pub state : CronJobState
  pub created_at_ms : ℕ
  pub updated_at_ms : ℕ
  pub delete_after_run : Bool

-- `next_tick` is gronx.NextTickAfter, `save` writes the file, `load` reads it: an error, and the jobs of
-- the store afterwards.
pub record Env : Type 1 where
  pub World : Type 0
  pub now : World → ℕ
  pub next_tick : Text → ℕ → Option ℕ
  pub on_job : CronJob → List CronJob → World → Option Text × List CronJob × World
  pub save : List CronJob → World → Option Text × World
  pub load : World → Option Text × List CronJob

-- `executed` lists the ids of the jobs that the handler got, oldest first.
pub record CronService (W : Type 0) : Type 0 where
  pub jobs : List CronJob
  pub running : Bool
  pub executed : List Text
  pub world : W

abbrev pub has_id : Text → CronJob → Bool
has_id id job = text_eq job.id id

abbrev pub find_job : Text → List CronJob → Option CronJob
find_job id [] = none
find_job id (j ∷ js) = if has_id id j then some j else find_job id js

abbrev pub update_first : Text → (CronJob → CronJob) → List CronJob → List CronJob
update_first id f [] = []
update_first id f (j ∷ js) = if has_id id j then f j ∷ js else j ∷ update_first id f js

abbrev pub without_id : Text → List CronJob → List CronJob
without_id id [] = []
without_id id (j ∷ js) = if has_id id j then without_id id js else j ∷ without_id id js

abbrev pub with_next_run : Option ℕ → CronJob → CronJob
with_next_run t job = record job { state = record job.state { next_run_at_ms = t } }

abbrev pub is_due : ℕ → CronJob → Bool
is_due now job = elim (job.state.next_run_at_ms) [
  | none ↦ false
  | some t ↦ job.enabled && leb t now
]

abbrev pub due_ids : ℕ → List CronJob → List Text
due_ids now [] = []
due_ids now (j ∷ js) = if is_due now j then j.id ∷ due_ids now js else due_ids now js

abbrev pub is_listed : Text → List Text → Bool
is_listed id [] = false
is_listed id (i ∷ is) = text_eq i id || is_listed id is

abbrev pub clear_due : List Text → List CronJob → List CronJob
clear_due ids [] = []
clear_due ids (j ∷ js) = (if is_listed j.id ids then with_next_run none j else j) ∷ clear_due ids js

module _ (env : Env) where
  open env use {World, now, next_tick, on_job, save, load}

  unfoldable pub compute_next_run : CronSchedule → ℕ → Option ℕ
  compute_next_run s now_ms = elim (s.kind) [
    | at ↦ elim (s.at_ms) [ none ↦ none | some t ↦ if ltb now_ms t then some t else none ]
    | every ↦ elim (s.every_ms) [
      | none ↦ none
      | some e ↦ if leb e 0 then none else some (now_ms + e)
    ]
    | cron ↦ if is_empty s.expr then none else next_tick s.expr now_ms
    | other_kind k ↦ none
  ]

  abbrev pub saved : List CronJob → CronService World → CronService World
  saved jobs st = record st { jobs = jobs; world = (save jobs st.world).1 }

  abbrev pub result_state : Option Text → ℕ → CronJobState → CronJobState
  result_state none start s = record s {
    last_run_at_ms = some start;
    last_status = ok_status;
    last_error = [];
  }
  result_state (some e) start s = record s {
    last_run_at_ms = some start;
    last_status = error_status;
    last_error = e;
  }

  abbrev pub marked_run : Option Text → ℕ → ℕ → CronJob → CronJob
  marked_run err start finish job = record job {
    state = result_state err start job.state;
    updated_at_ms = finish;
  }

  -- The job after its run, where it is kept.
  abbrev pub rescheduled : ℕ → CronJob → CronJob
  rescheduled finish job = elim (job.schedule.kind) [
    | at ↦ with_next_run none (record job { enabled = false })
    | every ↦ with_next_run (compute_next_run job.schedule finish) job
    | cron ↦ with_next_run (compute_next_run job.schedule finish) job
    | other_kind k ↦ with_next_run (compute_next_run job.schedule finish) job
  ]

  abbrev pub is_deleted : CronJob → Bool
  is_deleted job = elim (job.schedule.kind) [
    | at ↦ job.delete_after_run
    | every ↦ false
    | cron ↦ false
    | other_kind k ↦ false
  ]

  -- After the handler: the jobs as they are by then.
  unfoldable pub finish_job : Text → Option Text → ℕ → CronService World → CronService World
  unfolding compute_next_run
  finish_job id err start st =
      let finish = now st.world in
      elim (find_job id st.jobs) [
        | none ↦ st
        | some job ↦
            if is_deleted job
            then saved (without_id id st.jobs) (saved (without_id id st.jobs) st)
            else saved
                (update_first id (λ j. rescheduled finish (marked_run err start finish j)) st.jobs)
                st
      ]

  unfoldable pub execute_job_by_id : Text → CronService World → CronService World
  unfolding finish_job
  execute_job_by_id id st = elim (find_job id st.jobs) [
    | none ↦ st
    | some job ↦
        let (err, jobs, w) = on_job job st.jobs st.world in
        finish_job id err (now st.world)
          (record st { jobs = jobs; world = w; executed = st.executed ++ id ∷ [] })
  ]

  unfoldable pub execute_all : List Text → CronService World → CronService World
  unfolding execute_job_by_id
  execute_all [] st = st
  execute_all (id ∷ ids) st = execute_all ids (execute_job_by_id id st)

  unfoldable pub check_jobs : CronService World → CronService World
  unfolding execute_all
  check_jobs st =
      let ids = due_ids (now st.world) st.jobs in
      if not st.running then st else execute_all ids (saved (clear_due ids st.jobs) st)

  unfoldable pub recompute_next_runs : ℕ → List CronJob → List CronJob
  recompute_next_runs now_ms [] = []
  recompute_next_runs now_ms (j ∷ js) =
      (if j.enabled then with_next_run (compute_next_run j.schedule now_ms) j else j)
      ∷ recompute_next_runs now_ms js
