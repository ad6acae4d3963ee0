-- ===== src/Cron/Examples.antt =====
-- Runs of pkg/cron/service.go, and the theorems at concrete inputs.
use operator_os.Base.{
  ℕ, ◌+◌, ◌≡◌, refl, true, false, Option, none, some, [], ◌∷◌, Text, codes, text_eq, arith,
}
use operator_os.Cron.Service.{
  ScheduleKind, at, every, cron, CronJob, never_run, ok_status, Env, CronService, execute_job_by_id,
  due_ids,
}
use operator_os.Cron.Runs.{IsSettled, execute_job_by_id-IsSettled}
use operator_os.Base.{Text}

-- A world is a time, and a handler takes a millisecond; a cron expression ticks every minute.
abbrev minutes : Env
minutes = record {
  World = ℕ;
  now = λ w. w;
  next_tick = λ expr from. some (from + 60_000);
  on_job = λ job jobs w. (none, jobs, w + 1);
  save = λ jobs w. (none, w);
  load = λ w. (none, []);
}

abbrev reminder : Text → ScheduleKind → Option ℕ → CronJob
reminder id kind next = record {
  id = id;
  name = codes "reminder";
  enabled = true;
  schedule = record {
    kind = kind;
    at_ms = some 500;
    every_ms = some 100;
    expr = codes "* * * * *";
  };
  payload = record {
    kind = codes "agent_turn";
    message = codes "hi";
    deliver = true;
    channel = [];
    to = [];
  };
  state = record {
    next_run_at_ms = next;
    last_run_at_ms = none;
    last_status = never_run;
    last_error = [];
  };
  created_at_ms = 0;
  updated_at_ms = 0;
  delete_after_run = false;
}

abbrev one_time : CronJob
one_time = reminder (codes "a") at (some 500)

abbrev hourly : CronJob
hourly = reminder (codes "b") every (some 2_000)

abbrev each_minute : CronJob
each_minute = reminder (codes "c") cron (some 900)

abbrev at_one_second : CronService ℕ
at_one_second = record {
  jobs = one_time ∷ hourly ∷ each_minute ∷ [];
  running = true;
  executed = [];
  world = 1_000;
}

due_at_one_second : due_ids 1_000 at_one_second.jobs ≡ codes "a" ∷ codes "c" ∷ []
due_at_one_second = refl

abbrev after_one_time : CronJob
after_one_time = record one_time {
  enabled = false;
  updated_at_ms = 1_001;
  state = record {
    next_run_at_ms = none;
    last_run_at_ms = some 1_000;
    last_status = ok_status;
    last_error = [];
  };
}

execute_job_by_id-IsSettled_example : IsSettled minutes 1_001 after_one_time
execute_job_by_id-IsSettled_example =
    execute_job_by_id-IsSettled minutes (codes "a") at_one_second one_time after_one_time
      (λ expr from u h. ground arith) (unfold text_eq in refl)
      (unfold execute_job_by_id text_eq in refl)
