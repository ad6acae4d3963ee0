-- ===== src/Cron/Checks.antt =====
-- Which jobs a tick of pkg/cron/service.go runs.
use operator_os.Base.{◌≡◌, List, [], ◌∷◌, ◌++◌, Text}
use operator_os.Cron.Service.{CronJob, Env, CronService}

module _ (env : Env) where
  open env use {World, now, on_job}

  module _
      (quiet : (job : CronJob) (jobs : List CronJob) (w : World)
        → (on_job job jobs w).1 ≡ jobs) where
    abbrev after_handler : Text → CronJob → CronService World → CronService World
    after_handler id job st =
        let (err, jobs, w) = on_job job st.jobs st.world in
        record st { jobs = jobs; world = w; executed = st.executed ++ id ∷ [] }
