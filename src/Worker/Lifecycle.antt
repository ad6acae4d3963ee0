-- ===== src/Worker/Lifecycle.antt =====
-- Run and Stop of pkg/worker/worker.go, one atomic action at a time, for any number of concurrent
-- calls of Run. Waiting for the consumers is one action, which is possible once the context is done or
-- the bus has no more messages.
use operator_os.Base.{
  ℕ, Bool, true, false, Option, none, some, List, [], ◌∷◌, ◌||◌, get_elem?, set, if◌then◌else◌,
}

pub data RunError : Type 0 where
  worker_stopped : RunError
  already_running : RunError

-- How far a call of Run has come.
pub data Runner : Type 0 where
  called : Runner
  past_check : Runner
  claimed : Runner
  consuming : Runner
  returned : Option RunError → Runner

-- `cancel` tells whether the field is set, `cancelled` whether its context is done; `stopping` that
-- the first call of Stop has still to look at the field.
pub record Life : Type 0 where
  pub stopped : Bool
  pub running : Bool
  pub cancel : Bool
  pub cancelled : Bool
  pub stopping : Bool
  pub runners : List Runner

unfoldable pub new_life : Life
new_life = record {
  stopped = false;
  running = false;
  cancel = false;
  cancelled = false;
  stopping = false;
  runners = [];
}

abbrev moved : ℕ → Runner → Life → Life
moved i r l = record l { runners = set l.runners i r }

-- The next action of the call `i` of Run.
unfoldable pub run_step : ℕ → Bool → Runner → Life → Life
run_step i bus_over called l =
    if l.stopped then moved i (returned (some worker_stopped)) l else moved i past_check l
run_step i bus_over past_check l =
    if l.running
    then moved i (returned (some already_running)) l
    else moved i claimed (record l { running = true })
run_step i bus_over claimed l = moved i consuming (record l { cancel = true; cancelled = false })
run_step i bus_over consuming l =
    if l.cancelled || bus_over
    then moved i (returned none) (record l { cancelled = true; running = false })
    else l
run_step i bus_over (returned e) l = l

pub data LifeAction : Type 0 where
  run_called : LifeAction
  run_continued : ℕ → Bool → LifeAction
  stop_called : LifeAction
  stop_continued : LifeAction

unfoldable pub life_step : LifeAction → Life → Life
unfolding run_step
life_step run_called l = record l { runners = called ∷ l.runners }
life_step (run_continued i bus_over) l = elim (get_elem? l.runners i) [
  | none ↦ l
  | some r ↦ run_step i bus_over r l
]
life_step stop_called l = if l.stopped then l else record l { stopped = true; stopping = true }
life_step stop_continued l =
    if l.stopping then record l { stopping = false; cancelled = l.cancelled || l.cancel } else l

abbrev pub live : List LifeAction → Life → Life
live [] l = l
live (a ∷ rest) l = live rest (life_step a l)
