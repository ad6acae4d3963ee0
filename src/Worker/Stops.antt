-- ===== src/Worker/Stops.antt =====
-- The guards of Run and Stop of pkg/worker/worker.go: one Run at a time, and a Stop that is lost.
use operator_os.Base.{
  ℕ, zero, suc, ◌+◌, ◌≡◌, refl, Bool, true, false, none, some, List, [], ◌∷◌, get_elem?, set,
  if◌then◌else◌, Option-cases, subst, inl, inr, arith,
}
use operator_os.Worker.Lifecycle.{
  worker_stopped, already_running, Runner, called, past_check, claimed, consuming, returned, Life,
  new_life, run_step, LifeAction, run_called, run_continued, stop_called, stop_continued, life_step,
  live,
}

-- The calls of Run that have claimed the worker.
abbrev is_inside : Runner → ℕ
is_inside claimed = 1
is_inside consuming = 1
is_inside _ = 0

abbrev pub inside : List Runner → ℕ
inside [] = 0
inside (r ∷ rs) = is_inside r + inside rs

inside-set :
    (rs : List Runner) (i : ℕ) (r s : Runner)
    → get_elem? rs i ≡ some r
    → inside (set rs i s) + is_inside r ≡ inside rs + is_inside s
inside-set [] i r s h = absurd (ground arith)
inside-set (x ∷ rs) zero r s h = ground arith
inside-set (x ∷ rs) (suc i) r s h = ground (arith, inside-set rs i r s h)

abbrev IsExclusive : Life → Type 0
IsExclusive l = inside l.runners ≡ (if l.running then 1 else 0)

run_step-IsExclusive :
    (i : ℕ) (o : Bool) (r : Runner) (l : Life)
    → get_elem? l.runners i ≡ some r
    → IsExclusive l
    → IsExclusive (run_step i o r l)
unfolding run_step
run_step-IsExclusive i o called l h v = ground (
  arith,
  inside-set l.runners i called (returned (some worker_stopped)) h,
  inside-set l.runners i called past_check h,
)
run_step-IsExclusive i o past_check l h v = ground (
  arith,
  inside-set l.runners i past_check (returned (some already_running)) h,
  inside-set l.runners i past_check claimed h,
)
run_step-IsExclusive i o claimed l h v = ground (arith, inside-set l.runners i claimed consuming h)
run_step-IsExclusive i o consuming l h v =
    ground (arith, inside-set l.runners i consuming (returned none) h)
run_step-IsExclusive i o (returned e) l h v = v

life_step-IsExclusive : (a : LifeAction) (l : Life) → IsExclusive l → IsExclusive (life_step a l)
unfolding life_step
life_step-IsExclusive run_called l v = omega arith
life_step-IsExclusive (run_continued i o) l v = elim (Option-cases (get_elem? l.runners i)) [
  | inl e ↦ rw (e, life_step) v
  | inr (r, e) ↦ rw (e, life_step) (run_step-IsExclusive i o r l e v)
]
life_step-IsExclusive stop_called l v = ground arith
life_step-IsExclusive stop_continued l v = ground arith

live-IsExclusive : (acts : List LifeAction) (l : Life) → IsExclusive l → IsExclusive (live acts l)
live-IsExclusive [] l v = v
live-IsExclusive (a ∷ acts) l v =
    live-IsExclusive acts (life_step a l) (life_step-IsExclusive a l v)

-- However many calls of Run and Stop there are and however they interleave: as long as the worker is
-- marked as running exactly one call of Run is past its checks, and otherwise none is.
pub one_run_inside :
    (acts : List LifeAction)
    → inside (live acts new_life).runners ≡ (if (live acts new_life).running then 1 else 0)
one_run_inside acts = live-IsExclusive acts new_life (unfold new_life in refl)

-- The only call of Run has passed its first check and has not returned.
abbrev pub IsUnderWay : Bool → List Runner → Type 0
IsUnderWay running (past_check ∷ []) = running ≡ false
IsUnderWay running (claimed ∷ []) = Unit {0}
IsUnderWay running (consuming ∷ []) = Unit {0}
IsUnderWay running _ = ⊥

-- Stop has returned, nothing is cancelled, and Run goes on.
abbrev pub IsUnstopped : Life → Type 0
IsUnstopped l =
    (l.stopped ≡ true)
    × (l.stopping ≡ false)
    × (l.cancelled ≡ false)
    × IsUnderWay l.running l.runners

-- What happens while the bus is open and its context is not cancelled, and Run is not called again.
abbrev pub IsQuiet : LifeAction → Type 0
IsQuiet run_called = ⊥
IsQuiet (run_continued i bus_over) = bus_over ≡ false
IsQuiet stop_called = Unit {0}
IsQuiet stop_continued = Unit {0}

abbrev pub AllQuiet : List LifeAction → Type 0
AllQuiet [] = Unit {0}
AllQuiet (a ∷ acts) = IsQuiet a × AllQuiet acts

abbrev unstopped_life : Bool → Bool → List Runner → Life
unstopped_life running cancel rs = record {
  stopped = true;
  running = running;
  cancel = cancel;
  cancelled = false;
  stopping = false;
  runners = rs;
}

run_continued-IsUnstopped :
    (i : ℕ) (running cancel : Bool) (rs : List Runner)
    → IsUnderWay running rs
    → IsUnstopped (life_step (run_continued i false) (unstopped_life running cancel rs))
unfolding life_step run_step
run_continued-IsUnstopped i n c [] v = absurd v
run_continued-IsUnstopped zero n c (past_check ∷ []) v = ground arith
run_continued-IsUnstopped (suc i) n c (past_check ∷ []) v = (refl, refl, refl, v)
run_continued-IsUnstopped zero n c (claimed ∷ []) v = (refl, refl, refl, tt)
run_continued-IsUnstopped (suc i) n c (claimed ∷ []) v = (refl, refl, refl, tt)
run_continued-IsUnstopped zero n c (consuming ∷ []) v = (refl, refl, refl, tt)
run_continued-IsUnstopped (suc i) n c (consuming ∷ []) v = (refl, refl, refl, tt)
run_continued-IsUnstopped i n c (called ∷ rs) v = absurd v
run_continued-IsUnstopped i n c (returned e ∷ rs) v = absurd v
run_continued-IsUnstopped i n c (past_check ∷ r ∷ rs) v = absurd v
run_continued-IsUnstopped i n c (claimed ∷ r ∷ rs) v = absurd v
run_continued-IsUnstopped i n c (consuming ∷ r ∷ rs) v = absurd v

life_step-IsUnstopped :
    (a : LifeAction) (l : Life) → IsQuiet a → IsUnstopped l → IsUnstopped (life_step a l)
unfolding life_step
life_step-IsUnstopped run_called l q v = absurd q
life_step-IsUnstopped (run_continued i o) l q v =
    let same : unstopped_life l.running l.cancel l.runners ≡ l = ground arith in
    rw q (
      subst (λ k. IsUnstopped (life_step (run_continued i false) k)) same
        (run_continued-IsUnstopped i l.running l.cancel l.runners v.3))
life_step-IsUnstopped stop_called l q v = ground arith
life_step-IsUnstopped stop_continued l q v = ground arith

live-IsUnstopped :
    (acts : List LifeAction) (l : Life) → AllQuiet acts → IsUnstopped l → IsUnstopped (live acts l)
live-IsUnstopped [] l q v = v
live-IsUnstopped (a ∷ acts) l q v =
    live-IsUnstopped acts (life_step a l) q.1 (life_step-IsUnstopped a l q.0 v)

-- A Stop of which both steps fall between the first check of Run and the storing of its cancel
-- function, on a fresh worker, is lost for good, be it before Run claims the worker, around that, or
-- after it: whatever happens then, further calls of Stop included, the worker is marked as stopped, its
-- context is not cancelled and Run does not return, as long as the bus is open, the caller does not
-- cancel and Run is not called again.
pub lost_stop :
    (acts : List LifeAction)
    → AllQuiet acts
    → IsUnstopped
        (live (run_called ∷ run_continued 0 false ∷ stop_called ∷ stop_continued ∷ acts) new_life)
      × IsUnstopped (
          live
            (run_called
              ∷ run_continued 0 false
              ∷ stop_called
              ∷ run_continued 0 false
              ∷ stop_continued
              ∷ acts)
            new_life)
      × IsUnstopped (
          live
            (run_called
              ∷ run_continued 0 false
              ∷ run_continued 0 false
              ∷ stop_called
              ∷ stop_continued
              ∷ acts)
            new_life)
unfolding life_step run_step new_life
lost_stop acts q = (
  live-IsUnstopped acts
      (live (run_called ∷ run_continued 0 false ∷ stop_called ∷ stop_continued ∷ []) new_life) q
      (refl, refl, refl, refl),
  live-IsUnstopped acts
      (live
        (run_called
          ∷ run_continued 0 false
          ∷ stop_called
          ∷ run_continued 0 false
          ∷ stop_continued
          ∷ [])
        new_life)
      q (refl, refl, refl, tt),
  live-IsUnstopped acts
      (live
        (run_called
          ∷ run_continued 0 false
          ∷ run_continued 0 false
          ∷ stop_called
          ∷ stop_continued
          ∷ [])
        new_life)
      q (refl, refl, refl, tt),
)
