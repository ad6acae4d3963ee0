-- ===== src/Cron/Found.antt =====
-- Which ids the list of jobs of pkg/cron/service.go holds, and what its updates leave of them.
use operator_os.Base.{
  ℕ, ◌≡◌, refl, sym, subst, Bool, true, false, ◌&&◌, not, List, [], ◌∷◌, Text, text_eq,
  text_eq_refl, text_eq_sound, is_some, Bool-cases, inl, inr, arith,
}
use operator_os.Cron.Service.{
  CronJob, has_id, find_job, update_first, without_id, is_due, due_ids, is_listed, clear_due,
}

abbrev pub is_found : Text → List CronJob → Bool
is_found id jobs = is_some (find_job id jobs)

-- No id stands in the list twice.
abbrev pub are_distinct : List Text → Bool
are_distinct [] = true
are_distinct (i ∷ is) = not (is_listed i is) && are_distinct is

abbrev pub job_ids : List CronJob → List Text
job_ids [] = []
job_ids (j ∷ js) = j.id ∷ job_ids js

abbrev pub all_found : List Text → List CronJob → Bool
all_found [] jobs = true
all_found (i ∷ is) jobs = is_found i jobs && all_found is jobs

pub is_found-update_first :
    (id other : Text) (f : CronJob → CronJob) (jobs : List CronJob)
    → ((j : CronJob) → (f j).id ≡ j.id)
    → is_found other (update_first id f jobs) ≡ is_found other jobs
is_found-update_first id other f [] k = refl
is_found-update_first id other f (j ∷ js) k = elim (Bool-cases (has_id id j)) [
  | inl y ↦
      rw (y, k j) (elim (Bool-cases (has_id other j)) [ inl z ↦ rw z refl | inr z ↦ rw z refl ])
  | inr n ↦ rw n (elim (Bool-cases (has_id other j)) [
    | inl z ↦ rw z refl
    | inr z ↦ rw z (is_found-update_first id other f js k)
  ])
]

text_eq-apart : (a b c : Text) → text_eq a b ≡ true → text_eq b c ≡ false → text_eq a c ≡ false
text_eq-apart a b c h k = subst (λ i. text_eq i c ≡ false) (sym (text_eq_sound a b h)) k

pub is_found-without_id :
    (id other : Text) (jobs : List CronJob)
    → text_eq id other ≡ false
    → is_found other (without_id id jobs) ≡ is_found other jobs
is_found-without_id id other [] k = refl
is_found-without_id id other (j ∷ js) k = elim (Bool-cases (has_id id j)) [
  | inl y ↦ rw (y, text_eq-apart j.id id other y k) (is_found-without_id id other js k)
  | inr n ↦ rw n (elim (Bool-cases (has_id other j)) [
    | inl z ↦ rw z refl
    | inr z ↦ rw z (is_found-without_id id other js k)
  ])
]

pub is_found-clear_due :
    (ids : List Text) (id : Text) (jobs : List CronJob)
    → is_found id (clear_due ids jobs) ≡ is_found id jobs
is_found-clear_due ids id [] = refl
is_found-clear_due ids id (j ∷ js) = elim (Bool-cases (is_listed j.id ids)) [
  | inl y ↦ rw y (elim (Bool-cases (has_id id j)) [
    | inl z ↦ rw z refl
    | inr z ↦ rw z (is_found-clear_due ids id js)
  ])
  | inr n ↦ rw n (elim (Bool-cases (has_id id j)) [
    | inl z ↦ rw z refl
    | inr z ↦ rw z (is_found-clear_due ids id js)
  ])
]

is_listed-due_ids :
    (id : Text) (now : ℕ) (jobs : List CronJob)
    → is_listed id (job_ids jobs) ≡ false
    → is_listed id (due_ids now jobs) ≡ false
is_listed-due_ids id now [] h = refl
is_listed-due_ids id now (j ∷ js) h = elim (Bool-cases (is_due now j)) [
  | inl y ↦ rw y (ground (arith, is_listed-due_ids id now js))
  | inr n ↦ rw n (is_listed-due_ids id now js (ground arith))
]

pub due_ids-distinct :
    (now : ℕ) (jobs : List CronJob)
    → are_distinct (job_ids jobs) ≡ true
    → are_distinct (due_ids now jobs) ≡ true
due_ids-distinct now [] h = refl
due_ids-distinct now (j ∷ js) h = elim (Bool-cases (is_due now j)) [
  | inl y ↦ rw y (ground (arith, due_ids-distinct now js, is_listed-due_ids j.id now js))
  | inr n ↦ rw n (due_ids-distinct now js (ground arith))
]

all_found-more :
    (ids : List Text) (j : CronJob) (js : List CronJob)
    → all_found ids js ≡ true
    → all_found ids (j ∷ js) ≡ true
all_found-more [] j js h = refl
all_found-more (i ∷ is) j js h = elim (Bool-cases (has_id i j)) [
  | inl y ↦ rw y (all_found-more is j js (ground arith))
  | inr n ↦ rw n (ground (arith, all_found-more is j js))
]

pub due_ids-found : (now : ℕ) (jobs : List CronJob) → all_found (due_ids now jobs) jobs ≡ true
due_ids-found now [] = refl
due_ids-found now (j ∷ js) = elim (Bool-cases (is_due now j)) [
  | inl y ↦ rw (y, text_eq_refl j.id) (all_found-more (due_ids now js) j js (due_ids-found now js))
  | inr n ↦ rw n (all_found-more (due_ids now js) j js (due_ids-found now js))
]

pub all_found-same :
    (ids : List Text) (js js' : List CronJob)
    → ((i : Text) → is_listed i ids ≡ true → is_found i js' ≡ is_found i js)
    → all_found ids js ≡ true
    → all_found ids js' ≡ true
all_found-same [] js js' same h = refl
all_found-same (i ∷ is) js js' same h =
    rw (same i (rw (text_eq_refl i) refl))
      (ground (arith, all_found-same is js js' (λ k l. same k (ground arith))))
