-- ===== src/Background/Kept/Starts.antt =====
-- A job that is added to the manager of agent/background.py keeps the invariant.
use bauhinia_agent.Common.{
  ℕ, ◌+◌, ◌≤◌, ◌<◌, ◌≡◌, refl, sym, ap, ◌∙◌, true, false, not, List, [], ◌∷◌, ◌++◌, elem,
  elem-append, All, All-map, All-append, All-elem, Unique-append, nat_eq, string_eq, nat_beq_iff,
  arith,
}
use bauhinia_agent.Background.{
  BackgroundJob, Manager, is_running, is_executing, active, executing_jobs,
}
use bauhinia_agent.Background.Invariant.{live, JobOk, job_ids, Inv}

-- A new job has a new number.
fresh-All :
    (n : ℕ) (ids xs : List ℕ)
    → All (λ id. id ≤ n) ids
    → All (λ id. elem id ids ≡ true) xs
    → elem (n + 1) xs ≡ false
fresh-All n ids [] bound h = refl
fresh-All n ids (x ∷ xs) bound h = ground (
  arith,
  nat_beq_iff x (n + 1),
  All-elem (λ id. id ≤ n) x ids bound h.0,
  fresh-All n ids xs bound h.1,
)

not_above : (n : ℕ) (ids : List ℕ) → All (λ id. id ≤ n) ids → elem (n + 1) ids ≡ false
not_above n [] h = refl
not_above n (x ∷ xs) h = ground (arith, nat_beq_iff x (n + 1), h.0, not_above n xs h.1)

job_ids-append : (js ks : List BackgroundJob) → job_ids (js ++ ks) ≡ job_ids js ++ job_ids ks
job_ids-append [] ks = refl
job_ids-append (j ∷ js) ks = ap (λ r. j.id ∷ r) (job_ids-append js ks)

active-snoc : (js : List BackgroundJob) (j : BackgroundJob) → active (js ++ j ∷ []) ≤ active js + 1
active-snoc [] j = ground arith
active-snoc (k ∷ js) j = ground (arith, active-snoc js j)

executing-snoc :
    (js : List BackgroundJob) (j : BackgroundJob)
    → is_executing j.future ≡ false
    → executing_jobs (js ++ j ∷ []) ≡ executing_jobs js
executing-snoc [] j h = ground arith
executing-snoc (k ∷ js) j h = ground (arith, executing-snoc js j h)

pub added-Inv :
    (told : List ℕ) (m : Manager) (j : BackgroundJob) (futures : List ℕ)
    → Inv told m
    → active m.jobs < m.max_jobs
    → j.id ≡ m.counter + 1
    → is_running j.status ≡ true
    → is_executing j.future ≡ false
    → (m.closed ≡ false → live j.future ≡ true)
    → Inv told (record m { counter = m.counter + 1; jobs = m.jobs ++ j ∷ []; futures = futures })
added-Inv told m j futures i below named r idle queued = record {
  jobs_ok =
      All-append (JobOk told _) m.jobs (j ∷ [])
        (All-map (JobOk told m) (JobOk told _) m.jobs
          (λ k h. record {
            reported = h.reported;
            live_running = h.live_running;
            open_live = h.open_live;
          })
          i.jobs_ok)
        (
          record {
            reported =
                ap (λ x. elem x (told ++ m.completed)) named
                ∙ fresh-All m.counter (job_ids m.jobs) (told ++ m.completed) i.numbered i.known
                ∙ ap not (sym r);
            live_running = λ _. r;
            open_live = λ c _. queued c;
          },
          tt,
        );
  once = i.once;
  known =
      All-map _ _ (told ++ m.completed)
        (λ x h.
          ap (elem x) (job_ids-append m.jobs (j ∷ []))
          ∙ elem-append x (job_ids m.jobs) (j.id ∷ [])
          ∙ ground (arith, h))
        i.known;
  distinct = rw (job_ids-append m.jobs (j ∷ [])) (
      Unique-append (job_ids m.jobs) (j.id ∷ []) i.distinct (refl, tt)
        (All-map _ _ (job_ids m.jobs) (λ x h. ground (arith, h, named, nat_beq_iff j.id x))
          i.numbered));
  numbered = rw (job_ids-append m.jobs (j ∷ [])) (
      All-append _ (job_ids m.jobs) (j.id ∷ [])
        (All-map _ _ (job_ids m.jobs) (λ x h. omega (arith, h)) i.numbered)
        (omega (arith, named), tt));
  active_capped = omega (arith, active-snoc m.jobs j, below);
  workers_capped = omega (arith, executing-snoc m.jobs j idle, i.workers_capped);
}
