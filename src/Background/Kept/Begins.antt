-- ===== src/Background/Kept/Begins.antt =====
-- A thread of the pool that takes a job of agent/background.py keeps the invariant.
use mathlib.Core.Path.{subst}
use bauhinia_agent.Common.{
  ℕ, ◌+◌, ◌<◌, ◌≡◌, refl, sym, ap, true, Option, none, some, List, [], ◌∷◌, All, All-map, nat_eq,
  string_eq, arith, Bool-cases, inl, inr,
}
use bauhinia_agent.Background.{
  Future, unsubmitted, waiting, executing, withdrawn, done, BackgroundJob, Manager, is_waiting,
  active, executing_jobs,
}
use bauhinia_agent.Background.Operations.{begin_first}
use bauhinia_agent.Background.Invariant.{live, JobOk, job_ids, Inv}

-- What `begin_first` makes of the jobs: the same ones, of which one more is executing.
pub record Begun (js ks : List BackgroundJob) : Type 0 where
  pub same_ids : job_ids ks ≡ job_ids js
  pub same_active : active ks ≡ active js
  pub one_more : executing_jobs ks ≡ executing_jobs js + 1

pub begin_first-Begun : (js ks : List BackgroundJob) → begin_first js ≡ some ks → Begun js ks
begin_first-Begun [] ks h = cc
begin_first-Begun (j ∷ js) ks h = elim (Bool-cases (is_waiting j.future)) [
  | inl w ↦
      let e : (record j { future = executing } ∷ js) ≡ ks = cc (rw w at h) in
      rw (sym e) (record { same_ids = refl; same_active = refl; one_more = ground (arith, w) })
  | inr w ↦ rest (begin_first js) refl (rw w at h) (begin_first-Begun js)
]
  where
    rest :
        (o : Option (List BackgroundJob))
        → begin_first js ≡ o
        → ◌≡◌ {A = Option (List BackgroundJob)}
            (elim o [ none ↦ none | some xs ↦ some (j ∷ xs) ])
            (some ks)
        → ((xs : List BackgroundJob) → begin_first js ≡ some xs → Begun js xs)
        → Begun (j ∷ js) ks
    rest none e g ih = cc
    rest (some xs) e g ih =
        let b = ih xs e in
        let eq : (j ∷ xs) ≡ ks = cc g in
        rw (sym eq) (record {
          same_ids = ap (λ r. j.id ∷ r) b.same_ids;
          same_active = ground (arith, b.same_active);
          one_more = ground (arith, b.one_more);
        })

begin_first-All {κ} :
    (P : BackgroundJob → Type κ) (js ks : List BackgroundJob)
    → begin_first js ≡ some ks
    → ((j : BackgroundJob) → is_waiting j.future ≡ true → P j → P (record j { future = executing }))
    → All P js
    → All P ks
begin_first-All P [] ks h f a = cc
begin_first-All P (j ∷ js) ks h f a = elim (Bool-cases (is_waiting j.future)) [
  | inl w ↦
      let e : (record j { future = executing } ∷ js) ≡ ks = cc (rw w at h) in
      subst (All P) e (f j w a.0, a.1)
  | inr w ↦ rest (begin_first js) refl (rw w at h) (λ xs e. begin_first-All P js xs e f a.1)
]
  where
    rest :
        (o : Option (List BackgroundJob))
        → begin_first js ≡ o
        → ◌≡◌ {A = Option (List BackgroundJob)}
            (elim o [ none ↦ none | some xs ↦ some (j ∷ xs) ])
            (some ks)
        → ((xs : List BackgroundJob) → begin_first js ≡ some xs → All P xs)
        → All P ks
    rest none e g ih = cc
    rest (some xs) e g ih = let eq : (j ∷ xs) ≡ ks = cc g in subst (All P) eq (a.0, ih xs e)

waiting_live : (u : Future) → is_waiting u ≡ true → live u ≡ true
waiting_live waiting h = refl
waiting_live unsubmitted h = cc
waiting_live executing h = cc
waiting_live withdrawn h = cc
waiting_live done h = cc

pub begun-Inv :
    (told : List ℕ) (m : Manager) (ks : List BackgroundJob)
    → Inv told m
    → begin_first m.jobs ≡ some ks
    → executing_jobs m.jobs < m.max_workers
    → Inv told (record m { jobs = ks })
begun-Inv told m ks i e free =
    let b = begin_first-Begun m.jobs ks e in
    record {
      jobs_ok =
          begin_first-All (JobOk told _) m.jobs ks e
            (λ j w h. record {
              reported = h.reported;
              live_running = λ _. h.live_running (waiting_live j.future w);
              open_live = λ _ _. refl;
            })
            (All-map (JobOk told m) (JobOk told _) m.jobs
              (λ j h. record {
                reported = h.reported;
                live_running = h.live_running;
                open_live = h.open_live;
              })
              i.jobs_ok);
      once = i.once;
      known = rw (b.same_ids) i.known;
      distinct = rw (b.same_ids) i.distinct;
      numbered = rw (b.same_ids) i.numbered;
      active_capped = omega (arith, b.same_active, i.active_capped);
      workers_capped = omega (arith, b.one_more, free);
    }
