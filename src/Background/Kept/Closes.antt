-- ===== src/Background/Kept/Closes.antt =====
-- The shutdown of the thread pool keeps the invariant of agent/background.py.
use bauhinia_agent.Common.{ℕ, ◌≡◌, refl, List, [], ◌∷◌, map, All, nat_eq, string_eq, arith}
use bauhinia_agent.Background.{BackgroundJob, Manager, active, executing_jobs}
use bauhinia_agent.Background.Collect.{close}
use bauhinia_agent.Background.Invariant.{JobOk, job_ids, Inv}
use bauhinia_agent.Background.Collect.{drop_waiting}

job_ids-map : (js : List BackgroundJob) → job_ids (map drop_waiting js) ≡ job_ids js
job_ids-map [] = refl
job_ids-map (j ∷ js) = ground (arith, job_ids-map js)

active-map : (js : List BackgroundJob) → active (map drop_waiting js) ≡ active js
active-map [] = refl
active-map (j ∷ js) = ground (arith, active-map js)

executing_jobs-map :
    (js : List BackgroundJob) → executing_jobs (map drop_waiting js) ≡ executing_jobs js
executing_jobs-map [] = refl
executing_jobs-map (j ∷ js) = ground (arith, executing_jobs-map js)

drop-JobOk :
    (told : List ℕ) (m : Manager) (j : BackgroundJob)
    → JobOk told m j
    → JobOk told (close m) (drop_waiting j)
unfolding close
drop-JobOk told m j h = record {
  reported = ground (arith, h.reported);
  live_running = λ l. ground (arith, l, h.live_running);
  open_live = λ c. cc;
}

All-drop :
    (told : List ℕ) (m : Manager) (js : List BackgroundJob)
    → All (JobOk told m) js
    → All (JobOk told (close m)) (map drop_waiting js)
All-drop told m [] h = tt
All-drop told m (j ∷ js) h = (drop-JobOk told m j h.0, All-drop told m js h.1)

pub close-Inv : (told : List ℕ) (m : Manager) → Inv told m → Inv told (close m)
unfolding close
close-Inv told m i = record {
  jobs_ok = All-drop told m m.jobs i.jobs_ok;
  once = i.once;
  known = rw (job_ids-map m.jobs) i.known;
  distinct = rw (job_ids-map m.jobs) i.distinct;
  numbered = rw (job_ids-map m.jobs) i.numbered;
  active_capped = omega (arith, active-map m.jobs, i.active_capped);
  workers_capped = omega (arith, executing_jobs-map m.jobs, i.workers_capped);
}
