-- ===== src/Background/Kept/Changes.antt =====
-- Small changes of a job of agent/background.py keep the invariant.
use bauhinia_agent.Common.{ℕ, ◌≡◌, sym, ap, ◌∙◌, not, List, ◌++◌, elem, nat_eq, string_eq, arith}
use bauhinia_agent.Background.{BackgroundJob, Manager, is_running, is_executing, change}
use bauhinia_agent.Background.Invariant.{
  live, JobOk, Inv, job_ids-change, All-change, IsQuiet, active-change, executing_jobs-change,
}

-- A change that neither starts, ends nor moves a job.
abbrev pub IsMild : (BackgroundJob → BackgroundJob) → Type 0
IsMild f =
    (j : BackgroundJob)
    → ((f j).id ≡ j.id)
      × (is_running (f j).status ≡ is_running j.status)
      × ((f j).future ≡ j.future)

pub change-Inv :
    (told : List ℕ) (m : Manager) (id : ℕ) (f : BackgroundJob → BackgroundJob)
    → Inv told m
    → IsMild f
    → Inv told (record m { jobs = change id f m.jobs })
change-Inv told m id f i mild = record {
  jobs_ok =
      All-change (JobOk told m) (JobOk told _) id f m.jobs (λ j _ h. same_ok j h)
        (λ j _ h. keep j h) i.jobs_ok;
  once = i.once;
  known = rw (job_ids-change id f m.jobs (λ j. (mild j).0)) i.known;
  distinct = rw (job_ids-change id f m.jobs (λ j. (mild j).0)) i.distinct;
  numbered = rw (job_ids-change id f m.jobs (λ j. (mild j).0)) i.numbered;
  active_capped = omega (arith, active-change id f m.jobs quiet, i.active_capped);
  workers_capped = omega (arith, executing_jobs-change id f m.jobs quiet, i.workers_capped);
}
  where
    quiet : IsQuiet f
    quiet j = ((λ r. sym (mild j).1 ∙ r), (λ e. ap is_executing (sym (mild j).2) ∙ e))

    keep :
        (j : BackgroundJob) → JobOk told m j → JobOk told (record m { jobs = change id f m.jobs }) j
    keep j h = record {
      reported = h.reported;
      live_running = h.live_running;
      open_live = h.open_live;
    }

    same_ok :
        (j : BackgroundJob)
        → JobOk told m j
        → JobOk told (record m { jobs = change id f m.jobs }) (f j)
    same_ok j h = record {
      reported =
          ap (λ x. elem x (told ++ m.completed)) (mild j).0 ∙ h.reported ∙ ap not (sym (mild j).1);
      live_running = λ l. (mild j).1 ∙ h.live_running (ap live (sym (mild j).2) ∙ l);
      open_live = λ c r. ap live (mild j).2 ∙ h.open_live c (sym (mild j).1 ∙ r);
    }
