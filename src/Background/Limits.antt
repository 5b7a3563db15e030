-- ===== src/Background/Limits.antt =====
-- What holds of the manager of agent/background.py whatever the threads do: its limits, that each job
-- is told of once, and that every job is told of in the end.
use mathlib.Core.Path.{subst}
use mathlib.Core.List.{append_assoc, append-nil}
use bauhinia_agent.Common.{
  ℕ, ◌≤◌, ◌≡◌, refl, sym, ap, ◌∙◌, not, List, [], ◌∷◌, ◌++◌, elem, All, All-map, Unique, nat_eq,
  string_eq, err, arith, ◌↔◌,
}
use bauhinia_agent.Background.Collect.{take_completed, tell_next, close}
use bauhinia_agent.Background.Invariant.{JobOk, Inv, new-Inv}
use bauhinia_agent.Background.{
  BackgroundNotification, Manager, is_running, new, active, executing_jobs, Request,
}
use bauhinia_agent.Background.Operations.{
  start, begin, finish, cancel_locked, record_cancellation, at_capacity,
}
use bauhinia_agent.Background.Collect.{take_completed, tell_next, close}
use bauhinia_agent.Background.Steps.{
  Move, starts, begins, finishes, cancels, records, gathers, tells, closes, step, run, told_ids,
}
use bauhinia_agent.Background.Invariant.{JobOk, Inv, new-Inv}
use bauhinia_agent.Background.Kept.{step-Inv}
use mathlib.Core.List.{append-nil}

told_ids-append :
    (xs ys : List BackgroundNotification) → told_ids (xs ++ ys) ≡ told_ids xs ++ told_ids ys
told_ids-append [] ys = refl
told_ids-append (x ∷ xs) ys = ap (λ r. x.job_id ∷ r) (told_ids-append xs ys)

pub run-Inv :
    (told : List ℕ) (m : Manager) (moves : List Move)
    → Inv (told ++ m.collecting) m
    → Inv ((told ++ told_ids (run m moves).0) ++ (run m moves).1.collecting) (run m moves).1
unfolding run
run-Inv told m [] i = subst (λ ids. Inv (ids ++ m.collecting) m) (sym (append-nil told)) i
run-Inv told m (move ∷ moves) i =
    let n = step m move in
    subst (λ ids. Inv (ids ++ (run n.1 moves).1.collecting) (run n.1 moves).1)
      (regroup n.0 (run n.1 moves).0)
      (run-Inv (told ++ told_ids n.0) n.1 moves (step-Inv told m move i))
  where
    regroup :
        (xs ys : List BackgroundNotification)
        → (told ++ told_ids xs) ++ told_ids ys ≡ told ++ told_ids (xs ++ ys)
    regroup xs ys =
        append_assoc told (told_ids xs) (told_ids ys)
        ∙ ap (λ r. told ++ r) (sym (told_ids-append xs ys))

-- The limits are never changed.
step_limits :
    (m : Manager) (move : Move)
    → ((step m move).1.max_jobs ≡ m.max_jobs) × ((step m move).1.max_workers ≡ m.max_workers)
unfolding start begin finish cancel_locked record_cancellation take_completed tell_next close
step_limits m (starts r now) = ground arith
step_limits m begins = ground arith
step_limits m (finishes id outcome) = ground arith
step_limits m (cancels id session) = ground arith
step_limits m (records id outcome) = (refl, refl)
step_limits m (gathers session) = (refl, refl)
step_limits m (tells callback) = ground arith
step_limits m closes = (refl, refl)

pub run_limits :
    (m : Manager) (moves : List Move)
    → ((run m moves).1.max_jobs ≡ m.max_jobs) × ((run m moves).1.max_workers ≡ m.max_workers)
unfolding run
run_limits m [] = (refl, refl)
run_limits m (move ∷ moves) =
    let (a, b) = run_limits (step m move).1 moves in
    let (c, d) = step_limits m move in (a ∙ c, b ∙ d)

-- Whatever the threads do, never more than `max_jobs` jobs are running and never more than
-- `max_workers` of them are executed at a time; and a start is refused for the capacity exactly if
-- `max_jobs` jobs are running.
pub background_limits :
    (max_jobs max_workers : ℕ) (moves : List Move) (r : Request) (now : ℕ)
    → let m = (run (new max_jobs max_workers) moves).1 in
      (active m.jobs ≤ max_jobs)
      × (executing_jobs m.jobs ≤ max_workers)
      × (((start r now m).0 ≡ err (at_capacity max_jobs)) ↔ (active m.jobs ≡ max_jobs))
unfolding start
background_limits max_jobs max_workers moves r now =
    let m = (run (new max_jobs max_workers) moves).1 in
    let i = run-Inv [] (new max_jobs max_workers) moves (new-Inv max_jobs max_workers) in
    let limits = run_limits (new max_jobs max_workers) moves in
    (
      omega (arith, i.active_capped, limits.0),
      omega (arith, i.workers_capped, limits.1),
      (
        (λ refused. ground (arith, refused, i.active_capped, limits.0)),
        (λ full. ground (arith, full, limits.0)),
      ),
    )

-- Whatever the threads do, where collections run one after the other, no job is in two notifications,
-- and a job is running exactly if there is no notification of it yet, no collection has taken it to
-- tell of it, and it is not queued for one.
pub reported_once :
    (max_jobs max_workers : ℕ) (moves : List Move)
    → let (told, m) = run (new max_jobs max_workers) moves in
      Unique ((told_ids told ++ m.collecting) ++ m.completed)
      × All
          (λ j.
            elem j.id ((told_ids told ++ m.collecting) ++ m.completed) ≡ not (is_running j.status))
          m.jobs
reported_once max_jobs max_workers moves =
    let i = run-Inv [] (new max_jobs max_workers) moves (new-Inv max_jobs max_workers) in
    (i.once, All-map (JobOk _ _) _ _ (λ j h. h.reported) i.jobs_ok)
