-- ===== src/Background/Delivery.antt =====
-- The end of the jobs of agent/background.py, if the threads of the pool go on: each is told of.
pub mod Progress
use bauhinia_agent.Common.{
  ◌*◌, ℕ, zero, suc, ◌+◌, ◌≤◌, ◌<◌, ◌≡◌, refl, sym, ap, ◌∙◌, String, Bool, true, false, not, ◌&&◌,
  ◌||◌, Option, none, some, List, [], ◌∷◌, ◌++◌, map, filter, any, length, elem, elem-append,
  elem-filter, All, All-map, All-append, All-filter, All-and, All-elem, Unique, Unique-append,
  Unique-filter, nat_eq, string_eq, ◌==◌, beq_refl, nat_beq_iff, leb, ltb, if◌then◌else◌, Result,
  ok, err, arith, ◌⊎◌, ◌*◌, ◌↔◌, Bool-cases, Option-cases, inl, inr,
}
use mathlib.Core.Path.{subst}
use mathlib.Core.List.{append_assoc, append-nil}
use bauhinia_agent.Background.Collect.{
  Callbacks, finalize, deliver, wanted, collect_completed, chosen, close,
}
use bauhinia_agent.Background.Invariant.{
  live, JobOk, job_ids, Inv, new-Inv, KeepsId, job_ids-change, All-change, find-All, found-All,
  IsQuiet, active-change, executing_jobs-change, find-elem, elem-find,
}
use bauhinia_agent.Background.{
  ToolResult, Status, running, completed, failed, cancelled, Future, unsubmitted, waiting,
  executing, withdrawn, done, BackgroundJob, BackgroundNotification, Manager, is_running,
  is_cancelled, is_completed, is_waiting, is_executing, new, find, change, remove, in_session,
  active, executing_jobs, Request,
}
use bauhinia_agent.Background.Operations.{
  Cancelled, missing, settled, asked, prevented, start, new_job, begin, begin_first, finish, ended,
  end_status, cancel_locked, prevent, ask, recorded, record_cancellation, at_capacity,
}
use bauhinia_agent.Background.Steps.{
  or_same, Move, starts, begins, finishes, cancels, records, gathers, tells, closes, step, run,
  told_ids,
}
use bauhinia_agent.Background.Kept.{begin-Inv, finish-Inv}
use bauhinia_agent.Background.Limits.{run-Inv, run_limits}
use bauhinia_agent.Background.Kept.Collects.{told_ids-collect_completed}
use bauhinia_agent.Background.Kept.Begins.{begin_first-Begun}
use Progress.{
  Works, rest, takes, ends, Same, work, less_of_Works, moves_of_Works, Same-of_Works, progress,
  work_bound, none_active,
}

-- Everything that is queued is collected where no session is asked for.
collect_all :
    (jobs : List BackgroundJob) (ids : List ℕ)
    → All (λ id. elem id (job_ids jobs) ≡ true) ids
    → filter (wanted none jobs) ids ≡ ids
collect_all jobs [] h = refl
collect_all jobs (id ∷ ids) h =
    let (j, found) = elem-find id jobs h.0 in
    rw (wanted, found) (ap (λ r. id ∷ r) (collect_all jobs ids h.1))

All-right : (P : ℕ → Type 0) (xs ys : List ℕ) → All P (xs ++ ys) → All P ys
All-right P [] ys h = h
All-right P (x ∷ xs) ys h = All-right P xs ys h.1

-- When nothing runs, the next collection tells of every job that was not told of before.
all_told :
    (told : List ℕ) (m : Manager) (callback : Callbacks)
    → Inv told m
    → active m.jobs ≡ 0
    → All
        (λ id. elem id (told ++ told_ids (collect_completed none callback m).0) ≡ true)
        (job_ids m.jobs)
all_told told m callback i quiet =
    rw
      (
        told_ids-collect_completed told m none callback i,
        collect_all m.jobs m.completed
            (All-right (λ id. elem id (job_ids m.jobs) ≡ true) told m.completed i.known),
      )
      (All-ids m.jobs i.jobs_ok (none_active m.jobs quiet))
  where
    All-ids :
        (js : List BackgroundJob)
        → All (JobOk told m) js
        → All (λ j. is_running j.status ≡ false) js
        → All (λ id. elem id (told ++ m.completed) ≡ true) (job_ids js)
    All-ids [] h k = tt
    All-ids (j ∷ js) h k = (h.0.reported ∙ ap not (k.0), All-ids js h.1 k.1)

limit_of_Works :
    (m : Manager) (count : ℕ) (n : Manager) → Works m count n → n.max_workers ≡ m.max_workers
limit_of_Works m count n w =
    let (more, ran) = moves_of_Works m count n w in
    ap (λ (r : List BackgroundNotification × Manager). r.1.max_workers) (sym ran)
    ∙ (run_limits m more).1

-- The pool keeps the invariant.
Works-Inv :
    (told : List ℕ) (m : Manager) (count : ℕ) (n : Manager)
    → Inv told m
    → Works m count n
    → Inv told n
Works-Inv told m _ _ i rest = i
Works-Inv told m _ n i (takes {n = k} {count = c} h w) =
    Works-Inv told k c n (subst (λ o. Inv told (or_same m o)) h (begin-Inv told m i)) w
Works-Inv told m _ n i (ends {n = k} {count = c} id outcome h w) =
    Works-Inv told k c n (subst (λ o. Inv told (or_same m o)) h (finish-Inv told m id outcome i)) w

-- Let the pool of an open manager, whatever was done before, have a thread. It then makes at most
-- two moves for each of `max_jobs` jobs by itself, in any order. As long as it has not come to an
-- end it can make one more, and at the end a collection for all sessions tells of every job that no
-- notification has told of before and that no collection under way has taken to tell of.
pub every_job_told :
    (max_jobs max_workers : ℕ) (moves : List Move) (callback : Callbacks) (count : ℕ) (n : Manager)
    → 0 < max_workers
    → (run (new max_jobs max_workers) moves).1.closed ≡ false
    → Works (run (new max_jobs max_workers) moves).1 count n
    → let (told, m) = run (new max_jobs max_workers) moves in
      (count ≤ 2 * max_jobs)
      × (((k : Manager) × Works n 1 k)
          ⊎ All
              (λ id.
                elem id (
                  (told_ids told ++ m.collecting) ++ told_ids (collect_completed none callback n).0)
                ≡ true)
              (job_ids m.jobs))
every_job_told max_jobs max_workers moves callback count n threads pool_open w =
    let (told, m) = run (new max_jobs max_workers) moves in
    let limits = run_limits (new max_jobs max_workers) moves in
    let i = run-Inv [] (new max_jobs max_workers) moves (new-Inv max_jobs max_workers) in
    let same = Same-of_Works m count n w in
    let after_works = Works-Inv (told_ids told ++ m.collecting) m count n i w in
    let kept : n.max_workers ≡ max_workers = limit_of_Works m count n w ∙ limits.1 in
    (
      omega (
        arith,
        less_of_Works m count n w,
        work_bound (told_ids told ++ m.collecting) m m.jobs i.jobs_ok,
        i.active_capped,
        limits.0,
      ),
      elim (Bool-cases (active n.jobs == 0)) [
        | inl quiet ↦ inr (
            rw (sym same.same_jobs) (
              all_told (told_ids told ++ m.collecting) n callback after_works
                ((nat_beq_iff (active n.jobs) 0).0 quiet)))
        | inr busy ↦ inl (
            progress (told_ids told ++ m.collecting) n after_works (same.same_closed ∙ pool_open)
              (omega (arith, kept, threads)) (ground (arith, busy)))
      ],
    )
