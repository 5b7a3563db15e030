-- ===== src/Background/Cancelling.antt =====
-- The cancellation of a job of agent/background.py is final.
pub mod Finds
use bauhinia_agent.Background.Cancelling.Finds.{Keeps}
use mathlib.Core.Path.{subst}
use mathlib.Core.List.{append_assoc, append-nil}
use bauhinia_agent.Common.{
  ℕ, zero, suc, ◌+◌, ◌≤◌, ◌<◌, ◌≡◌, refl, sym, ap, ◌∙◌, String, Bool, true, false, not, ◌&&◌, ◌||◌,
  Option, none, some, List, [], ◌∷◌, ◌++◌, map, filter, any, length, elem, elem-append, elem-filter,
  All, All-map, All-append, All-filter, All-and, All-elem, Unique, Unique-append, Unique-filter,
  nat_eq, string_eq, ◌==◌, beq_refl, nat_beq_iff, leb, ltb, if◌then◌else◌, Result, ok, err, arith,
  ◌⊎◌, ◌↔◌, Bool-cases, Option-cases, inl, inr,
}
use bauhinia_agent.Background.Collect.{
  drop_waiting, Callbacks, finalize, deliver, take_completed, tell_next, close,
}
use bauhinia_agent.Background.Invariant.{
  live, JobOk, job_ids, Inv, new-Inv, KeepsId, job_ids-change, All-change, find-All, found-All,
  IsQuiet, active-change, executing_jobs-change, find-elem, elem-find,
}
use bauhinia_agent.Background.{
  ToolResult, Status, running, completed, failed, cancelled, Future, unsubmitted, waiting,
  executing, withdrawn, done, BackgroundJob, BackgroundNotification, Manager, is_running,
  is_cancelled, is_completed, is_waiting, is_executing, new, find, change, remove, in_session,
  active, executing_jobs, Request,
}
use bauhinia_agent.Background.Operations.{
  Cancelled, missing, settled, asked, prevented, start, new_job, begin, begin_first, finish, ended,
  end_status, cancel_locked, prevent, ask, recorded, record_cancellation, at_capacity, pool_closed,
  StartError, cancellable,
}
use bauhinia_agent.Background.Steps.{
  Move, starts, begins, finishes, cancels, records, gathers, tells, closes, step, run, told_ids,
  after_cancel, or_same,
}
use bauhinia_agent.Background.Kept.{step-Inv}
use Finds.{
  IsStopping, HasStopping, find-change, find-append, find-begin_first, find-drop_waiting,
  ended-Keeps, recorded-Keeps, deliver-stopping,
}

begin-stopping :
    (id : ℕ) (m : Manager) → HasStopping id m.jobs → HasStopping id (or_same m (begin m)).jobs
unfolding begin
begin-stopping id m h = elim (Bool-cases (ltb (executing_jobs m.jobs) m.max_workers)) [
  | inl free ↦ rw free (go (begin_first m.jobs) refl)
  | inr busy ↦ rw busy h
]
  where
    go :
        (o : Option (List BackgroundJob))
        → begin_first m.jobs ≡ o
        → HasStopping id
            (or_same m (elim o [ none ↦ none | some js ↦ some (record m { jobs = js }) ])).jobs
    go none e = h
    go (some js) e = find-begin_first id m.jobs js e h

finish-stopping :
    (id i : ℕ) (outcome : Result String ToolResult) (m : Manager)
    → HasStopping id m.jobs
    → HasStopping id (or_same m (finish i outcome m)).jobs
unfolding finish
finish-stopping id i outcome m h = elim (Option-cases (find i m.jobs)) [
  | inl missed ↦ rw (missed, finish) h
  | inr (j, found) ↦ elim (Bool-cases (is_executing j.future)) [
    | inl busy ↦
        rw (found, finish, busy) (find-change id i (ended outcome) m.jobs (ended-Keeps outcome) h)
    | inr idle ↦ rw (found, finish, idle) h
  ]
]

prevent-Keeps : Keeps prevent
prevent-Keeps j = (refl, (λ s. inl refl))

ask-Keeps : Keeps ask
ask-Keeps j = (refl, λ s. ground (arith, s))

cancel-stopping :
    (id i : ℕ) (session : Option String) (m : Manager)
    → HasStopping id m.jobs
    → HasStopping id (after_cancel m (cancel_locked i session m)).jobs
unfolding cancel_locked
cancel-stopping id i session m h = elim (Option-cases (find i m.jobs)) [
  | inl missed ↦ rw (missed, cancel_locked) h
  | inr (j, found) ↦ elim (Bool-cases (in_session session j.session_id)) [
    | inr other ↦ rw (found, cancel_locked, other) h
    | inl mine ↦ elim (Bool-cases (is_running j.status)) [
      | inr over ↦ rw (found, cancel_locked, mine, over) h
      | inl on ↦ elim (Bool-cases (elem i m.futures && cancellable j.future)) [
        | inl can ↦
            rw (found, cancel_locked, mine, on, can)
              (find-change id i prevent m.jobs prevent-Keeps h)
        | inr late ↦
            rw (found, cancel_locked, mine, on, late) (find-change id i ask m.jobs ask-Keeps h)
      ]
    ]
  ]
]

step-stopping :
    (id : ℕ) (m : Manager) (move : Move)
    → HasStopping id m.jobs
    → HasStopping id (step m move).1.jobs
unfolding start record_cancellation take_completed tell_next close
step-stopping id m (starts r now) h = go (leb m.max_jobs (active m.jobs)) m.closed
  where
    go :
        (full shut : Bool)
        → let started : Result StartError BackgroundJob × Manager =
            if full
            then (err (at_capacity m.max_jobs), m)
            else if shut
            then (
              err pool_closed,
              record m {
                counter = m.counter + 1;
                jobs = m.jobs ++ new_job r (m.counter + 1) now unsubmitted ∷ [];
              },
            )
            else (
              ok (new_job r (m.counter + 1) now waiting),
              record m {
                counter = m.counter + 1;
                jobs = m.jobs ++ new_job r (m.counter + 1) now waiting ∷ [];
                futures = m.futures ++ (m.counter + 1) ∷ [];
              },
            ) in
          HasStopping id started.1.jobs
    go true shut = h
    go false true = find-append id m.jobs _ h
    go false false = find-append id m.jobs _ h
step-stopping id m begins h = begin-stopping id m h
step-stopping id m (finishes i outcome) h = finish-stopping id i outcome m h
step-stopping id m (cancels i session) h = cancel-stopping id i session m h
step-stopping id m (records i outcome) h = find-change id i _ m.jobs (recorded-Keeps outcome) h
step-stopping id m (gathers session) h = h
step-stopping id m (tells callback) h = go m.collecting
  where
    go :
        (ids : List ℕ)
        → let out : List BackgroundNotification × Manager = elim ids [
          | [] ↦ ([], m)
          | i ∷ is ↦
              let (notifications, jobs) = deliver callback (i ∷ []) m.jobs in
              (notifications, record m { jobs = jobs; collecting = is })
        ] in
          HasStopping id out.1.jobs
    go [] = h
    go (i ∷ is) = deliver-stopping id callback (i ∷ []) m.jobs h
step-stopping id m closes h = find-drop_waiting id m.jobs h

run-stopping :
    (id : ℕ) (m : Manager) (moves : List Move)
    → HasStopping id m.jobs
    → HasStopping id (run m moves).1.jobs
unfolding run
run-stopping id m [] h = h
run-stopping id m (move ∷ moves) h =
    run-stopping id (step m move).1 moves (step-stopping id m move h)

pub change_found :
    (id : ℕ) (f : BackgroundJob → BackgroundJob) (js : List BackgroundJob) {j : BackgroundJob}
    → find id js ≡ some j
    → (f j).id ≡ j.id
    → find id (change id f js) ≡ some (f j)
change_found id f [] e k = cc
change_found id f (x ∷ xs) {j} e k = elim (Bool-cases (x.id == id)) [
  | inl here ↦
      let same : x ≡ j = cc (rw here at e) in
      let named : ((f x).id == id) ≡ true =
        ap (λ i. i == id)
          (ap (λ (y : BackgroundJob). (f y).id) same
            ∙ k
            ∙ ap (λ (y : BackgroundJob). y.id) (sym same))
        ∙ here in
      rw (here, named) (ap (λ (y : BackgroundJob). some (f y)) same)
  | inr there ↦ rw (there, there) (change_found id f xs (rw there at e) k)
]

-- Once a running job is cancelled from its session, or with no session named, it never completes or
-- fails: whatever the threads do after that, it is cancelled, or still running and asked to stop.
pub cancel_is_final :
    (m : Manager) (id : ℕ) (session : Option String) (moves : List Move) (j : BackgroundJob)
    → find id m.jobs ≡ some j
    → in_session session j.session_id ≡ true
    → j.status ≡ running
    → HasStopping id (run (after_cancel m (cancel_locked id session m)) moves).1.jobs
unfolding cancel_locked
cancel_is_final m id session moves j found mine on =
    run-stopping id (after_cancel m (cancel_locked id session m)) moves
      (elim (Bool-cases (elem id m.futures && cancellable j.future)) [
        | inl can ↦
            rw (found, cancel_locked, mine, on, can)
              (prevent j, change_found id prevent m.jobs found refl, inl refl)
        | inr late ↦
            rw (found, cancel_locked, mine, on, late)
              (ask j, change_found id ask m.jobs found refl, inr (on, refl))
      ])
