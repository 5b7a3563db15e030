-- ===== src/Background/Kept.antt =====
-- Every move of the threads keeps the invariant of agent/background.py.
mod Ends
mod Closes
mod Changes
mod Starts
pub mod Begins
pub mod Collects
use bauhinia_agent.Background.{
  ToolResult, Status, running, completed, failed, cancelled, Future, unsubmitted, waiting,
  executing, withdrawn, done, BackgroundJob, BackgroundNotification, Manager, is_running,
  is_cancelled, is_completed, is_waiting, is_executing, new, find, change, remove, in_session,
  active, executing_jobs, Request,
}
use bauhinia_agent.Background.Operations.{
  StartError, pool_closed, at_capacity, cancellable, Cancelled, missing, settled, asked, prevented,
  start, new_job, begin, begin_first, finish, ended, end_status, cancel_locked, prevent, ask,
  recorded, record_cancellation,
}
use bauhinia_agent.Background.Steps.{
  after_cancel, or_same, Move, starts, begins, finishes, cancels, records, gathers, tells, closes,
  step, run, told_ids,
}
use mathlib.Core.Path.{subst}
use mathlib.Core.List.{append_assoc, append-nil}
use bauhinia_agent.Common.{
  ℕ, zero, suc, ◌+◌, ◌≤◌, ◌<◌, ◌≡◌, refl, sym, ap, ◌∙◌, String, Bool, true, false, not, ◌&&◌, ◌||◌,
  Option, none, some, List, [], ◌∷◌, ◌++◌, map, filter, any, length, elem, elem-append, elem-filter,
  All, All-map, All-append, All-filter, All-and, All-elem, Unique, Unique-append, Unique-filter,
  nat_eq, string_eq, ◌==◌, beq_refl, nat_beq_iff, leb, ltb, if◌then◌else◌, Result, ok, err, arith,
  Bool-cases, Option-cases, inl, inr,
}
use bauhinia_agent.Background.Collect.{Callbacks, finalize, deliver, wanted, close}
use bauhinia_agent.Background.Invariant.{
  live, JobOk, job_ids, Inv, new-Inv, KeepsId, job_ids-change, All-change, find-All, found-All,
  IsQuiet, active-change, executing_jobs-change, find-elem, elem-find,
}
use Closes.{close-Inv}
use Ends.{settle-Inv}
use Changes.{change-Inv}
use Starts.{added-Inv}
use Begins.{begun-Inv}
use Collects.{take-Inv, tell-Inv}

start-Inv :
    (told : List ℕ) (m : Manager) (r : Request) (now : ℕ) → Inv told m → Inv told (start r now m).1
unfolding start
start-Inv told m r now i = go (leb m.max_jobs (active m.jobs)) m.closed refl refl
  where
    job : Future → BackgroundJob
    job future = new_job r (m.counter + 1) now future

    lost : Manager
    lost = record m { counter = m.counter + 1; jobs = m.jobs ++ job unsubmitted ∷ [] }

    kept : Manager
    kept = record m {
      counter = m.counter + 1;
      jobs = m.jobs ++ job waiting ∷ [];
      futures = m.futures ++ (m.counter + 1) ∷ [];
    }

    go :
        (full shut : Bool)
        → leb m.max_jobs (active m.jobs) ≡ full
        → m.closed ≡ shut
        → let started : Result StartError BackgroundJob × Manager =
            if full
            then (err (at_capacity m.max_jobs), m)
            else if shut
            then (err pool_closed, lost)
            else (ok (job waiting), kept) in
          Inv told started.1
    go true shut f c = i
    go false true f c =
        added-Inv told m (job unsubmitted) m.futures i (ground (arith, f)) refl refl refl (λ e. cc)
    go false false f c =
        added-Inv told m (job waiting) (m.futures ++ (m.counter + 1) ∷ []) i (ground (arith, f))
          refl refl refl (λ e. refl)

pub begin-Inv : (told : List ℕ) (m : Manager) → Inv told m → Inv told (or_same m (begin m))
unfolding begin
begin-Inv told m i = elim (Bool-cases (ltb (executing_jobs m.jobs) m.max_workers)) [
  | inl free ↦ rw free (go (begin_first m.jobs) refl (ground (arith, free)))
  | inr busy ↦ rw busy i
]
  where
    go :
        (o : Option (List BackgroundJob))
        → begin_first m.jobs ≡ o
        → executing_jobs m.jobs < m.max_workers
        → Inv told (or_same m (elim o [ none ↦ none | some js ↦ some (record m { jobs = js }) ]))
    go none e f = i
    go (some js) e f = begun-Inv told m js i e f

ended_stops :
    (asked : Bool) (outcome : Result String ToolResult)
    → is_running (end_status asked outcome) ≡ false
ended_stops true outcome = refl
ended_stops false (err e) = refl
ended_stops false (ok r) = ground arith

ended-id : (outcome : Result String ToolResult) (j : BackgroundJob) → (ended outcome j).id ≡ j.id
ended-id outcome j = ground arith

executing_live : (u : Future) → is_executing u ≡ true → live u ≡ true
executing_live executing h = refl
executing_live unsubmitted h = cc
executing_live waiting h = cc
executing_live withdrawn h = cc
executing_live done h = cc

not_cancelled : (s : Status) → is_running s ≡ true → is_cancelled s ≡ false
not_cancelled running h = refl
not_cancelled completed h = cc
not_cancelled failed h = cc
not_cancelled cancelled h = cc

ended_stopped :
    (outcome : Result String ToolResult) (j : BackgroundJob)
    → is_running j.status ≡ true
    → is_running (ended outcome j).status ≡ false
ended_stopped outcome j h = rw (not_cancelled j.status h) (ended_stops j.cancel_requested outcome)

ended_dead :
    (outcome : Result String ToolResult) (j : BackgroundJob) → live (ended outcome j).future ≡ false
ended_dead outcome j = ground arith

pub finish-Inv :
    (told : List ℕ) (m : Manager) (id : ℕ) (outcome : Result String ToolResult)
    → Inv told m
    → Inv told (or_same m (finish id outcome m))
unfolding finish
finish-Inv told m id outcome i = go (find id m.jobs) refl
  where
    quiet : IsQuiet (ended outcome)
    quiet j = elim (Bool-cases (is_cancelled j.status)) [
      | inl c ↦ rw c ((λ r. r), (λ e. cc))
      | inr c ↦
          rw c
            ((λ r. absurd (ground (arith, r, ended_stops j.cancel_requested outcome))), (λ e. cc))
    ]

    go :
        (o : Option BackgroundJob)
        → find id m.jobs ≡ o
        → Inv told (
            or_same m (elim o [
              | none ↦ none
              | some j ↦
                  if is_executing j.future
                  then some (record m {
                    jobs = change id (ended outcome) m.jobs;
                    futures = remove id m.futures;
                    completed =
                        if is_cancelled j.status then m.completed else m.completed ++ id ∷ [];
                  })
                  else none
            ]))
    go none e = i
    go (some j) e = elim (Bool-cases (is_executing j.future)) [
      | inr idle ↦ rw idle i
      | inl busy ↦
          let alive =
            (find-All (JobOk told m) id m.jobs e i.jobs_ok).1.live_running
              (executing_live j.future busy) in
          rw (busy, not_cancelled j.status alive)
            (settle-Inv told m id (ended outcome) (remove id m.futures) j i e alive
              (λ k. ended-id outcome k) quiet (ended_stopped outcome j alive)
              (ended_dead outcome j))
    ]

cancel-Inv :
    (told : List ℕ) (m : Manager) (id : ℕ) (session : Option String)
    → Inv told m
    → Inv told (after_cancel m (cancel_locked id session m))
unfolding cancel_locked
cancel-Inv told m id session i = go (find id m.jobs) refl
  where
    go :
        (o : Option BackgroundJob)
        → find id m.jobs ≡ o
        → Inv told (
            after_cancel m (elim o [
              | none ↦ missing
              | some j ↦
                  if not (in_session session j.session_id)
                  then missing
                  else if not (is_running j.status)
                  then settled j
                  else if elem id m.futures && cancellable j.future
                  then prevented (prevent j) (record m {
                    jobs = change id prevent m.jobs;
                    futures = remove id m.futures;
                    completed = m.completed ++ id ∷ [];
                  })
                  else asked (ask j) (record m { jobs = change id ask m.jobs })
            ]))
    go none e = i
    go (some j) e = elim (Bool-cases (in_session session j.session_id)) [
      | inr other ↦ rw other i
      | inl mine ↦ rw mine (elim (Bool-cases (is_running j.status)) [
        | inr over ↦ rw over i
        | inl on ↦ rw on (elim (Bool-cases (elem id m.futures && cancellable j.future)) [
          | inl can ↦ rw can (
              settle-Inv told m id prevent (remove id m.futures) j i e on (λ k. refl)
                (λ k. ((λ r. cc), (λ x. cc))) refl refl)
          | inr late ↦ rw late (change-Inv told m id ask i (λ k. (refl, refl, refl)))
        ])
      ])
    ]

record-Inv :
    (told : List ℕ) (m : Manager) (id : ℕ) (outcome : Result String (Unit {0}))
    → Inv told m
    → Inv told (record_cancellation id outcome m)
unfolding record_cancellation
record-Inv told m id (ok u) i = change-Inv told m id _ i (λ j. ground arith)
record-Inv told m id (err e) i = change-Inv told m id _ i (λ j. ground arith)

-- A move that collects nothing.
unchanged-Inv :
    (told : List ℕ) (m n : Manager)
    → n.collecting ≡ m.collecting
    → Inv (told ++ m.collecting) n
    → Inv ((told ++ []) ++ n.collecting) n
unchanged-Inv told m n same i =
    subst (λ ids. Inv ids n)
      (ap (λ c. told ++ c) (sym same) ∙ ap (λ t. t ++ n.collecting) (sym (append-nil told))) i

start-collecting :
    (m : Manager) (r : Request) (now : ℕ) → (start r now m).1.collecting ≡ m.collecting
unfolding start
start-collecting m r now = ground arith

begin-collecting : (m : Manager) → (or_same m (begin m)).collecting ≡ m.collecting
unfolding begin
begin-collecting m = ground arith

finish-collecting :
    (m : Manager) (id : ℕ) (outcome : Result String ToolResult)
    → (or_same m (finish id outcome m)).collecting ≡ m.collecting
unfolding finish
finish-collecting m id outcome = ground arith

cancel-collecting :
    (m : Manager) (id : ℕ) (session : Option String)
    → (after_cancel m (cancel_locked id session m)).collecting ≡ m.collecting
unfolding cancel_locked
cancel-collecting m id session = ground arith

record-collecting :
    (m : Manager) (id : ℕ) (outcome : Result String (Unit {0}))
    → (record_cancellation id outcome m).collecting ≡ m.collecting
unfolding record_cancellation
record-collecting m id outcome = refl

close-collecting : (m : Manager) → (close m).collecting ≡ m.collecting
unfolding close
close-collecting m = refl

pub step-Inv :
    (told : List ℕ) (m : Manager) (move : Move)
    → Inv (told ++ m.collecting) m
    → Inv ((told ++ told_ids (step m move).0) ++ (step m move).1.collecting) (step m move).1
step-Inv told m (starts r now) i =
    unchanged-Inv told m (start r now m).1 (start-collecting m r now)
      (start-Inv (told ++ m.collecting) m r now i)
step-Inv told m begins i =
    unchanged-Inv told m (or_same m (begin m)) (begin-collecting m)
      (begin-Inv (told ++ m.collecting) m i)
step-Inv told m (finishes id outcome) i =
    unchanged-Inv told m (or_same m (finish id outcome m)) (finish-collecting m id outcome)
      (finish-Inv (told ++ m.collecting) m id outcome i)
step-Inv told m (cancels id session) i =
    unchanged-Inv told m (after_cancel m (cancel_locked id session m))
      (cancel-collecting m id session) (cancel-Inv (told ++ m.collecting) m id session i)
step-Inv told m (records id outcome) i =
    unchanged-Inv told m (record_cancellation id outcome m) (record-collecting m id outcome)
      (record-Inv (told ++ m.collecting) m id outcome i)
step-Inv told m (gathers session) i = rw (append-nil told) (take-Inv told m session i)
step-Inv told m (tells callback) i = tell-Inv told m callback i
step-Inv told m closes i =
    unchanged-Inv told m (close m) (close-collecting m) (close-Inv (told ++ m.collecting) m i)
