-- ===== src/Background/Operations.antt =====
-- The operations of the job manager of agent/background.py, up to the collection of ended jobs.
use bauhinia_agent.Common.{
  ℕ, ◌+◌, String, Bool, true, false, not, ◌&&◌, Option, none, some, List, [], ◌∷◌, ◌++◌, filter,
  elem, nat_eq, string_eq, leb, ltb, if◌then◌else◌, Result, ok, err,
}
use Prim.Native.String.{◌++◌ as append}
use bauhinia_agent.Background.{
  ToolResult, Status, Future, BackgroundJob, Manager, is_running, is_cancelled, is_waiting,
  is_executing, find, change, remove, in_session, active, executing_jobs, Request, running,
  completed, failed, cancelled, unsubmitted, waiting, executing, withdrawn, done,
}

-- BackgroundCapacityError, and what a pool that is shut down raises.
pub data StartError : Type 0 where
  at_capacity : ℕ → StartError
  pool_closed : StartError

abbrev pub new_job : Request → (id now : ℕ) → Future → BackgroundJob
new_job r id now future = record {
  id = id;
  tool_name = r.tool_name;
  session_id = r.session_id;
  label = r.label;
  task_id = r.task_id;
  observed_revision = r.observed_revision;
  status = running;
  result = none;
  error = none;
  cancel_requested = false;
  created_at = now;
  token_cancelled = false;
  has_on_completed = r.has_on_completed;
  has_on_cancelled = r.has_on_cancelled;
  task_plan_completion = none;
  future = future;
}

-- The job is among `_jobs` before the pool takes its function or refuses it.
unfoldable pub start : Request → (now : ℕ) → Manager → Result StartError BackgroundJob × Manager
start r now m =
    let id = m.counter + 1 in
    let job = new_job r id now waiting in
    let lost = new_job r id now unsubmitted in
    if leb m.max_jobs (active m.jobs)
    then (err (at_capacity m.max_jobs), m)
    else if m.closed
    then (err pool_closed, record m { counter = id; jobs = m.jobs ++ lost ∷ [] })
    else (
      ok job,
      record m { counter = id; jobs = m.jobs ++ job ∷ []; futures = m.futures ++ id ∷ [] },
    )

-- The first function in the queue.
abbrev pub begin_first : List BackgroundJob → Option (List BackgroundJob)
begin_first [] = none
begin_first (j ∷ js) =
    let rest = begin_first js in
    if is_waiting j.future
    then some (record j { future = executing } ∷ js)
    else elim rest [ none ↦ none | some ks ↦ some (j ∷ ks) ]

-- A thread of the pool takes the first function, if one of the `max_workers` threads is free.
unfoldable pub begin : Manager → Option Manager
begin m =
    if ltb (executing_jobs m.jobs) m.max_workers
    then elim (begin_first m.jobs) [ none ↦ none | some js ↦ some (record m { jobs = js }) ]
    else none

-- `_run`: the result of the function, or the text for what it raised.
abbrev pub outcome_result : Result String ToolResult → Option ToolResult
outcome_result (ok r) = some r
outcome_result (err e) = none

abbrev pub outcome_error : Result String ToolResult → Option String
outcome_error (ok r) = none
outcome_error (err e) = some (append "后台任务执行失败：" e)

abbrev pub end_status : Bool → Result String ToolResult → Status
end_status true outcome = cancelled
end_status false (err e) = failed
end_status false (ok r) = if r.ok_result then completed else failed

-- `_finish` on the job: after an explicit cancellation it only keeps the late result.
abbrev pub ended : Result String ToolResult → BackgroundJob → BackgroundJob
ended outcome j =
    if is_cancelled j.status
    then record j { result = outcome_result outcome; future = done }
    else record j {
      result = outcome_result outcome;
      error = outcome_error outcome;
      status = end_status j.cancel_requested outcome;
      future = done;
    }

-- The end of `_run` in a thread: `_finish`, and the future is done.
unfoldable pub finish : ℕ → Result String ToolResult → Manager → Option Manager
finish id outcome m = elim (find id m.jobs) [
  | none ↦ none
  | some j ↦
      if is_executing j.future
      then some (record m {
        jobs = change id (ended outcome) m.jobs;
        futures = remove id m.futures;
        completed = if is_cancelled j.status then m.completed else m.completed ++ id ∷ [];
      })
      else none
]

-- The part of `cancel` under the lock: there is no such job; it has ended, or it has been asked to
-- stop; or it was taken out of the queue, and its recorder is called next.
pub data Cancelled : Type 0 where
  missing : Cancelled
  settled : BackgroundJob → Cancelled
  asked : BackgroundJob → Manager → Cancelled
  prevented : BackgroundJob → Manager → Cancelled

-- `future.cancel()`
abbrev pub cancellable : Future → Bool
cancellable waiting = true
cancellable withdrawn = true
cancellable _ = false

abbrev pub prevent : BackgroundJob → BackgroundJob
prevent j = record j { status = cancelled; future = withdrawn }

abbrev pub ask : BackgroundJob → BackgroundJob
ask j = record j { cancel_requested = true; token_cancelled = true }

unfoldable pub cancel_locked : ℕ → Option String → Manager → Cancelled
cancel_locked id session m = elim (find id m.jobs) [
  | none ↦ missing
  | some j ↦
      if not (in_session session j.session_id)
      then missing
      else if not (is_running j.status)
      then settled j
      else if elem id m.futures && cancellable j.future
      then prevented (prevent j) (record m {
        jobs = change id prevent m.jobs;
        futures = remove id m.futures;
        completed = m.completed ++ id ∷ [];
      })
      else asked (ask j) (record m { jobs = change id ask m.jobs })
]

-- What a recorder that raises leaves in the job.
abbrev pub recorded : Result String (Unit {0}) → BackgroundJob → BackgroundJob
recorded (ok u) j = j
recorded (err e) j = record j { error = some (append "Cancellation recorder failed: " e) }

unfoldable pub record_cancellation : ℕ → Result String (Unit {0}) → Manager → Manager
record_cancellation id outcome m = record m {
  jobs = change id (λ j. if j.has_on_cancelled then recorded outcome j else j) m.jobs;
}

-- `cancel` where nothing comes between its two parts: the job that it returns, and the manager.
unfoldable pub cancel :
    ℕ → Option String → Result String (Unit {0}) → Manager → Option BackgroundJob × Manager
cancel id session outcome m = elim (cancel_locked id session m) [
  | missing ↦ (none, m)
  | settled j ↦ (some j, m)
  | asked j n ↦ (some j, n)
  | prevented j n ↦ (
    some (if j.has_on_cancelled then recorded outcome j else j),
    record_cancellation id outcome n,
  )
]

unfoldable pub get : ℕ → Option String → Manager → Option BackgroundJob
get id session m = elim (find id m.jobs) [
  | none ↦ none
  | some j ↦ if in_session session j.session_id then some j else none
]

unfoldable pub list_jobs : Option String → Manager → List BackgroundJob
list_jobs session m = filter (λ j. in_session session j.session_id) m.jobs
