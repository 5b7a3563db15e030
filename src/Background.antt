-- ===== src/Background.antt =====
-- agent/background.py: the jobs that run in the background, their manager, and the thread pool that it
-- gives them to. What a job's function or a callback returns is an argument of the operation that ends
-- it. A job's identifier is the number in its text, and all share the jobs: `_completed` holds numbers.
pub mod Operations
pub mod Report
pub mod Collect
pub mod Steps
pub mod Invariant
pub mod Kept
pub mod Limits
pub mod Delivery
pub mod Cancelling
pub mod Collected
pub mod Notice
pub mod Controls
mod Examples
use bauhinia_agent.Common.{
  ℕ, zero, suc, ◌+◌, String, Bool, true, false, not, ◌&&◌, ◌||◌, Option, none, some, List, [], ◌∷◌,
  ◌++◌, map, filter, any, length, elem, nat_eq, string_eq, ◌==◌, leb, ltb, if◌then◌else◌, Result,
  ok, err,
}
use Prim.Native.String.{◌++◌ as append}

-- tools/types.py, without `data`
pub record ToolResult : Type 0 where
  pub name : String
  pub ok_result : Bool
  pub content : String
  pub error : Option String

pub data Status : Type 0 where
  running completed failed cancelled : Status

-- The future of a job: not submitted, in the pool's queue, run by a thread, cancelled, or at its end.
pub data Future : Type 0 where
  unsubmitted waiting executing withdrawn done : Future

pub record BackgroundJob : Type 0 where
  pub id : ℕ
  pub tool_name : String
  pub session_id : Option String
  pub label : Option String
  pub task_id : Option String
  pub observed_revision : Option ℕ
  pub status : Status
  pub result : Option ToolResult
  pub error : Option String
  pub cancel_requested : Bool
  pub created_at : ℕ
  pub token_cancelled : Bool
  pub has_on_completed : Bool
  pub has_on_cancelled : Bool
  pub task_plan_completion : Option String
  pub future : Future

pub record BackgroundNotification : Type 0 where
  pub job_id : ℕ
  pub tool_name : String
  pub status : Status
  pub summary : String
  pub is_ok : Bool
  pub session_id : Option String
  pub label : Option String
  pub task_id : Option String
  pub observed_revision : Option ℕ
  pub task_plan_completion : Option String
  pub kind : String

-- `futures` holds the keys of `_futures`; `collecting` holds the jobs that a collection has taken from
-- `completed` and not yet told of; `closed` is the pool after its shutdown.
pub record Manager : Type 0 where
  pub max_jobs : ℕ
  pub max_workers : ℕ
  pub jobs : List BackgroundJob
  pub futures : List ℕ
  pub completed : List ℕ
  pub collecting : List ℕ
  pub counter : ℕ
  pub closed : Bool

abbrev pub is_running : Status → Bool
is_running running = true
is_running _ = false

abbrev pub is_completed : Status → Bool
is_completed completed = true
is_completed _ = false

abbrev pub is_cancelled : Status → Bool
is_cancelled cancelled = true
is_cancelled _ = false

abbrev pub is_waiting : Future → Bool
is_waiting waiting = true
is_waiting _ = false

abbrev pub is_executing : Future → Bool
is_executing executing = true
is_executing _ = false

abbrev pub new : (max_jobs max_workers : ℕ) → Manager
new max_jobs max_workers = record {
  max_jobs = max_jobs;
  max_workers = max_workers;
  jobs = [];
  futures = [];
  completed = [];
  collecting = [];
  counter = 0;
  closed = false;
}

-- `self._jobs.get(job_id)`
abbrev pub find : ℕ → List BackgroundJob → Option BackgroundJob
find id [] = none
find id (j ∷ js) = let rest = find id js in if j.id == id then some j else rest

-- A change of the job that all share.
abbrev pub change : ℕ → (BackgroundJob → BackgroundJob) → List BackgroundJob → List BackgroundJob
change id f [] = []
change id f (j ∷ js) = (if j.id == id then f j else j) ∷ change id f js

abbrev pub remove : ℕ → List ℕ → List ℕ
remove id xs = filter (λ x. not (x == id)) xs

-- `session_id is None or job.session_id == session_id`
abbrev pub in_session : Option String → Option String → Bool
in_session none owner = true
in_session (some s) none = false
in_session (some s) (some owner) = owner == s

abbrev pub active : List BackgroundJob → ℕ
active [] = 0
active (j ∷ js) = let rest = active js in if is_running j.status then suc rest else rest

abbrev pub executing_jobs : List BackgroundJob → ℕ
executing_jobs [] = 0
executing_jobs (j ∷ js) =
    let rest = executing_jobs js in if is_executing j.future then suc rest else rest

-- The arguments of `start` that the job keeps.
pub record Request : Type 0 where
  pub tool_name : String
  pub session_id : Option String
  pub label : Option String
  pub task_id : Option String
  pub observed_revision : Option ℕ
  pub has_on_completed : Bool
  pub has_on_cancelled : Bool
