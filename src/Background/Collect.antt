-- ===== src/Background/Collect.antt =====
-- collect_completed and the shutdown of agent/background.py.
use bauhinia_agent.Common.{
  ℕ, String, Bool, true, false, not, ◌&&◌, Option, none, some, List, [], ◌∷◌, map, filter, ◌++◌,
  if◌then◌else◌, Result, ok, err,
}
use Prim.Native.String.{◌++◌ as append}
use bauhinia_agent.Background.{
  failed, withdrawn, BackgroundJob, BackgroundNotification, Manager, is_completed, is_running,
  is_waiting, in_session, find, change,
}
use bauhinia_agent.Background.Operations.{cancel}
use bauhinia_agent.Background.Report.{notification_for}

-- What the completion callbacks return or raise, at the job as it is when they are called.
abbrev pub Callbacks : Type 0
Callbacks = BackgroundJob → Result String (Option String)

abbrev pub completion : Result String (Option String) → BackgroundJob → BackgroundJob
completion (ok text) j = record j { task_plan_completion = text }
completion (err e) j = record j {
  status = failed;
  error = some (append "Failed to record TaskPlan completion: " e);
  task_plan_completion = some "TaskPlan completion failed; task state was not confirmed.";
}

unfoldable pub finalize : Callbacks → BackgroundJob → BackgroundJob
finalize callback j =
    if is_completed j.status && j.has_on_completed then completion (callback j) j else j

-- Whether the queued job belongs to the session.
abbrev pub wanted : Option String → List BackgroundJob → ℕ → Bool
wanted session jobs id = elim (find id jobs) [
  | none ↦ false
  | some j ↦ in_session session j.session_id
]

-- The second loop: each job is finalized, then told.
unfoldable pub deliver :
    Callbacks → List ℕ → List BackgroundJob → List BackgroundNotification × List BackgroundJob
unfolding finalize
deliver callback [] jobs = ([], jobs)
deliver callback (id ∷ ids) jobs =
    let rest = deliver callback ids (change id (finalize callback) jobs) in
    (
      elim (find id (change id (finalize callback) jobs)) [
        | none ↦ rest.0
        | some j ↦ notification_for j ∷ rest.0
      ],
      rest.1,
    )

-- The first loop, under the lock.
abbrev pub kept_back : Option String → Manager → List ℕ
kept_back session m = filter (λ id. not (wanted session m.jobs id)) m.completed

abbrev pub chosen : Option String → Manager → List ℕ
chosen session m = filter (wanted session m.jobs) m.completed

unfoldable pub take_completed : Option String → Manager → Manager
take_completed session m = record m {
  completed = kept_back session m;
  collecting = m.collecting ++ chosen session m;
}

-- One round of the second loop, outside the lock, for the first job that was taken and not yet told.
unfoldable pub tell_next : Callbacks → Manager → List BackgroundNotification × Manager
unfolding deliver
tell_next callback m = elim m.collecting [
  | [] ↦ ([], m)
  | id ∷ ids ↦
      let (notifications, jobs) = deliver callback (id ∷ []) m.jobs in
      (notifications, record m { jobs = jobs; collecting = ids })
]

-- `collect_completed`, when no other thread comes between.
unfoldable pub collect_completed :
    Option String → Callbacks → Manager → List BackgroundNotification × Manager
unfolding deliver
collect_completed session callback m =
    let (notifications, jobs) = deliver callback (chosen session m) m.jobs in
    (notifications, record m { jobs = jobs; completed = kept_back session m })

-- The pool's `shutdown(wait=False, cancel_futures=True)`: nothing is taken any more.
abbrev pub drop_waiting : BackgroundJob → BackgroundJob
drop_waiting j = if is_waiting j.future then record j { future = withdrawn } else j

unfoldable pub close : Manager → Manager
close m = record m { jobs = map drop_waiting m.jobs; closed = true }

-- The identifiers of the running jobs, and `cancel` of each.
abbrev pub active_ids : List BackgroundJob → List ℕ
active_ids js = map (λ j. j.id) (filter (λ j. is_running j.status) js)

unfoldable pub cancel_each : (ℕ → Result String (Unit {0})) → List ℕ → Manager → Manager
unfolding cancel
cancel_each recorders [] m = m
cancel_each recorders (id ∷ ids) m = cancel_each recorders ids (cancel id none (recorders id) m).1
