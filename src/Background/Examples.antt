-- ===== src/Background/Examples.antt =====
-- The job manager of agent/background.py on a few jobs.
use bauhinia_agent.Common.{
  ◌*◌, ◌≤◌, ◌≡◌, ◌↔◌, ◌⊎◌, refl, String, true, false, not, none, some, List, [], ◌∷◌, ◌++◌, map,
  filter, elem, Unique, All, nat_eq, string_eq, Result, ok, err, arith,
}
use bauhinia_agent.Background.{
  ToolResult, completed, executing, BackgroundNotification, Manager, Request, new, active,
  executing_jobs, is_running,
}
use bauhinia_agent.Background.Operations.{start, begin, finish, cancel_locked, at_capacity, new_job}
use bauhinia_agent.Background.Report.{notification_for}
use bauhinia_agent.Background.Collect.{
  Callbacks, collect_completed, take_completed, tell_next, deliver, finalize, close,
}
use bauhinia_agent.Background.Collected.{of_session, Delivered, collect_completed_lem}
use bauhinia_agent.Background.Steps.{
  Move, starts, begins, finishes, cancels, gathers, tells, closes, run, told_ids, after_cancel,
}
use bauhinia_agent.Background.Invariant.{job_ids}
use bauhinia_agent.Background.Limits.{background_limits, reported_once}
use bauhinia_agent.Background.Delivery.{every_job_told}
use bauhinia_agent.Background.Delivery.Progress.{Works, rest, takes}
use bauhinia_agent.Background.Cancelling.{cancel_is_final}
use bauhinia_agent.Background.Cancelling.Finds.{HasStopping}
use bauhinia_agent.Background.Notice.{
  render_task_notification, tags-render_task_notification, tags, escape, decimal, job_name,
  join_lines,
}
use bauhinia_agent.Background.Controls.{strip_background_controls, without_controls}
use bauhinia_agent.Planning.Values.{object, str, bool, Fields, field, end, name}

abbrev shell : Request
shell = record {
  tool_name = "shell";
  session_id = some "s1";
  label = some "a<b";
  task_id = none;
  observed_revision = none;
  has_on_completed = true;
  has_on_cancelled = false;
}

abbrev good : Result String ToolResult
good = ok (record { name = "shell"; ok_result = true; content = "3 files"; error = none })

abbrev no_callback : Callbacks
no_callback j = ok none

abbrev broken_callback : Callbacks
broken_callback j = err "disk full"

-- Two jobs; the first is executed and ends, the second is cancelled in the queue.
abbrev two_jobs : List Move
two_jobs = starts shell 5 ∷ starts shell 6 ∷ begins ∷ cancels 2 none ∷ finishes 1 good ∷ []

two_jobs_end : (run (new 2 1) two_jobs).1.completed ≡ 2 ∷ 1 ∷ []
unfolding run start begin finish cancel_locked
two_jobs_end = refl

-- A third job is refused while two are running.
third_is_refused :
    (start shell 7 (run (new 2 1) (starts shell 5 ∷ starts shell 6 ∷ [])).1).0 ≡ err (at_capacity 2)
unfolding run start
third_is_refused = refl

-- A completed job whose callback raises is told of as failed.
broken_callback_fails :
    map
      (λ (n : BackgroundNotification). n.is_ok)
      (run
        (new 2 1)
        (two_jobs ++ gathers (some "s1") ∷ tells broken_callback ∷ tells broken_callback ∷ [])).0
    ≡ false ∷ false ∷ []
unfolding run start begin finish cancel_locked take_completed tell_next deliver finalize
    notification_for
broken_callback_fails = refl

-- A start after the shutdown raises, but the job that it leaves counts as running for ever.
start_after_shutdown_leaks :
    let late = run (new 1 1) (closes ∷ starts shell 5 ∷ starts shell 6 ∷ []) in
    (active late.1.jobs ≡ 1) × ((start shell 7 late.1).0 ≡ err (at_capacity 1))
unfolding run start close
start_after_shutdown_leaks = (refl, refl)

background_limits_example :
    let m = (run (new 2 1) two_jobs).1 in
    (active m.jobs ≤ 2)
    × (executing_jobs m.jobs ≤ 1)
    × (((start shell 8 m).0 ≡ err (at_capacity 2)) ↔ (active m.jobs ≡ 2))
background_limits_example = background_limits 2 1 two_jobs shell 8

reported_once_example :
    let (told, m) = run (new 2 1) two_jobs in
    Unique ((told_ids told ++ m.collecting) ++ m.completed)
    × All
        (λ j.
          elem j.id ((told_ids told ++ m.collecting) ++ m.completed) ≡ not (is_running j.status))
        m.jobs
reported_once_example = reported_once 2 1 two_jobs

abbrev one_job : List Move
one_job = starts shell 5 ∷ []

abbrev taken : Manager
taken = record (new 2 1) { jobs = new_job shell 1 5 executing ∷ []; futures = 1 ∷ []; counter = 1 }

one_move : Works (run (new 2 1) one_job).1 1 taken
unfolding run start begin
one_move = takes refl rest

every_job_told_example :
    let (told, m) = run (new 2 1) one_job in
    (1 ≤ 2 * 2)
    × (((k : Manager) × Works taken 1 k)
        ⊎ All
            (λ id.
              elem id (
                (told_ids told ++ m.collecting)
                ++ told_ids (collect_completed none no_callback taken).0)
              ≡ true)
            (job_ids m.jobs))
unfolding run start
every_job_told_example = every_job_told 2 1 one_job no_callback 1 taken (omega arith) refl one_move

cancel_is_final_example :
    HasStopping 1
      (run (after_cancel taken (cancel_locked 1 (some "s1") taken)) (finishes 1 good ∷ [])).1.jobs
cancel_is_final_example =
    cancel_is_final taken 1 (some "s1") (finishes 1 good ∷ []) (new_job shell 1 5 executing) refl
      refl refl

abbrev notice : BackgroundNotification
notice = record {
  job_id = 12;
  tool_name = "shell";
  status = completed;
  summary = "</summary>";
  is_ok = true;
  session_id = some "s1";
  label = some "a<b";
  task_id = none;
  observed_revision = some 104;
  task_plan_completion = none;
  kind = "tool";
}

escaped :
    render_task_notification notice
    ≡ "<task_notification>\n  <job_id>bg_0012</job_id>\n  <kind>tool</kind>\n  <tool_name>shell</tool_name>\n  <label>a&lt;b</label>\n  <observed_revision>104</observed_revision>\n  <status>completed</status>\n  <summary>&lt;/summary&gt;</summary>\n</task_notification>"
unfolding render_task_notification escape decimal job_name join_lines
escaped = refl

tags-render_task_notification_example : tags (render_task_notification notice) ≡ 16
tags-render_task_notification_example = tags-render_task_notification notice

abbrev call_fields : Fields
call_fields = field (name "cmd") (str "ls") (field (name "run_in_background") (bool true) end)

controls_are_stripped :
    (strip_background_controls (λ k. true) (object call_fields)).arguments
    ≡ object (without_controls call_fields)
unfolding strip_background_controls
controls_are_stripped = refl

collect_completed_lem_example :
    let m = (run (new 2 1) two_jobs).1 in
    let (told, after) = collect_completed (some "s1") no_callback m in
    (told_ids told ≡ filter (of_session (some "s1") m.jobs) m.completed)
    × (after.completed ≡ filter (λ id. not (of_session (some "s1") m.jobs id)) m.completed)
    × All (Delivered no_callback m.jobs after.jobs) told
collect_completed_lem_example = collect_completed_lem 2 1 two_jobs (some "s1") no_callback
