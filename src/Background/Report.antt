-- ===== src/Background/Report.antt =====
-- What agent/background.py tells of a job: its summary, snapshot and notification, and the text of the
-- notification, with the `escape` of Python's html module.
use Prim.Native.String.{◌++◌ as append, count}
use bauhinia_agent.Common.{
  ℕ, zero, suc, String, Bool, Option, none, some, leb, nat_eq, if◌then◌else◌, is_empty_text,
}
use bauhinia_agent.Background.{
  Status, BackgroundJob, BackgroundNotification, is_running, is_completed,
}

-- `text[:n]`
abbrev pub prefix : ℕ → String → String
prefix zero s = String.[]
prefix (suc n) String.[] = String.[]
prefix (suc n) (String.◌∷◌ c s) = String.◌∷◌ c (prefix n s)

abbrev summary_preview_limit : ℕ
summary_preview_limit = 2000

unfoldable pub truncate : String → String
truncate text =
    if leb (count text) summary_preview_limit
    then text
    else append (prefix summary_preview_limit text)
        "\n…(truncated; use background_status for the full result)"

unfoldable pub summarize : BackgroundJob → String
unfolding truncate
summarize j = elim j.error [
  | some e ↦ truncate e
  | none ↦ elim j.result [
    | none ↦ "(no output)"
    | some r ↦ truncate (if is_empty_text r.content then "(empty result)" else r.content)
  ]
]

pub record Snapshot : Type 0 where
  pub job_id : ℕ
  pub session_id : Option String
  pub tool_name : String
  pub label : Option String
  pub task_id : Option String
  pub observed_revision : Option ℕ
  pub status : Status
  pub is_ok : Option Bool
  pub error : Option String
  pub summary : Option String
  pub cancel_requested : Bool

unfoldable pub snapshot : BackgroundJob → Snapshot
unfolding summarize
snapshot j = record {
  job_id = j.id;
  session_id = j.session_id;
  tool_name = j.tool_name;
  label = j.label;
  task_id = j.task_id;
  observed_revision = j.observed_revision;
  status = j.status;
  is_ok = elim j.result [ none ↦ none | some r ↦ some (is_completed j.status) ];
  error = j.error;
  summary = if is_running j.status then none else some (summarize j);
  cancel_requested = j.cancel_requested;
}

unfoldable pub notification_for : BackgroundJob → BackgroundNotification
unfolding summarize
notification_for j = record {
  job_id = j.id;
  tool_name = j.tool_name;
  status = j.status;
  summary = summarize j;
  is_ok = is_completed j.status;
  session_id = j.session_id;
  label = j.label;
  task_id = j.task_id;
  observed_revision = j.observed_revision;
  task_plan_completion = j.task_plan_completion;
  kind = "tool";
}
