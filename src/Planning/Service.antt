-- ===== src/Planning/Service.antt =====
-- planning/service.py: each operation, under its lock, reads the current plan from the log, reduces
-- the command and appends the new plan.
pub mod Calls
pub mod Commits
pub mod Logs
use bauhinia_agent.Common.{
  ℕ, String, Bool, true, Option, none, some, List, if◌then◌else◌, ok, err, ◌>>=◌,
}
use bauhinia_agent.Planning.Values.{TaskPlan, Value}
use bauhinia_agent.Planning.Errors.{no_current_plan, command_error}
use bauhinia_agent.Planning.Projection.{Raises, Projection, project_plan}
use bauhinia_agent.Planning.Reducer.{
  plan_revision, Change, ReductionResult, create_tasks, update_tasks, revise_tasks,
}
use bauhinia_agent.Planning.Session.{Log, rebuild_plan, append_task_plan_updated}

pub record TaskPlanMutation : Type 0 where
  pub plan : TaskPlan
  pub projection : Projection
  pub changed : Bool
  pub changes : List Change
  pub evo_diagnostic : Option String

-- A service call: its result or exception, and the log after it.
abbrev pub Action : Type 0 → Type 0
Action A = Log → Raises A × Log

-- The mirror into the Evo store, which reports a failure as a text and raises nothing.
abbrev pub Observer : Type 0
Observer = TaskPlan → String → Option String

abbrev observe : Option Observer → Bool → TaskPlan → String → Option String
observe (some f) true plan operation = f plan operation
observe _ _ plan operation = none

-- `self._writer.append_task_plan_updated(…)`, if the command changed the plan.
abbrev record_result : String → ℕ → ReductionResult → Log → Raises Log
record_result operation previous r log =
    if r.changed then append_task_plan_updated previous operation r.changes r.plan log else ok log

abbrev mutation : Option Observer → String → ReductionResult → Raises TaskPlanMutation
mutation observer operation r = do
  projection ← project_plan r.plan
  ok (record {
    plan = r.plan;
    projection = projection;
    changed = r.changed;
    changes = r.changes;
    evo_diagnostic = observe observer r.changed r.plan operation;
  })

unfoldable pub finish : Option Observer → String → ℕ → ReductionResult → Action TaskPlanMutation
finish observer operation previous r log = elim (record_result operation previous r log) [
  | ok log' ↦ (mutation observer operation r, log')
  | err e ↦ (err e, log)
]

unfoldable pub require_current_plan : String → Log → Raises TaskPlan
require_current_plan operation log = do
  current ← rebuild_plan log
  elim current [ none ↦ err (command_error (no_current_plan operation)) | some p ↦ ok p ]

unfoldable pub create :
    Option Observer
    → (mode expected_revision tasks : Value) (start_new_plan : Bool) → Action TaskPlanMutation
create observer mode expected_revision tasks start_new_plan log =
    let reduced : Raises (ℕ × ReductionResult) = do
      current ← rebuild_plan log
      r ← create_tasks current expected_revision mode tasks start_new_plan
      ok (plan_revision current, r)
    in elim reduced [ ok (n, r) ↦ finish observer "create" n r log | err e ↦ (err e, log) ]

abbrev pub on_current :
    Option Observer → String → (TaskPlan → Raises ReductionResult) → Action TaskPlanMutation
on_current observer operation reduce log =
    let reduced : Raises (ℕ × ReductionResult) = do
      p ← require_current_plan operation log
      r ← reduce p
      ok (p.revision, r)
    in elim reduced [ ok (n, r) ↦ finish observer operation n r log | err e ↦ (err e, log) ]

unfoldable pub update :
    Option Observer → (expected_revision updates : Value) → Action TaskPlanMutation
update observer expected_revision updates =
    on_current observer "update" (λ p. update_tasks p expected_revision updates)

unfoldable pub revise :
    Option Observer → (expected_revision revisions : Value) → Action TaskPlanMutation
revise observer expected_revision revisions =
    on_current observer "revise" (λ p. revise_tasks p expected_revision revisions)
