-- ===== src/Planning/Validation.antt =====
-- planning/validation.py
pub mod Spec
pub mod Checks
pub mod Facts
pub mod Sound
pub mod Complete
use bauhinia_agent.Common.{
  String, Bool, not, ◌&&◌, List, [], ◌∷◌, leb, ◌==◌, nat_eq, string_eq, elem, filter, length, ok,
  ◌>>=◌, ◌>>◌, require, each,
}
use bauhinia_agent.Common.Dict.{Dict, keys}
use bauhinia_agent.Planning.Values.{in_progress, linear, Task, TaskPlan, status_eq, mode_eq}
use bauhinia_agent.Planning.Errors.{
  ids_not_unique, depends_on_self, depends_on_missing, repeats_dependency, many_in_progress,
  not_ready, plan_error,
}
use bauhinia_agent.Planning.Projection.{
  Raises, ordered_tasks, tasks_by_id, effective_dependencies, dependencies_completed,
  topological_levels,
}

-- The loop over the dependencies of a task. `known` are the keys of `task_by_id`.
pub check_dependencies : List String → String → List String → List String → Raises (Unit {0})
check_dependencies known id seen [] = ok tt
check_dependencies known id seen (d ∷ ds) = do
  require (not (d == id)) (plan_error (depends_on_self id))
  require (elem d known) (plan_error (depends_on_missing id d))
  require (not (elem d seen)) (plan_error (repeats_dependency id d))
  check_dependencies known id (d ∷ seen) ds

abbrev pub is_in_progress : Task → Bool
is_in_progress t = t.status == in_progress

pub check_ready : Dict Task → Dict (List String) → Task → Raises (Unit {0})
unfolding dependencies_completed
check_ready task_by_id dependencies t = do
  done ← dependencies_completed task_by_id dependencies t
  require done (plan_error (not_ready t.id))

unfoldable pub validate_plan : TaskPlan → Raises (Unit {0})
unfolding check_dependencies check_ready topological_levels tasks_by_id each
validate_plan plan = do
  let tasks = ordered_tasks plan
  let task_by_id = tasks_by_id tasks
  require (length task_by_id == length tasks) (plan_error ids_not_unique)
  each (λ t. check_dependencies (keys task_by_id) t.id [] t.depends_on) tasks
  topological_levels plan >>= λ _. ok tt
  let running = filter is_in_progress tasks
  require (not (plan.mode == linear && not (leb (length running) 1))) (plan_error many_in_progress)
  each (check_ready task_by_id (effective_dependencies plan)) running
