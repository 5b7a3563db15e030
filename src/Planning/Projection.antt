-- ===== src/Planning/Projection.antt =====
-- planning/projection.py: views derived from a plan.
pub mod Sort
pub mod Levels
pub mod Acyclic
pub mod Partition
pub mod Lookup
use bauhinia_agent.Common.{
  ℕ, zero, suc, String, Bool, true, false, not, ◌&&◌, none, some, List, [], ◌∷◌, ◌++◌, map,
  if◌then◌else◌, leb, ◌==◌, string_eq, elem, all, filter, length, Result, ok, err, ◌>>=◌, all_ok,
  filter_ok,
}
use bauhinia_agent.Common.Dict.{Dict, get, of_list}
use bauhinia_agent.Planning.Values.{
  TaskStatus, pending, in_progress, completed, cancelled, TaskPlanMode, linear, dag, Task, TaskPlan,
  status_eq,
}
use bauhinia_agent.Planning.Errors.{cycle, Error, plan_error, key_error, out_of_fuel}

abbrev pub Raises : Type 0 → Type 0
Raises A = Result Error A

insert_task : Task → List Task → List Task
insert_task t [] = t ∷ []
insert_task t (u ∷ us) = if leb t.order u.order then t ∷ u ∷ us else u ∷ insert_task t us

pub sort_tasks : List Task → List Task
unfolding insert_task
sort_tasks [] = []
sort_tasks (t ∷ ts) = insert_task t (sort_tasks ts)

-- Python sorts by the pair of order and position, that is stably by the order.
unfoldable pub ordered_tasks : TaskPlan → List Task
unfolding sort_tasks
ordered_tasks plan = sort_tasks plan.tasks

abbrev pub task_id : Task → String
task_id t = t.id

-- Each task with the ids of those before it.
unfoldable pub with_predecessors : List String → List Task → List (String × List String)
with_predecessors before [] = []
with_predecessors before (t ∷ ts) = (t.id, before) ∷ with_predecessors (before ++ t.id ∷ []) ts

abbrev pub dependency_items : TaskPlanMode → List Task → List Task → List (String × List String)
dependency_items dag tasks ordered = map (λ t. (t.id, t.depends_on)) tasks
dependency_items linear tasks ordered = with_predecessors [] ordered

unfoldable pub effective_dependencies : TaskPlan → Dict (List String)
unfolding with_predecessors of_list ordered_tasks
effective_dependencies plan = of_list (dependency_items plan.mode plan.tasks (ordered_tasks plan))

unfoldable pub tasks_by_id : List Task → Dict Task
unfolding of_list
tasks_by_id tasks = of_list (map (λ t. (t.id, t)) tasks)

-- `d[k]`
unfoldable pub index : {V : Type 0} → Dict V → String → Raises V
unfolding get
index d k = elim (get k d) [ none ↦ err (key_error k) | some v ↦ ok v ]

abbrev pub is_completed : Dict Task → String → Raises Bool
is_completed task_by_id dependency = do t ← index task_by_id dependency; ok (t.status == completed)

-- `all(task_by_id[d].status == "completed" for d in dependencies[task.id])`
unfoldable pub dependencies_completed : Dict Task → Dict (List String) → Task → Raises Bool
unfolding index all_ok
dependencies_completed task_by_id dependencies t = do
  ds ← index dependencies t.id
  all_ok (is_completed task_by_id) ds

abbrev pub is_ready : Dict Task → Dict (List String) → Task → Raises Bool
is_ready task_by_id dependencies t =
    if t.status == pending then dependencies_completed task_by_id dependencies t else ok false

unfoldable pub ready_task_ids : TaskPlan → Raises (List String)
unfolding dependencies_completed ordered_tasks tasks_by_id effective_dependencies filter_ok
ready_task_ids plan = do
  let tasks = ordered_tasks plan
  ready ← filter_ok (is_ready (tasks_by_id tasks) (effective_dependencies plan)) tasks
  ok (map task_id ready)

abbrev pub is_terminal : TaskStatus → Bool
is_terminal completed = true
is_terminal cancelled = true
is_terminal _ = false

unfoldable pub blocked_task_ids : TaskPlan → Raises (List String)
unfolding ready_task_ids
blocked_task_ids plan = do
  ready ← ready_task_ids plan
  let waits = λ (t : Task).
      not (is_terminal t.status) && not (t.status == in_progress) && not (elem t.id ready)
  ok (map task_id (filter waits (ordered_tasks plan)))

-- One round: the remaining tasks that wait for no task but the completed ones.
abbrev pub level : Dict (List String) → List String → List String → Raises (List String)
level dependencies done remaining =
    filter_ok (λ id. do ds ← index dependencies id; ok (all (λ d. elem d done) ds)) remaining

-- The `while` loop, with a number of rounds left.
pub levels_from : ℕ → Dict (List String) → List String → List String → Raises (List (List String))
unfolding index filter_ok
levels_from fuel dependencies done [] = ok []
levels_from zero dependencies done (id ∷ ids) = err out_of_fuel
levels_from (suc fuel) dependencies done (id ∷ ids) =
    level dependencies done (id ∷ ids) >>= λ current. elim current [
      | [] ↦ err (plan_error cycle)
      | c ∷ cs ↦
          let done' = done ++ c ∷ cs in
          levels_from fuel dependencies done' (filter (λ i. not (elem i done')) (id ∷ ids))
          >>= λ rest. ok ((c ∷ cs) ∷ rest)
    ]

-- Each round completes a task, so as many rounds as tasks are enough.
unfoldable pub topological_levels : TaskPlan → Raises (List (List String))
unfolding levels_from effective_dependencies ordered_tasks
topological_levels plan =
    let remaining = map task_id (ordered_tasks plan) in
    levels_from (length remaining) (effective_dependencies plan) [] remaining

-- `project_plan`; the tasks are those of the plan.
pub record Projection : Type 0 where
  pub mode : TaskPlanMode
  pub revision : ℕ
  pub ready_task_ids : List String
  pub blocked_task_ids : List String
  pub topological_levels : List (List String)
  pub tasks : List Task

unfoldable pub project_plan : TaskPlan → Raises Projection
project_plan plan = do
  ready ← ready_task_ids plan
  blocked ← blocked_task_ids plan
  levels ← topological_levels plan
  ok (record {
    mode = plan.mode;
    revision = plan.revision;
    ready_task_ids = ready;
    blocked_task_ids = blocked;
    topological_levels = levels;
    tasks = plan.tasks;
  })
