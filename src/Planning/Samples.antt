-- ===== src/Planning/Samples.antt =====
-- Small plans and commands, and what the program does on them.
use bauhinia_agent.Planning.Errors.{
  many_in_progress, invalid_plan, plan_error, command_error, cycle,
}
use bauhinia_agent.Common.{
  is_blank, ℕ, String, ◌≡◌, refl, false, none, some, List, [], ◌∷◌, ok, err,
}
use bauhinia_agent.Common.Dict.{get, put}
use bauhinia_agent.Planning.Values.{
  find, TaskStatus, pending, in_progress, completed, linear, dag, Task, TaskPlan, Value, str, int,
  list, object, end, of_items,
}
use bauhinia_agent.Planning.Models.{plan_to_dict, plan_from_dict, entry}
use bauhinia_agent.Planning.Commands.{
  require_revision, parse_mode, require_list, parse_all, parse_task_patch, parse_task_revision,
  require_unique_command_ids,
}
use bauhinia_agent.Planning.Projection.{
  tasks_by_id, project_plan, ready_task_ids, blocked_task_ids, topological_levels,
}
use bauhinia_agent.Planning.Reducer
use bauhinia_agent.Planning.Reducer.{
  validate_candidate, check_current, next_order, add_tasks, build_plan, replacement, changed_result,
  create_tasks, update_tasks, revise_tasks, apply_patches, apply_patch, patch_status, patch_owner,
  patch_dependencies, differs, apply_revisions,
}
use bauhinia_agent.Planning.Session.{
  read_snapshot, check_chain, apply_task_plan_payload, append_task_plan_updated, plan_event,
  change_to_dict, Log, rebuild_plan,
}
use bauhinia_agent.Planning.Service
use bauhinia_agent.Planning.Service.{require_current_plan, revise, create, update}
use bauhinia_agent.Common.Int.{pos}
use bauhinia_agent.Planning.Validation.{validate_plan}

-- What the samples compute with.
unfoldable pub program : Unit {0}
unfolding find is_blank get put validate_plan validate_candidate require_revision parse_mode
    require_list check_current next_order add_tasks build_plan replacement changed_result
    Reducer.finish create_tasks update_tasks revise_tasks apply_patches apply_patch patch_status
    patch_owner patch_dependencies differs apply_revisions parse_all parse_task_patch
    parse_task_revision require_unique_command_ids tasks_by_id ready_task_ids blocked_task_ids
    topological_levels project_plan read_snapshot check_chain apply_task_plan_payload
    append_task_plan_updated plan_event plan_to_dict plan_from_dict change_to_dict rebuild_plan
    Service.finish require_current_plan create update revise
program = tt

abbrev pub task : String → TaskStatus → List String → ℕ → Task
task id status deps order = record {
  id = id;
  content = "work";
  status = status;
  depends_on = deps;
  owner = none;
  order = order;
}

-- A diamond, listed out of display order.
abbrev pub diamond : TaskPlan
diamond = record {
  mode = dag;
  revision = 4;
  tasks =
      task "d" pending ("b" ∷ "c" ∷ []) 3
      ∷ task "a" completed [] 0
      ∷ task "b" in_progress ("a" ∷ []) 1
      ∷ task "c" pending ("a" ∷ []) 2
      ∷ [];
}

abbrev pub ring : TaskPlan
ring = record {
  mode = dag;
  revision = 1;
  tasks = task "a" pending ("b" ∷ []) 0 ∷ task "b" pending ("a" ∷ []) 1 ∷ [];
}

diamond_views :
    (validate_plan diamond ≡ ok tt)
    × (topological_levels diamond ≡ ok (("a" ∷ []) ∷ ("b" ∷ "c" ∷ []) ∷ ("d" ∷ []) ∷ []))
    × (ready_task_ids diamond ≡ ok ("c" ∷ []))
    × (blocked_task_ids diamond ≡ ok ("d" ∷ []))
unfolding validate_plan blocked_task_ids
diamond_views = (refl, refl, refl, refl)

ring_is_refused : validate_plan ring ≡ err (plan_error cycle)
unfolding validate_plan
ring_is_refused = refl

abbrev pub raw_task : String → Value
raw_task id = object (entry "id" (str id) (entry "content" (str "work") end))

abbrev pub values : List Value → Value
values vs = list (of_items vs)

-- `{"id": id, "status": status}`
abbrev pub raw_update : String → String → Value
raw_update id status = object (entry "id" (str id) (entry "status" (str status) end))

-- A new linear plan of two tasks, and the start of its first task.
abbrev pub created_log : Log
unfolding program
created_log =
    (create none (str "linear") (int (pos 0)) (values (raw_task "a" ∷ raw_task "b" ∷ [])) false
      []).1

abbrev pub started_log : Log
unfolding program
started_log = (update none (int (pos 1)) (values (raw_update "a" "in_progress" ∷ [])) created_log).1

started_plan :
    rebuild_plan started_log
    ≡ ok (
        some (record {
          mode = linear;
          revision = 2;
          tasks = task "a" in_progress [] 0 ∷ task "b" pending [] 1 ∷ [];
        }))
unfolding program
started_plan = refl

second_is_not_ready :
    (update none (int (pos 2)) (values (raw_update "b" "in_progress" ∷ [])) started_log).0
    ≡ err (command_error (invalid_plan many_in_progress))
unfolding program
second_is_not_ready = refl
