-- ===== src/Planning/Errors.antt =====
-- The exceptions of bauhinia_agent/planning: a constructor for each message, with the values that the
-- message shows.
use bauhinia_agent.Common.{ℕ, String}
use bauhinia_agent.Planning.Values.{Value, TaskPlanMode}

-- The texts `tasks[3]`, `updates[0].id`, … that name a field in a message.
pub data Label : Type 0 where
  root : String → Label
  item : String → ℕ → Label
  member : Label → String → Label

-- `TaskPlanError`
pub data PlanError : Type 0 where
  task_not_object plan_not_object tasks_not_list : PlanError
  item_not_object : ℕ → PlanError
  not_non_blank not_string_or_null not_non_negative : String → PlanError
  unknown_mode unknown_status : Value → PlanError
  not_string_list not_non_blank_list : String → PlanError
  duplicate_task : String → PlanError
  ids_not_unique : PlanError
  depends_on_self : String → PlanError
  depends_on_missing repeats_dependency : (task dependency : String) → PlanError
  cycle many_in_progress : PlanError
  not_ready : String → PlanError

-- `TaskPlanCommandError`, and its subclass `TaskPlanRevisionConflict`
pub data CommandError : Type 0 where
  bad_revision : CommandError
  revision_conflict : (expected actual : ℕ) → CommandError
  mode_unknown : Value → CommandError
  mode_switch : (from to : TaskPlanMode) → CommandError
  initial_plan_empty unfinished_tasks new_plan_empty : CommandError
  duplicate_created : String → CommandError
  invalid_task : Label → PlanError → CommandError
  invalid_plan : PlanError → CommandError
  unknown_task : String → CommandError
  status_unknown : Label → Value → CommandError
  owner_not_string : Label → CommandError
  not_sequence : Label → CommandError
  repeats_value : Label → String → CommandError
  blank_text : Label → CommandError
  not_list not_object key_not_string : Label → CommandError
  unknown_field : Label → String → CommandError
  duplicate_command : String → CommandError
  add_and_remove : Label → String → CommandError
  no_current_plan : String → CommandError

-- `SessionStoreCorruptError`
pub data CorruptError : Type 0 where
  invalid_snapshot : PlanError → CorruptError
  revision_not_int revision_chain revision_mismatch : CorruptError

-- `ValueError` of `SessionEventWriter`
pub data WriterError : Type 0 where
  bad_previous_revision bad_operation not_next_revision : WriterError

-- Whatever a function of this part may raise. `out_of_fuel` is the model's own: it would say that
-- a loop was given too few rounds.
pub data Error : Type 0 where
  plan_error : PlanError → Error
  command_error : CommandError → Error
  corrupt_error : CorruptError → Error
  writer_error : WriterError → Error
  key_error : String → Error
  event_error : String → Error
  out_of_fuel : Error
