-- ===== src/Planning/Examples.antt =====
-- The theorems on the plans at concrete plans, commands and logs.
use bauhinia_agent.Common.{
  Option, ℕ, String, true, false, List, ◌∷◌, [], ◌≡◌, refl, ok, err, ◌⊎◌, ◌↔◌, Unique, none, some,
  string_eq,
}
use bauhinia_agent.Common.Int.{pos}
use bauhinia_agent.Planning.Values.{
  Task, TaskPlan, TaskPatch, unset, owned, pending, in_progress, linear, dag, completed, cancelled,
  int, str, object, end,
}
use bauhinia_agent.Planning.Models.{entry, plan_from_dict, plan_to_dict}
use bauhinia_agent.Planning.Models.RoundTrip.{
  IsWellFormed, plan_round_trip_iff, plan_from_dict_canonical,
}
use bauhinia_agent.Planning.Errors.{
  Error, plan_error, command_error, cycle, revision_conflict, invalid_plan, many_in_progress,
}
use bauhinia_agent.Planning.Projection.{ordered_tasks, topological_levels}
use bauhinia_agent.Planning.Projection.Sort.{ids, IsSorted, of_order, ordered_tasks_stable}
use bauhinia_agent.Planning.Validation.{validate_plan}
use bauhinia_agent.Planning.Validation.Spec.{IsValid}
use bauhinia_agent.Planning.Validation.Complete.{validate_plan_iff}
use bauhinia_agent.Planning.Views.{
  topological_levels_outcome, topological_levels_order, project_plan_views,
}
use bauhinia_agent.Planning.Reducer.{ReductionResult, updated, revised, created, plan_revision}
use bauhinia_agent.Planning.Reducer.Update.{update_tasks_result}
use bauhinia_agent.Planning.Reducer.Create.{create_tasks_result}
use bauhinia_agent.Planning.Reducer.Revise.{revise_tasks_result}
use bauhinia_agent.Planning.Reducer.Outcome.{Outcome}
use bauhinia_agent.Planning.Session.{Log, rebuild_plan}
use bauhinia_agent.Planning.Session.Replay.{IsGood, CurrentIsGood, plan_events, rebuild_plan_sound}
use bauhinia_agent.Planning.Service.Calls.{Call, reduce, run, update_plan, create_plan}
use bauhinia_agent.Planning.Service.Commits.{Commits, call_outcome}
use bauhinia_agent.Planning.Service.Logs.{
  called, empty, failed_call_keeps_log, second_writer_conflicts, Reachable-rebuilds,
}
use bauhinia_agent.Planning.Samples.{
  task, program, diamond, ring, values, raw_task, raw_update, created_log, started_log,
}

once : Unique (ids diamond.tasks)
once = (refl, (refl, (refl, (refl, tt))))

diamond_valid : IsValid diamond
unfolding program
diamond_valid = (validate_plan_iff diamond).0 refl

validate_plan_iff_example : (validate_plan ring ≡ ok tt) ↔ IsValid ring
validate_plan_iff_example = validate_plan_iff ring

topological_levels_outcome_example :
    ((ls : List (List String)) × (topological_levels ring ≡ ok ls))
    ⊎ (topological_levels ring ≡ err (plan_error cycle))
topological_levels_outcome_example = topological_levels_outcome ring (refl, (refl, tt))

topological_levels_order_example : Unique {A = String} ("a" ∷ "b" ∷ "c" ∷ "d" ∷ [])
unfolding program
topological_levels_order_example =
    (topological_levels_order diamond (("a" ∷ []) ∷ ("b" ∷ "c" ∷ []) ∷ ("d" ∷ []) ∷ []) once refl).0

project_plan_views_example :
    topological_levels diamond ≡ ok (project_plan_views diamond diamond_valid).0
project_plan_views_example = (project_plan_views diamond diamond_valid).1

ordered_tasks_stable_example :
    IsSorted (ordered_tasks diamond)
    × ((n : ℕ) → of_order n (ordered_tasks diamond) ≡ of_order n diamond.tasks)
ordered_tasks_stable_example = ordered_tasks_stable diamond

abbrev reassign : TaskPatch
reassign = record {
  id = "d";
  status = some cancelled;
  owner = owned (some "ada");
  add_depends_on = "a" ∷ [];
  remove_depends_on = "b" ∷ [];
}

abbrev last_task : Task
last_task = record {
  id = "d";
  content = "work";
  status = completed;
  depends_on = "b" ∷ "c" ∷ [];
  owner = none;
  order = 3;
}

-- The diamond with its running task completed.
abbrev advanced : ReductionResult
advanced = record {
  plan = record {
    mode = dag;
    revision = 5;
    tasks =
        task "d" pending ("b" ∷ "c" ∷ []) 3
        ∷ task "a" completed [] 0
        ∷ task "b" completed ("a" ∷ []) 1
        ∷ task "c" pending ("a" ∷ []) 2
        ∷ [];
  };
  changes = updated "b" (some completed) unset [] [] ∷ [];
  changed = true;
}

update_tasks_result_example : Outcome diamond advanced
unfolding program
update_tasks_result_example =
    (update_tasks_result diamond (int (pos 4)) (values (raw_update "b" "completed" ∷ [])) advanced
      once refl).1

-- The diamond with one text revised.
abbrev reworded : ReductionResult
reworded = record {
  plan = record diamond {
    revision = 5;
    tasks =
        task "d" pending ("b" ∷ "c" ∷ []) 3
        ∷ record (task "a" completed [] 0) { content = "plan" }
        ∷ task "b" in_progress ("a" ∷ []) 1
        ∷ task "c" pending ("a" ∷ []) 2
        ∷ [];
  };
  changes = revised "a" "plan" ∷ [];
  changed = true;
}

revise_tasks_result_example : Outcome diamond reworded
unfolding program
revise_tasks_result_example =
    (revise_tasks_result diamond (int (pos 4))
      (values (object (entry "id" (str "a") (entry "content" (str "plan") end)) ∷ [])) reworded once
      refl).1

-- The first plan, of one task.
abbrev first_plan : ReductionResult
first_plan = record {
  plan = record { mode = linear; revision = 1; tasks = task "a" pending [] 0 ∷ [] };
  changes = created (task "a" pending [] 0) ∷ [];
  changed = true;
}

create_tasks_result_example : int (pos 0) ≡ int (pos (plan_revision none))
unfolding program
create_tasks_result_example =
    (create_tasks_result none (int (pos 0)) (str "linear") (values (raw_task "a" ∷ [])) false
      first_plan refl).0

plan_round_trip_iff_example :
    (plan_from_dict (plan_to_dict diamond) ≡ ok diamond) ↔ IsWellFormed diamond
plan_round_trip_iff_example = plan_round_trip_iff diamond

plan_from_dict_canonical_example : plan_from_dict (plan_to_dict diamond) ≡ ok diamond
unfolding program
plan_from_dict_canonical_example = plan_from_dict_canonical (plan_to_dict diamond) diamond refl

diamond-IsGood : IsGood diamond
unfolding program
diamond-IsGood = record { formed = (plan_round_trip_iff diamond).0 refl; valid = diamond_valid }

abbrev created_plan : TaskPlan
created_plan = record {
  mode = linear;
  revision = 1;
  tasks = task "a" pending [] 0 ∷ task "b" pending [] 1 ∷ [];
}

rebuild_plan_sound_example : CurrentIsGood (some created_plan) × (1 ≡ plan_events created_log)
unfolding program
rebuild_plan_sound_example = rebuild_plan_sound created_log (some created_plan) refl

abbrev next_plan : TaskPlan
next_plan = record diamond { revision = 1 }

next_plan-IsGood : IsGood next_plan
unfolding program
next_plan-IsGood = record {
  formed = (plan_round_trip_iff next_plan).0 refl;
  valid = (validate_plan_iff next_plan).0 refl;
}

abbrev start_b : Call
start_b = update_plan (int (pos 2)) (values (raw_update "b" "in_progress" ∷ []))

failed_call_keeps_log_example : started_log ≡ started_log
unfolding program
failed_call_keeps_log_example =
    failed_call_keeps_log none start_b started_log started_log
      (command_error (invalid_plan many_in_progress)) refl

abbrev start_a : Call
start_a = update_plan (int (pos 1)) (values (raw_update "a" "in_progress" ∷ []))

abbrev cancel_a : Call
cancel_a = update_plan (int (pos 1)) (values (raw_update "a" "cancelled" ∷ []))

call_outcome_example :
    ((e : Error) × (reduce start_a (some created_plan) ≡ err e)
      × (run none start_a created_log ≡ (err e, created_log)))
    ⊎ ((r : ReductionResult) × (reduce start_a (some created_plan) ≡ ok r)
        × Commits none start_a created_log (some created_plan) r)
unfolding program
call_outcome_example = call_outcome none start_a created_log (some created_plan) refl

second_writer_conflicts_example :
    run none cancel_a started_log ≡ (err (command_error (revision_conflict 1 2)), started_log)
unfolding program
second_writer_conflicts_example =
    second_writer_conflicts none none start_a cancel_a created_log started_log (some created_plan) _
      refl refl refl refl

abbrev first_log : Log
first_log =
    (run none (create_plan (str "linear") (int (pos 0)) (values (raw_task "a" ∷ [])) false) []).1

Reachable-rebuilds_example :
    (current : Option TaskPlan) × (rebuild_plan first_log ≡ ok current)
    × CurrentIsGood current
    × (plan_revision current ≡ plan_events first_log)
Reachable-rebuilds_example = Reachable-rebuilds first_log (
    called none (create_plan (str "linear") (int (pos 0)) (values (raw_task "a" ∷ [])) false) []
      empty)
