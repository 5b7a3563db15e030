-- ===== src/Planning/Session.antt =====
-- The plans of a session log: `append_task_plan_updated` of context/writer.py and the replay of
-- `task_plan_updated` in context/store.py.
pub mod Replay
use bauhinia_agent.Common.{
  ℕ, ◌+◌, ◌&&◌, String, not, ◌&&◌, Option, none, some, List, [], ◌∷◌, ◌++◌, map, ◌==◌, nat_eq, ok,
  err, ◌>>=◌, ◌>>◌, require, map_err, is_blank,
}
use bauhinia_agent.Common.Int.{pos}
use bauhinia_agent.Planning.Values.{
  TaskPlan, TaskStatus, OwnerPatch, unset, owned, Value, null, int, str, list, object, Fields, end,
  of_items, find, get_or, status_text,
}
use bauhinia_agent.Planning.Errors.{
  invalid_snapshot, revision_not_int, revision_chain, revision_mismatch, bad_operation,
  not_next_revision, event_error, Error, plan_error, corrupt_error, writer_error,
}
use bauhinia_agent.Planning.Models.{
  plan_from_dict, plan_to_dict, task_to_dict, entry, optional_text,
}
use bauhinia_agent.Planning.Projection.{Raises}
use bauhinia_agent.Planning.Validation.{validate_plan}
use bauhinia_agent.Planning.Reducer.{plan_revision, Change, created, updated, revised}

-- An event of the session log. Of another event its type is kept, and what `_apply_event` raises on it
-- in its place in the log, if it raises; `none` is an event that is read.
pub data SessionEvent : Type 0 where
  task_plan_updated : Fields → SessionEvent
  other_event : (type : String) → (problem : Option String) → SessionEvent

abbrev pub Log : Type 0
Log = List SessionEvent

abbrev texts : List String → Value
texts ss = list (of_items (map str ss))

abbrev status_entry : Option TaskStatus → Fields → Fields
status_entry none fs = fs
status_entry (some s) fs = entry "status" (str (status_text s)) fs

abbrev owner_entry : OwnerPatch → Fields → Fields
owner_entry unset fs = fs
owner_entry (owned o) fs = entry "owner" (optional_text o) fs

abbrev texts_entry : String → List String → Fields → Fields
texts_entry n [] fs = fs
texts_entry n (s ∷ ss) fs = entry n (texts (s ∷ ss)) fs

-- The dictionaries that the reducers report.
unfoldable pub change_to_dict : Change → Value
unfolding task_to_dict
change_to_dict (created t) = task_to_dict t
change_to_dict (updated id status owner removed added) = object (
    entry "id" (str id) (
      status_entry status (
        owner_entry owner
          (texts_entry "remove_depends_on" removed (texts_entry "add_depends_on" added end)))))
change_to_dict (revised id content) =
    object (entry "id" (str id) (entry "content" (str content) end))

unfoldable pub plan_event :
    (previous_revision : ℕ) (operation : String) → List Change → TaskPlan → SessionEvent
plan_event previous operation changes plan = task_plan_updated (
    entry "previous_revision" (int (pos previous)) (
      entry "revision" (int (pos plan.revision)) (
        entry "operation" (str operation) (
          entry "changes" (list (of_items (map change_to_dict changes)))
            (entry "snapshot" (plan_to_dict plan) end)))))

-- `append_task_plan_updated` of a plan; the log is the one before, unless the event is appended.
unfoldable pub append_task_plan_updated :
    (previous_revision : ℕ) (operation : String) → List Change → TaskPlan → Log → Raises Log
append_task_plan_updated previous operation changes snapshot log = do
  require (not (is_blank operation)) (writer_error bad_operation)
  plan ← map_err plan_error (plan_from_dict (plan_to_dict snapshot))
  validate_plan plan
  require (plan.revision == previous + 1) (writer_error not_next_revision)
  ok (log ++ plan_event previous operation changes plan ∷ [])

-- `except (TaskPlanError, TypeError)`
as_corrupt : Error → Error
as_corrupt (plan_error e) = corrupt_error (invalid_snapshot e)
as_corrupt e = e

unfoldable pub read_snapshot : Value → Raises TaskPlan
read_snapshot v = do plan ← map_err plan_error (plan_from_dict v); validate_plan plan; ok plan

-- Negative revisions never fit: the expected one is not negative.
unfoldable pub check_chain : Value → Value → ℕ → ℕ → Raises (Unit {0})
check_chain (int (pos previous)) (int (pos revision)) expected actual = do
  require (previous == expected && revision == previous + 1) (corrupt_error revision_chain)
  require (revision == actual) (corrupt_error revision_mismatch)
check_chain (int previous) (int revision) expected actual = err (corrupt_error revision_chain)
check_chain _ _ expected actual = err (corrupt_error revision_not_int)

unfoldable pub apply_task_plan_payload : Option TaskPlan → Fields → Raises (Option TaskPlan)
unfolding as_corrupt
apply_task_plan_payload current payload = do
  plan ← map_err as_corrupt (read_snapshot (get_or null "snapshot" payload))
  check_chain (get_or null "previous_revision" payload) (get_or null "revision" payload)
      (plan_revision current) plan.revision
  ok (some plan)

apply_event : Option TaskPlan → SessionEvent → Raises (Option TaskPlan)
unfolding apply_task_plan_payload
apply_event current (task_plan_updated payload) = apply_task_plan_payload current payload
apply_event current (other_event kind none) = ok current
apply_event current (other_event kind (some problem)) = err (event_error problem)

replay : Option TaskPlan → Log → Raises (Option TaskPlan)
unfolding apply_event
replay current [] = ok current
replay current (e ∷ es) = do next ← apply_event current e; replay next es

-- `rebuild_session_view(session).task_plan`
unfoldable pub rebuild_plan : Log → Raises (Option TaskPlan)
unfolding replay
rebuild_plan log = replay none log
