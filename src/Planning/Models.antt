-- ===== src/Planning/Models.antt =====
-- planning/models.py: serialization of tasks and plans.
pub mod RoundTrip
use bauhinia_agent.Common.{
  ℕ, suc, String, not, Option, none, some, List, [], ◌∷◌, map, if◌then◌else◌, string_eq, elem,
  Result, ok, err, ◌>>=◌, ◌>>◌, require, is_blank,
}
use bauhinia_agent.Common.Int.{pos}
use bauhinia_agent.Planning.Values.{
  TaskStatus, TaskPlanMode, Task, TaskPlan, name, Value, null, int, str, list, object, Items,
  Fields, end, field, items, of_items, find, get_or, status_text, mode_text, status_of_text,
  mode_of_text,
}
use bauhinia_agent.Planning.Errors.{
  PlanError, task_not_object, plan_not_object, tasks_not_list, item_not_object, not_non_blank,
  not_string_or_null, not_non_negative, unknown_mode, unknown_status, not_string_list,
  not_non_blank_list, duplicate_task,
}

abbrev pub Parsed : Type 0 → Type 0
Parsed A = Result PlanError A

require_non_blank_string : Value → String → Parsed String
unfolding is_blank
require_non_blank_string (str s) label = if is_blank s then err (not_non_blank label) else ok s
require_non_blank_string _ label = err (not_non_blank label)

require_optional_string : Value → String → Parsed (Option String)
require_optional_string null label = ok none
require_optional_string (str s) label = ok (some s)
require_optional_string _ label = err (not_string_or_null label)

require_non_negative_int : Value → String → Parsed ℕ
require_non_negative_int (int (pos n)) label = ok n
require_non_negative_int _ label = err (not_non_negative label)

require_mode : Value → Parsed TaskPlanMode
unfolding mode_of_text
require_mode (str s) = elim (mode_of_text s) [ none ↦ err (unknown_mode (str s)) | some m ↦ ok m ]
require_mode v = err (unknown_mode v)

require_status : Value → Parsed TaskStatus
unfolding status_of_text
require_status (str s) = elim (status_of_text s) [
  | none ↦ err (unknown_status (str s))
  | some m ↦ ok m
]
require_status v = err (unknown_status v)

require_entries : List Value → String → Parsed (List String)
unfolding is_blank
require_entries [] label = ok []
require_entries (str s ∷ vs) label = do
  require (not (is_blank s)) (not_non_blank_list label)
  rest ← require_entries vs label
  ok (s ∷ rest)
require_entries (_ ∷ vs) label = err (not_non_blank_list label)

require_string_list : Value → String → Parsed (List String)
unfolding require_entries
require_string_list (list vs) label = require_entries (items vs) label
require_string_list _ label = err (not_string_list label)

require_unique_task_ids : List String → List Task → Parsed (Unit {0})
require_unique_task_ids seen [] = ok tt
require_unique_task_ids seen (t ∷ ts) = do
  require (not (elem t.id seen)) (duplicate_task t.id)
  require_unique_task_ids (t.id ∷ seen) ts

parse_task : Fields → Parsed Task
unfolding find require_non_blank_string require_status require_string_list require_optional_string
    require_non_negative_int
parse_task payload = do
  task_id ← require_non_blank_string (get_or null "id" payload) "id"
  content ← require_non_blank_string (get_or null "content" payload) "content"
  status ← require_status (get_or (str "pending") "status" payload)
  depends_on ← require_string_list (get_or (list Items.nil) "depends_on" payload) "depends_on"
  owner ← require_optional_string (get_or null "owner" payload) "owner"
  order ← require_non_negative_int (get_or (int (pos 0)) "order" payload) "order"
  ok (record {
    id = task_id;
    content = content;
    status = status;
    depends_on = depends_on;
    owner = owner;
    order = order;
  })

-- `Task.from_dict`
unfoldable pub task_from_dict : Value → Parsed Task
unfolding parse_task
task_from_dict (object payload) = parse_task payload
task_from_dict _ = err task_not_object

parse_tasks : ℕ → List Value → Parsed (List Task)
unfolding task_from_dict
parse_tasks index [] = ok []
parse_tasks index (object payload ∷ vs) = do
  parsed ← task_from_dict (object payload)
  rest ← parse_tasks (suc index) vs
  ok (parsed ∷ rest)
parse_tasks index (_ ∷ vs) = err (item_not_object index)

require_list : Value → Parsed (List Value)
require_list (list vs) = ok (items vs)
require_list _ = err tasks_not_list

parse_plan : Fields → Parsed TaskPlan
unfolding find require_mode require_non_negative_int require_list parse_tasks
    require_unique_task_ids
parse_plan payload = do
  mode ← require_mode (get_or null "mode" payload)
  number ← require_non_negative_int (get_or null "revision" payload) "revision"
  raw_tasks ← require_list (get_or null "tasks" payload)
  tasks ← parse_tasks 0 raw_tasks
  require_unique_task_ids [] tasks
  ok (record { mode = mode; revision = number; tasks = tasks })

-- `TaskPlan.from_dict`
unfoldable pub plan_from_dict : Value → Parsed TaskPlan
unfolding parse_plan
plan_from_dict (object payload) = parse_plan payload
plan_from_dict _ = err plan_not_object

abbrev pub optional_text : Option String → Value
optional_text none = null
optional_text (some s) = str s

abbrev pub entry : String → Value → Fields → Fields
entry n v fs = field (name n) v fs

-- `Task.to_dict`
unfoldable pub task_to_dict : Task → Value
task_to_dict t = object (
    entry "id" (str t.id) (
      entry "content" (str t.content) (
        entry "status" (str (status_text t.status)) (
          entry "depends_on" (list (of_items (map str t.depends_on)))
            (entry "owner" (optional_text t.owner) (entry "order" (int (pos t.order)) end))))))

-- `TaskPlan.to_dict`
unfoldable pub plan_to_dict : TaskPlan → Value
unfolding task_to_dict
plan_to_dict p = object (
    entry "mode" (str (mode_text p.mode)) (
      entry "revision" (int (pos p.revision))
        (entry "tasks" (list (of_items (map task_to_dict p.tasks))) end)))
