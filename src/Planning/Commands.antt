-- ===== src/Planning/Commands.antt =====
-- planning/reducer.py: the parsers of the commands' arguments.
pub mod Checked
use bauhinia_agent.Common.{
  ℕ, suc, String, not, Option, none, some, List, [], ◌∷◌, if◌then◌else◌, ◌==◌, nat_eq, string_eq,
  elem, Result, ok, err, ◌>>=◌, ◌>>◌, require, map_err, is_blank,
}
use bauhinia_agent.Common.Int.{pos}
use bauhinia_agent.Planning.Values.{
  TaskStatus, TaskPlanMode, Task, TaskPatch, OwnerPatch, unset, owned, TaskRevision, Key, name,
  other, Value, null, int, str, list, tuple, object, task, patch, revision, Items, Fields, items,
  field_keys, find, get_or, status_of_text, mode_of_text,
}
use bauhinia_agent.Planning.Errors.{
  Label, item, member, CommandError, bad_revision, revision_conflict, mode_unknown, invalid_task,
  status_unknown, owner_not_string, not_sequence, repeats_value, blank_text, not_list, not_object,
  key_not_string, unknown_field, duplicate_command, add_and_remove,
}
use bauhinia_agent.Planning.Models.{task_from_dict, task_to_dict}

abbrev pub Command : Type 0 → Type 0
Command A = Result CommandError A

unfoldable pub require_revision : Value → ℕ → Command (Unit {0})
require_revision (int (pos expected)) actual =
    if expected == actual then ok tt else err (revision_conflict expected actual)
require_revision _ actual = err bad_revision

unfoldable pub parse_mode : Value → Command TaskPlanMode
unfolding mode_of_text
parse_mode (str s) = elim (mode_of_text s) [ none ↦ err (mode_unknown (str s)) | some m ↦ ok m ]
parse_mode v = err (mode_unknown v)

parse_optional_status : Value → Label → Command (Option TaskStatus)
unfolding status_of_text
parse_optional_status null label = ok none
parse_optional_status (str s) label = elim (status_of_text s) [
  | none ↦ err (status_unknown label (str s))
  | some m ↦ ok (some m)
]
parse_optional_status v label = err (status_unknown label v)

parse_owner : Value → Label → Command (Option String)
parse_owner null label = ok none
parse_owner (str s) label = ok (some s)
parse_owner _ label = err (owner_not_string label)

unfoldable pub require_text : String → Label → Command String
unfolding is_blank
require_text s label = if is_blank s then err (blank_text label) else ok s

require_non_blank_string : Value → Label → Command String
unfolding require_text
require_non_blank_string (str s) label = require_text s label
require_non_blank_string _ label = err (blank_text label)

parse_entries : List String → List Value → Label → Command (List String)
unfolding require_non_blank_string
parse_entries seen [] label = ok []
parse_entries seen (v ∷ vs) label = do
  normalized ← require_non_blank_string v label
  require (not (elem normalized seen)) (repeats_value label normalized)
  rest ← parse_entries (normalized ∷ seen) vs label
  ok (normalized ∷ rest)

parse_string_sequence : Value → Label → Command (List String)
unfolding parse_entries
parse_string_sequence (list vs) label = parse_entries [] (items vs) label
parse_string_sequence (tuple vs) label = parse_entries [] (items vs) label
parse_string_sequence _ label = err (not_sequence label)

unfoldable pub require_list : Value → Label → Command (List Value)
require_list (list vs) label = ok (items vs)
require_list _ label = err (not_list label)

require_text_keys : List Key → Label → Command (Unit {0})
require_text_keys [] label = ok tt
require_text_keys (name n ∷ ks) label = require_text_keys ks label
require_text_keys (other k ∷ ks) label = err (key_not_string label)

require_mapping : Value → Label → Command Fields
unfolding require_text_keys
require_mapping (object payload) label = do require_text_keys (field_keys payload) label; ok payload
require_mapping _ label = err (not_object label)

reject_unknown : List Key → List String → Label → Command (Unit {0})
reject_unknown [] allowed label = ok tt
reject_unknown (name n ∷ ks) allowed label = do
  require (elem n allowed) (unknown_field label n)
  reject_unknown ks allowed label
reject_unknown (other k ∷ ks) allowed label = reject_unknown ks allowed label

parse_fields : Value → List String → Label → Command Fields
unfolding require_mapping reject_unknown
parse_fields v allowed label = do
  payload ← require_mapping v label
  reject_unknown (field_keys payload) allowed label
  ok payload

-- A task to create that is no `Task`.
read_created_task : Value → Label → Command Task
unfolding parse_fields
read_created_task v label = do
  payload ← parse_fields v ("id" ∷ "content" ∷ "status" ∷ "depends_on" ∷ "owner" ∷ []) label
  map_err (invalid_task label) (task_from_dict (object payload))

unfoldable pub parse_created_task : Value → Label → Command Task
unfolding read_created_task task_from_dict task_to_dict
parse_created_task (task t) label = map_err (invalid_task label) (task_from_dict (task_to_dict t))
parse_created_task v label = read_created_task v label

require_texts : List String → List String → Label → Command (Unit {0})
unfolding require_text
require_texts seen [] label = ok tt
require_texts seen (s ∷ ss) label = do
  require_text s label >>= λ _. ok tt
  require (not (elem s seen)) (repeats_value label s)
  require_texts (s ∷ seen) ss label

no_overlap : List String → List String → Label → Command (Unit {0})
no_overlap [] removals label = ok tt
no_overlap (a ∷ additions) removals label = do
  require (not (elem a removals)) (add_and_remove label a)
  no_overlap additions removals label

-- The fields of a patch object have their declared types, so its status and owner are well formed.
validate_patch : TaskPatch → Label → Command (Unit {0})
unfolding require_text require_texts no_overlap
validate_patch p label = do
  require_text p.id (member label "id") >>= λ _. ok tt
  require_texts [] p.add_depends_on (member label "add_depends_on")
  require_texts [] p.remove_depends_on (member label "remove_depends_on")
  no_overlap p.add_depends_on p.remove_depends_on label

parse_owner_field : Option Value → Label → Command OwnerPatch
unfolding parse_owner
parse_owner_field none label = ok unset
parse_owner_field (some v) label = do owner ← parse_owner v label; ok (owned owner)

-- A patch that is no `TaskPatch`.
read_task_patch : Value → Label → Command TaskPatch
unfolding find parse_fields validate_patch require_non_blank_string parse_optional_status
    parse_owner_field parse_string_sequence
read_task_patch v label = do
  payload ←
      parse_fields v ("id" ∷ "status" ∷ "owner" ∷ "add_depends_on" ∷ "remove_depends_on" ∷ []) label
  id ← require_non_blank_string (get_or null "id" payload) (member label "id")
  status ← parse_optional_status (get_or null "status" payload) (member label "status")
  owner ← parse_owner_field (find "owner" payload) (member label "owner")
  added ←
      parse_string_sequence (get_or (list Items.nil) "add_depends_on" payload)
        (member label "add_depends_on")
  removed ←
      parse_string_sequence (get_or (list Items.nil) "remove_depends_on" payload)
        (member label "remove_depends_on")
  let p =
      let made : TaskPatch = record {
        id = id;
        status = status;
        owner = owner;
        add_depends_on = added;
        remove_depends_on = removed;
      } in
      made
  validate_patch p label
  ok p

unfoldable pub parse_task_patch : Value → Label → Command TaskPatch
unfolding read_task_patch validate_patch
parse_task_patch (patch p) label = do validate_patch p label; ok p
parse_task_patch v label = read_task_patch v label

-- A revision that is no `TaskRevision`.
read_task_revision : Value → Label → Command TaskRevision
unfolding find parse_fields require_non_blank_string
read_task_revision v label = do
  payload ← parse_fields v ("id" ∷ "content" ∷ []) label
  id ← require_non_blank_string (get_or null "id" payload) (member label "id")
  content ← require_non_blank_string (get_or null "content" payload) (member label "content")
  ok (record { id = id; content = content })

unfoldable pub parse_task_revision : Value → Label → Command TaskRevision
unfolding read_task_revision require_text
parse_task_revision (revision r) label = do
  id ← require_text r.id (member label "id")
  content ← require_text r.content (member label "content")
  ok (record { id = id; content = content })
parse_task_revision v label = read_task_revision v label

module _ {A : Type 0} where
  -- `tuple(parse(item, field=f"{kind}[{index}]") for index, item in enumerate(raw))`
  unfoldable pub parse_all :
      (Value → Label → Command A) → String → ℕ → List Value → Command (List A)
  parse_all parse kind n [] = ok []
  parse_all parse kind n (v ∷ vs) = do
    x ← parse v (item kind n)
    rest ← parse_all parse kind (suc n) vs
    ok (x ∷ rest)

unfoldable pub require_unique_command_ids : List String → List String → Command (Unit {0})
require_unique_command_ids seen [] = ok tt
require_unique_command_ids seen (id ∷ ids) = do
  require (not (elem id seen)) (duplicate_command id)
  require_unique_command_ids (id ∷ seen) ids
