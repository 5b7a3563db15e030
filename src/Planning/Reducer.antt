-- ===== src/Planning/Reducer.antt =====
-- planning/reducer.py: the commands on a task plan.
pub mod Outcome
pub mod Edit
pub mod Patches
pub mod Update
pub mod Revise
pub mod Create
pub mod WellFormed
use Prim.Native.Nat.{max}
use bauhinia_agent.Common.{
  ℕ, suc, ◌+◌, String, Bool, true, false, not, ◌&&◌, Option, none, some, List, [], ◌∷◌, ◌++◌, map,
  if◌then◌else◌, ◌==◌, nat_eq, string_eq, elem, all, filter, is_empty, Result, ok, err, ◌>>=◌, ◌>>◌,
  require, map_err,
}
use bauhinia_agent.Common.Dict.{Dict, get, put}
use bauhinia_agent.Planning.Values.{
  TaskStatus, TaskPlanMode, Task, TaskPlan, TaskPatch, OwnerPatch, unset, owned, TaskRevision,
  Value, status_eq, mode_eq,
}
use bauhinia_agent.Planning.Errors.{
  root, item, CommandError, mode_switch, initial_plan_empty, unfinished_tasks, new_plan_empty,
  duplicate_created, invalid_plan, unknown_task, Error, plan_error, command_error,
}
use bauhinia_agent.Planning.Projection.{Raises, task_id, is_terminal, tasks_by_id}
use bauhinia_agent.Planning.Validation.{validate_plan}
use bauhinia_agent.Planning.Commands.{
  Command, require_revision, parse_mode, require_list, parse_created_task, parse_task_patch,
  parse_task_revision, parse_all, require_unique_command_ids,
}

-- What a command reports of one task: the task as created, or the fields that it changed.
pub data Change : Type 0 where
  created : Task → Change
  updated :
      (id : String) (status : Option TaskStatus) (owner : OwnerPatch) (removed added : List String)
      → Change
  revised : (id content : String) → Change

pub record ReductionResult : Type 0 where
  pub plan : TaskPlan
  pub changes : List Change
  pub changed : Bool

-- A parser raises `TaskPlanCommandError`.
abbrev pub lift {ℓ} : {A : Type ℓ} → Result CommandError A → Result Error A
lift = map_err command_error

-- `TaskPlanError` becomes `TaskPlanCommandError`; no other exception is caught.
as_command_error : Error → Error
as_command_error (plan_error e) = command_error (invalid_plan e)
as_command_error e = e

unfoldable pub validate_candidate : TaskPlan → Raises (Unit {0})
unfolding as_command_error
validate_candidate plan = map_err as_command_error (validate_plan plan)

unfoldable pub unchanged : TaskPlan → ReductionResult
unchanged plan = record { plan = plan; changes = []; changed = false }

-- `max((task.order for task in tasks), default=-1) + 1`
unfoldable pub next_order : List Task → ℕ
next_order [] = 0
next_order (t ∷ ts) = max (t.order + 1) (next_order ts)

-- The loop over the tasks to add. `ids` are the ids that are taken.
unfoldable pub add_tasks : List String → ℕ → ℕ → List Value → Command (List Task)
unfolding parse_created_task
add_tasks ids base index [] = ok []
add_tasks ids base index (v ∷ vs) = do
  t ← parse_created_task v (item "tasks" index)
  require (not (elem t.id ids)) (duplicate_created t.id)
  rest ← add_tasks (t.id ∷ ids) base (suc index) vs
  ok (record t { order = base + index } ∷ rest)

abbrev pub plan_revision : Option TaskPlan → ℕ
plan_revision none = 0
plan_revision (some p) = p.revision

-- The guards on the current plan, in the order of the source.
unfoldable pub check_current :
    Option TaskPlan → TaskPlanMode → Bool → List Value → Command (Unit {0})
check_current none mode start_new_plan raw = require (not (is_empty raw)) initial_plan_empty
check_current (some p) mode false raw = require (mode == p.mode) (mode_switch p.mode mode)
check_current (some p) mode true raw = do
  require (mode == p.mode) (mode_switch p.mode mode)
  require (all (λ t. is_terminal t.status) p.tasks) unfinished_tasks
  require (not (is_empty raw)) new_plan_empty

abbrev pub existing_tasks : Option TaskPlan → Bool → List Task
existing_tasks (some p) false = p.tasks
existing_tasks _ _ = []

unfoldable pub build_plan :
    Option TaskPlan → TaskPlanMode → List Task → List Task → Raises ReductionResult
unfolding unchanged
build_plan (some p) mode existing [] = ok (unchanged p)
build_plan current mode existing additions =
    let candidate : TaskPlan = record {
      mode = mode;
      revision = plan_revision current + 1;
      tasks = existing ++ additions;
    } in
    do
      validate_candidate candidate
      ok (record { plan = candidate; changes = map created additions; changed = true })

unfoldable pub create_tasks :
    Option TaskPlan
    → (expected_revision mode tasks : Value) → (start_new_plan : Bool) → Raises ReductionResult
create_tasks current expected_revision mode tasks start_new_plan = do
  lift (require_revision expected_revision (plan_revision current))
  normalized ← lift (parse_mode mode)
  raw ← lift (require_list tasks (root "tasks"))
  lift (check_current current normalized start_new_plan raw)
  let existing = existing_tasks current start_new_plan
  additions ← lift (add_tasks (map task_id existing) (next_order existing) 0 raw)
  build_plan current normalized existing additions

unfoldable pub replacement : Dict Task → Task → Task
unfolding get
replacement replacements t = elim (get t.id replacements) [ none ↦ t | some u ↦ u ]

unfoldable pub changed_result : TaskPlan → Dict Task → List Change → Raises ReductionResult
changed_result plan replacements changes =
    let candidate : TaskPlan = record plan {
      revision = plan.revision + 1;
      tasks = map (replacement replacements) plan.tasks;
    } in
    do
      validate_candidate candidate
      ok (record { plan = candidate; changes = changes; changed = true })

-- `if not changes: … unchanged …`
unfoldable pub finish : TaskPlan → Dict Task → List Change → Raises ReductionResult
unfolding unchanged
finish plan replacements [] = ok (unchanged plan)
finish plan replacements (c ∷ cs) = changed_result plan replacements (c ∷ cs)

-- The fields of a task under a patch, and what the patch changes of each.
unfoldable pub patch_status : Option TaskStatus → TaskStatus → TaskStatus × Option TaskStatus
patch_status none s = (s, none)
patch_status (some n) s = if n == s then (s, none) else (n, some n)

abbrev optional_beq : Option String → Option String → Bool
optional_beq none none = true
optional_beq (some a) (some b) = a == b
optional_beq _ _ = false

unfoldable pub patch_owner : OwnerPatch → Option String → Option String × OwnerPatch
patch_owner unset o = (o, unset)
patch_owner (owned n) o = if optional_beq n o then (o, unset) else (n, owned n)

unfoldable pub patch_dependencies :
    (remove add dependencies : List String) → List String × List String × List String
patch_dependencies remove add dependencies =
    let removed = filter (λ d. elem d dependencies) remove in
    let kept = filter (λ d. not (elem d removed)) dependencies in
    let added = filter (λ d. not (elem d kept)) add in (kept ++ added, removed, added)

abbrev texts_beq : List String → List String → Bool
texts_beq [] [] = true
texts_beq (x ∷ xs) (y ∷ ys) = x == y && texts_beq xs ys
texts_beq _ _ = false

-- The task after a patch, with its change, if it differs from the task before.
unfoldable pub apply_patch : TaskPatch → Task → Task × Change
apply_patch p t =
    let (status, status_change) = patch_status p.status t.status in
    let (owner, owner_change) = patch_owner p.owner t.owner in
    let (dependencies, removed, added) =
      patch_dependencies p.remove_depends_on p.add_depends_on t.depends_on in
    (
      record t { status = status; owner = owner; depends_on = dependencies },
      updated p.id status_change owner_change removed added,
    )

-- `task != original`; a patch leaves the id, the content and the order alone.
unfoldable pub differs : Task → Task → Bool
differs t u = not (
    t.status == u.status
    && optional_beq t.owner u.owner
    && texts_beq t.depends_on u.depends_on
    && t.id == u.id
    && t.content == u.content
    && t.order == u.order)

abbrev pub Edits : Type 0
Edits = Dict Task × List Change

-- `if b: replacements[id] = t; changes.append(change)`
abbrev pub record_if : Bool → String → Task → Change → Edits → Edits
record_if b id t change (replacements, changes) =
    if b then (put id t replacements, changes ++ change ∷ []) else (replacements, changes)

abbrev pub record_edit : String → Edits → Task → Task × Change → Edits
record_edit id edits original (t, change) = record_if (differs t original) id t change edits

-- `replacements.get(id, task_by_id.get(id))`
abbrev pub find_task : String → Dict Task → Dict Task → Option Task
find_task id replacements task_by_id = elim (get id replacements) [
  | none ↦ get id task_by_id
  | some t ↦ some t
]

unfoldable pub apply_patches : Dict Task → Edits → List TaskPatch → Command Edits
apply_patches task_by_id edits [] = ok edits
apply_patches task_by_id edits (p ∷ ps) = elim (find_task p.id edits.0 task_by_id) [
  | none ↦ err (unknown_task p.id)
  | some original ↦
      apply_patches task_by_id (record_edit p.id edits original (apply_patch p original)) ps
]

unfoldable pub update_tasks :
    TaskPlan → (expected_revision updates : Value) → Raises ReductionResult
update_tasks plan expected_revision updates = do
  lift (require_revision expected_revision plan.revision)
  raw ← lift (require_list updates (root "updates"))
  patches ← lift (parse_all parse_task_patch "updates" 0 raw)
  lift (require_unique_command_ids [] (map (λ p. p.id) patches))
  edits ← lift (apply_patches (tasks_by_id plan.tasks) ([], []) patches)
  finish plan edits.0 edits.1

abbrev pub record_revision : Edits → Task → TaskRevision → Edits
record_revision edits t r =
    record_if (not (t.content == r.content)) r.id (record t { content = r.content })
      (revised r.id r.content) edits

unfoldable pub apply_revisions : Dict Task → Edits → List TaskRevision → Command Edits
apply_revisions task_by_id edits [] = ok edits
apply_revisions task_by_id edits (r ∷ rs) = elim (get r.id task_by_id) [
  | none ↦ err (unknown_task r.id)
  | some t ↦ apply_revisions task_by_id (record_revision edits t r) rs
]

unfoldable pub revise_tasks :
    TaskPlan → (expected_revision revisions : Value) → Raises ReductionResult
revise_tasks plan expected_revision revisions = do
  lift (require_revision expected_revision plan.revision)
  raw ← lift (require_list revisions (root "revisions"))
  parsed ← lift (parse_all parse_task_revision "revisions" 0 raw)
  lift (require_unique_command_ids [] (map (λ r. r.id) parsed))
  edits ← lift (apply_revisions (tasks_by_id plan.tasks) ([], []) parsed)
  finish plan edits.0 edits.1
