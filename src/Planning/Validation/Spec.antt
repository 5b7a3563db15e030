-- ===== src/Planning/Validation/Spec.antt =====
-- What a valid plan is, with no reference to how `validate_plan` finds out.
use bauhinia_agent.Common.{
  ℕ, ◌≤◌, ◌<◌, String, ◌≡◌, ◌≢◌, true, List, string_eq, elem, All, Unique, length, filter,
}
use bauhinia_agent.Planning.Values.{linear, in_progress, Task, TaskPlan}
use bauhinia_agent.Planning.Projection.Sort.{ids}
use bauhinia_agent.Planning.Projection.Lookup.{dependencies_of, is_done}
use bauhinia_agent.Planning.Validation.{is_in_progress}

-- The declared dependencies are other tasks of the plan, none of them twice.
abbrev pub EdgesFit : List String → Task → Type 0
EdgesFit known t = All (λ x. (x ≢ t.id) × (elem x known ≡ true)) t.depends_on × Unique t.depends_on

-- A rank falls from each task to what it waits for: no task waits for itself, however long the way.
abbrev pub Falls : TaskPlan → (String → ℕ) → Task → Type 0
Falls plan rank t = All (λ x. rank x < rank t.id) (dependencies_of plan t)

-- A task is in progress only if all that it waits for is completed.
abbrev pub MayRun : TaskPlan → Task → Type 0
MayRun plan t =
    t.status ≡ in_progress → All (λ x. is_done plan.tasks x ≡ true) (dependencies_of plan t)

pub record IsValid (plan : TaskPlan) : Type 0 where
  pub unique : Unique (ids plan.tasks)
  pub edges : All (EdgesFit (ids plan.tasks)) plan.tasks
  pub rank : String → ℕ
  pub acyclic : All (Falls plan rank) plan.tasks
  pub single : plan.mode ≡ linear → length (filter is_in_progress plan.tasks) ≤ 1
  pub started : All (MayRun plan) plan.tasks
