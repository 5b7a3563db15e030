-- ===== src/Planning/Views.antt =====
-- The derived views of planning/projection.py, on a valid plan.
use native.Mathlib.Nat.{le_refl}
use bauhinia_agent.Common.{
  Bool-cases, filter_congr, String, ◌≡◌, refl, ◌∙◌, ap, Bool, false, ◌&&◌, not, List, [], ◌∷◌, map,
  ◌==◌, string_eq, elem, All, All-map, All-and, All-pure, Unique, filter, arith, ok, err, all,
  filter_ok_pure, length, ◌⊎◌, inl, inr,
}
use bauhinia_agent.Planning.Projection.Lookup.{ordered-Unique, apart, dependencies_of, is_done}
use bauhinia_agent.Planning.Values.{TaskStatus, pending, in_progress, Task, TaskPlan, status_eq}
use bauhinia_agent.Planning.Errors.{cycle, plan_error}
use bauhinia_agent.Planning.Projection.{
  ordered_tasks, tasks_by_id, effective_dependencies, dependencies_completed, is_ready,
  ready_task_ids, blocked_task_ids, topological_levels, project_plan, is_terminal, task_id,
}
use bauhinia_agent.Planning.Projection.Sort.{ids}
use bauhinia_agent.Planning.Projection.Levels.{flat, rank_in}
use bauhinia_agent.Planning.Projection.Acyclic.{levels_outcome}
use bauhinia_agent.Planning.Projection.Partition.{Unique-levels}
use bauhinia_agent.Planning.Validation.Facts.{IsKnown-shown, elem-shown}
use bauhinia_agent.Planning.Validation.Spec.{IsValid, Falls}
use bauhinia_agent.Planning.Validation.Sound.{Falls-of_levels}
use bauhinia_agent.Planning.Validation.Complete.{levels_of_valid, ready_lem}

-- With unique ids `topological_levels` returns levels or raises that there is a cycle: it never
-- reads a missing key, and the number of tasks is rounds enough.
pub topological_levels_outcome :
    (plan : TaskPlan)
    → Unique (ids plan.tasks)
    → ((ls : List (List String)) × (topological_levels plan ≡ ok ls))
      ⊎ (topological_levels plan ≡ err (plan_error cycle))
unfolding topological_levels
topological_levels_outcome plan once =
    levels_outcome (effective_dependencies plan) (length (ids (ordered_tasks plan))) []
      (ids (ordered_tasks plan)) (IsKnown-shown plan once) (le_refl _)

-- The levels of a plan with unique ids hold the id of each task, each id once and no other id, and
-- each task stands on a later level than all that it waits for.
pub topological_levels_order :
    (plan : TaskPlan) (ls : List (List String))
    → Unique (ids plan.tasks)
    → topological_levels plan ≡ ok ls
    → Unique (flat ls)
      × ((x : String) → elem x (flat ls) ≡ elem x (ids plan.tasks))
      × All (Falls plan (rank_in ls)) plan.tasks
unfolding topological_levels
topological_levels_order plan ls once h =
    let (distinct, same) =
      Unique-levels (effective_dependencies plan) (length (ids (ordered_tasks plan))) []
        (ids (ordered_tasks plan)) (IsKnown-shown plan once)
        (All-pure (λ i. elem i [] ≡ false) (ids (ordered_tasks plan)) (λ i. refl))
        (ordered-Unique plan once) h in
    (distinct, λ x. same x ∙ elem-shown plan x, Falls-of_levels plan once ls h)

-- A task that is pending, and waits for completed tasks only.
abbrev pub may_start : TaskPlan → Task → Bool
may_start plan t = t.status == pending && all (is_done plan.tasks) (dependencies_of plan t)

abbrev pub must_wait : TaskPlan → Task → Bool
must_wait plan t = t.status == pending && not (all (is_done plan.tasks) (dependencies_of plan t))

-- A test of a list's tasks, read back from the ids of those that pass it.
elem-ids-filter :
    (p : Task → Bool) (ts : List Task)
    → Unique (ids ts)
    → All (λ t. elem t.id (map task_id (filter p ts)) ≡ p t) ts
elem-ids-filter p [] once = tt
elem-ids-filter p (t ∷ ts) once = (
  first p t ts once.0,
  All-map (λ s. ((t.id == s.id) ≡ false) × (elem s.id (map task_id (filter p ts)) ≡ p s))
      (λ s. elem s.id (map task_id (filter p (t ∷ ts))) ≡ p s) ts (λ s h. later p t ts s h.0 h.1)
      (All-and (λ s. (t.id == s.id) ≡ false) (λ s. elem s.id (map task_id (filter p ts)) ≡ p s) ts
        (apart t.id ts once.0) (elem-ids-filter p ts once.1)),
)
  where
    none_passes :
        (p : Task → Bool) (x : String) (ts : List Task)
        → elem x (ids ts) ≡ false
        → elem x (map task_id (filter p ts)) ≡ false
    none_passes p x [] h = refl
    none_passes p x (u ∷ us) h = ground (arith, none_passes p x us)

    first :
        (p : Task → Bool) (t : Task) (ts : List Task)
        → elem t.id (ids ts) ≡ false
        → elem t.id (map task_id (filter p (t ∷ ts))) ≡ p t
    first p t ts h = ground (arith, none_passes p t.id ts h, string_eq.equal_iff t.id t.id)

    later :
        (p : Task → Bool) (t : Task) (ts : List Task) (s : Task)
        → (t.id == s.id) ≡ false
        → elem s.id (map task_id (filter p ts)) ≡ p s
        → elem s.id (map task_id (filter p (t ∷ ts))) ≡ p s
    later p t ts s other h = ground (arith, other, h)

module _ (plan : TaskPlan) (v : IsValid plan) where
  abbrev shown : List Task
  shown = ordered_tasks plan

  ready_eq : ready_task_ids plan ≡ ok (map task_id (filter (may_start plan) shown))
  unfolding ready_task_ids
  ready_eq = rw (
      filter_ok_pure (is_ready (tasks_by_id shown) (effective_dependencies plan)) (may_start plan)
        shown
        (All-map
          (λ t.
            dependencies_completed (tasks_by_id shown) (effective_dependencies plan) t
            ≡ ok (all (is_done plan.tasks) (dependencies_of plan t)))
          (λ t.
            is_ready (tasks_by_id shown) (effective_dependencies plan) t ≡ ok (may_start plan t))
          shown (λ t h. answer t h) (ready_lem plan v)))
    where
      answer :
          (t : Task)
          → dependencies_completed (tasks_by_id shown) (effective_dependencies plan) t
            ≡ ok (all (is_done plan.tasks) (dependencies_of plan t))
          → is_ready (tasks_by_id shown) (effective_dependencies plan) t ≡ ok (may_start plan t)
      answer t h = elim (Bool-cases (t.status == pending)) [
        | inl waits ↦ rw (waits, h)
        | inr other ↦ rw other
      ]

  blocked_eq : blocked_task_ids plan ≡ ok (map task_id (filter (must_wait plan) shown))
  unfolding blocked_task_ids
  blocked_eq = rw (ready_eq) (
      ap (λ ts. ok (map task_id ts))
        (filter_congr
          (λ t.
            not (is_terminal t.status)
            && not (t.status == in_progress)
            && not (elem t.id (map task_id (filter (may_start plan) shown))))
          (must_wait plan) shown
          (All-map (λ t. elem t.id (map task_id (filter (may_start plan) shown)) ≡ may_start plan t)
            (λ t.
              (not (is_terminal t.status)
                && not (t.status == in_progress)
                && not (elem t.id (map task_id (filter (may_start plan) shown))))
              ≡ must_wait plan t)
            shown (λ t h. rw h (split t.status (all (is_done plan.tasks) (dependencies_of plan t))))
            (elem-ids-filter (may_start plan) shown (ordered-Unique plan v.unique)))))
    where
      split :
          (s : TaskStatus) (b : Bool)
          → (not (is_terminal s) && not (s == in_progress) && not (s == pending && b))
            ≡ (s == pending && not b)
      split s b = ground arith

  -- On a valid plan `project_plan` raises nothing. In display order, the ready tasks are the pending
  -- ones that wait for completed tasks only, and the blocked tasks are the other pending ones.
  pub project_plan_views :
      (ls : List (List String)) × (topological_levels plan ≡ ok ls)
      × (project_plan plan
          ≡ ok (record {
            mode = plan.mode;
            revision = plan.revision;
            ready_task_ids = map task_id (filter (may_start plan) (ordered_tasks plan));
            blocked_task_ids = map task_id (filter (must_wait plan) (ordered_tasks plan));
            topological_levels = ls;
            tasks = plan.tasks;
          }))
  unfolding project_plan
  project_plan_views =
      let (ls, found) = levels_of_valid plan v in (ls, found, rw (ready_eq, blocked_eq, found))
