-- ===== src/Planning/Validation/Complete.antt =====
-- `validate_plan` accepts every valid plan.
use mathlib.Core.Path.{fun_ext, subst}
use bauhinia_agent.Common.{
  All-pure, ℕ, ◌≤◌, ◌<◌, String, ◌≡◌, ◌≢◌, refl, sym, ◌∙◌, ap, true, false, ◌&&◌, not, List, [],
  ◌∷◌, ◌==◌, nat_eq, string_eq, elem, All, All-map, All-and, All-filter_of, length, filter, arith,
  ok, each, each_ok, none, some, inr, ◌⊎◌, all, all_iff, leb, ◌↔◌,
}
use native.Mathlib.Nat.{le_refl}
use bauhinia_agent.Common.Dict.{keys, get}
use bauhinia_agent.Planning.Values.{
  linear, dag, in_progress, TaskPlanMode, Task, TaskPlan, mode_eq, status_eq,
}
use bauhinia_agent.Planning.Projection.{
  ordered_tasks, tasks_by_id, effective_dependencies, dependencies_completed, topological_levels,
}
use bauhinia_agent.Planning.Projection.Sort.{ids, All-sort}
use bauhinia_agent.Planning.Projection.Acyclic.{Below, levels_total}
use bauhinia_agent.Planning.Projection.Lookup.{
  dependencies_of, is_done, by_id-keys, by_id-items, get-effective, dependencies_completed_lem,
}
use bauhinia_agent.Planning.Validation.{
  is_in_progress, check_dependencies, check_ready, validate_plan,
}
use bauhinia_agent.Planning.Validation.Facts.{
  All-ids, length-map, elem-shown, IsKnown-shown, waits-known, done-shown, length-shown,
}
use bauhinia_agent.Planning.Validation.Checks.{check_dependencies_complete}
use bauhinia_agent.Planning.Validation.Spec.{EdgesFit, Falls, MayRun, IsValid}
use bauhinia_agent.Planning.Validation.Sound.{validate_plan_sound}

alone_of_one :
    (mode : TaskPlanMode) (n : ℕ)
    → (mode ≡ linear → n ≤ 1)
    → not (mode == linear && not (leb n 1)) ≡ true
alone_of_one linear n h = ground (arith, h refl)
alone_of_one dag n h = refl

module _ (plan : TaskPlan) (v : IsValid plan) where
  abbrev shown : List Task
  shown = ordered_tasks plan

  All-shown : (P : Task → Type 0) → All P plan.tasks → All P shown
  unfolding ordered_tasks
  All-shown P = All-sort P plan.tasks

  counted : (length (tasks_by_id shown) == length shown) ≡ true
  counted =
      (nat_eq.equal_iff _ _).1
        (ap length (by_id-items plan v.unique) ∙ length-map (λ (t : Task). (t.id, t)) shown)

  checked :
      each (λ t. check_dependencies (keys (tasks_by_id shown)) t.id [] t.depends_on) shown ≡ ok tt
  checked = each_ok _ shown (
      All-map (EdgesFit (ids plan.tasks))
        (λ t. check_dependencies (keys (tasks_by_id shown)) t.id [] t.depends_on ≡ ok tt) shown
        (λ t h. check_dependencies_complete (keys (tasks_by_id shown)) t.id [] t.depends_on (
          All-map (λ x. (x ≢ t.id) × (elem x (ids plan.tasks) ≡ true))
              (λ x. (x ≢ t.id) × (elem x (keys (tasks_by_id shown)) ≡ true)) t.depends_on
              (λ x m. (m.0, ap (elem x) (by_id-keys plan v.unique) ∙ elem-shown plan x ∙ m.1)) h.0,
          All-pure (λ x. elem x [] ≡ false) t.depends_on (λ x. refl),
          h.1,
        ))
        (All-shown (EdgesFit (ids plan.tasks)) v.edges))

  abbrev Waits : Task → Type 0
  Waits t = All (λ x. elem x (ids shown) ≡ true) (dependencies_of plan t)

  below :
      (t : Task)
      → get t.id (effective_dependencies plan) ≡ some (dependencies_of plan t)
      → Waits t
      → Falls plan v.rank t
      → Below (effective_dependencies plan) v.rank [] (ids shown) t.id
  below t e waits falls =
      subst
        (λ q.
          All (λ x. (elem x [] ≡ true) ⊎ ((elem x (ids shown) ≡ true) × (v.rank x < v.rank t.id)))
            (elim q [ none ↦ [] | some ds ↦ ds ]))
        (sym e)
        (All-map (λ x. (elem x (ids shown) ≡ true) × (v.rank x < v.rank t.id))
          (λ x. (elem x [] ≡ true) ⊎ ((elem x (ids shown) ≡ true) × (v.rank x < v.rank t.id)))
          (dependencies_of plan t) (λ x k. inr (k.0, k.1))
          (All-and (λ x. elem x (ids shown) ≡ true) (λ x. v.rank x < v.rank t.id)
            (dependencies_of plan t) waits falls))

  All-Below :
      (ts : List Task)
      → All (λ t. get t.id (effective_dependencies plan) ≡ some (dependencies_of plan t)) ts
      → All Waits ts
      → All (Falls plan v.rank) ts
      → All (λ t. Below (effective_dependencies plan) v.rank [] (ids shown) t.id) ts
  All-Below [] a b c = tt
  All-Below (t ∷ ts) a b c = (below t a.0 b.0 c.0, All-Below ts a.1 b.1 c.1)

  -- A valid plan has levels.
  pub levels_of_valid : (ls : List (List String)) × (topological_levels plan ≡ ok ls)
  unfolding topological_levels
  levels_of_valid =
      levels_total (effective_dependencies plan) v.rank (length (ids shown)) [] (ids shown)
        (IsKnown-shown plan v.unique)
        (All-ids (Below (effective_dependencies plan) v.rank [] (ids shown)) shown (
          All-Below shown (get-effective plan v.unique)
            (waits-known plan v.unique v.edges plan.mode)
            (All-shown (Falls plan v.rank) v.acyclic)))
        (le_refl _)

  -- The test of readiness of each task, in terms of the plan.
  pub ready_lem :
      All
        (λ t.
          dependencies_completed (tasks_by_id (ordered_tasks plan)) (effective_dependencies plan) t
          ≡ ok (all (is_done plan.tasks) (dependencies_of plan t)))
        (ordered_tasks plan)
  ready_lem = rw (fun_ext (λ x. sym (done-shown plan x))) (
      answers shown (waits-known plan v.unique v.edges plan.mode)
        (dependencies_completed_lem plan v.unique))
    where
      answers :
          (ts : List Task)
          → All Waits ts
          → All
              (λ t.
                Waits t
                → dependencies_completed (tasks_by_id shown) (effective_dependencies plan) t
                  ≡ ok (all (is_done shown) (dependencies_of plan t)))
              ts
          → All
              (λ t.
                dependencies_completed (tasks_by_id shown) (effective_dependencies plan) t
                ≡ ok (all (is_done shown) (dependencies_of plan t)))
              ts
      answers [] a b = tt
      answers (t ∷ ts) a b = (b.0 a.0, answers ts a.1 b.1)

  runs :
      (t : Task)
      → dependencies_completed (tasks_by_id shown) (effective_dependencies plan) t
        ≡ ok (all (is_done plan.tasks) (dependencies_of plan t))
      → MayRun plan t
      → is_in_progress t ≡ true
      → check_ready (tasks_by_id shown) (effective_dependencies plan) t ≡ ok tt
  unfolding check_ready
  runs t e may running = rw (
    e,
    (all_iff (is_done plan.tasks) (dependencies_of plan t)).1
        (may ((status_eq.equal_iff t.status in_progress).0 running)),
  )

  all_run :
      each
        (check_ready (tasks_by_id shown) (effective_dependencies plan))
        (filter is_in_progress shown)
      ≡ ok tt
  all_run = each_ok _ (filter is_in_progress shown) (
      All-filter_of (λ t. check_ready (tasks_by_id shown) (effective_dependencies plan) t ≡ ok tt)
        is_in_progress shown (both shown ready_lem (All-shown (MayRun plan) v.started)))
    where
      both :
          (ts : List Task)
          → All
              (λ t.
                dependencies_completed (tasks_by_id shown) (effective_dependencies plan) t
                ≡ ok (all (is_done plan.tasks) (dependencies_of plan t)))
              ts
          → All (MayRun plan) ts
          → All
              (λ t.
                is_in_progress t ≡ true
                → check_ready (tasks_by_id shown) (effective_dependencies plan) t ≡ ok tt)
              ts
      both [] a b = tt
      both (t ∷ ts) a b = (runs t a.0 b.0, both ts a.1 b.1)

  pub validate_plan_complete : validate_plan plan ≡ ok tt
  unfolding validate_plan
  validate_plan_complete =
      rw
        (
          counted,
          checked,
          levels_of_valid.1,
          alone_of_one plan.mode (length (filter is_in_progress shown))
              (rw (length-shown plan) v.single),
        )
        all_run

-- `validate_plan` accepts a plan exactly if the plan is valid: its ids are unique, each task declares
-- other tasks of the plan as its dependencies and none twice, some rank falls from each task to
-- what it waits for, a linear plan has at most one task in progress, and a task in progress waits
-- only for completed tasks.
pub validate_plan_iff : (plan : TaskPlan) → (validate_plan plan ≡ ok tt) ↔ IsValid plan
validate_plan_iff plan = (validate_plan_sound plan, validate_plan_complete plan)
