-- ===== src/Planning/Validation/Facts.antt =====
-- The displayed tasks and the dictionaries that `validate_plan` reads, in terms of the plan's tasks.
use bauhinia_agent.Common.{
  none, Option, beq_refl, All-pure, ◌≢◌, suc, String, ◌≡◌, refl, ◌∙◌, ap, true, ◌&&◌, List, [], ◌∷◌,
  map, ◌==◌, nat_eq, string_eq, elem, All, All-map, Unique, length, filter, arith, some, inl, inr,
  Bool-cases,
}
use bauhinia_agent.Planning.Values.{
  completed, TaskPlanMode, linear, dag, Task, TaskPlan, mode_eq, status_eq,
}
use bauhinia_agent.Common.Dict.{get}
use bauhinia_agent.Planning.Projection.{ordered_tasks, effective_dependencies}
use bauhinia_agent.Planning.Projection.Sort.{All-sort, ids, elem-sort, any-sort, length-filter-sort}
use bauhinia_agent.Planning.Projection.Levels.{IsKnown}
use bauhinia_agent.Planning.Projection.Lookup.{dependencies_of, is_done, before, get-effective}
use bauhinia_agent.Planning.Validation.{is_in_progress}
use bauhinia_agent.Planning.Validation.Spec.{EdgesFit}

module _ {ℓ} (P : String → Type ℓ) where
  pub All-of_ids : (ts : List Task) → All P (ids ts) → All (λ t. P t.id) ts
  All-of_ids [] h = tt
  All-of_ids (t ∷ ts) h = (h.0, All-of_ids ts h.1)

  pub All-ids : (ts : List Task) → All (λ t. P t.id) ts → All P (ids ts)
  All-ids [] h = tt
  All-ids (t ∷ ts) h = (h.0, All-ids ts h.1)

pub length-map : {A B : Type 0} (f : A → B) (xs : List A) → length (map f xs) ≡ length xs
length-map f [] = refl
length-map f (x ∷ xs) = ap suc (length-map f xs)

found :
    {ds : List String} (o : Option (List String))
    → o ≡ some ds
    → o ≡ some (elim o [ none ↦ [] | some xs ↦ xs ])
found none h = cc
found (some xs) h = refl

module _ (plan : TaskPlan) where
  abbrev pub shown : List Task
  shown = ordered_tasks plan

  pub elem-shown : (x : String) → elem x (ids shown) ≡ elem x (ids plan.tasks)
  unfolding ordered_tasks
  elem-shown x = elem-sort x plan.tasks

  -- The ids before an id are ids of the list.
  before-known : (id : String) (ts : List Task) → All (λ x. elem x (ids ts) ≡ true) (before id ts)
  unfolding before
  before-known id [] = tt
  before-known id (t ∷ ts) = elim (Bool-cases (t.id == id)) [
    | inl here ↦ rw here tt
    | inr later ↦ rw later (
      rw (beq_refl t.id),
      All-map (λ x. elem x (ids ts) ≡ true) (λ x. elem x (ids (t ∷ ts)) ≡ true) (before id ts)
          (λ x h. ground (arith, h)) (before-known id ts),
    )
  ]

  pub length-shown :
      length (filter is_in_progress (ordered_tasks plan))
      ≡ length (filter is_in_progress plan.tasks)
  unfolding ordered_tasks
  length-shown = length-filter-sort is_in_progress plan.tasks

  pub done-shown : (x : String) → is_done (ordered_tasks plan) x ≡ is_done plan.tasks x
  unfolding is_done ordered_tasks
  done-shown x = any-sort (λ u. u.id == x && u.status == completed) plan.tasks

  module _ (once : Unique (ids plan.tasks)) where
    pub IsKnown-shown : All (IsKnown (effective_dependencies plan)) (ids shown)
    IsKnown-shown = All-ids (IsKnown (effective_dependencies plan)) shown (
        All-map (λ t. get t.id (effective_dependencies plan) ≡ some (dependencies_of plan t))
          (λ t. IsKnown (effective_dependencies plan) t.id) shown (λ t h. found _ h)
          (get-effective plan once))

    -- What a task waits for is in the plan, if the declared dependencies are.
    pub waits-known :
        All (EdgesFit (ids plan.tasks)) plan.tasks
        → (mode : TaskPlanMode)
        → All
            (λ t.
              All
                (λ x. elem x (ids shown) ≡ true)
                (dependencies_of (record plan { mode = mode }) t))
            shown
    unfolding dependencies_of ordered_tasks
    waits-known fit linear =
        All-pure (λ t. All (λ x. elem x (ids shown) ≡ true) (before t.id shown)) shown
          (λ t. before-known t.id shown)
    waits-known fit dag =
        All-sort (λ t. All (λ x. elem x (ids shown) ≡ true) t.depends_on) plan.tasks
          (All-map (EdgesFit (ids plan.tasks))
            (λ t. All (λ x. elem x (ids shown) ≡ true) t.depends_on) plan.tasks
            (λ t h.
              All-map (λ x. (x ≢ t.id) × (elem x (ids plan.tasks) ≡ true))
                (λ x. elem x (ids shown) ≡ true) t.depends_on (λ x k. elem-shown x ∙ k.1) h.0)
            fit)
