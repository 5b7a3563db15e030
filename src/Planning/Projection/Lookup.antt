-- ===== src/Planning/Projection/Lookup.antt =====
-- The dictionaries of a plan with unique ids hold what its tasks say.
use bauhinia_agent.Planning.Projection.Sort.{All-sort, ids, Unique-sort}
use mathlib.Core.List.{append-nil, append_assoc}
use bauhinia_agent.Common.{
  String, ◌≡◌, refl, ◌∙◌, ap, Bool, true, false, ◌&&◌, some, List, [], ◌∷◌, ◌++◌, map, ◌==◌,
  string_eq, beq_refl, elem, All, All-map, All-and, Unique, any, all, arith, ok, Bool-cases, inl,
  inr, if◌then◌else◌, all_ok_pure,
}
use bauhinia_agent.Common.Dict.{get, keys, of_list-Unique}
use bauhinia_agent.Planning.Values.{
  TaskPlanMode, linear, dag, Task, TaskPlan, completed, status_eq, mode_eq,
}
use bauhinia_agent.Planning.Projection.{
  ordered_tasks, sort_tasks, with_predecessors, dependency_items, effective_dependencies,
  tasks_by_id, index, is_completed, dependencies_completed,
}

-- The ids before an id.
unfoldable pub before : String → List Task → List String
before id [] = []
before id (u ∷ us) = if u.id == id then [] else u.id ∷ before id us

-- What a task of the plan waits for: its own dependencies, or in a linear plan all tasks that are
-- displayed before it.
unfoldable pub dependencies_of : TaskPlan → Task → List String
dependencies_of plan t = elim plan.mode [
  | linear ↦ before t.id (ordered_tasks plan)
  | dag ↦ t.depends_on
]

-- Some task of that id is completed.
unfoldable pub is_done : List Task → String → Bool
is_done tasks x = any (λ u. u.id == x && u.status == completed) tasks

-- No task of the list has the id.
abbrev pub Apart : String → List Task → Type 0
Apart x ts = All (λ t. (x == t.id) ≡ false) ts

pub apart : (x : String) (ts : List Task) → elem x (ids ts) ≡ false → Apart x ts
apart x [] h = tt
apart x (t ∷ ts) h = (
  ground (arith, string_eq.equal_iff x t.id, string_eq.equal_iff t.id x),
  apart x ts (ground arith),
)

module _ {V : Type 0} (f : Task → V) where
  pub keys-map : (ts : List Task) → keys (map (λ t. (t.id, f t)) ts) ≡ ids ts
  keys-map [] = refl
  keys-map (t ∷ ts) = ap (λ ks. t.id ∷ ks) (keys-map ts)

  pub get-map_self :
      (ts : List Task)
      → Unique (ids ts)
      → All (λ t. get t.id (map (λ u. (u.id, f u)) ts) ≡ some (f t)) ts
  unfolding get
  get-map_self [] u = tt
  get-map_self (t ∷ ts) u = (
    rw (beq_refl t.id),
    All-map (λ s. ((t.id == s.id) ≡ false) × (get s.id (map (λ u. (u.id, f u)) ts) ≡ some (f s)))
        (λ s. get s.id (map (λ u. (u.id, f u)) (t ∷ ts)) ≡ some (f s)) ts (λ s h. rw (h.0) h.1)
        (All-and (λ s. (t.id == s.id) ≡ false)
          (λ s. get s.id (map (λ u. (u.id, f u)) ts) ≡ some (f s)) ts (apart t.id ts u.0)
          (get-map_self ts u.1)),
  )

keys-with_predecessors :
    (acc : List String) (ts : List Task) → keys (with_predecessors acc ts) ≡ ids ts
unfolding with_predecessors
keys-with_predecessors acc [] = refl
keys-with_predecessors acc (t ∷ ts) =
    ap (λ ks. t.id ∷ ks) (keys-with_predecessors (acc ++ t.id ∷ []) ts)

get-with_predecessors :
    (acc : List String) (ts : List Task)
    → Unique (ids ts)
    → All (λ t. get t.id (with_predecessors acc ts) ≡ some (acc ++ before t.id ts)) ts
unfolding get with_predecessors before
get-with_predecessors acc [] u = tt
get-with_predecessors acc (t ∷ ts) u = (
  rw (beq_refl t.id, append-nil),
  All-map
      (λ s.
        ((t.id == s.id) ≡ false)
        × (get s.id (with_predecessors (acc ++ t.id ∷ []) ts)
            ≡ some ((acc ++ t.id ∷ []) ++ before s.id ts)))
      (λ s. get s.id (with_predecessors acc (t ∷ ts)) ≡ some (acc ++ before s.id (t ∷ ts))) ts
      (λ s h. rw (h.0) (h.1 ∙ ap some (append_assoc acc (t.id ∷ []) (before s.id ts))))
      (All-and (λ s. (t.id == s.id) ≡ false)
        (λ s.
          get s.id (with_predecessors (acc ++ t.id ∷ []) ts)
          ≡ some ((acc ++ t.id ∷ []) ++ before s.id ts))
        ts (apart t.id ts u.0) (get-with_predecessors (acc ++ t.id ∷ []) ts u.1)),
)

pub ordered-Unique : (plan : TaskPlan) → Unique (ids plan.tasks) → Unique (ids (ordered_tasks plan))
unfolding ordered_tasks
ordered-Unique plan once = Unique-sort plan.tasks once

-- The ids that `effective_dependencies` has, and what it has at each.
module _ (plan : TaskPlan) (once : Unique (ids plan.tasks)) where
  items-keys :
      (mode : TaskPlanMode) → Unique (keys (dependency_items mode plan.tasks (ordered_tasks plan)))
  unfolding ordered_tasks
  items-keys linear =
      rw (keys-with_predecessors [] (sort_tasks plan.tasks)) (Unique-sort plan.tasks once)
  items-keys dag = rw (keys-map (λ t. t.depends_on) plan.tasks) once

  pub effective-items :
      effective_dependencies plan ≡ dependency_items plan.mode plan.tasks (ordered_tasks plan)
  unfolding effective_dependencies
  effective-items = of_list-Unique _ (items-keys plan.mode)

  get-items :
      (mode : TaskPlanMode)
      → All
          (λ t.
            get t.id (dependency_items mode plan.tasks (ordered_tasks plan))
            ≡ some (dependencies_of (record plan { mode = mode }) t))
          (ordered_tasks plan)
  unfolding ordered_tasks dependencies_of
  get-items linear = get-with_predecessors [] (sort_tasks plan.tasks) (Unique-sort plan.tasks once)
  get-items dag =
      All-sort (λ t. get t.id (map (λ u. (u.id, u.depends_on)) plan.tasks) ≡ some t.depends_on)
        plan.tasks (get-map_self (λ t. t.depends_on) plan.tasks once)

  pub get-effective :
      All
        (λ t. get t.id (effective_dependencies plan) ≡ some (dependencies_of plan t))
        (ordered_tasks plan)
  get-effective = rw effective-items (get-items plan.mode)

  pub by_id-items : tasks_by_id (ordered_tasks plan) ≡ map (λ t. (t.id, t)) (ordered_tasks plan)
  unfolding tasks_by_id ordered_tasks
  by_id-items =
      of_list-Unique _
        (rw (keys-map (λ t. t) (sort_tasks plan.tasks)) (Unique-sort plan.tasks once))

  pub by_id-keys : keys (tasks_by_id (ordered_tasks plan)) ≡ ids (ordered_tasks plan)
  by_id-keys = ap keys by_id-items ∙ keys-map (λ t. t) (ordered_tasks plan)

not_done_elsewhere : (x : String) (us : List Task) → Apart x us → is_done us x ≡ false
unfolding is_done
not_done_elsewhere x [] a = refl
not_done_elsewhere x (u ∷ us) a = ground (
  arith,
  a.0,
  string_eq.equal_iff x u.id,
  string_eq.equal_iff u.id x,
  not_done_elsewhere x us a.1,
)

-- A known id is found, and the task's status is the one that `is_done` reads.
get-done :
    (ts : List Task) (x : String)
    → Unique (ids ts)
    → elem x (ids ts) ≡ true
    → (t : Task) × (get x (map (λ u. (u.id, u)) ts) ≡ some t)
      × ((t.status == completed) ≡ is_done ts x)
unfolding get is_done
get-done [] x once m = cc
get-done (t ∷ ts) x once m = elim (Bool-cases (t.id == x)) [
  | inl here ↦ (
    t,
    rw here,
    rw here (
        ground (
          arith,
          not_done_elsewhere x ts
              (rw ((string_eq.equal_iff t.id x).0 here) at (apart t.id ts once.0)),
        )),
  )
  | inr there ↦
      let (u, found, same) = get-done ts x once.1 (rw there at m) in
      (u, rw there found, rw there same)
]

module _ (plan : TaskPlan) (once : Unique (ids plan.tasks)) where
  is_completed_lem :
      (x : String)
      → elem x (ids (ordered_tasks plan)) ≡ true
      → is_completed (tasks_by_id (ordered_tasks plan)) x ≡ ok (is_done (ordered_tasks plan) x)
  unfolding index
  is_completed_lem x m =
      let (t, found, same) = get-done (ordered_tasks plan) x (ordered-Unique plan once) m in
      rw (by_id-items plan once, found, index) (ap ok same)

  -- The test of readiness raises nothing where all dependencies are known.
  pub dependencies_completed_lem :
      All
        (λ t.
          All (λ x. elem x (ids (ordered_tasks plan)) ≡ true) (dependencies_of plan t)
          → dependencies_completed
              (tasks_by_id (ordered_tasks plan))
              (effective_dependencies plan)
              t
            ≡ ok (all (is_done (ordered_tasks plan)) (dependencies_of plan t)))
        (ordered_tasks plan)
  unfolding dependencies_completed
  dependencies_completed_lem =
      All-map (λ t. get t.id (effective_dependencies plan) ≡ some (dependencies_of plan t))
        (λ t.
          All (λ x. elem x (ids (ordered_tasks plan)) ≡ true) (dependencies_of plan t)
          → dependencies_completed (tasks_by_id (ordered_tasks plan)) (effective_dependencies plan)
              t
            ≡ ok (all (is_done (ordered_tasks plan)) (dependencies_of plan t)))
        (ordered_tasks plan) (λ t h known. all_known t h known) (get-effective plan once)
    where
      all_known :
          (t : Task)
          → get t.id (effective_dependencies plan) ≡ some (dependencies_of plan t)
          → All (λ x. elem x (ids (ordered_tasks plan)) ≡ true) (dependencies_of plan t)
          → dependencies_completed
              (tasks_by_id (ordered_tasks plan))
              (effective_dependencies plan)
              t
            ≡ ok (all (is_done (ordered_tasks plan)) (dependencies_of plan t))
      all_known t h known =
          rw (h, index)
            (all_ok_pure (is_completed (tasks_by_id (ordered_tasks plan)))
              (is_done (ordered_tasks plan)) (dependencies_of plan t)
              (All-map (λ x. elem x (ids (ordered_tasks plan)) ≡ true)
                (λ x.
                  is_completed (tasks_by_id (ordered_tasks plan)) x
                  ≡ ok (is_done (ordered_tasks plan) x))
                (dependencies_of plan t) (λ x m. is_completed_lem x m) known))
