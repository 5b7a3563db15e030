-- ===== src/Planning/Validation/Sound.antt =====
-- A plan that `validate_plan` accepts is valid.
use bauhinia_agent.Common.{
  each, ◌<◌, All-of_filter, none, All-pure, ◌≢◌, ℕ, ◌≤◌, String, ◌≡◌, refl, sym, ◌∙◌, ap, Bool,
  true, false, ◌&&◌, not, List, [], ◌∷◌, map, ◌==◌, nat_eq, string_eq, elem, All, All-map, All-and,
  Unique, length, filter, arith, ok, ◌>>=◌, >>=-eq-ok, require-eq-ok, each-eq-ok, some, inl, inr,
  ◌⊎◌, all, all_iff, leb,
}
use bauhinia_agent.Planning.Values.{
  TaskPlanMode, linear, in_progress, Task, TaskPlan, mode_eq, status_eq,
}
use mathlib.Core.Path.{subst}
use bauhinia_agent.Common.Dict.{keys, get, of_list_full}
use bauhinia_agent.Planning.Projection.{
  ordered_tasks, sort_tasks, tasks_by_id, effective_dependencies, dependencies_completed,
  topological_levels,
}
use bauhinia_agent.Planning.Projection.Sort.{ids, Unique-of_sort, All-of_sort}
use bauhinia_agent.Planning.Projection.Levels.{rank_in, Ordered, levels-Ordered}
use bauhinia_agent.Planning.Projection.Lookup.{
  dependencies_of, is_done, keys-map, by_id-keys, get-effective, dependencies_completed_lem,
}
use bauhinia_agent.Planning.Validation.{
  is_in_progress, check_dependencies, check_ready, validate_plan,
}
use bauhinia_agent.Planning.Validation.Facts.{
  All-of_ids, length-map, elem-shown, IsKnown-shown, waits-known, done-shown, length-shown,
}
use bauhinia_agent.Planning.Validation.Checks.{check_dependencies_sound}
use bauhinia_agent.Planning.Validation.Spec.{EdgesFit, Falls, MayRun, IsValid}

pub one_of_alone :
    (mode : TaskPlanMode) (n : ℕ)
    → not (mode == linear && not (leb n 1)) ≡ true
    → mode ≡ linear
    → n ≤ 1
one_of_alone mode n h e = ground arith

module _ (plan : TaskPlan) where
  abbrev shown : List Task
  shown = ordered_tasks plan

  All-of_shown : (P : Task → Type 0) → All P shown → All P plan.tasks
  unfolding ordered_tasks
  All-of_shown P = All-of_sort P plan.tasks

  Unique-of_count : (length (tasks_by_id shown) == length shown) ≡ true → Unique (ids plan.tasks)
  unfolding tasks_by_id ordered_tasks
  Unique-of_count h = Unique-of_sort plan.tasks (
      rw (keys-map (λ t. t) (sort_tasks plan.tasks)) at (
        of_list_full (map (λ t. (t.id, t)) (sort_tasks plan.tasks)) (
          (nat_eq.equal_iff _ _).0 h
          ∙ sym (length-map (λ (t : Task). (t.id, t)) (sort_tasks plan.tasks)))))

  checked_true :
      (t : Task) (b : Bool)
      → dependencies_completed (tasks_by_id shown) (effective_dependencies plan) t ≡ ok b
      → check_ready (tasks_by_id shown) (effective_dependencies plan) t ≡ ok tt
      → b ≡ true
  unfolding check_ready
  checked_true t true e h = refl
  checked_true t false e h = cc (rw e at h)

  module _ (once : Unique (ids plan.tasks)) where
    edges_of_checks :
        All (λ t. check_dependencies (keys (tasks_by_id shown)) t.id [] t.depends_on ≡ ok tt) shown
        → All (EdgesFit (ids plan.tasks)) plan.tasks
    edges_of_checks h = All-of_shown (EdgesFit (ids plan.tasks)) (
        All-map (λ t. check_dependencies (keys (tasks_by_id shown)) t.id [] t.depends_on ≡ ok tt)
          (EdgesFit (ids plan.tasks)) shown (λ t k. fits t k) h)
      where
        fits :
            (t : Task)
            → check_dependencies (keys (tasks_by_id shown)) t.id [] t.depends_on ≡ ok tt
            → EdgesFit (ids plan.tasks) t
        fits t k =
            let (fit, _, distinct) =
              check_dependencies_sound (keys (tasks_by_id shown)) t.id [] t.depends_on k in
            (
              All-map (λ x. (x ≢ t.id) × (elem x (keys (tasks_by_id shown)) ≡ true))
                  (λ x. (x ≢ t.id) × (elem x (ids plan.tasks) ≡ true)) t.depends_on
                  (λ x m.
                    (m.0, sym (elem-shown plan x) ∙ ap (elem x) (sym (by_id-keys plan once)) ∙ m.1))
                  fit,
              distinct,
            )

    pub Falls-of_levels :
        (ls : List (List String))
        → topological_levels plan ≡ ok ls
        → All (Falls plan (rank_in ls)) plan.tasks
    unfolding topological_levels
    Falls-of_levels ls h = All-of_shown (Falls plan (rank_in ls)) (
        All-map
          (λ t.
            (get t.id (effective_dependencies plan) ≡ some (dependencies_of plan t))
            × Ordered (effective_dependencies plan) [] ls t.id)
          (Falls plan (rank_in ls)) shown (λ t k. falls t k.0 k.1)
          (All-and (λ t. get t.id (effective_dependencies plan) ≡ some (dependencies_of plan t))
            (λ t. Ordered (effective_dependencies plan) [] ls t.id) shown (get-effective plan once)
            (All-of_ids (Ordered (effective_dependencies plan) [] ls) shown (
              levels-Ordered (effective_dependencies plan) (length (ids shown)) [] (ids shown)
                (IsKnown-shown plan once)
                (All-pure (λ i. elem i [] ≡ false) (ids shown) (λ i. refl)) h))))
      where
        falls :
            (t : Task)
            → get t.id (effective_dependencies plan) ≡ some (dependencies_of plan t)
            → Ordered (effective_dependencies plan) [] ls t.id
            → Falls plan (rank_in ls) t
        falls t e o =
            All-map (λ x. (elem x [] ≡ true) ⊎ (rank_in ls x < rank_in ls t.id))
              (λ x. rank_in ls x < rank_in ls t.id) (dependencies_of plan t)
              (λ x k. elim k [ inl m ↦ cc | inr below ↦ below ])
              (subst
                (λ q.
                  All (λ x. (elem x [] ≡ true) ⊎ (rank_in ls x < rank_in ls t.id))
                    (elim q [ none ↦ [] | some ds ↦ ds ]))
                e o)

    runs_of_checks :
        All (EdgesFit (ids plan.tasks)) plan.tasks
        → All
            (λ t. check_ready (tasks_by_id shown) (effective_dependencies plan) t ≡ ok tt)
            (filter is_in_progress shown)
        → All (MayRun plan) plan.tasks
    runs_of_checks fit h = All-of_shown (MayRun plan) (
        All-map (λ t. Waits t × Answer t × (is_in_progress t ≡ true → Ready t)) (MayRun plan) shown
          (λ t k. runs t k.0 k.1 k.2)
          (all_three shown (waits-known plan once fit plan.mode)
            (dependencies_completed_lem plan once) (All-of_filter Ready is_in_progress shown h)))
      where
        Waits : Task → Type 0
        Waits t = All (λ x. elem x (ids shown) ≡ true) (dependencies_of plan t)

        Answer : Task → Type 0
        Answer t =
            Waits t
            → dependencies_completed (tasks_by_id shown) (effective_dependencies plan) t
              ≡ ok (all (is_done shown) (dependencies_of plan t))

        Ready : Task → Type 0
        Ready t = check_ready (tasks_by_id shown) (effective_dependencies plan) t ≡ ok tt

        all_three :
            (ts : List Task)
            → All Waits ts
            → All Answer ts
            → All (λ t. is_in_progress t ≡ true → Ready t) ts
            → All (λ t. Waits t × Answer t × (is_in_progress t ≡ true → Ready t)) ts
        all_three [] a b c = tt
        all_three (t ∷ ts) a b c = ((a.0, b.0, c.0), all_three ts a.1 b.1 c.1)

        runs : (t : Task) → Waits t → Answer t → (is_in_progress t ≡ true → Ready t) → MayRun plan t
        runs t waits answer ready running =
            All-map (λ x. is_done shown x ≡ true) (λ x. is_done plan.tasks x ≡ true)
              (dependencies_of plan t) (λ x m. sym (done-shown plan x) ∙ m)
              ((all_iff (is_done shown) (dependencies_of plan t)).0 (
                checked_true t _ (answer waits)
                  (ready ((status_eq.equal_iff t.status in_progress).1 running))))

  pub validate_plan_sound : validate_plan plan ≡ ok tt → IsValid plan
  unfolding validate_plan
  validate_plan_sound h =
      let (count, h1) = require-eq-ok (length (tasks_by_id shown) == length shown) _ _ h in
      let (u1, checks, h2) =
        >>=-eq-ok
          (each (λ t. check_dependencies (keys (tasks_by_id shown)) t.id [] t.depends_on) shown) _
          h1 in
      let (u2, levelled, h3) = >>=-eq-ok (topological_levels plan >>= λ _. ok tt) _ h2 in
      let (ls, levels, _) = >>=-eq-ok (topological_levels plan) _ levelled in
      let (alone, h4) =
        require-eq-ok
          (not (plan.mode == linear && not (leb (length (filter is_in_progress shown)) 1))) _ _
          h3 in
      let once = Unique-of_count count in
      let edges = edges_of_checks once (each-eq-ok _ shown checks) in
      record {
        unique = once;
        edges = edges;
        rank = rank_in ls;
        acyclic = Falls-of_levels once ls levels;
        single = λ l.
            rw (length-shown plan) at
              (one_of_alone plan.mode (length (filter is_in_progress shown)) alone l);
        started = runs_of_checks once edges (each-eq-ok _ (filter is_in_progress shown) h4);
      }
