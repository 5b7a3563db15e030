-- ===== src/Planning/Projection/Sort.antt =====
-- `ordered_tasks` rearranges the tasks and sorts them, keeping the order of equals.
use bauhinia_agent.Common.{
  any, Bool, sym, ℕ, ◌≤◌, suc, String, ◌≡◌, refl, ◌∙◌, true, false, ◌||◌, List, [], ◌∷◌, map, ◌==◌,
  string_eq, elem, All, All-map, Unique, length, arith, inl, inr, Bool-cases, leb, filter, nat_eq,
}
use native.Mathlib.Nat.{le_trans}
use bauhinia_agent.Planning.Values.{Task, TaskPlan}
use bauhinia_agent.Planning.Projection.{insert_task, sort_tasks, ordered_tasks, task_id}

abbrev pub ids : List Task → List String
ids ts = map task_id ts

elem-insert :
    (x : String) (t : Task) (us : List Task)
    → elem x (ids (insert_task t us)) ≡ (t.id == x || elem x (ids us))
unfolding insert_task
elem-insert x t [] = refl
elem-insert x t (u ∷ us) = ground (arith, elem-insert x t us)

pub elem-sort : (x : String) (ts : List Task) → elem x (ids (sort_tasks ts)) ≡ elem x (ids ts)
unfolding sort_tasks
elem-sort x [] = refl
elem-sort x (t ∷ ts) = ground (arith, elem-insert x t (sort_tasks ts), elem-sort x ts)

Unique-insert :
    (t : Task) (us : List Task)
    → elem t.id (ids us) ≡ false
    → Unique (ids us)
    → Unique (ids (insert_task t us))
unfolding insert_task
Unique-insert t [] n u = (refl, tt)
Unique-insert t (v ∷ us) n u = elim (Bool-cases (leb t.order v.order)) [
  | inl first ↦ rw first (n, u)
  | inr later ↦ rw later (
    elem-insert v.id t us
        ∙ ground (arith, u.0, string_eq.equal_iff v.id t.id, string_eq.equal_iff t.id v.id),
    Unique-insert t us (ground arith) u.1,
  )
]

pub Unique-sort : (ts : List Task) → Unique (ids ts) → Unique (ids (sort_tasks ts))
unfolding sort_tasks
Unique-sort [] u = tt
Unique-sort (t ∷ ts) u =
    Unique-insert t (sort_tasks ts) (elem-sort t.id ts ∙ u.0) (Unique-sort ts u.1)

length-insert : (t : Task) (us : List Task) → length (insert_task t us) ≡ suc (length us)
unfolding insert_task
length-insert t [] = refl
length-insert t (u ∷ us) = ground (arith, length-insert t us)

module _ {ℓ} (P : Task → Type ℓ) where
  All-insert : (t : Task) (us : List Task) → P t → All P us → All P (insert_task t us)
  unfolding insert_task
  All-insert t [] h k = (h, tt)
  All-insert t (u ∷ us) h k = elim (Bool-cases (leb t.order u.order)) [
    | inl first ↦ rw first (h, k)
    | inr later ↦ rw later (k.0, All-insert t us h k.1)
  ]

  All-of_insert : (t : Task) (us : List Task) → All P (insert_task t us) → P t × All P us
  unfolding insert_task
  All-of_insert t [] h = h
  All-of_insert t (u ∷ us) h = elim (Bool-cases (leb t.order u.order)) [
    | inl first ↦ rw first at h
    | inr later ↦
        let k : P u × All P (insert_task t us) = rw later at h in
        let rest = All-of_insert t us k.1 in (rest.0, (k.0, rest.1))
  ]

  pub All-sort : (ts : List Task) → All P ts → All P (sort_tasks ts)
  unfolding sort_tasks
  All-sort [] h = tt
  All-sort (t ∷ ts) h = All-insert t (sort_tasks ts) h.0 (All-sort ts h.1)

  pub All-of_sort : (ts : List Task) → All P (sort_tasks ts) → All P ts
  unfolding sort_tasks
  All-of_sort [] h = tt
  All-of_sort (t ∷ ts) h =
      let rest = All-of_insert t (sort_tasks ts) h in (rest.0, All-of_sort ts rest.1)

pub length-sort : (ts : List Task) → length (sort_tasks ts) ≡ length ts
unfolding sort_tasks
length-sort [] = refl
length-sort (t ∷ ts) = ground (arith, length-insert t (sort_tasks ts), length-sort ts)

-- Tasks in display order: none stands before a task of a smaller order.
abbrev pub IsSorted : List Task → Type 0
IsSorted [] = Unit
IsSorted (t ∷ ts) = All (λ u. t.order ≤ u.order) ts × IsSorted ts

-- The tasks of one order, in the order in which they stand.
abbrev pub of_order : ℕ → List Task → List Task
of_order n = filter (λ t. t.order == n)

insert-IsSorted : (t : Task) (us : List Task) → IsSorted us → IsSorted (insert_task t us)
unfolding insert_task
insert-IsSorted t [] s = (tt, tt)
insert-IsSorted t (u ∷ us) s = elim (Bool-cases (leb t.order u.order)) [
  | inl first ↦ rw first (
    (
      leb→le t.order u.order first,
      All-map (λ w. u.order ≤ w.order) (λ w. t.order ≤ w.order) us
          (λ w h. le_trans (leb→le t.order u.order first) h) s.0,
    ),
    s,
  )
  | inr later ↦
      rw later
        (All-insert (λ w. u.order ≤ w.order) t us (ground arith) s.0, insert-IsSorted t us s.1)
]
  where
    leb→le : (a b : ℕ) → leb a b ≡ true → a ≤ b
    leb→le a b h = ground arith

of_order-insert :
    (n : ℕ) (t : Task) (us : List Task) → of_order n (insert_task t us) ≡ of_order n (t ∷ us)
unfolding insert_task
of_order-insert n t [] = refl
of_order-insert n t (u ∷ us) = ground (arith, of_order-insert n t us)

sort-IsSorted : (ts : List Task) → IsSorted (sort_tasks ts)
unfolding sort_tasks
sort-IsSorted [] = tt
sort-IsSorted (t ∷ ts) = insert-IsSorted t (sort_tasks ts) (sort-IsSorted ts)

of_order-sort : (n : ℕ) (ts : List Task) → of_order n (sort_tasks ts) ≡ of_order n ts
unfolding sort_tasks
of_order-sort n [] = refl
of_order-sort n (t ∷ ts) = ground (arith, of_order-insert n t (sort_tasks ts), of_order-sort n ts)

-- The display order of a plan is sorted by the tasks' orders, and the tasks of each order stand in
-- it as they stand in the plan: it is the stable sort of the plan's tasks.
pub ordered_tasks_stable :
    (plan : TaskPlan)
    → IsSorted (ordered_tasks plan)
      × ((n : ℕ) → of_order n (ordered_tasks plan) ≡ of_order n plan.tasks)
unfolding ordered_tasks
ordered_tasks_stable plan = (sort-IsSorted plan.tasks, λ n. of_order-sort n plan.tasks)

Unique-of_insert :
    (t : Task) (us : List Task)
    → Unique (ids (insert_task t us))
    → (elem t.id (ids us) ≡ false) × Unique (ids us)
unfolding insert_task
Unique-of_insert t [] u = (refl, tt)
Unique-of_insert t (v ∷ us) u = elim (Bool-cases (leb t.order v.order)) [
  | inl first ↦ rw first at u
  | inr later ↦
      let w : Unique (ids (v ∷ insert_task t us)) = rw later at u in
      let rest = Unique-of_insert t us w.1 in
      (
        ground (
          arith,
          elem-insert v.id t us,
          w.0,
          rest.0,
          string_eq.equal_iff v.id t.id,
          string_eq.equal_iff t.id v.id,
        ),
        (ground (arith, elem-insert v.id t us, w.0), rest.1),
      )
]

pub Unique-of_sort : (ts : List Task) → Unique (ids (sort_tasks ts)) → Unique (ids ts)
unfolding sort_tasks
Unique-of_sort [] u = tt
Unique-of_sort (t ∷ ts) u =
    let rest = Unique-of_insert t (sort_tasks ts) u in
    (sym (elem-sort t.id ts) ∙ rest.0, Unique-of_sort ts rest.1)

-- A count of tasks, and whether some task passes a test, do not depend on the order.
module _ (p : Task → Bool) where
  length-filter-insert :
      (t : Task) (us : List Task)
      → length (filter p (insert_task t us)) ≡ length (filter p (t ∷ us))
  unfolding insert_task
  length-filter-insert t [] = refl
  length-filter-insert t (u ∷ us) = ground (arith, length-filter-insert t us)

  pub length-filter-sort :
      (ts : List Task) → length (filter p (sort_tasks ts)) ≡ length (filter p ts)
  unfolding sort_tasks
  length-filter-sort [] = refl
  length-filter-sort (t ∷ ts) =
      ground (arith, length-filter-insert t (sort_tasks ts), length-filter-sort ts)

  any-insert : (t : Task) (us : List Task) → any p (insert_task t us) ≡ (p t || any p us)
  unfolding insert_task
  any-insert t [] = refl
  any-insert t (u ∷ us) = ground (arith, any-insert t us)

  pub any-sort : (ts : List Task) → any p (sort_tasks ts) ≡ any p ts
  unfolding sort_tasks
  any-sort [] = refl
  any-sort (t ∷ ts) = ground (arith, any-insert t (sort_tasks ts), any-sort ts)
