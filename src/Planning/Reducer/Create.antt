-- ===== src/Planning/Reducer/Create.antt =====
-- `create_tasks`: the tasks of its result.
use bauhinia_agent.Planning.Reducer.{
  validate_candidate, plan_revision, existing_tasks, lift, created, ReductionResult, unchanged,
  next_order, add_tasks, check_current, build_plan, create_tasks,
}
use bauhinia_agent.Common.{
  ◌≢◌, require-eq-ok, ℕ, suc, ◌+◌, ◌<◌, ◌≡◌, refl, Bool, true, false, not, Option, none, some, List,
  [], ◌∷◌, ◌++◌, map, ◌==◌, string_eq, elem, all, All, All-map, all_iff, arith, ok, ◌>>◌, >>=-eq-ok,
  ◌⊎◌, inl, inr, String,
}
use mathlib.Core.Path.{subst}
use Prim.Native.Nat.{max}
use bauhinia_agent.Common.Int.{pos}
use bauhinia_agent.Planning.Values.{Task, TaskPlan, TaskPlanMode, mode_eq, Value, int}
use bauhinia_agent.Planning.Errors.{root, duplicate_created, mode_switch, unfinished_tasks, item}
use bauhinia_agent.Planning.Projection.{task_id, is_terminal}
use bauhinia_agent.Planning.Commands.{
  Command, parse_mode, require_list, parse_created_task, require_revision,
}
use bauhinia_agent.Planning.Models.RoundTrip.{IsNamed}
use bauhinia_agent.Planning.Commands.Checked.{parse_created_task-IsNamed}
use bauhinia_agent.Planning.Reducer.Outcome.{Follows, lift-eq-ok, require_revision_lem, changed-inv}

-- The orders of the tasks go up by one from `n`.
abbrev pub Numbered : ℕ → List Task → Type 0
Numbered n [] = Unit {0}
Numbered n (t ∷ ts) = (t.order ≡ n) × Numbered (suc n) ts

-- Each new task is one of the given values, in their order, as it is read, with its order set.
abbrev pub AreRead : (base index : ℕ) → List Value → List Task → Type 0
AreRead base index [] [] = Unit {0}
AreRead base index (v ∷ vs) (t ∷ ts) =
    ((u : Task) × (parse_created_task v (item "tasks" index) ≡ ok u)
      × (t ≡ record u { order = base + index }))
    × AreRead base (suc index) vs ts
AreRead base index _ _ = ⊥

-- A current plan keeps its mode, and a new plan takes its place only if all its tasks are terminal.
abbrev pub MayReplace : Option TaskPlan → TaskPlanMode → Bool → Type 0
MayReplace none mode start = Unit {0}
MayReplace (some p) mode false = mode ≡ p.mode
MayReplace (some p) mode true = (mode ≡ p.mode) × All (λ t. is_terminal t.status ≡ true) p.tasks

-- The plan with the additions.
pub record Extends (current : Option TaskPlan) (mode : TaskPlanMode) (start : Bool)
    (additions : List Task) (r : ReductionResult) : Type 0 where
  pub follows : Follows (plan_revision current) r
  pub same_mode : r.plan.mode ≡ mode
  pub appended : r.plan.tasks ≡ existing_tasks current start ++ additions
  pub reports : r.changes ≡ map created additions
  pub numbered : Numbered (next_order (existing_tasks current start)) additions

abbrev pub CreateOutcome :
    Option TaskPlan → TaskPlanMode → Bool → List Task → ReductionResult → Type 0
CreateOutcome current mode start additions r =
    ((p : TaskPlan) × (current ≡ some p) × (additions ≡ []) × (r ≡ unchanged p))
    ⊎ Extends current mode start additions r

-- The next order is above every order in use.
pub next_order_above : (ts : List Task) → All (λ t. t.order < next_order ts) ts
unfolding next_order
next_order_above [] = tt
next_order_above (t ∷ ts) = (
  omega arith,
  All-map (λ u. u.order < next_order ts) (λ u. u.order < max (t.order + 1) (next_order ts)) ts
      (λ u below. omega arith) (next_order_above ts),
)

ok_eq : {a b : List Task} → ◌≡◌ {A = Command (List Task)} (ok a) (ok b) → a ≡ b
ok_eq e = cc

add_tasks-Numbered :
    (ids : List String) (base index : ℕ) (vs : List Value) {out : List Task}
    → add_tasks ids base index vs ≡ ok out
    → Numbered (base + index) out
unfolding add_tasks
add_tasks-Numbered ids base index [] {out} h = subst (Numbered (base + index)) (ok_eq h) tt
add_tasks-Numbered ids base index (v ∷ vs) {out} h =
    let (t, parsed, h1) = >>=-eq-ok (parse_created_task v (item "tasks" index)) _ h in
    let (fresh, h2) = require-eq-ok (not (elem t.id ids)) (duplicate_created t.id) _ h1 in
    let (rest, more, h3) = >>=-eq-ok (add_tasks (t.id ∷ ids) base (suc index) vs) _ h2 in
    let below = add_tasks-Numbered (t.id ∷ ids) base (suc index) vs more in
    subst (Numbered (base + index)) (ok_eq h3)
      (refl, subst (λ n. Numbered n rest) (omega arith) below)

add_tasks-IsNamed :
    (ids : List String) (base index : ℕ) (vs : List Value) {out : List Task}
    → add_tasks ids base index vs ≡ ok out
    → All IsNamed out
unfolding add_tasks
add_tasks-IsNamed ids base index [] h = subst (All IsNamed) (ok_eq h) tt
add_tasks-IsNamed ids base index (v ∷ vs) h =
    let (t, parsed, h1) = >>=-eq-ok (parse_created_task v (item "tasks" index)) _ h in
    let (fresh, h2) = require-eq-ok (not (elem t.id ids)) (duplicate_created t.id) _ h1 in
    let (rest, more, h3) = >>=-eq-ok (add_tasks (t.id ∷ ids) base (suc index) vs) _ h2 in
    let named = parse_created_task-IsNamed v (item "tasks" index) parsed in
    subst (All IsNamed) (ok_eq h3) (
      record {
        id_text = named.id_text;
        content_text = named.content_text;
        dependency_texts = named.dependency_texts;
      },
      add_tasks-IsNamed (t.id ∷ ids) base (suc index) vs more,
    )

add_tasks-AreRead :
    (ids : List String) (base index : ℕ) (vs : List Value) {out : List Task}
    → add_tasks ids base index vs ≡ ok out
    → AreRead base index vs out
unfolding add_tasks
add_tasks-AreRead ids base index [] h = subst (AreRead base index []) (ok_eq h) tt
add_tasks-AreRead ids base index (v ∷ vs) h =
    let (t, parsed, h1) = >>=-eq-ok (parse_created_task v (item "tasks" index)) _ h in
    let (fresh, h2) = require-eq-ok (not (elem t.id ids)) (duplicate_created t.id) _ h1 in
    let (rest, more, h3) = >>=-eq-ok (add_tasks (t.id ∷ ids) base (suc index) vs) _ h2 in
    subst (AreRead base index (v ∷ vs)) (ok_eq h3)
      ((t, parsed, refl), add_tasks-AreRead (t.id ∷ ids) base (suc index) vs more)

check_current-MayReplace :
    (current : Option TaskPlan) (mode : TaskPlanMode) (start : Bool) (raw : List Value)
    → check_current current mode start raw ≡ ok tt
    → MayReplace current mode start
unfolding check_current
check_current-MayReplace none mode start raw h = tt
check_current-MayReplace (some p) mode false raw h = ground (arith, h)
check_current-MayReplace (some p) mode true raw h =
    let (same, h1) = require-eq-ok (mode == p.mode) (mode_switch p.mode mode) _ h in
    let (over, h2) =
      require-eq-ok (all (λ t. is_terminal t.status) p.tasks) unfinished_tasks _ h1 in
    ((mode_eq.equal_iff mode p.mode).0 same, (all_iff (λ t. is_terminal t.status) p.tasks).0 over)

abbrev extended : Option TaskPlan → TaskPlanMode → Bool → List Task → TaskPlan
extended current mode start additions = record {
  mode = mode;
  revision = plan_revision current + 1;
  tasks = existing_tasks current start ++ additions;
}

extended-Extends :
    (current : Option TaskPlan) (mode : TaskPlanMode) (start : Bool) (additions : List Task)
    {r : ReductionResult}
    → map created additions ≢ []
    → Numbered (next_order (existing_tasks current start)) additions
    → (validate_candidate (extended current mode start additions)
        >> ok (record {
          plan = extended current mode start additions;
          changes = map created additions;
          changed = true;
        }))
      ≡ ok r
    → Extends current mode start additions r
extended-Extends current mode start additions some_new n h =
    let (valid, same) =
      changed-inv (extended current mode start additions) (map created additions) h in
    subst (Extends current mode start additions) same (record {
      follows = record { changed = refl; next_revision = refl; reported = some_new; valid = valid };
      same_mode = refl;
      appended = refl;
      reports = refl;
      numbered = n;
    })

-- A first plan has a task.
abbrev FirstHasTask : Option TaskPlan → List Task → Type 0
FirstHasTask none ts = map created ts ≢ []
FirstHasTask (some p) ts = Unit {0}

first_has_task :
    (current : Option TaskPlan) (mode : TaskPlanMode) (start : Bool) (ids : List String) (base : ℕ)
    (raw : List Value) {out : List Task}
    → check_current current mode start raw ≡ ok tt
    → add_tasks ids base 0 raw ≡ ok out
    → FirstHasTask current out
unfolding check_current add_tasks
first_has_task (some p) mode start ids base raw h a = tt
first_has_task none mode start ids base [] h a = cc
first_has_task none mode start ids base (v ∷ vs) h a =
    let (t, parsed, h1) = >>=-eq-ok (parse_created_task v (item "tasks" 0)) _ a in
    let (fresh, h2) = require-eq-ok (not (elem t.id ids)) (duplicate_created t.id) _ h1 in
    let (rest, more, h3) = >>=-eq-ok (add_tasks (t.id ∷ ids) base 1 vs) _ h2 in
    subst (λ ts. map created ts ≢ []) (ok_eq h3) (λ e. cc)

build_plan-CreateOutcome :
    (current : Option TaskPlan) (mode : TaskPlanMode) (start : Bool) (additions : List Task)
    {r : ReductionResult}
    → FirstHasTask current additions
    → Numbered (next_order (existing_tasks current start)) additions
    → build_plan current mode (existing_tasks current start) additions ≡ ok r
    → CreateOutcome current mode start additions r
unfolding build_plan
build_plan-CreateOutcome (some p) mode start [] f n h = inl (p, refl, refl, cc)
build_plan-CreateOutcome (some p) mode start (t ∷ ts) f n h =
    inr (extended-Extends (some p) mode start (t ∷ ts) (λ e. cc) n h)
build_plan-CreateOutcome none mode start ts f n h = inr (extended-Extends none mode start ts f n h)

-- `create_tasks`, where it returns: the caller named the revision of the current plan, or 0; a
-- current plan keeps its mode, and is replaced by a new one only if all its tasks are terminal; the
-- result is the current plan as it was, or a valid plan of the next revision, whose tasks are
-- those kept, in their order and as they were, and then the new ones, which are the changes
-- reported; there is one new task for each of the given values, in their order, which is the task that
-- the value is read as, but for its order; the ids, contents and dependencies of the new tasks are not
-- blank; and their orders go up by one from the first order above those in use.
pub create_tasks_result :
    (current : Option TaskPlan) (expected_revision mode tasks : Value) (start : Bool)
    (r : ReductionResult)
    → create_tasks current expected_revision mode tasks start ≡ ok r
    → (expected_revision ≡ int (pos (plan_revision current)))
      × (m : TaskPlanMode) × (parse_mode mode ≡ ok m)
      × MayReplace current m start
      × (raw : List Value) × (require_list tasks (root "tasks") ≡ ok raw)
      × (additions : List Task) × AreRead
          (next_order (existing_tasks current start))
          0
          raw
          additions
      × All IsNamed additions
      × CreateOutcome current m start additions r
      × All
          (λ t. t.order < next_order (existing_tasks current start))
          (existing_tasks current start)
unfolding create_tasks
create_tasks_result current expected_revision mode tasks start r h =
    let (u, named, h1) =
      >>=-eq-ok (lift (require_revision expected_revision (plan_revision current))) _ h in
    let (m, parsed, h2) = >>=-eq-ok (lift (parse_mode mode)) _ h1 in
    let (raw, listed, h3) = >>=-eq-ok (lift (require_list tasks (root "tasks"))) _ h2 in
    let (u', allowed, h4) = >>=-eq-ok (lift (check_current current m start raw)) _ h3 in
    let existing = existing_tasks current start in
    let (additions, added, h5) =
      >>=-eq-ok (lift (add_tasks (map task_id existing) (next_order existing) 0 raw)) _ h4 in
    (
      require_revision_lem expected_revision (plan_revision current) (lift-eq-ok _ named),
      m,
      lift-eq-ok _ parsed,
      check_current-MayReplace current m start raw (lift-eq-ok _ allowed),
      raw,
      lift-eq-ok _ listed,
      additions,
      add_tasks-AreRead (map task_id existing) (next_order existing) 0 raw (lift-eq-ok _ added),
      add_tasks-IsNamed (map task_id existing) (next_order existing) 0 raw (lift-eq-ok _ added),
      build_plan-CreateOutcome current m start additions
          (first_has_task current m start (map task_id existing) (next_order existing) raw
            (lift-eq-ok _ allowed) (lift-eq-ok _ added))
          (subst (λ n. Numbered n additions) (omega arith)
            (add_tasks-Numbered (map task_id existing) (next_order existing) 0 raw
              (lift-eq-ok _ added)))
          h5,
      next_order_above existing,
    )
