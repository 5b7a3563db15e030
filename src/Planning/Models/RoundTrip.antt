-- ===== src/Planning/Models/RoundTrip.antt =====
-- planning/models.py: `from_dict` undoes `to_dict` on the plans that it can return, and on no other.
use bauhinia_agent.Planning.Models.{
  null, parse_tasks, require_unique_task_ids, require_list, optional_text, require_entries,
  require_non_blank_string, status_text, mode_text, require_non_negative_int, of_items,
  require_string_list, str, TaskPlanMode, TaskStatus, items, Task, require_status, find,
  require_optional_string, TaskPlan, require_mode, Value, plan_from_dict, plan_to_dict,
  task_from_dict, task_to_dict, Parsed,
}
use bauhinia_agent.Common.{
  All-pure, ℕ, suc, ◌≡◌, ◌↔◌, refl, ap, false, not, String, Option, none, some, List, [], ◌∷◌, map,
  elem, string_eq, All, Unique, arith, Result, ok, >>=-eq-ok, require-eq-ok, is_blank,
}
use bauhinia_agent.Planning.Values.{
  object, get_or, Items, TaskStatus, pending, in_progress, completed, cancelled, TaskPlanMode,
  linear, dag, Task, TaskPlan, Value, str, int, list, find, items, of_items, status_text, mode_text,
}
use bauhinia_agent.Planning.Errors.{duplicate_task, PlanError, not_non_blank_list}
use mathlib.Core.Path.{subst}
use bauhinia_agent.Common.Int.{pos}
use bauhinia_agent.Planning.Models
use bauhinia_agent.Planning.Validation.Checks.{not_seen}
use bauhinia_agent.Planning.Projection.Sort.{ids}

abbrev pub NotBlank : String → Type 0
NotBlank s = is_blank s ≡ false

-- The texts of a task that must not be blank.
pub record IsNamed (t : Task) : Type 0 where
  pub id_text : NotBlank t.id
  pub content_text : NotBlank t.content
  pub dependency_texts : All NotBlank t.depends_on

pub record IsWellFormed (plan : TaskPlan) : Type 0 where
  pub named : All IsNamed plan.tasks
  pub distinct : Unique (ids plan.tasks)

items-of_items : (vs : List Value) → items (of_items vs) ≡ vs
items-of_items [] = refl
items-of_items (v ∷ vs) = ap (λ us. v ∷ us) (items-of_items vs)

ok_eq {ℓ} : {A : Type ℓ} {a b : A} → ◌≡◌ {A = Result PlanError A} (ok a) (ok b) → a ≡ b
ok_eq h = cc

module _ (label : String) where
  non_blank_ok : (s : String) → NotBlank s → require_non_blank_string (str s) label ≡ ok s
  unfolding require_non_blank_string
  non_blank_ok s h = rw h refl

  non_blank_inv : (v : Value) {s : String} → require_non_blank_string v label ≡ ok s → NotBlank s
  unfolding require_non_blank_string
  non_blank_inv v h = ground arith

  entries_ok : (ss : List String) → All NotBlank ss → require_entries (map str ss) label ≡ ok ss
  unfolding require_entries
  entries_ok [] h = refl
  entries_ok (s ∷ ss) h = rw (h.0, entries_ok ss h.1) refl

  entries_inv :
      (vs : List Value) {ss : List String} → require_entries vs label ≡ ok ss → All NotBlank ss
  unfolding require_entries
  entries_inv [] {ss} h = subst (All NotBlank) (ok_eq h) tt
  entries_inv (str s ∷ vs) {ss} h =
      let (full, h1) = require-eq-ok (not (is_blank s)) (not_non_blank_list label) _ h in
      let (rest, more, h2) = >>=-eq-ok (require_entries vs label) _ h1 in
      subst (All NotBlank) (ok_eq h2) (ground arith, entries_inv vs more)
  entries_inv (_ ∷ vs) {ss} h = ground arith

  optional_ok : (o : Option String) → require_optional_string (optional_text o) label ≡ ok o
  unfolding require_optional_string
  optional_ok none = refl
  optional_ok (some s) = refl

status_ok : (s : TaskStatus) → require_status (str (status_text s)) ≡ ok s
unfolding require_status
status_ok pending = refl
status_ok in_progress = refl
status_ok completed = refl
status_ok cancelled = refl

mode_ok : (m : TaskPlanMode) → require_mode (str (mode_text m)) ≡ ok m
unfolding require_mode
mode_ok linear = refl
mode_ok dag = refl

task_round_trip : (t : Task) → IsNamed t → task_from_dict (task_to_dict t) ≡ ok t
unfolding task_from_dict task_to_dict find require_string_list require_non_negative_int
task_round_trip t h =
    rw
      (
        non_blank_ok "id" t.id h.id_text,
        non_blank_ok "content" t.content h.content_text,
        status_ok t.status,
        items-of_items (map str t.depends_on),
        entries_ok "depends_on" t.depends_on h.dependency_texts,
        optional_ok "owner" t.owner,
      )
      refl

tasks_round_trip :
    (index : ℕ) (ts : List Task) → All IsNamed ts → parse_tasks index (map task_to_dict ts) ≡ ok ts
unfolding parse_tasks task_to_dict
tasks_round_trip index [] h = refl
tasks_round_trip index (t ∷ ts) h =
    rw (task_round_trip t h.0, tasks_round_trip (suc index) ts h.1) refl

task_ids_accepted :
    (seen : List String) (ts : List Task)
    → Unique (ids ts)
    → All (λ t. elem t.id seen ≡ false) ts
    → require_unique_task_ids seen ts ≡ ok tt
unfolding require_unique_task_ids
task_ids_accepted seen [] u h = refl
task_ids_accepted seen (t ∷ ts) u h =
    rw h.0 (task_ids_accepted (t.id ∷ seen) ts u.1 (apart ts u.0 h.1))
  where
    apart :
        (us : List Task)
        → elem t.id (ids us) ≡ false
        → All (λ u. elem u.id seen ≡ false) us
        → All (λ u. elem u.id (t.id ∷ seen) ≡ false) us
    apart [] n k = tt
    apart (u ∷ us) n k = (
      ground (arith, string_eq.equal_iff t.id u.id, string_eq.equal_iff u.id t.id),
      apart us (ground arith) k.1,
    )

task_ids_checked :
    (seen : List String) (ts : List Task)
    → require_unique_task_ids seen ts ≡ ok tt
    → Unique (ids ts) × All (λ x. elem x seen ≡ false) (ids ts)
unfolding require_unique_task_ids
task_ids_checked seen [] h = (tt, tt)
task_ids_checked seen (t ∷ ts) h =
    let (fresh, h1) = require-eq-ok (not (elem t.id seen)) (duplicate_task t.id) _ h in
    let (distinct, apart) = task_ids_checked (t.id ∷ seen) ts h1 in
    let (old, new) = not_seen t.id seen (ids ts) apart in ((new, distinct), (ground arith, old))

-- `TaskPlan.from_dict` undoes `TaskPlan.to_dict` on a plan with unique ids and without blank texts.
pub plan_round_trip : (p : TaskPlan) → IsWellFormed p → plan_from_dict (plan_to_dict p) ≡ ok p
unfolding plan_from_dict plan_to_dict find require_non_negative_int require_list
plan_round_trip p h =
    rw
      (
        mode_ok p.mode,
        items-of_items (map task_to_dict p.tasks),
        tasks_round_trip 0 p.tasks h.named,
        task_ids_accepted [] p.tasks h.distinct
            (All-pure (λ t. elem t.id [] ≡ false) p.tasks (λ t. refl)),
      )
      refl

string_list_inv :
    (v : Value) {ss : List String} → require_string_list v "depends_on" ≡ ok ss → All NotBlank ss
unfolding require_string_list
string_list_inv (list vs) k = entries_inv "depends_on" (items vs) k
string_list_inv _ k = cc

pub task_from_dict-IsNamed : (v : Value) {t : Task} → task_from_dict v ≡ ok t → IsNamed t
unfolding task_from_dict
task_from_dict-IsNamed (object payload) {t} h =
    let (a, id_text, h1) =
      >>=-eq-ok (require_non_blank_string (get_or null "id" payload) "id") _ h in
    let (b, content_text, h2) =
      >>=-eq-ok (require_non_blank_string (get_or null "content" payload) "content") _ h1 in
    let (c, status, h3) =
      >>=-eq-ok (require_status (get_or (str "pending") "status" payload)) _ h2 in
    let (d, listed, h4) =
      >>=-eq-ok (require_string_list (get_or (list Items.nil) "depends_on" payload) "depends_on") _
        h3 in
    let (e, owner, h5) =
      >>=-eq-ok (require_optional_string (get_or null "owner" payload) "owner") _ h4 in
    let (f, order, h6) =
      >>=-eq-ok (require_non_negative_int (get_or (int (pos 0)) "order" payload) "order") _ h5 in
    subst IsNamed (ok_eq h6) (record {
      id_text = non_blank_inv "id" (get_or null "id" payload) id_text;
      content_text = non_blank_inv "content" (get_or null "content" payload) content_text;
      dependency_texts = string_list_inv (get_or (list Items.nil) "depends_on" payload) listed;
    })
task_from_dict-IsNamed _ h = cc

parse_tasks-IsNamed :
    (index : ℕ) (vs : List Value) {ts : List Task} → parse_tasks index vs ≡ ok ts → All IsNamed ts
unfolding parse_tasks
parse_tasks-IsNamed index [] h = subst (All IsNamed) (ok_eq h) tt
parse_tasks-IsNamed index (object payload ∷ vs) h =
    let (t, first, h1) = >>=-eq-ok (task_from_dict (object payload)) _ h in
    let (rest, more, h2) = >>=-eq-ok (parse_tasks (suc index) vs) _ h1 in
    subst (All IsNamed) (ok_eq h2)
      (task_from_dict-IsNamed (object payload) first, parse_tasks-IsNamed (suc index) vs more)
parse_tasks-IsNamed index (_ ∷ vs) h = cc

-- Whatever object `TaskPlan.from_dict` is given, a plan that it returns has unique ids and no blank
-- texts.
pub plan_from_dict-IsWellFormed :
    (v : Value) {p : TaskPlan} → plan_from_dict v ≡ ok p → IsWellFormed p
unfolding plan_from_dict
plan_from_dict-IsWellFormed (object payload) h =
    let (mode, m, h1) = >>=-eq-ok (require_mode (get_or null "mode" payload)) _ h in
    let (number, n, h2) =
      >>=-eq-ok (require_non_negative_int (get_or null "revision" payload) "revision") _ h1 in
    let (raw, l, h3) = >>=-eq-ok (Models.require_list (get_or null "tasks" payload)) _ h2 in
    let (tasks, parsed, h4) = >>=-eq-ok (parse_tasks 0 raw) _ h3 in
    let (u, once, h5) = >>=-eq-ok (require_unique_task_ids [] tasks) _ h4 in
    subst IsWellFormed (ok_eq h5) (record {
      named = parse_tasks-IsNamed 0 raw parsed;
      distinct = (task_ids_checked [] tasks once).0;
    })
plan_from_dict-IsWellFormed _ h = cc

-- A plan goes through `to_dict` and `from_dict` unchanged if and only if its ids are unique and
-- its ids, contents and dependencies are not blank.
pub plan_round_trip_iff : (p : TaskPlan) → (plan_from_dict (plan_to_dict p) ≡ ok p) ↔ IsWellFormed p
plan_round_trip_iff p = (plan_from_dict-IsWellFormed (plan_to_dict p), plan_round_trip p)

-- What `TaskPlan.from_dict` reads from any object, `to_dict` writes in a form that it reads as the
-- same plan.
pub plan_from_dict_canonical :
    (v : Value) (p : TaskPlan) → plan_from_dict v ≡ ok p → plan_from_dict (plan_to_dict p) ≡ ok p
plan_from_dict_canonical v p h = plan_round_trip p (plan_from_dict-IsWellFormed v h)
