-- ===== src/Planning/Reducer/WellFormed.antt =====
-- The plans of the reducers' results can be serialized and read back.
use mathlib.Core.Path.{subst}
use bauhinia_agent.Common.{
  ◌≡◌, sym, ap, Bool, true, false, String, Option, none, some, List, [], ◌∷◌, map, string_eq, All,
  All-append, All-filter, ok, >>=-eq-ok, inl, inr,
}
use bauhinia_agent.Planning.Values.{Task, TaskPlan, TaskPatch, TaskRevision, Value}
use bauhinia_agent.Planning.Errors.{root}
use bauhinia_agent.Planning.Models.RoundTrip.{NotBlank, IsNamed, IsWellFormed}
use bauhinia_agent.Planning.Commands.{
  parse_all, require_list, parse_task_patch, parse_task_revision,
}
use bauhinia_agent.Planning.Commands.Checked.{
  parse_all-All, parse_task_patch-NotBlank, parse_task_revision-NotBlank,
}
use bauhinia_agent.Planning.Reducer.{
  ReductionResult, existing_tasks, apply_patch, patch_dependencies, create_tasks, update_tasks,
  revise_tasks, unchanged,
}
use bauhinia_agent.Common.{Bool-cases, ◌==◌, Unique}
use bauhinia_agent.Planning.Projection.Sort.{ids}
use bauhinia_agent.Planning.Reducer.Outcome.{Outcome}
use bauhinia_agent.Planning.Reducer.Patches.{task_after, apply_patch-task_after}
use bauhinia_agent.Planning.Reducer.Create.{create_tasks_result}
use bauhinia_agent.Planning.Reducer.Update.{patched, patch_for, update_tasks_result}
use bauhinia_agent.Planning.Reducer.Revise.{revised_task, revision_for, revise_tasks_result}

-- The current plan, if there is one, can be serialized and read back.
abbrev pub CurrentIsWellFormed : Option TaskPlan → Type 0
CurrentIsWellFormed none = Unit {0}
CurrentIsWellFormed (some p) = IsWellFormed p

existing-IsNamed :
    (current : Option TaskPlan) (start : Bool)
    → CurrentIsWellFormed current
    → All IsNamed (existing_tasks current start)
existing-IsNamed none start w = tt
existing-IsNamed (some p) true w = tt
existing-IsNamed (some p) false w = w.named

pub create_tasks-IsWellFormed :
    (current : Option TaskPlan) (expected_revision mode tasks : Value) (start : Bool)
    (r : ReductionResult)
    → CurrentIsWellFormed current
    → create_tasks current expected_revision mode tasks start ≡ ok r
    → IsWellFormed r.plan
unfolding unchanged
create_tasks-IsWellFormed current expected_revision mode tasks start r w h =
    let (named, m, parsed, may, raw, listed, additions, are_read, texts, outcome, below) =
      create_tasks_result current expected_revision mode tasks start r h in
    elim outcome [
      | inl (p, same, none_new, kept) ↦
          subst (λ (q : TaskPlan). IsWellFormed q) (sym (ap (λ (x : ReductionResult). x.plan) kept))
            (subst CurrentIsWellFormed same w)
      | inr grown ↦ record {
        named = subst (All IsNamed) (sym grown.appended) (
            All-append IsNamed (existing_tasks current start) additions
              (existing-IsNamed current start w) texts);
        distinct = grown.follows.valid.unique;
      }
    ]

AddsText : TaskPatch → Type 0
AddsText p = All NotBlank p.add_depends_on

apply_patch-IsNamed :
    (p : TaskPatch) (t : Task) → AddsText p → IsNamed t → IsNamed (apply_patch p t).0
unfolding apply_patch patch_dependencies AddsText
apply_patch-IsNamed p t a n = record {
  id_text = n.id_text;
  content_text = n.content_text;
  dependency_texts =
      All-append NotBlank _ _ (All-filter NotBlank _ t.depends_on n.dependency_texts)
        (All-filter NotBlank _ p.add_depends_on a);
}

-- What holds of all the commands holds of the one that is found.
Found : {A : Type 0} → (A → Type 0) → Option A → Type 0
Found P none = Unit {0}
Found P (some a) = P a

patch_for-Found :
    (P : TaskPatch → Type 0) (x : String) (ps : List TaskPatch)
    → All P ps
    → Found P (patch_for x ps)
unfolding Found
patch_for-Found P x [] h = tt
patch_for-Found P x (p ∷ ps) h = elim (Bool-cases (p.id == x)) [
  | inl here ↦ rw here h.0
  | inr other ↦ rw other (patch_for-Found P x ps h.1)
]

patched-IsNamed :
    (ps : List TaskPatch) (t : Task) → All AddsText ps → IsNamed t → IsNamed (patched ps t)
unfolding Found
patched-IsNamed ps t a n = go (patch_for t.id ps) (patch_for-Found AddsText t.id ps a)
  where
    go :
        (o : Option TaskPatch)
        → Found AddsText o
        → IsNamed (elim o [ none ↦ t | some p ↦ task_after p t ])
    go none f = n
    go (some p) f = subst IsNamed (apply_patch-task_after p t) (apply_patch-IsNamed p t f n)

RevisesText : TaskRevision → Type 0
RevisesText r = NotBlank r.content

revision_for-Found :
    (P : TaskRevision → Type 0) (x : String) (rs : List TaskRevision)
    → All P rs
    → Found P (revision_for x rs)
unfolding Found
revision_for-Found P x [] h = tt
revision_for-Found P x (r ∷ rs) h = elim (Bool-cases (r.id == x)) [
  | inl here ↦ rw here h.0
  | inr other ↦ rw other (revision_for-Found P x rs h.1)
]

revised-IsNamed :
    (rs : List TaskRevision) (t : Task)
    → All RevisesText rs
    → IsNamed t
    → IsNamed (revised_task rs t)
unfolding Found RevisesText
revised-IsNamed rs t a n = go (revision_for t.id rs) (revision_for-Found RevisesText t.id rs a)
  where
    go :
        (o : Option TaskRevision)
        → Found RevisesText o
        → IsNamed (elim o [ none ↦ t | some r ↦ record t { content = r.content } ])
    go none f = n
    go (some r) f = record {
      id_text = n.id_text;
      content_text = f;
      dependency_texts = n.dependency_texts;
    }

All-of_map :
    (P : Task → Type 0) (f : Task → Task) (ts : List Task)
    → ((t : Task) → P t → P (f t))
    → All P ts
    → All P (map f ts)
All-of_map P f [] k h = tt
All-of_map P f (t ∷ ts) k h = (k t h.0, All-of_map P f ts k h.1)

Outcome-Unique :
    (plan : TaskPlan) (r : ReductionResult)
    → IsWellFormed plan
    → Outcome plan r
    → Unique (ids r.plan.tasks)
unfolding unchanged
Outcome-Unique plan r w (inl kept) = rw kept w.distinct
Outcome-Unique plan r w (inr grown) = grown.valid.unique

pub update_tasks-IsWellFormed :
    (plan : TaskPlan) (expected_revision updates : Value) (r : ReductionResult)
    → IsWellFormed plan
    → update_tasks plan expected_revision updates ≡ ok r
    → IsWellFormed r.plan
unfolding AddsText
update_tasks-IsWellFormed plan expected_revision updates r w h =
    let (named, outcome, mode, ps, parsed, tasks) =
      update_tasks_result plan expected_revision updates r w.distinct h in
    let (raw, listed, read) =
      >>=-eq-ok (require_list updates (root "updates")) (parse_all parse_task_patch "updates" 0)
        parsed in
    let checked =
      parse_all-All AddsText parse_task_patch (λ v label p e. parse_task_patch-NotBlank v label e)
        "updates" 0 raw read in
    record {
      named = subst (All IsNamed) (sym tasks) (
          All-of_map IsNamed (patched ps) plan.tasks (λ t n. patched-IsNamed ps t checked n)
            w.named);
      distinct = Outcome-Unique plan r w outcome;
    }

pub revise_tasks-IsWellFormed :
    (plan : TaskPlan) (expected_revision revisions : Value) (r : ReductionResult)
    → IsWellFormed plan
    → revise_tasks plan expected_revision revisions ≡ ok r
    → IsWellFormed r.plan
unfolding RevisesText
revise_tasks-IsWellFormed plan expected_revision revisions r w h =
    let (named, outcome, mode, rs, parsed, tasks) =
      revise_tasks_result plan expected_revision revisions r w.distinct h in
    let (raw, listed, read) =
      >>=-eq-ok (require_list revisions (root "revisions"))
        (parse_all parse_task_revision "revisions" 0) parsed in
    let checked =
      parse_all-All RevisesText parse_task_revision
        (λ v label q e. parse_task_revision-NotBlank v label e) "revisions" 0 raw read in
    record {
      named = subst (All IsNamed) (sym tasks) (
          All-of_map IsNamed (revised_task rs) plan.tasks (λ t n. revised-IsNamed rs t checked n)
            w.named);
      distinct = Outcome-Unique plan r w outcome;
    }
