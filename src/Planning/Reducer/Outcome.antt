-- ===== src/Planning/Reducer/Outcome.antt =====
-- The results of the commands: the plan as it was, or a valid plan of the next revision.
use bauhinia_agent.Common.Dict.{Dict, get}
use mathlib.Core.Path.{subst}
use bauhinia_agent.Common.{
  ℕ, ◌+◌, ◌≡◌, ◌≢◌, refl, sym, ap, true, List, [], ◌∷◌, map, arith, Result, ok, err, ◌>>◌,
  >>=-eq-ok, map_err, ◌⊎◌, inl, inr, string_eq,
}
use bauhinia_agent.Common.Int.{pos}
use bauhinia_agent.Planning.Values.{Task, TaskPlan, Value, int}
use bauhinia_agent.Planning.Errors.{CommandError}
use bauhinia_agent.Planning.Projection.{Raises}
use bauhinia_agent.Planning.Validation.{validate_plan}
use bauhinia_agent.Planning.Validation.Spec.{IsValid}
use bauhinia_agent.Planning.Validation.Sound.{validate_plan_sound}
use bauhinia_agent.Planning.Commands.{require_revision}
use bauhinia_agent.Planning.Reducer.{
  Change, ReductionResult, lift, as_command_error, validate_candidate, unchanged, replacement,
  changed_result, finish,
}

-- A plan that follows another: of the next revision, and valid.
pub record Follows (revision : ℕ) (r : ReductionResult) : Type 0 where
  pub changed : r.changed ≡ true
  pub next_revision : r.plan.revision ≡ revision + 1
  pub reported : r.changes ≢ []
  pub valid : IsValid r.plan

-- What a command makes of a plan.
abbrev pub Outcome : TaskPlan → ReductionResult → Type 0
Outcome plan r = (r ≡ unchanged plan) ⊎ Follows plan.revision r

pub lift-eq-ok : {A : Type 0} (m : Result CommandError A) {a : A} → lift m ≡ ok a → m ≡ ok a
lift-eq-ok (ok a) h = cc
lift-eq-ok (err e) h = cc

pub validate_candidate-IsValid : (plan : TaskPlan) → validate_candidate plan ≡ ok tt → IsValid plan
unfolding validate_candidate
validate_candidate-IsValid plan h = validate_plan_sound plan (passed (validate_plan plan) h)
  where
    passed : (m : Raises (Unit {0})) → map_err as_command_error m ≡ ok tt → m ≡ ok tt
    passed (ok u) h = refl
    passed (err e) h = cc

pub require_revision_lem :
    (expected : Value) (actual : ℕ)
    → require_revision expected actual ≡ ok tt
    → expected ≡ int (pos actual)
unfolding require_revision
require_revision_lem expected actual h = ground arith

abbrev candidate : TaskPlan → Dict Task → TaskPlan
candidate plan replacements = record plan {
  revision = plan.revision + 1;
  tasks = map (replacement replacements) plan.tasks;
}

abbrev changed_to : TaskPlan → List Change → ReductionResult
changed_to plan changes = record { plan = plan; changes = changes; changed = true }

-- A changed result is the candidate that passed the validation.
pub changed-inv :
    (candidate : TaskPlan) (changes : List Change) {r : ReductionResult}
    → (validate_candidate candidate >> ok (changed_to candidate changes)) ≡ ok r
    → IsValid candidate × (changed_to candidate changes ≡ r)
changed-inv candidate changes h =
    let (u, valid, same) = >>=-eq-ok (validate_candidate candidate) _ h in
    (validate_candidate-IsValid candidate valid, cc)

pub finish-Outcome :
    (plan : TaskPlan) (replacements : Dict Task) (changes : List Change) {r : ReductionResult}
    → finish plan replacements changes ≡ ok r
    → Outcome plan r
unfolding finish changed_result
finish-Outcome plan replacements [] h = inl cc
finish-Outcome plan replacements (c ∷ cs) h =
    let (valid, same) = changed-inv (candidate plan replacements) (c ∷ cs) h in
    inr (
      subst (λ r. Follows plan.revision r) same
        (record { changed = refl; next_revision = refl; reported = λ e. cc; valid = valid }))

unchanged_eq : {a b : ReductionResult} → ◌≡◌ {A = Raises ReductionResult} (ok a) (ok b) → a ≡ b
unchanged_eq h = cc

replacement_nil : (ts : List Task) → map (replacement []) ts ≡ ts
unfolding replacement get
replacement_nil [] = refl
replacement_nil (t ∷ ts) = ap (λ us. t ∷ us) (replacement_nil ts)

-- The tasks of the result, if no change means no replacement.
pub finish-tasks :
    (plan : TaskPlan) (replacements : Dict Task) (changes : List Change) {r : ReductionResult}
    → (changes ≡ [] → replacements ≡ [])
    → finish plan replacements changes ≡ ok r
    → (r.plan.tasks ≡ map (replacement replacements) plan.tasks) × (r.plan.mode ≡ plan.mode)
unfolding finish changed_result unchanged
finish-tasks plan replacements [] e h =
    subst
      (λ (r : ReductionResult).
        (r.plan.tasks ≡ map (replacement replacements) plan.tasks) × (r.plan.mode ≡ plan.mode))
      (unchanged_eq h) (rw (e refl) (sym (replacement_nil plan.tasks), refl))
finish-tasks plan replacements (c ∷ cs) e h =
    subst
      (λ (r : ReductionResult).
        (r.plan.tasks ≡ map (replacement replacements) plan.tasks) × (r.plan.mode ≡ plan.mode))
      (changed-inv (candidate plan replacements) (c ∷ cs) h).1 (refl, refl)
