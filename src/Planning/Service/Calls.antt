-- ===== src/Planning/Service/Calls.antt =====
-- The calls of the plan service, and what each makes of the log.
use mathlib.Core.Path.{subst}
use bauhinia_agent.Common.{
  ℕ, ◌≡◌, refl, sym, Bool, String, Option, none, some, ok, err, ◌>>=◌, ◌⊎◌, inl, inr,
}
use bauhinia_agent.Common.Int.{pos}
use bauhinia_agent.Planning.Values.{TaskPlan, Value, int}
use bauhinia_agent.Planning.Errors.{command_error, no_current_plan}
use bauhinia_agent.Planning.Projection.{Raises}
use bauhinia_agent.Planning.Reducer.{
  ReductionResult, plan_revision, create_tasks, update_tasks, revise_tasks, unchanged,
}
use bauhinia_agent.Planning.Reducer.Outcome.{Follows, Outcome}
use bauhinia_agent.Planning.Reducer.Create.{create_tasks_result}
use bauhinia_agent.Planning.Reducer.Update.{update_tasks_result}
use bauhinia_agent.Planning.Reducer.Revise.{revise_tasks_result}
use bauhinia_agent.Planning.Reducer.WellFormed.{
  CurrentIsWellFormed, create_tasks-IsWellFormed, update_tasks-IsWellFormed,
  revise_tasks-IsWellFormed,
}
use bauhinia_agent.Planning.Session.{Log, rebuild_plan}
use bauhinia_agent.Planning.Session.Replay.{IsGood, CurrentIsGood}
use bauhinia_agent.Planning.Models.RoundTrip.{IsWellFormed}
use bauhinia_agent.Planning.Service
use bauhinia_agent.Planning.Service.{
  TaskPlanMutation, on_current, Action, Observer, observe, create, update, revise,
  require_current_plan,
}

-- A call of the service, with the arguments of the tool that makes it.
pub data Call : Type 0 where
  create_plan : (mode expected_revision tasks : Value) (start_new_plan : Bool) → Call
  update_plan : (expected_revision updates : Value) → Call
  revise_plan : (expected_revision revisions : Value) → Call

abbrev pub run : Option Observer → Call → Action TaskPlanMutation
run observer (create_plan mode expected tasks start) = create observer mode expected tasks start
run observer (update_plan expected updates) = update observer expected updates
run observer (revise_plan expected revisions) = revise observer expected revisions

abbrev pub operation : Call → String
operation (create_plan _ _ _ _) = "create"
operation (update_plan _ _) = "update"
operation (revise_plan _ _) = "revise"

abbrev pub expected : Call → Value
expected (create_plan _ e _ _) = e
expected (update_plan e _) = e
expected (revise_plan e _) = e

-- The reducer that a call runs on the current plan.
abbrev pub reduce : Call → Option TaskPlan → Raises ReductionResult
reduce (create_plan mode e tasks start) current = create_tasks current e mode tasks start
reduce (update_plan e updates) (some p) = update_tasks p e updates
reduce (update_plan e updates) none = err (command_error (no_current_plan "update"))
reduce (revise_plan e revisions) (some p) = revise_tasks p e revisions
reduce (revise_plan e revisions) none = err (command_error (no_current_plan "revise"))

reduced :
    (observer : Option Observer) (name : String) (n : ℕ) (m : Raises ReductionResult) (log : Log)
    → ◌≡◌ {A = Raises TaskPlanMutation × Log}
        (elim (◌>>=◌ {B = ℕ × ReductionResult} m (λ r. ok (n, r))) [
          | ok (k, r) ↦ Service.finish observer name k r log
          | err e ↦ (err e, log)
        ])
        (elim m [ ok r ↦ Service.finish observer name n r log | err e ↦ (err e, log) ])
reduced observer name n (ok r) log = refl
reduced observer name n (err e) log = refl

-- A call reads the plan from the log, reduces its command, and finishes with the result.
pub run_lem :
    (observer : Option Observer) (call : Call) (log : Log) (current : Option TaskPlan)
    → rebuild_plan log ≡ ok current
    → run observer call log ≡ (elim (reduce call current) [
      | ok r ↦ Service.finish observer (operation call) (plan_revision current) r log
      | err e ↦ (err e, log)
    ])
unfolding create update revise require_current_plan
run_lem observer (create_plan mode e tasks start) log current h =
    rw (h, create)
      (reduced observer "create" (plan_revision current) (create_tasks current e mode tasks start)
        log)
run_lem observer (update_plan e updates) log none h =
    rw (h, update, on_current, require_current_plan) refl
run_lem observer (update_plan e updates) log (some p) h =
    rw (h, update, on_current, require_current_plan)
      (reduced observer "update" p.revision (update_tasks p e updates) log)
run_lem observer (revise_plan e revisions) log none h =
    rw (h, revise, on_current, require_current_plan) refl
run_lem observer (revise_plan e revisions) log (some p) h =
    rw (h, revise, on_current, require_current_plan)
      (reduced observer "revise" p.revision (revise_tasks p e revisions) log)

current-IsWellFormed :
    (current : Option TaskPlan) → CurrentIsGood current → CurrentIsWellFormed current
current-IsWellFormed none g = tt
current-IsWellFormed (some p) g = g.formed

-- What the reducers make of the current plan: the plan that it was, or a good plan of the next
-- revision.
pub record Reduced (current : Option TaskPlan) (r : ReductionResult) : Type 0 where
  pub good : IsGood r.plan
  pub outcome :
      ((p : TaskPlan) × (current ≡ some p) × (r ≡ unchanged p)) ⊎ Follows (plan_revision current) r

kept-IsGood : (p : TaskPlan) → IsGood p → IsGood (unchanged p).plan
unfolding unchanged
kept-IsGood p g = g

from_Outcome :
    (p : TaskPlan) (r : ReductionResult)
    → IsGood p
    → IsWellFormed r.plan
    → Outcome p r
    → Reduced (some p) r
unfolding unchanged
from_Outcome p r g w (inl kept) = record { good = rw kept g; outcome = inl (p, refl, kept) }
from_Outcome p r g w (inr grown) = record {
  good = record { formed = w; valid = grown.valid };
  outcome = inr grown;
}

pub reduce-Reduced :
    (call : Call) (current : Option TaskPlan) (r : ReductionResult)
    → CurrentIsGood current
    → reduce call current ≡ ok r
    → (expected call ≡ int (pos (plan_revision current))) × Reduced current r
reduce-Reduced (create_plan mode e tasks start) current r g h =
    let (named, m, parsed, may, raw, listed, additions, are_read, texts, outcome, below) =
      create_tasks_result current e mode tasks start r h in
    (
      named,
      elim outcome [
        | inl (p, same, none_new, kept) ↦ record {
          good =
              subst (λ (x : ReductionResult). IsGood x.plan) (sym kept)
                (kept-IsGood p (subst CurrentIsGood same g));
          outcome = inl (p, same, kept);
        }
        | inr grown ↦ record {
          good = record {
            formed =
                create_tasks-IsWellFormed current e mode tasks start r
                  (current-IsWellFormed current g) h;
            valid = grown.follows.valid;
          };
          outcome = inr grown.follows;
        }
      ],
    )
reduce-Reduced (update_plan e updates) (some p) r g h =
    let (named, outcome, mode, ps, parsed, tasks) =
      update_tasks_result p e updates r g.formed.distinct h in
    (named, from_Outcome p r g (update_tasks-IsWellFormed p e updates r g.formed h) outcome)
reduce-Reduced (update_plan e updates) none r g h = cc
reduce-Reduced (revise_plan e revisions) (some p) r g h =
    let (named, outcome, mode, rs, parsed, tasks) =
      revise_tasks_result p e revisions r g.formed.distinct h in
    (named, from_Outcome p r g (revise_tasks-IsWellFormed p e revisions r g.formed h) outcome)
reduce-Reduced (revise_plan e revisions) none r g h = cc
